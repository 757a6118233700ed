-- ===== src/Parse/Http/Words.antt =====
-- include/xtd/grammars/RFC7230.hpp: the messages of HTTP: its words. Each rule stands under the
-- name that it has there, a character as its code.
use xtl.Prelude.{codes}
use xtl.Parse.{Rule, string}

abbrev pub chunked : Rule
chunked = string (codes "chunked")

abbrev pub compress : Rule
compress = string (codes "compress")

abbrev pub deflate : Rule
deflate = string (codes "deflate")

abbrev pub gzip : Rule
gzip = string (codes "gzip")

abbrev pub http_name : Rule
http_name = string (codes "HTTP")

abbrev pub http_uri_prefix : Rule
http_uri_prefix = string (codes "http://")

abbrev pub https_uri_prefix : Rule
https_uri_prefix = string (codes "https://")

abbrev pub trailers : Rule
trailers = string (codes "trailers")
