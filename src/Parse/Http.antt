-- ===== src/Parse/Http.antt =====
-- include/xtd/grammars/RFC7230.hpp: the messages of HTTP. Each rule stands under the
-- name that it has there, a character as its code.
pub mod Characters
pub mod Words
pub mod Message
use xtl.Parse.{Rule, declared, and_, or_, one_or_more_, zero_or_more_, zero_or_one_, nil, ◌▸◌}
use xtl.Parse.Abnf.{crlf, digit, hexdig}
use xtl.Parse.Http.Characters.{
  colon, comma, digits_0, digits_1, equal, forward_slash, period, q, semi_colon,
}
use xtl.Parse.Http.Message.{
  any_octet, field_name, header_field, ows, quoted_string, token, transfer_coding, up_to_3_digit,
}
use xtl.Parse.Http.Words.{trailers}
use xtl.Parse.Uri.{host, port}

abbrev up_to_3zero : Rule
up_to_3zero =
    zero_or_one_
      (and_ (digits_0 ▸ (zero_or_one_ (and_ (digits_0 ▸ (zero_or_one_ digits_0) ▸ nil))) ▸ nil))

abbrev rank : Rule
rank = declared "rank" (
    or_ (
      (and_ (digits_0 ▸ (zero_or_one_ (and_ (period ▸ up_to_3_digit ▸ nil))) ▸ nil))
      ▸ (and_ (digits_1 ▸ (zero_or_one_ (and_ (period ▸ up_to_3zero ▸ nil))) ▸ nil))
      ▸ nil))

abbrev t_ranking : Rule
t_ranking = declared "t_ranking" (and_ (ows ▸ semi_colon ▸ ows ▸ q ▸ equal ▸ rank ▸ nil))

abbrev t_codings : Rule
t_codings =
    declared "t_codings"
      (or_ (trailers ▸ (and_ (transfer_coding ▸ (zero_or_one_ t_ranking) ▸ nil)) ▸ nil))

abbrev chunk_size : Rule
chunk_size = declared "chunk_size" (one_or_more_ hexdig)

abbrev chunk_ext_name : Rule
chunk_ext_name = declared "chunk_ext_name" token

abbrev chunk_ext_val : Rule
chunk_ext_val = declared "chunk_ext_val" (or_ (token ▸ quoted_string ▸ nil))

abbrev chunk_ext : Rule
chunk_ext = declared "chunk_ext" (
    zero_or_more_ (
      and_
        (semi_colon ▸ chunk_ext_name ▸ (zero_or_one_ (and_ (equal ▸ chunk_ext_val ▸ nil))) ▸ nil)))

abbrev chunk_data : Rule
chunk_data = declared "chunk_data" (one_or_more_ any_octet)

abbrev chunk : Rule
chunk =
    declared "chunk" (and_ (chunk_size ▸ (zero_or_one_ chunk_ext) ▸ crlf ▸ chunk_data ▸ crlf ▸ nil))

abbrev last_chunk : Rule
last_chunk =
    declared "last_chunk" (and_ ((one_or_more_ digits_0) ▸ (zero_or_one_ chunk_ext) ▸ crlf ▸ nil))

abbrev trailer_part : Rule
trailer_part = declared "trailer_part" (zero_or_more_ (and_ (header_field ▸ crlf ▸ nil)))

abbrev chunked_body : Rule
chunked_body =
    declared "chunked_body" (and_ ((zero_or_more_ chunk) ▸ last_chunk ▸ trailer_part ▸ crlf ▸ nil))

abbrev host_header : Rule
host_header = declared "Host" (and_ (host ▸ (zero_or_one_ (and_ (colon ▸ port ▸ nil))) ▸ nil))

abbrev connection_option : Rule
connection_option = declared "connection_option" token

abbrev connection : Rule
connection = declared "Connection" (
    and_ (
      (zero_or_more_ (and_ (comma ▸ ows ▸ nil)))
      ▸ connection_option
      ▸ (zero_or_more_
          (and_ (ows ▸ comma ▸ (zero_or_one_ (and_ (ows ▸ connection_option ▸ nil))) ▸ nil)))
      ▸ nil))

abbrev content_length : Rule
content_length = declared "Content_Length" (one_or_more_ digit)

abbrev te : Rule
te = declared "TE" (
    zero_or_one_ (
      and_ (
        (or_ (comma ▸ t_codings ▸ nil))
        ▸ (zero_or_more_ (and_ (ows ▸ comma ▸ (zero_or_one_ (and_ (ows ▸ t_codings ▸ nil))) ▸ nil)))
        ▸ nil)))

abbrev trailer : Rule
trailer = declared "Trailer" (
    and_ (
      (zero_or_more_ (and_ (comma ▸ ows ▸ nil)))
      ▸ field_name
      ▸ (zero_or_more_ (and_ (ows ▸ comma ▸ (zero_or_one_ (and_ (ows ▸ field_name ▸ nil))) ▸ nil)))
      ▸ nil))

abbrev transfer_encoding : Rule
transfer_encoding = declared "Transfer_Encoding" (
    and_ (
      (zero_or_more_ (and_ (comma ▸ ows ▸ nil)))
      ▸ transfer_coding
      ▸ (zero_or_more_
          (and_ (ows ▸ comma ▸ (zero_or_one_ (and_ (ows ▸ transfer_coding ▸ nil))) ▸ nil)))
      ▸ nil))

abbrev protocol_name : Rule
protocol_name = declared "protocol_name" token

abbrev protocol_version : Rule
protocol_version = declared "protocol_version" token

abbrev protocol : Rule
protocol =
    declared "protocol"
      (and_ (protocol_name ▸ (zero_or_one_ (and_ (forward_slash ▸ protocol_version ▸ nil))) ▸ nil))

abbrev upgrade : Rule
upgrade = declared "Upgrade" (
    and_ (
      (zero_or_more_ (and_ (comma ▸ ows ▸ nil)))
      ▸ protocol
      ▸ (zero_or_more_ (and_ (ows ▸ comma ▸ (zero_or_one_ (and_ (ows ▸ protocol ▸ nil))) ▸ nil)))
      ▸ nil))

abbrev pseudonym : Rule
pseudonym = declared "pseudonym" token

abbrev received_protocol : Rule
received_protocol =
    declared "received_protocol"
      (and_ ((zero_or_one_ (and_ (protocol_name ▸ forward_slash ▸ nil))) ▸ protocol_version ▸ nil))

abbrev received_by : Rule
received_by =
    declared "received_by"
      (or_ ((and_ (host ▸ (zero_or_one_ (and_ (colon ▸ port ▸ nil))) ▸ nil)) ▸ pseudonym ▸ nil))
