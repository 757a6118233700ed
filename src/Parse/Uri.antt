-- ===== src/Parse/Uri.antt =====
-- include/xtd/grammars/RFC3986.hpp: the grammar of uniform resource identifiers, each rule under the
-- name it has there.
pub mod Terminals
pub mod Address
use xtl.Parse.{
  Rule, declared, plain, and_, or_, one_or_more_, zero_or_more_, zero_or_one_, nil, ◌▸◌,
}
use xtl.Parse.Uri.Terminals.{
  digit, colon, forward_slash, question, hash, open_bracket, close_bracket, at, plus, hyphen,
  period, double_forward_slash, alpha, alpha_numeric, sub_delims, unreserved,
}
use xtl.Parse.Uri.Address.{pct_encoded, ipv4_address, ipv6_address, ipv_future}

abbrev pub scheme : Rule
scheme =
    declared "scheme"
      (and_ (alpha ▸ (zero_or_more_ (or_ (alpha_numeric ▸ plus ▸ hyphen ▸ period ▸ nil))) ▸ nil))

abbrev pub userinfo : Rule
userinfo =
    declared "userinfo" (zero_or_more_ (or_ (unreserved ▸ pct_encoded ▸ sub_delims ▸ colon ▸ nil)))

abbrev pub port : Rule
port = declared "port" (zero_or_more_ digit)

abbrev pub ip_literal : Rule
ip_literal =
    declared "IP_literal"
      (and_ (open_bracket ▸ (or_ (ipv6_address ▸ ipv_future ▸ nil)) ▸ close_bracket ▸ nil))

abbrev pub reg_name : Rule
reg_name = declared "reg_name" (zero_or_more_ (or_ (unreserved ▸ pct_encoded ▸ sub_delims ▸ nil)))

abbrev pub host : Rule
host = declared "host" (or_ (ip_literal ▸ ipv4_address ▸ reg_name ▸ nil))

abbrev pub authority : Rule
authority = declared "authority" (
    and_ (
      (zero_or_one_ (and_ (userinfo ▸ at ▸ nil)))
      ▸ host
      ▸ (zero_or_one_ (and_ (colon ▸ port ▸ nil)))
      ▸ nil))

abbrev pub pchar : Rule
pchar = declared "pchar" (or_ (unreserved ▸ pct_encoded ▸ sub_delims ▸ colon ▸ at ▸ nil))

abbrev pub segment : Rule
segment = declared "segment" (zero_or_more_ pchar)

abbrev pub segment_nz : Rule
segment_nz = declared "segment_nz" (one_or_more_ pchar)

abbrev pub segment_nz_nc : Rule
segment_nz_nc =
    declared "segment_nz_nc" (one_or_more_ (or_ (unreserved ▸ pct_encoded ▸ sub_delims ▸ at ▸ nil)))

abbrev pub path_empty : Rule
path_empty = plain "path_empty"

abbrev pub path_abempty : Rule
path_abempty = declared "path_abempty" (zero_or_more_ (and_ (forward_slash ▸ segment ▸ nil)))

abbrev pub path_absolute : Rule
path_absolute = declared "path_absolute" (
    and_ (
      forward_slash
      ▸ (zero_or_one_
          (and_ (segment_nz ▸ (zero_or_more_ (and_ (forward_slash ▸ segment ▸ nil))) ▸ nil)))
      ▸ nil))

abbrev pub path_noscheme : Rule
path_noscheme =
    declared "path_noscheme"
      (and_ (segment_nz_nc ▸ (zero_or_more_ (and_ (forward_slash ▸ segment ▸ nil))) ▸ nil))

abbrev pub path_rootless : Rule
path_rootless =
    declared "path_rootless"
      (and_ (segment_nz ▸ (zero_or_more_ (and_ (forward_slash ▸ segment ▸ nil))) ▸ nil))

abbrev pub path : Rule
path =
    declared "path"
      (or_ (path_abempty ▸ path_absolute ▸ path_noscheme ▸ path_rootless ▸ path_empty ▸ nil))

abbrev pub query : Rule
query = declared "query" (zero_or_more_ (or_ (pchar ▸ forward_slash ▸ question ▸ nil)))

abbrev pub fragment : Rule
fragment = declared "fragment" (zero_or_more_ (or_ (pchar ▸ forward_slash ▸ question ▸ nil)))

abbrev pub hier_part : Rule
hier_part = declared "hier_part" (
    or_ (
      (and_ (double_forward_slash ▸ authority ▸ path_abempty ▸ nil))
      ▸ path_absolute
      ▸ path_rootless
      ▸ path_empty
      ▸ nil))

abbrev pub relative_part : Rule
relative_part = declared "relative_part" (
    or_ (
      (and_ (double_forward_slash ▸ authority ▸ path_abempty ▸ nil))
      ▸ path_absolute
      ▸ path_noscheme
      ▸ path_empty
      ▸ nil))

abbrev pub uri : Rule
uri = declared "URI" (
    and_ (
      scheme
      ▸ colon
      ▸ hier_part
      ▸ (zero_or_one_ (and_ (question ▸ query ▸ nil)))
      ▸ (zero_or_one_ (and_ (hash ▸ fragment ▸ nil)))
      ▸ nil))

abbrev pub absolute_uri : Rule
absolute_uri =
    declared "absolute_URI"
      (and_ (scheme ▸ colon ▸ hier_part ▸ (zero_or_one_ (and_ (question ▸ query ▸ nil))) ▸ nil))

abbrev pub relative_ref : Rule
relative_ref = declared "relative_ref" (
    and_ (
      relative_part
      ▸ (zero_or_one_ (and_ (question ▸ query ▸ nil)))
      ▸ (zero_or_one_ (and_ (hash ▸ fragment ▸ nil)))
      ▸ nil))

abbrev pub uri_reference : Rule
uri_reference = declared "URI_reference" (or_ (uri ▸ relative_ref ▸ nil))
