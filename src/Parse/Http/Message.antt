-- ===== src/Parse/Http/Message.antt =====
-- include/xtd/grammars/RFC7230.hpp: the messages of HTTP: the rules up to `up_to_3_digit`. Each rule stands under the
-- name that it has there, a character as its code.
use xtl.Parse.{Rule, declared, and_, or_, one_or_more_, zero_or_more_, zero_or_one_, nil, ◌▸◌}
use xtl.Parse.Abnf.{alpha, crlf, digit, dquote, htab, sp, vchar}
use xtl.Parse.Http.Characters.{
  ampersand, asterisk, back_slash, caret, colon, ctext_high, ctext_low, ctext_mid, dollar, equal,
  exclaimation, forward_slash, grave, hash, hyphen, obs_text, octet_ascii, percent, period, pipe,
  plus, qdtext_bang, qdtext_high, qdtext_mid, question, semi_colon, single_quote, tilde,
  under_score,
}
use xtl.Parse.Http.Words.{
  chunked, compress, deflate, gzip, http_name, http_uri_prefix, https_uri_prefix,
}
use xtl.Parse.Uri.{absolute_uri, authority, fragment, path_abempty, query, relative_part, segment}

abbrev pub any_octet : Rule
any_octet = or_ (octet_ascii ▸ obs_text ▸ nil)

abbrev alpha_numeric : Rule
alpha_numeric = or_ (alpha ▸ digit ▸ nil)

abbrev pub ows : Rule
ows = zero_or_more_ (or_ (sp ▸ htab ▸ nil))

abbrev rws : Rule
rws = one_or_more_ (or_ (sp ▸ htab ▸ nil))

abbrev bws : Rule
bws = ows

abbrev tchar : Rule
tchar = declared "tchar" (
    or_ (
      exclaimation ▸ hash ▸ dollar ▸ percent ▸ ampersand ▸ single_quote ▸ asterisk ▸ plus ▸ hyphen
      ▸ period ▸ caret ▸ under_score ▸ grave ▸ pipe ▸ tilde ▸ alpha_numeric ▸ nil))

abbrev pub token : Rule
token = declared "token" (one_or_more_ tchar)

abbrev pub obs_text_header : Rule
obs_text_header = declared "obs_text" obs_text

abbrev qdtext : Rule
qdtext =
    declared "qdtext"
      (or_ (htab ▸ sp ▸ qdtext_bang ▸ qdtext_mid ▸ qdtext_high ▸ obs_text_header ▸ nil))

abbrev quoted_pair : Rule
quoted_pair =
    declared "quoted_pair"
      (and_ (back_slash ▸ (or_ (htab ▸ sp ▸ vchar ▸ obs_text_header ▸ nil)) ▸ nil))

abbrev pub quoted_string : Rule
quoted_string =
    declared "quoted_string"
      (and_ (dquote ▸ (zero_or_more_ (or_ (qdtext ▸ quoted_pair ▸ nil))) ▸ dquote ▸ nil))

abbrev ctext : Rule
ctext =
    declared "ctext" (or_ (htab ▸ sp ▸ ctext_low ▸ ctext_mid ▸ ctext_high ▸ obs_text_header ▸ nil))

abbrev http_version : Rule
http_version =
    declared "HTTP_version" (and_ (http_name ▸ forward_slash ▸ digit ▸ period ▸ digit ▸ nil))

abbrev absolute_path : Rule
absolute_path = declared "absolute_path" (one_or_more_ (and_ (forward_slash ▸ segment ▸ nil)))

abbrev pub partial_uri : Rule
partial_uri =
    declared "partial_URI"
      (and_ (relative_part ▸ (zero_or_one_ (and_ (question ▸ query ▸ nil))) ▸ nil))

abbrev http_uri : Rule
http_uri = declared "http_URI" (
    and_ (
      http_uri_prefix
      ▸ authority
      ▸ path_abempty
      ▸ (zero_or_one_ (and_ (question ▸ query ▸ nil)))
      ▸ (zero_or_one_ (and_ (hash ▸ fragment ▸ nil)))
      ▸ nil))

abbrev https_uri : Rule
https_uri = declared "https_URI" (
    and_ (
      https_uri_prefix
      ▸ authority
      ▸ path_abempty
      ▸ (zero_or_one_ (and_ (question ▸ query ▸ nil)))
      ▸ (zero_or_one_ (and_ (hash ▸ fragment ▸ nil)))
      ▸ nil))

abbrev method : Rule
method = declared "method" token

abbrev origin_form : Rule
origin_form =
    declared "origin_form"
      (and_ (absolute_path ▸ (zero_or_one_ (and_ (question ▸ query ▸ nil))) ▸ nil))

abbrev absolute_form : Rule
absolute_form = declared "absolute_form" absolute_uri

abbrev authority_form : Rule
authority_form = declared "authority_form" authority

abbrev asterisk_form : Rule
asterisk_form = declared "asterisk_form" asterisk

abbrev request_target : Rule
request_target =
    declared "request_target"
      (or_ (origin_form ▸ absolute_form ▸ authority_form ▸ asterisk_form ▸ nil))

abbrev request_line : Rule
request_line =
    declared "request_line" (and_ (method ▸ sp ▸ request_target ▸ sp ▸ http_version ▸ crlf ▸ nil))

abbrev status_code : Rule
status_code = declared "status_code" (and_ (digit ▸ digit ▸ digit ▸ nil))

abbrev reason_phrase : Rule
reason_phrase =
    declared "reason_phrase" (zero_or_more_ (or_ (htab ▸ sp ▸ vchar ▸ obs_text_header ▸ nil)))

abbrev status_line : Rule
status_line =
    declared "status_line"
      (and_ (http_version ▸ sp ▸ status_code ▸ sp ▸ reason_phrase ▸ crlf ▸ nil))

abbrev start_line : Rule
start_line = declared "start_line" (or_ (request_line ▸ status_line ▸ nil))

abbrev pub field_name : Rule
field_name = declared "field_name" token

abbrev field_vchar : Rule
field_vchar = declared "field_vchar" (or_ (vchar ▸ obs_text_header ▸ nil))

abbrev field_content : Rule
field_content = declared "field_content" (
    and_ (
      field_vchar
      ▸ (zero_or_one_ (and_ ((one_or_more_ (or_ (sp ▸ htab ▸ nil))) ▸ field_vchar ▸ nil)))
      ▸ nil))

abbrev obs_fold : Rule
obs_fold = declared "obs_fold" (and_ (crlf ▸ (one_or_more_ (or_ (sp ▸ htab ▸ nil))) ▸ nil))

abbrev field_value : Rule
field_value = declared "field_value" (zero_or_more_ (or_ (field_content ▸ obs_fold ▸ nil)))

abbrev pub header_field : Rule
header_field = declared "header_field" (and_ (field_name ▸ colon ▸ ows ▸ field_value ▸ ows ▸ nil))

abbrev message_body : Rule
message_body = declared "message_body" (zero_or_more_ any_octet)

abbrev pub http_message : Rule
http_message = declared "HTTP_message" (
    and_ (
      start_line
      ▸ (zero_or_more_ (and_ (header_field ▸ crlf ▸ nil)))
      ▸ crlf
      ▸ (zero_or_one_ message_body)
      ▸ nil))

abbrev transfer_parameter : Rule
transfer_parameter =
    declared "transfer_parameter"
      (and_ (token ▸ bws ▸ equal ▸ bws ▸ (or_ (token ▸ quoted_string ▸ nil)) ▸ nil))

abbrev transfer_extension : Rule
transfer_extension = declared "transfer_extension" (
    and_ (token ▸ (zero_or_more_ (and_ (ows ▸ semi_colon ▸ ows ▸ transfer_parameter ▸ nil))) ▸ nil))

abbrev pub transfer_coding : Rule
transfer_coding =
    declared "transfer_coding"
      (or_ (chunked ▸ compress ▸ deflate ▸ gzip ▸ transfer_extension ▸ nil))

abbrev pub up_to_3_digit : Rule
up_to_3_digit =
    zero_or_one_ (and_ (digit ▸ (zero_or_one_ (and_ (digit ▸ (zero_or_one_ digit) ▸ nil))) ▸ nil))
