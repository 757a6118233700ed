-- ===== src/Parse/HttpRange.antt =====
-- include/xtd/grammars/RFC7233.hpp: the range requests of HTTP. Each rule stands under the
-- name that it has there, a character as its code.
use xtl.Prelude.{codes}
use xtl.Parse.{
  Rule, declared, and_, or_, one_or_more_, zero_or_more_, zero_or_one_, string, character,
  characters, nil, ◌▸◌,
}
use xtl.Parse.Abnf.{digit, sp, vchar}
use xtl.Parse.Http.Message.{ows, token}
use xtl.Parse.HttpConditional.{entity_tag}
use xtl.Parse.HttpSemantics.Negotiation.{http_date}

abbrev equal_sign : Rule
equal_sign = character 61

abbrev hyphen : Rule
hyphen = character 45

abbrev forward_slash : Rule
forward_slash = character 47

abbrev comma : Rule
comma = character 44

abbrev asterisk : Rule
asterisk = character 42

abbrev char : Rule
char = characters 1 127

abbrev bytes : Rule
bytes = string (codes "bytes")

abbrev none : Rule
none = string (codes "none")

abbrev bytes_unit : Rule
bytes_unit = declared "bytes_unit" bytes

abbrev other_range_unit : Rule
other_range_unit = declared "other_range_unit" token

abbrev range_unit : Rule
range_unit = declared "range_unit" (or_ (bytes_unit ▸ other_range_unit ▸ nil))

abbrev first_byte_pos : Rule
first_byte_pos = declared "first_byte_pos" (one_or_more_ digit)

abbrev last_byte_pos : Rule
last_byte_pos = declared "last_byte_pos" (one_or_more_ digit)

abbrev suffix_length : Rule
suffix_length = declared "suffix_length" (one_or_more_ digit)

abbrev complete_length : Rule
complete_length = declared "complete_length" (one_or_more_ digit)

abbrev pub byte_range_spec : Rule
byte_range_spec =
    declared "byte_range_spec" (and_ (first_byte_pos ▸ hyphen ▸ (zero_or_one_ last_byte_pos) ▸ nil))

abbrev suffix_byte_range_spec : Rule
suffix_byte_range_spec = declared "suffix_byte_range_spec" (and_ (hyphen ▸ suffix_length ▸ nil))

abbrev byte_range_set : Rule
byte_range_set = declared "byte_range_set" (
    and_ (
      (zero_or_more_ (and_ (comma ▸ ows ▸ nil)))
      ▸ (or_ (suffix_byte_range_spec ▸ byte_range_spec ▸ nil))
      ▸ (zero_or_more_ (
          and_ (
            ows
            ▸ comma
            ▸ (zero_or_one_
                (and_ (ows ▸ (or_ (suffix_byte_range_spec ▸ byte_range_spec ▸ nil)) ▸ nil)))
            ▸ nil)))
      ▸ nil))

abbrev byte_ranges_specifier : Rule
byte_ranges_specifier =
    declared "byte_ranges_specifier" (and_ (bytes_unit ▸ equal_sign ▸ byte_range_set ▸ nil))

abbrev other_range_set : Rule
other_range_set = declared "other_range_set" (one_or_more_ vchar)

abbrev other_ranges_specifier : Rule
other_ranges_specifier =
    declared "other_ranges_specifier" (and_ (other_range_unit ▸ equal_sign ▸ other_range_set ▸ nil))

abbrev pub range : Rule
range = declared "Range" (or_ (byte_ranges_specifier ▸ other_ranges_specifier ▸ nil))

abbrev acceptable_ranges : Rule
acceptable_ranges = declared "acceptable_ranges" (
    or_ (
      none
      ▸ (and_ (
          (zero_or_more_ (and_ (comma ▸ ows ▸ nil)))
          ▸ range_unit
          ▸ (zero_or_more_
              (and_ (ows ▸ comma ▸ (zero_or_one_ (and_ (ows ▸ range_unit ▸ nil))) ▸ nil)))
          ▸ nil))
      ▸ nil))

abbrev accept_ranges : Rule
accept_ranges = declared "Accept_Ranges" acceptable_ranges

abbrev byte_range : Rule
byte_range = declared "byte_range" (and_ (first_byte_pos ▸ hyphen ▸ last_byte_pos ▸ nil))

abbrev byte_range_resp : Rule
byte_range_resp =
    declared "byte_range_resp"
      (and_ (byte_range ▸ forward_slash ▸ (or_ (complete_length ▸ asterisk ▸ nil)) ▸ nil))

abbrev unsatisfied_range : Rule
unsatisfied_range =
    declared "unsatisfied_range" (and_ (asterisk ▸ forward_slash ▸ complete_length ▸ nil))

abbrev byte_content_range : Rule
byte_content_range =
    declared "byte_content_range"
      (and_ (bytes_unit ▸ sp ▸ (or_ (unsatisfied_range ▸ byte_range_resp ▸ nil)) ▸ nil))

abbrev other_range_resp : Rule
other_range_resp = declared "other_range_resp" (zero_or_more_ char)

abbrev other_content_range : Rule
other_content_range =
    declared "other_content_range" (and_ (other_range_unit ▸ sp ▸ other_range_resp ▸ nil))

abbrev pub content_range : Rule
content_range = declared "Content_Range" (or_ (byte_content_range ▸ other_content_range ▸ nil))

abbrev if_range : Rule
if_range = declared "If_Range" (or_ (entity_tag ▸ http_date ▸ nil))
