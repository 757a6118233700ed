-- ===== src/Parse/HttpConditional.antt =====
-- include/xtd/grammars/RFC7232.hpp: the conditional requests of HTTP. Each rule stands under the
-- name that it has there, a character as its code.
use xtl.Prelude.{codes}
use xtl.Parse.{
  Rule, declared, and_, or_, zero_or_more_, zero_or_one_, string, character, characters, nil, ◌▸◌,
}
use xtl.Parse.Abnf.{dquote}
use xtl.Parse.Http.Message.{obs_text_header, ows}
use xtl.Parse.HttpSemantics.Negotiation.{http_date}

abbrev comma : Rule
comma = character 44

abbrev asterisk : Rule
asterisk = character 42

abbrev exclamation : Rule
exclamation = character 33

abbrev etagc_vchar : Rule
etagc_vchar = characters 35 126

abbrev weak : Rule
weak = string (codes "W/")

abbrev etagc : Rule
etagc = declared "etagc" (or_ (exclamation ▸ etagc_vchar ▸ obs_text_header ▸ nil))

abbrev opaque_tag : Rule
opaque_tag = declared "opaque_tag" (and_ (dquote ▸ (zero_or_more_ etagc) ▸ dquote ▸ nil))

abbrev pub entity_tag : Rule
entity_tag = declared "entity_tag" (and_ ((zero_or_one_ weak) ▸ opaque_tag ▸ nil))

abbrev pub etag : Rule
etag = declared "ETag" entity_tag

abbrev if_match : Rule
if_match = declared "If_Match" (
    or_ (
      asterisk
      ▸ (and_ (
          (zero_or_more_ (and_ (comma ▸ ows ▸ nil)))
          ▸ entity_tag
          ▸ (zero_or_more_
              (and_ (ows ▸ comma ▸ (zero_or_one_ (and_ (ows ▸ entity_tag ▸ nil))) ▸ nil)))
          ▸ nil))
      ▸ nil))

abbrev if_none_match : Rule
if_none_match = declared "If_None_Match" (
    or_ (
      asterisk
      ▸ (and_ (
          (zero_or_more_ (and_ (comma ▸ ows ▸ nil)))
          ▸ entity_tag
          ▸ (zero_or_more_
              (and_ (ows ▸ comma ▸ (zero_or_one_ (and_ (ows ▸ entity_tag ▸ nil))) ▸ nil)))
          ▸ nil))
      ▸ nil))

abbrev if_modified_since : Rule
if_modified_since = declared "If_Modified_Since" http_date

abbrev if_unmodified_since : Rule
if_unmodified_since = declared "If_Unmodified_Since" http_date

abbrev last_modified : Rule
last_modified = declared "Last_Modified" http_date
