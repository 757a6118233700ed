-- ===== src/Parse/HttpSemantics.antt =====
-- include/xtd/grammars/RFC7231.hpp: the header fields of HTTP. Each rule stands under the
-- name that it has there, a character as its code.
pub mod Characters
pub mod Words
pub mod Negotiation
use xtl.Parse.{Rule, declared, and_, or_, one_or_more_, zero_or_more_, zero_or_one_, nil, ◌▸◌}
use xtl.Parse.Abnf.{digit}
use xtl.Parse.Http.Message.{field_name, ows, partial_uri}
use xtl.Parse.HttpSemantics.Characters.{asterisk, comma}
use xtl.Parse.HttpSemantics.Negotiation.{
  codings, content_coding, delay_seconds, http_date, media_type, method, weight,
}
use xtl.Parse.HttpSemantics.Words.{digits_100_continue}
use xtl.Parse.LanguageRange.{language_range}
use xtl.Parse.LanguageTag.{language_tag}
use xtl.Parse.Uri.{absolute_uri, uri_reference}

abbrev accept_encoding : Rule
accept_encoding = declared "Accept_Encoding" (
    zero_or_one_ (
      and_ (
        (or_ (comma ▸ (and_ (codings ▸ (zero_or_one_ weight) ▸ nil)) ▸ nil))
        ▸ (zero_or_more_ (
            and_ (
              ows
              ▸ comma
              ▸ (zero_or_one_ (and_ (ows ▸ codings ▸ (zero_or_one_ weight) ▸ nil)))
              ▸ nil)))
        ▸ nil)))

abbrev accept_language : Rule
accept_language = declared "Accept_Language" (
    and_ (
      (zero_or_more_ (and_ (comma ▸ ows ▸ nil)))
      ▸ language_range
      ▸ (zero_or_one_ weight)
      ▸ (zero_or_more_ (
          and_ (
            ows
            ▸ comma
            ▸ (zero_or_one_ (and_ (ows ▸ language_range ▸ (zero_or_one_ weight) ▸ nil)))
            ▸ nil)))
      ▸ nil))

abbrev allow : Rule
allow = declared "Allow" (
    zero_or_one_ (
      and_ (
        (or_ (comma ▸ method ▸ nil))
        ▸ (zero_or_more_ (and_ (ows ▸ comma ▸ (zero_or_one_ (and_ (ows ▸ method ▸ nil))) ▸ nil)))
        ▸ nil)))

abbrev content_encoding : Rule
content_encoding = declared "Content_Encoding" (
    and_ (
      (zero_or_more_ (and_ (comma ▸ ows ▸ nil)))
      ▸ content_coding
      ▸ (zero_or_more_
          (and_ (ows ▸ comma ▸ (zero_or_one_ (and_ (ows ▸ content_coding ▸ nil))) ▸ nil)))
      ▸ nil))

abbrev content_language : Rule
content_language = declared "Content_Language" (
    and_ (
      (zero_or_more_ (and_ (comma ▸ ows ▸ nil)))
      ▸ language_tag
      ▸ (zero_or_more_
          (and_ (ows ▸ comma ▸ (zero_or_one_ (and_ (ows ▸ language_tag ▸ nil))) ▸ nil)))
      ▸ nil))

abbrev content_location : Rule
content_location = declared "Content_Location" (or_ (absolute_uri ▸ partial_uri ▸ nil))

abbrev content_type : Rule
content_type = declared "Content_Type" media_type

abbrev date : Rule
date = declared "Date" http_date

abbrev expect : Rule
expect = declared "Expect" digits_100_continue

abbrev location : Rule
location = declared "Location" uri_reference

abbrev max_forwards : Rule
max_forwards = declared "Max_Forwards" (one_or_more_ digit)

abbrev referer : Rule
referer = declared "Referer" (or_ (absolute_uri ▸ partial_uri ▸ nil))

abbrev retry_after : Rule
retry_after = declared "Retry_After" (or_ (http_date ▸ delay_seconds ▸ nil))

abbrev vary : Rule
vary = declared "Vary" (
    or_ (
      asterisk
      ▸ (and_ (
          (zero_or_more_ (and_ (comma ▸ ows ▸ nil)))
          ▸ field_name
          ▸ (zero_or_more_
              (and_ (ows ▸ comma ▸ (zero_or_one_ (and_ (ows ▸ field_name ▸ nil))) ▸ nil)))
          ▸ nil))
      ▸ nil))
