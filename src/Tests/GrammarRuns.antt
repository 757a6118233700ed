-- ===== src/Tests/GrammarRuns.antt =====
-- Runs of the parser on the grammars of the other documents, with no whitespace to skip.
use xtl.Prelude.{Bool, true, false, Option, none, some, [], String, codes, ◌≡◌, refl}
use xtl.Parse.{Rule, Node, parser}
use xtl.Parse.LanguageTag.{language_tag}
use xtl.Parse.LanguageRange.{language_range}
use xtl.Parse.Http.Message.{http_message}
use xtl.Parse.HttpSemantics.Negotiation.{http_date, accept}
use xtl.Parse.HttpConditional.{etag}
use xtl.Parse.HttpRange.{range, content_range}

abbrev matched : Option Node → Bool
matched (some n) = true
matched none = false

unfoldable matches : Rule → String → Bool
unfolding parser
matches r s = matched (parser r false [] (codes s))

tag_with_region : matches language_tag "de-Latn-CH-1901-x-ab" ≡ true
unfolding matches
tag_with_region = refl

tag_too_long : matches language_tag "abcdefghi" ≡ false
unfolding matches
tag_too_long = refl

any_language : matches language_range "*" ≡ true
unfolding matches
any_language = refl

request : matches http_message "GET /a?b HTTP/1.1\r\nHost: x\r\n\r\n" ≡ true
unfolding matches
request = refl

fixed_date : matches http_date "Sun, 06 Nov 1994 08:49:37 GMT" ≡ true
unfolding matches
fixed_date = refl

accepted_types : matches accept "text/html;q=0.5, */*" ≡ true
unfolding matches
accepted_types = refl

weak_tag : matches etag "W/\"ab\"" ≡ true
unfolding matches
weak_tag = refl

byte_ranges : matches range "bytes=0-99,200-,-5" ≡ true
unfolding matches
byte_ranges = refl

content_part : matches content_range "bytes 0-99/1000" ≡ true
unfolding matches
content_part = refl
