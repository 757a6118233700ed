-- ===== src/Parse/News.antt =====
-- include/xtd/grammars/RFC5536.hpp: articles of network news. Each rule stands under the
-- name that it has there, a character as its code.
pub mod Characters
pub mod Words
pub mod Fields
use xtl.Parse.{Rule, declared, and_, or_, one_or_more_, zero_or_more_, nil, ◌▸◌}
use xtl.Parse.Abnf.{crlf, digit, sp, wsp}
use xtl.Parse.Mail.{fws}
use xtl.Parse.News.Characters.{colon, locator_high, locator_low, locator_mid}
use xtl.Parse.News.Fields.{msg_id, newsgroup_list, newsgroup_name, path_identity, unstructured}
use xtl.Parse.News.Words.{
  comments_prefix, followup_to_prefix, lines_prefix, organization_prefix, poster_literal,
  summary_prefix, supersedes_prefix, xref_prefix,
}

abbrev poster_text : Rule
poster_text =
    declared "poster_text" (and_ ((zero_or_more_ wsp) ▸ poster_literal ▸ (zero_or_more_ wsp) ▸ nil))

abbrev followup_to : Rule
followup_to =
    declared "followup_to"
      (and_ (followup_to_prefix ▸ sp ▸ (or_ (newsgroup_list ▸ poster_text ▸ nil)) ▸ crlf ▸ nil))

abbrev organization : Rule
organization = declared "organization" (and_ (organization_prefix ▸ sp ▸ unstructured ▸ crlf ▸ nil))

abbrev summary : Rule
summary = declared "summary" (and_ (summary_prefix ▸ sp ▸ unstructured ▸ crlf ▸ nil))

abbrev supersedes : Rule
supersedes = declared "supersedes" (
    and_ (supersedes_prefix ▸ sp ▸ (zero_or_more_ wsp) ▸ msg_id ▸ (zero_or_more_ wsp) ▸ crlf ▸ nil))

abbrev server_name : Rule
server_name = declared "server_name" path_identity

abbrev article_locator : Rule
article_locator =
    declared "article_locator" (one_or_more_ (or_ (locator_low ▸ locator_mid ▸ locator_high ▸ nil)))

abbrev location : Rule
location = declared "location" (and_ (newsgroup_name ▸ colon ▸ article_locator ▸ nil))

abbrev xref : Rule
xref = declared "xref" (
    and_ (
      xref_prefix
      ▸ sp
      ▸ (zero_or_more_ wsp)
      ▸ server_name
      ▸ (one_or_more_ (and_ (fws ▸ location ▸ nil)))
      ▸ (zero_or_more_ wsp)
      ▸ crlf
      ▸ nil))

abbrev lines : Rule
lines = declared "lines" (
    and_ (
      lines_prefix
      ▸ sp
      ▸ (zero_or_more_ wsp)
      ▸ (one_or_more_ digit)
      ▸ (zero_or_more_ wsp)
      ▸ crlf
      ▸ nil))

abbrev comments : Rule
comments = declared "comments" (and_ (comments_prefix ▸ sp ▸ unstructured ▸ crlf ▸ nil))
