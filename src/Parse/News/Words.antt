-- ===== src/Parse/News/Words.antt =====
-- include/xtd/grammars/RFC5536.hpp: articles of network news: its words. Each rule stands under the
-- name that it has there, a character as its code.
use xtl.Prelude.{codes}
use xtl.Parse.{Rule, string}

abbrev orig_date_prefix : Rule
orig_date_prefix = string (codes "Date:")

abbrev from_prefix : Rule
from_prefix = string (codes "From:")

abbrev pub message_id_prefix : Rule
message_id_prefix = string (codes "Message-ID:")

abbrev pub newsgroups_prefix : Rule
newsgroups_prefix = string (codes "Newsgroups:")

abbrev pub path_prefix : Rule
path_prefix = string (codes "Path:")

abbrev pub subject_prefix : Rule
subject_prefix = string (codes "Subject:")

abbrev approved_prefix : Rule
approved_prefix = string (codes "Approved:")

abbrev archive_prefix : Rule
archive_prefix = string (codes "Archive:")

abbrev pub control_prefix : Rule
control_prefix = string (codes "Control:")

abbrev pub distribution_prefix : Rule
distribution_prefix = string (codes "Distribution:")

abbrev expires_prefix : Rule
expires_prefix = string (codes "Expires:")

abbrev pub followup_to_prefix : Rule
followup_to_prefix = string (codes "Followup-To:")

abbrev injection_date_prefix : Rule
injection_date_prefix = string (codes "Injection-Date:")

abbrev injection_info_prefix : Rule
injection_info_prefix = string (codes "Injection-Info:")

abbrev pub lines_prefix : Rule
lines_prefix = string (codes "Lines:")

abbrev pub organization_prefix : Rule
organization_prefix = string (codes "Organization:")

abbrev references_prefix : Rule
references_prefix = string (codes "References:")

abbrev pub summary_prefix : Rule
summary_prefix = string (codes "Summary:")

abbrev pub supersedes_prefix : Rule
supersedes_prefix = string (codes "Supersedes:")

abbrev user_agent_prefix : Rule
user_agent_prefix = string (codes "User-Agent:")

abbrev pub xref_prefix : Rule
xref_prefix = string (codes "Xref:")

abbrev pub comments_prefix : Rule
comments_prefix = string (codes "Comments:")

abbrev keywords_prefix : Rule
keywords_prefix = string (codes "Keywords:")

abbrev reply_to_prefix : Rule
reply_to_prefix = string (codes "Reply-To:")

abbrev sender_prefix : Rule
sender_prefix = string (codes "Sender:")

abbrev archive_no : Rule
archive_no = string (codes "no")

abbrev archive_yes : Rule
archive_yes = string (codes "yes")

abbrev pub poster_literal : Rule
poster_literal = string (codes "poster")
