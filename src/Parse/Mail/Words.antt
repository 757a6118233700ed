-- ===== src/Parse/Mail/Words.antt =====
-- include/xtd/grammars/RFC5322.hpp: messages of electronic mail: its words. Each rule stands under the
-- name that it has there, a character as its code.
use xtl.Prelude.{codes}
use xtl.Parse.{Rule, string}

abbrev pub mon : Rule
mon = string (codes "Mon")

abbrev pub tue : Rule
tue = string (codes "Tue")

abbrev pub wed : Rule
wed = string (codes "Wed")

abbrev pub thu : Rule
thu = string (codes "Thu")

abbrev pub fri : Rule
fri = string (codes "Fri")

abbrev pub sat : Rule
sat = string (codes "Sat")

abbrev pub sun : Rule
sun = string (codes "Sun")

abbrev pub jan : Rule
jan = string (codes "Jan")

abbrev pub feb : Rule
feb = string (codes "Feb")

abbrev pub mar : Rule
mar = string (codes "Mar")

abbrev pub apr : Rule
apr = string (codes "Apr")

abbrev pub may : Rule
may = string (codes "May")

abbrev pub jun : Rule
jun = string (codes "Jun")

abbrev pub jul : Rule
jul = string (codes "Jul")

abbrev pub aug : Rule
aug = string (codes "Aug")

abbrev pub sep : Rule
sep = string (codes "Sep")

abbrev pub oct : Rule
oct = string (codes "Oct")

abbrev pub nov : Rule
nov = string (codes "Nov")

abbrev pub dec : Rule
dec = string (codes "Dec")

abbrev pub ut : Rule
ut = string (codes "UT")

abbrev pub gmt : Rule
gmt = string (codes "GMT")

abbrev pub est : Rule
est = string (codes "EST")

abbrev pub edt : Rule
edt = string (codes "EDT")

abbrev pub cst : Rule
cst = string (codes "CST")

abbrev pub cdt : Rule
cdt = string (codes "CDT")

abbrev pub mst : Rule
mst = string (codes "MST")

abbrev pub mdt : Rule
mdt = string (codes "MDT")

abbrev pub pst : Rule
pst = string (codes "PST")

abbrev pub pdt : Rule
pdt = string (codes "PDT")

abbrev orig_date_prefix : Rule
orig_date_prefix = string (codes "Date:")

abbrev from_prefix : Rule
from_prefix = string (codes "From:")

abbrev sender_prefix : Rule
sender_prefix = string (codes "Sender:")

abbrev reply_to_prefix : Rule
reply_to_prefix = string (codes "Reply-To:")

abbrev to_prefix : Rule
to_prefix = string (codes "To:")

abbrev cc_prefix : Rule
cc_prefix = string (codes "Cc:")

abbrev bcc_prefix : Rule
bcc_prefix = string (codes "Bcc:")

abbrev message_id_prefix : Rule
message_id_prefix = string (codes "Message-ID:")

abbrev in_reply_to_prefix : Rule
in_reply_to_prefix = string (codes "In-Reply-To:")

abbrev references_prefix : Rule
references_prefix = string (codes "References:")

abbrev pub subject_prefix : Rule
subject_prefix = string (codes "Subject:")

abbrev pub comments_prefix : Rule
comments_prefix = string (codes "Comments:")

abbrev keywords_prefix : Rule
keywords_prefix = string (codes "Keywords:")

abbrev resent_date_prefix : Rule
resent_date_prefix = string (codes "Resent-Date:")

abbrev resent_from_prefix : Rule
resent_from_prefix = string (codes "Resent-From:")

abbrev resent_sender_prefix : Rule
resent_sender_prefix = string (codes "Resent-Sender:")

abbrev resent_to_prefix : Rule
resent_to_prefix = string (codes "Resent-To:")

abbrev resent_cc_prefix : Rule
resent_cc_prefix = string (codes "Resent-Cc:")

abbrev resent_bcc_prefix : Rule
resent_bcc_prefix = string (codes "Resent-Bcc:")

abbrev resent_msg_id_prefix : Rule
resent_msg_id_prefix = string (codes "Resent-Message-ID:")

abbrev return_prefix : Rule
return_prefix = string (codes "Return-Path:")

abbrev received_prefix : Rule
received_prefix = string (codes "Received:")

abbrev date_name : Rule
date_name = string (codes "Date")

abbrev from_name : Rule
from_name = string (codes "From")

abbrev sender_name : Rule
sender_name = string (codes "Sender")

abbrev reply_to_name : Rule
reply_to_name = string (codes "Reply-To")

abbrev to_name : Rule
to_name = string (codes "To")

abbrev cc_name : Rule
cc_name = string (codes "Cc")

abbrev bcc_name : Rule
bcc_name = string (codes "Bcc")
