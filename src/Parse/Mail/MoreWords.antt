-- ===== src/Parse/Mail/MoreWords.antt =====
-- include/xtd/grammars/RFC5322.hpp: messages of electronic mail: the rules up to `received_name`. Each rule stands under the
-- name that it has there, a character as its code.
use xtl.Prelude.{codes}
use xtl.Parse.{Rule, string}

abbrev message_id_name : Rule
message_id_name = string (codes "Message-ID")

abbrev in_reply_to_name : Rule
in_reply_to_name = string (codes "In-Reply-To")

abbrev references_name : Rule
references_name = string (codes "References")

abbrev pub subject_name : Rule
subject_name = string (codes "Subject")

abbrev pub comments_name : Rule
comments_name = string (codes "Comments")

abbrev keywords_name : Rule
keywords_name = string (codes "Keywords")

abbrev resent_from_name : Rule
resent_from_name = string (codes "Resent-From")

abbrev resent_sender_name : Rule
resent_sender_name = string (codes "Resent-Sender")

abbrev resent_date_name : Rule
resent_date_name = string (codes "Resent-Date")

abbrev resent_to_name : Rule
resent_to_name = string (codes "Resent-To")

abbrev resent_cc_name : Rule
resent_cc_name = string (codes "Resent-Cc")

abbrev resent_bcc_name : Rule
resent_bcc_name = string (codes "Resent-Bcc")

abbrev resent_message_id_name : Rule
resent_message_id_name = string (codes "Resent-Message-ID")

abbrev resent_reply_to_name : Rule
resent_reply_to_name = string (codes "Resent-Reply-To")

abbrev return_path_name : Rule
return_path_name = string (codes "Return-Path")

abbrev received_name : Rule
received_name = string (codes "Received")
