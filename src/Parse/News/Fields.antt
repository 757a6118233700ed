-- ===== src/Parse/News/Fields.antt =====
-- include/xtd/grammars/RFC5536.hpp: articles of network news: the rules up to `distribution`. Each rule stands under the
-- name that it has there, a character as its code.
use xtl.Parse.{Rule, declared, and_, or_, one_or_more_, zero_or_more_, zero_or_one_, nil, ◌▸◌}
use xtl.Parse.Abnf.{alpha, crlf, digit, sp, vchar, wsp}
use xtl.Parse.Mail.{dot_atom_text, fws}
use xtl.Parse.News.Characters.{
  ampersand, asterisk, at, backtick, caret, close_brace, close_bracket, comma, dollar, exclaimation,
  greater_than, hash, hyphen, less_than, mdtext_high, mdtext_low, mdtext_mid, open_brace,
  open_bracket, percent, period, pipe, plus, single_quote, tilde, under_score,
}
use xtl.Parse.News.Words.{
  control_prefix, distribution_prefix, message_id_prefix, newsgroups_prefix, path_prefix,
  subject_prefix,
}
use xtl.Parse.Uri.Address.{ipv4_address, ipv6_address}

abbrev pub unstructured : Rule
unstructured = declared "unstructured" (
    and_ (
      (zero_or_more_ wsp)
      ▸ vchar
      ▸ (zero_or_more_ (and_ ((zero_or_one_ fws) ▸ vchar ▸ nil)))
      ▸ (zero_or_more_ wsp)
      ▸ nil))

abbrev tchar : Rule
tchar = or_ (
    alpha ▸ digit ▸ exclaimation ▸ hash ▸ dollar ▸ percent ▸ ampersand ▸ single_quote ▸ asterisk
    ▸ plus ▸ hyphen ▸ period ▸ caret ▸ under_score ▸ backtick ▸ open_brace ▸ close_brace ▸ pipe
    ▸ tilde ▸ nil)

abbrev token : Rule
token = declared "token" (one_or_more_ tchar)

abbrev attribute : Rule
attribute = declared "attribute" token

abbrev mdtext : Rule
mdtext = or_ (mdtext_low ▸ mdtext_mid ▸ mdtext_high ▸ nil)

abbrev no_fold_literal : Rule
no_fold_literal =
    declared "no_fold_literal" (and_ (open_bracket ▸ (zero_or_more_ mdtext) ▸ close_bracket ▸ nil))

abbrev id_left : Rule
id_left = declared "id_left" dot_atom_text

abbrev id_right : Rule
id_right = declared "id_right" (or_ (dot_atom_text ▸ no_fold_literal ▸ nil))

abbrev msg_id_core : Rule
msg_id_core = declared "msg_id_core" (and_ (id_left ▸ at ▸ id_right ▸ nil))

abbrev pub msg_id : Rule
msg_id = declared "msg_id" (and_ (less_than ▸ msg_id_core ▸ greater_than ▸ nil))

abbrev message_id : Rule
message_id = declared "message_id" (
    and_ (message_id_prefix ▸ sp ▸ (zero_or_more_ wsp) ▸ msg_id ▸ (zero_or_more_ wsp) ▸ crlf ▸ nil))

abbrev component_char : Rule
component_char = or_ (alpha ▸ digit ▸ plus ▸ hyphen ▸ under_score ▸ nil)

abbrev component : Rule
component = declared "component" (one_or_more_ component_char)

abbrev pub newsgroup_name : Rule
newsgroup_name =
    declared "newsgroup_name"
      (and_ (component ▸ (zero_or_more_ (and_ (period ▸ component ▸ nil))) ▸ nil))

abbrev pub newsgroup_list : Rule
newsgroup_list = declared "newsgroup_list" (
    and_ (
      (zero_or_more_ wsp)
      ▸ newsgroup_name
      ▸ (zero_or_more_
          (and_ ((zero_or_one_ fws) ▸ comma ▸ (zero_or_one_ fws) ▸ newsgroup_name ▸ nil)))
      ▸ (zero_or_more_ wsp)
      ▸ nil))

abbrev newsgroups : Rule
newsgroups = declared "newsgroups" (and_ (newsgroups_prefix ▸ sp ▸ newsgroup_list ▸ crlf ▸ nil))

abbrev alphanum : Rule
alphanum = or_ (alpha ▸ digit ▸ nil)

abbrev path_nodot : Rule
path_nodot = declared "path_nodot" (one_or_more_ (or_ (alphanum ▸ hyphen ▸ under_score ▸ nil)))

abbrev label : Rule
label = declared "label" (and_ (alphanum ▸ (zero_or_more_ (or_ (alphanum ▸ hyphen ▸ nil))) ▸ nil))

abbrev toplabel : Rule
toplabel =
    declared "toplabel" (and_ (alpha ▸ (zero_or_more_ (or_ (alphanum ▸ hyphen ▸ nil))) ▸ nil))

abbrev pub path_identity : Rule
path_identity = declared "path_identity" (
    or_ ((and_ ((one_or_more_ (and_ (label ▸ period ▸ nil))) ▸ toplabel ▸ nil)) ▸ path_nodot ▸ nil))

abbrev diag_keyword : Rule
diag_keyword = declared "diag_keyword" (one_or_more_ alpha)

abbrev diag_identity : Rule
diag_identity = declared "diag_identity" (or_ (path_identity ▸ ipv4_address ▸ ipv6_address ▸ nil))

abbrev diag_match : Rule
diag_match = declared "diag_match" exclaimation

abbrev diag_other : Rule
diag_other = declared "diag_other" (
    and_ (
      exclaimation
      ▸ period
      ▸ diag_keyword
      ▸ (zero_or_one_ (and_ (period ▸ diag_identity ▸ nil)))
      ▸ (zero_or_one_ fws)
      ▸ nil))

abbrev diag_deprecated : Rule
diag_deprecated =
    declared "diag_deprecated" (and_ (exclaimation ▸ ipv4_address ▸ (zero_or_one_ fws) ▸ nil))

abbrev path_diagnostic : Rule
path_diagnostic = declared "path_diagnostic" (or_ (diag_other ▸ diag_deprecated ▸ diag_match ▸ nil))

abbrev path_list_item : Rule
path_list_item = and_ (
    path_identity
    ▸ (zero_or_one_ fws)
    ▸ (or_ (
        (and_ (diag_other ▸ exclaimation ▸ nil))
        ▸ (and_ (diag_deprecated ▸ exclaimation ▸ nil))
        ▸ (and_ (exclaimation ▸ exclaimation ▸ nil))
        ▸ exclaimation
        ▸ nil))
    ▸ nil)

abbrev path_list : Rule
path_list = declared "path_list" (zero_or_more_ path_list_item)

abbrev tail_entry : Rule
tail_entry = declared "tail_entry" path_nodot

abbrev path : Rule
path = declared "path" (
    and_ (
      path_prefix
      ▸ sp
      ▸ (zero_or_more_ wsp)
      ▸ path_list
      ▸ tail_entry
      ▸ (zero_or_more_ wsp)
      ▸ crlf
      ▸ nil))

abbrev subject : Rule
subject = declared "subject" (and_ (subject_prefix ▸ sp ▸ unstructured ▸ crlf ▸ nil))

abbrev verb : Rule
verb = declared "verb" token

abbrev argument : Rule
argument = declared "argument" (one_or_more_ vchar)

abbrev control_command : Rule
control_command =
    declared "control_command"
      (and_ (verb ▸ (zero_or_more_ (and_ ((one_or_more_ wsp) ▸ argument ▸ nil))) ▸ nil))

abbrev control : Rule
control = declared "control" (
    and_ (
      control_prefix
      ▸ sp
      ▸ (zero_or_more_ wsp)
      ▸ control_command
      ▸ (zero_or_more_ wsp)
      ▸ crlf
      ▸ nil))

abbrev dist_name : Rule
dist_name =
    declared "dist_name" (and_ ((or_ (alpha ▸ digit ▸ nil)) ▸ (zero_or_more_ component_char) ▸ nil))

abbrev dist_list : Rule
dist_list = declared "dist_list" (
    and_ (
      (zero_or_more_ wsp)
      ▸ dist_name
      ▸ (zero_or_more_ (and_ ((zero_or_one_ fws) ▸ comma ▸ (zero_or_one_ fws) ▸ dist_name ▸ nil)))
      ▸ (zero_or_more_ wsp)
      ▸ nil))

abbrev distribution : Rule
distribution = declared "distribution" (and_ (distribution_prefix ▸ sp ▸ dist_list ▸ crlf ▸ nil))
