-- ===== src/Parse/Mail.antt =====
-- include/xtd/grammars/RFC5322.hpp: messages of electronic mail. Each rule stands under the
-- name that it has there, a character as its code.
pub mod Characters
pub mod Words
pub mod MoreWords
use xtl.Parse.{Rule, declared, and_, or_, one_or_more_, zero_or_more_, zero_or_one_, nil, ◌▸◌}
use xtl.Parse.Abnf.{alpha, cr, crlf, digit, dquote, lf, vchar, wsp}
use xtl.Parse.Mail.Characters.{
  ampersand, apostrophe, asterisk, at, back_slash, caret, close_brace, close_bracket, close_paran,
  colon, comma, ctext_low, ctext_mid, dollar, dtext_high, dtext_low, equal, exclaimation,
  forward_slash, ftext_high, ftext_low, greater_than, hash, hyphen, less_than, no_ws_ctl11,
  no_ws_ctl12, no_ws_ctl_del, no_ws_ctl_low, no_ws_ctl_mid, nul, open_brace, open_bracket,
  open_paran, percent, period, pipe, plus, print_high, qtext_char33, qtext_mid, question,
  semi_colon, single_quote, text_high, text_low, tilde, under_score, zone_mil_lower_a,
  zone_mil_lower_k, zone_mil_upper_a, zone_mil_upper_k,
}
use xtl.Parse.Mail.MoreWords.{comments_name, subject_name}
use xtl.Parse.Mail.Words.{
  apr, aug, cdt, comments_prefix, cst, dec, edt, est, feb, fri, gmt, jan, jul, jun, mar, may, mdt,
  mon, mst, nov, oct, pdt, pst, sat, sep, subject_prefix, sun, thu, tue, ut, wed,
}

abbrev obs_no_ws_ctl : Rule
obs_no_ws_ctl =
    or_ (no_ws_ctl_low ▸ no_ws_ctl11 ▸ no_ws_ctl12 ▸ no_ws_ctl_mid ▸ no_ws_ctl_del ▸ nil)

abbrev obs_ctext : Rule
obs_ctext = obs_no_ws_ctl

abbrev obs_qtext : Rule
obs_qtext = obs_no_ws_ctl

abbrev obs_utext : Rule
obs_utext = or_ (nul ▸ obs_no_ws_ctl ▸ vchar ▸ nil)

abbrev text : Rule
text = or_ (text_low ▸ no_ws_ctl11 ▸ no_ws_ctl12 ▸ text_high ▸ nil)

abbrev ctext : Rule
ctext = or_ (ctext_low ▸ ctext_mid ▸ print_high ▸ obs_ctext ▸ nil)

abbrev qtext : Rule
qtext = or_ (qtext_char33 ▸ qtext_mid ▸ print_high ▸ obs_qtext ▸ nil)

abbrev obs_qp : Rule
obs_qp = declared "obs_qp" (and_ (back_slash ▸ (or_ (nul ▸ obs_no_ws_ctl ▸ lf ▸ cr ▸ nil)) ▸ nil))

abbrev quoted_pair : Rule
quoted_pair =
    declared "quoted_pair"
      (or_ ((and_ (back_slash ▸ (or_ (vchar ▸ wsp ▸ nil)) ▸ nil)) ▸ obs_qp ▸ nil))

abbrev obs_dtext : Rule
obs_dtext = declared "obs_dtext" (or_ (obs_no_ws_ctl ▸ quoted_pair ▸ nil))

abbrev dtext : Rule
dtext = or_ (dtext_low ▸ dtext_high ▸ obs_dtext ▸ nil)

abbrev ftext : Rule
ftext = or_ (ftext_low ▸ ftext_high ▸ nil)

abbrev atext : Rule
atext = or_ (
    alpha ▸ digit ▸ exclaimation ▸ hash ▸ dollar ▸ percent ▸ ampersand ▸ single_quote ▸ asterisk
    ▸ plus ▸ hyphen ▸ forward_slash ▸ equal ▸ question ▸ caret ▸ under_score ▸ apostrophe
    ▸ open_brace ▸ close_brace ▸ pipe ▸ tilde ▸ nil)

abbrev specials : Rule
specials = or_ (
    open_paran ▸ close_paran ▸ less_than ▸ greater_than ▸ open_bracket ▸ close_bracket ▸ colon
    ▸ semi_colon ▸ at ▸ back_slash ▸ comma ▸ period ▸ dquote ▸ nil)

abbrev obs_fws : Rule
obs_fws =
    declared "obs_FWS"
      (and_ ((one_or_more_ wsp) ▸ (zero_or_more_ (and_ (crlf ▸ (one_or_more_ wsp) ▸ nil))) ▸ nil))

abbrev pub fws : Rule
fws = declared "FWS" (
    or_ (
      (and_ ((zero_or_one_ (and_ ((zero_or_more_ wsp) ▸ crlf ▸ nil))) ▸ (one_or_more_ wsp) ▸ nil))
      ▸ obs_fws
      ▸ nil))

abbrev pub dot_atom_text : Rule
dot_atom_text = declared "dot_atom_text" (
    and_
      ((one_or_more_ atext) ▸ (zero_or_more_ (and_ (period ▸ (one_or_more_ atext) ▸ nil))) ▸ nil))

abbrev qcontent : Rule
qcontent = declared "qcontent" (or_ (qtext ▸ quoted_pair ▸ nil))

abbrev obs_unstruct_inner : Rule
obs_unstruct_inner = and_ (
    (zero_or_more_ lf)
    ▸ (zero_or_more_ cr)
    ▸ (zero_or_more_ (and_ (obs_utext ▸ (zero_or_more_ lf) ▸ (zero_or_more_ cr) ▸ nil)))
    ▸ nil)

abbrev obs_unstruct : Rule
obs_unstruct = declared "obs_unstruct" (zero_or_more_ (or_ (obs_unstruct_inner ▸ fws ▸ nil)))

abbrev unstructured : Rule
unstructured = declared "unstructured" (
    or_ (
      (and_ ((zero_or_more_ (and_ ((zero_or_one_ fws) ▸ vchar ▸ nil))) ▸ (zero_or_more_ wsp) ▸ nil))
      ▸ obs_unstruct
      ▸ nil))

abbrev day_name : Rule
day_name = declared "day_name" (or_ (mon ▸ tue ▸ wed ▸ thu ▸ fri ▸ sat ▸ sun ▸ nil))

abbrev month : Rule
month =
    declared "month"
      (or_ (jan ▸ feb ▸ mar ▸ apr ▸ may ▸ jun ▸ jul ▸ aug ▸ sep ▸ oct ▸ nov ▸ dec ▸ nil))

abbrev obs_zone : Rule
obs_zone = declared "obs_zone" (
    or_ (
      ut ▸ gmt ▸ est ▸ edt ▸ cst ▸ cdt ▸ mst ▸ mdt ▸ pst ▸ pdt ▸ zone_mil_upper_a ▸ zone_mil_upper_k
      ▸ zone_mil_lower_a ▸ zone_mil_lower_k ▸ nil))

abbrev zone : Rule
zone = declared "zone" (
    or_ (
      (and_
        (fws ▸ (or_ (plus ▸ hyphen ▸ nil)) ▸ (and_ (digit ▸ digit ▸ digit ▸ digit ▸ nil)) ▸ nil))
      ▸ (and_ (fws ▸ obs_zone ▸ nil))
      ▸ obs_zone
      ▸ nil))

abbrev obs_body_inner : Rule
obs_body_inner = and_ (
    (zero_or_more_ lf)
    ▸ (zero_or_more_ cr)
    ▸ (zero_or_more_
        (and_ ((or_ (nul ▸ text ▸ nil)) ▸ (zero_or_more_ lf) ▸ (zero_or_more_ cr) ▸ nil)))
    ▸ nil)

abbrev obs_body : Rule
obs_body = declared "obs_body" (zero_or_more_ (or_ (obs_body_inner ▸ crlf ▸ nil)))

abbrev body : Rule
body = declared "body" (
    or_ (
      (and_
        ((zero_or_more_ (and_ ((zero_or_more_ text) ▸ crlf ▸ nil))) ▸ (zero_or_more_ text) ▸ nil))
      ▸ obs_body
      ▸ nil))

abbrev no_fold_literal : Rule
no_fold_literal =
    declared "no_fold_literal" (and_ (open_bracket ▸ (zero_or_more_ dtext) ▸ close_bracket ▸ nil))

abbrev subject : Rule
subject = declared "subject" (and_ (subject_prefix ▸ unstructured ▸ crlf ▸ nil))

abbrev comments : Rule
comments = declared "comments" (and_ (comments_prefix ▸ unstructured ▸ crlf ▸ nil))

abbrev field_name : Rule
field_name = declared "field_name" (one_or_more_ ftext)

abbrev optional_field : Rule
optional_field = declared "optional_field" (and_ (field_name ▸ colon ▸ unstructured ▸ crlf ▸ nil))

abbrev obs_subject : Rule
obs_subject =
    declared "obs_subject"
      (and_ (subject_name ▸ (zero_or_more_ wsp) ▸ colon ▸ unstructured ▸ crlf ▸ nil))

abbrev obs_comments : Rule
obs_comments =
    declared "obs_comments"
      (and_ (comments_name ▸ (zero_or_more_ wsp) ▸ colon ▸ unstructured ▸ crlf ▸ nil))

abbrev obs_optional : Rule
obs_optional =
    declared "obs_optional"
      (and_ (field_name ▸ (zero_or_more_ wsp) ▸ colon ▸ unstructured ▸ crlf ▸ nil))
