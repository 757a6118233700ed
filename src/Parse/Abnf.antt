-- ===== src/Parse/Abnf.antt =====
-- include/xtd/grammars/RFC5234.hpp: the core rules that other grammars share. Each rule stands under the
-- name that it has there, a character as its code.
use xtl.Parse.{Rule, declared, and_, or_, zero_or_more_, character, characters, nil, ◌▸◌}

abbrev pub cr : Rule
cr = character 13

abbrev pub lf : Rule
lf = character 10

abbrev pub sp : Rule
sp = character 32

abbrev pub htab : Rule
htab = character 9

abbrev pub dquote : Rule
dquote = character 34

abbrev pub digit : Rule
digit = characters 48 57

abbrev alpha_upper : Rule
alpha_upper = characters 65 90

abbrev alpha_lower : Rule
alpha_lower = characters 97 122

abbrev hex_lower : Rule
hex_lower = characters 97 102

abbrev hex_upper : Rule
hex_upper = characters 65 70

abbrev pub vchar : Rule
vchar = characters 33 126

abbrev ctl_low : Rule
ctl_low = characters 0 31

abbrev ctl_del : Rule
ctl_del = character 127

abbrev pub alpha : Rule
alpha = or_ (alpha_upper ▸ alpha_lower ▸ nil)

abbrev pub hexdig : Rule
hexdig = or_ (digit ▸ hex_lower ▸ hex_upper ▸ nil)

abbrev ctl : Rule
ctl = or_ (ctl_low ▸ ctl_del ▸ nil)

abbrev pub wsp : Rule
wsp = or_ (sp ▸ htab ▸ nil)

abbrev pub crlf : Rule
crlf = declared "CRLF" (and_ (cr ▸ lf ▸ nil))

abbrev lwsp : Rule
lwsp = declared "LWSP" (zero_or_more_ (or_ (wsp ▸ (and_ (crlf ▸ wsp ▸ nil)) ▸ nil)))
