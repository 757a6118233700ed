-- ===== src/Parse/Mail/Characters.antt =====
-- include/xtd/grammars/RFC5322.hpp: messages of electronic mail: its characters and classes of characters. Each rule stands under the
-- name that it has there, a character as its code.
use xtl.Parse.{Rule, character, characters}

abbrev pub back_slash : Rule
back_slash = character 92

abbrev pub open_paran : Rule
open_paran = character 40

abbrev pub close_paran : Rule
close_paran = character 41

abbrev pub less_than : Rule
less_than = character 60

abbrev pub greater_than : Rule
greater_than = character 62

abbrev pub open_bracket : Rule
open_bracket = character 91

abbrev pub close_bracket : Rule
close_bracket = character 93

abbrev pub colon : Rule
colon = character 58

abbrev pub semi_colon : Rule
semi_colon = character 59

abbrev pub at : Rule
at = character 64

abbrev pub comma : Rule
comma = character 44

abbrev pub period : Rule
period = character 46

abbrev pub exclaimation : Rule
exclaimation = character 33

abbrev pub hash : Rule
hash = character 35

abbrev pub dollar : Rule
dollar = character 36

abbrev pub percent : Rule
percent = character 37

abbrev pub ampersand : Rule
ampersand = character 38

abbrev pub single_quote : Rule
single_quote = character 39

abbrev pub asterisk : Rule
asterisk = character 42

abbrev pub plus : Rule
plus = character 43

abbrev pub hyphen : Rule
hyphen = character 45

abbrev pub forward_slash : Rule
forward_slash = character 47

abbrev pub equal : Rule
equal = character 61

abbrev pub question : Rule
question = character 63

abbrev pub caret : Rule
caret = character 94

abbrev pub under_score : Rule
under_score = character 95

abbrev pub apostrophe : Rule
apostrophe = character 96

abbrev pub open_brace : Rule
open_brace = character 123

abbrev pub close_brace : Rule
close_brace = character 125

abbrev pub pipe : Rule
pipe = character 124

abbrev pub tilde : Rule
tilde = character 126

abbrev pub nul : Rule
nul = character 0

abbrev pub no_ws_ctl_low : Rule
no_ws_ctl_low = characters 1 8

abbrev pub no_ws_ctl11 : Rule
no_ws_ctl11 = character 11

abbrev pub no_ws_ctl12 : Rule
no_ws_ctl12 = character 12

abbrev pub no_ws_ctl_mid : Rule
no_ws_ctl_mid = characters 14 31

abbrev pub no_ws_ctl_del : Rule
no_ws_ctl_del = character 127

abbrev pub text_low : Rule
text_low = characters 1 9

abbrev pub text_high : Rule
text_high = characters 14 127

abbrev pub ctext_low : Rule
ctext_low = characters 33 39

abbrev pub ctext_mid : Rule
ctext_mid = characters 42 91

abbrev pub print_high : Rule
print_high = characters 93 126

abbrev pub qtext_char33 : Rule
qtext_char33 = character 33

abbrev pub qtext_mid : Rule
qtext_mid = characters 35 91

abbrev pub dtext_low : Rule
dtext_low = characters 33 90

abbrev pub dtext_high : Rule
dtext_high = characters 94 126

abbrev pub ftext_low : Rule
ftext_low = characters 33 57

abbrev pub ftext_high : Rule
ftext_high = characters 59 126

abbrev pub zone_mil_upper_a : Rule
zone_mil_upper_a = characters 65 73

abbrev pub zone_mil_upper_k : Rule
zone_mil_upper_k = characters 75 90

abbrev pub zone_mil_lower_a : Rule
zone_mil_lower_a = characters 97 105

abbrev pub zone_mil_lower_k : Rule
zone_mil_lower_k = characters 107 122
