-- ===== src/Parse/Http/Characters.antt =====
-- include/xtd/grammars/RFC7230.hpp: the messages of HTTP: its characters and classes of characters. Each rule stands under the
-- name that it has there, a character as its code.
use xtl.Parse.{Rule, character, characters}

abbrev pub colon : Rule
colon = character 58

abbrev pub forward_slash : Rule
forward_slash = character 47

abbrev pub question : Rule
question = character 63

abbrev pub hash : Rule
hash = character 35

abbrev pub asterisk : Rule
asterisk = character 42

abbrev pub comma : Rule
comma = character 44

abbrev pub semi_colon : Rule
semi_colon = character 59

abbrev pub equal : Rule
equal = character 61

abbrev pub back_slash : Rule
back_slash = character 92

abbrev open_paran : Rule
open_paran = character 40

abbrev close_paran : Rule
close_paran = character 41

abbrev pub exclaimation : Rule
exclaimation = character 33

abbrev pub dollar : Rule
dollar = character 36

abbrev pub percent : Rule
percent = character 37

abbrev pub ampersand : Rule
ampersand = character 38

abbrev pub single_quote : Rule
single_quote = character 39

abbrev pub plus : Rule
plus = character 43

abbrev pub hyphen : Rule
hyphen = character 45

abbrev pub period : Rule
period = character 46

abbrev pub caret : Rule
caret = character 94

abbrev pub under_score : Rule
under_score = character 95

abbrev pub grave : Rule
grave = character 96

abbrev pub pipe : Rule
pipe = character 124

abbrev pub tilde : Rule
tilde = character 126

abbrev pub digits_0 : Rule
digits_0 = character 48

abbrev pub digits_1 : Rule
digits_1 = character 49

abbrev pub q : Rule
q = character 113

abbrev pub ctext_low : Rule
ctext_low = characters 33 39

abbrev pub ctext_mid : Rule
ctext_mid = characters 42 91

abbrev pub ctext_high : Rule
ctext_high = characters 93 126

abbrev pub qdtext_bang : Rule
qdtext_bang = character 33

abbrev pub qdtext_mid : Rule
qdtext_mid = characters 35 91

abbrev pub qdtext_high : Rule
qdtext_high = characters 93 126

abbrev pub obs_text : Rule
obs_text = characters 128 255

abbrev pub octet_ascii : Rule
octet_ascii = characters 0 127
