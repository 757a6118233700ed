-- ===== src/Parse/Uri/Terminals.antt =====
-- include/xtd/grammars/RFC3986.hpp: the terminals and the classes of characters. A character
-- stands as its ASCII code.
use xtl.Prelude.{codes}
use xtl.Parse.{Rule, or_, string, character, characters, nil, ◌▸◌}

abbrev pub alpha_lower : Rule
alpha_lower = characters 97 122

abbrev pub alpha_upper : Rule
alpha_upper = characters 65 90

abbrev pub digit : Rule
digit = characters 48 57

abbrev pub hex_lower : Rule
hex_lower = characters 97 102

abbrev pub hex_upper : Rule
hex_upper = characters 65 70

abbrev pub colon : Rule
colon = character 58

abbrev pub forward_slash : Rule
forward_slash = character 47

abbrev pub question : Rule
question = character 63

abbrev pub hash : Rule
hash = character 35

abbrev pub open_bracket : Rule
open_bracket = character 91

abbrev pub close_bracket : Rule
close_bracket = character 93

abbrev pub at : Rule
at = character 64

abbrev pub exclaimation : Rule
exclaimation = character 33

abbrev pub dollar : Rule
dollar = character 36

abbrev pub ampersand : Rule
ampersand = character 38

abbrev pub single_quote : Rule
single_quote = character 39

abbrev pub open_paran : Rule
open_paran = character 40

abbrev pub close_paran : Rule
close_paran = character 41

abbrev pub asterisk : Rule
asterisk = character 42

abbrev pub plus : Rule
plus = character 43

abbrev pub comma : Rule
comma = character 44

abbrev pub semi_colon : Rule
semi_colon = character 59

abbrev pub equal : Rule
equal = character 61

abbrev pub hyphen : Rule
hyphen = character 45

abbrev pub period : Rule
period = character 46

abbrev pub under_score : Rule
under_score = character 95

abbrev pub tilde : Rule
tilde = character 126

abbrev pub percent : Rule
percent = character 37

abbrev pub v_char : Rule
v_char = character 118

abbrev pub digit_0 : Rule
digit_0 = character 48

abbrev pub digit_1 : Rule
digit_1 = character 49

abbrev pub digit_2 : Rule
digit_2 = character 50

abbrev pub digit_3 : Rule
digit_3 = character 51

abbrev pub digit_4 : Rule
digit_4 = character 52

abbrev pub digit_5 : Rule
digit_5 = character 53

abbrev pub digit_6 : Rule
digit_6 = character 54

abbrev pub digit_7 : Rule
digit_7 = character 55

abbrev pub digit_8 : Rule
digit_8 = character 56

abbrev pub digit_9 : Rule
digit_9 = character 57

abbrev pub double_forward_slash : Rule
double_forward_slash = string (codes "//")

abbrev pub colon_colon : Rule
colon_colon = string (codes "::")

abbrev pub digit_25 : Rule
digit_25 = string (codes "25")

abbrev pub alpha : Rule
alpha = or_ (alpha_lower ▸ alpha_upper ▸ nil)

abbrev pub alpha_numeric : Rule
alpha_numeric = or_ (alpha ▸ digit ▸ nil)

abbrev pub hex_digit : Rule
hex_digit = or_ (digit ▸ hex_lower ▸ hex_upper ▸ nil)

abbrev pub gen_delims : Rule
gen_delims = or_ (colon ▸ forward_slash ▸ question ▸ hash ▸ open_bracket ▸ close_bracket ▸ at ▸ nil)

abbrev pub sub_delims : Rule
sub_delims = or_ (
    exclaimation ▸ dollar ▸ ampersand ▸ single_quote ▸ open_paran ▸ close_paran ▸ asterisk ▸ plus
    ▸ comma ▸ semi_colon ▸ equal ▸ nil)

abbrev pub unreserved : Rule
unreserved = or_ (alpha_numeric ▸ hyphen ▸ period ▸ under_score ▸ tilde ▸ nil)

abbrev pub reserved : Rule
reserved = or_ (gen_delims ▸ sub_delims ▸ nil)
