-- ===== src/Parse/News/Characters.antt =====
-- include/xtd/grammars/RFC5536.hpp: articles of network news: its characters and classes of characters. Each rule stands under the
-- name that it has there, a character as its code.
use xtl.Parse.{Rule, character, characters}

abbrev pub colon : Rule
colon = character 58

abbrev semi_colon : Rule
semi_colon = character 59

abbrev pub exclaimation : Rule
exclaimation = character 33

abbrev pub period : Rule
period = character 46

abbrev pub hyphen : Rule
hyphen = character 45

abbrev pub under_score : Rule
under_score = character 95

abbrev pub plus : Rule
plus = character 43

abbrev pub open_bracket : Rule
open_bracket = character 91

abbrev pub close_bracket : Rule
close_bracket = character 93

abbrev pub open_brace : Rule
open_brace = character 123

abbrev pub close_brace : Rule
close_brace = character 125

abbrev pub less_than : Rule
less_than = character 60

abbrev pub greater_than : Rule
greater_than = character 62

abbrev pub at : Rule
at = character 64

abbrev pub comma : Rule
comma = character 44

abbrev equal : Rule
equal = character 61

abbrev forward_slash : Rule
forward_slash = character 47

abbrev pub hash : Rule
hash = character 35

abbrev pub dollar : Rule
dollar = character 36

abbrev pub percent : Rule
percent = character 37

abbrev pub ampersand : Rule
ampersand = character 38

abbrev pub single_quote : Rule
single_quote = character 39

abbrev pub asterisk : Rule
asterisk = character 42

abbrev pub caret : Rule
caret = character 94

abbrev pub backtick : Rule
backtick = character 96

abbrev pub pipe : Rule
pipe = character 124

abbrev pub tilde : Rule
tilde = character 126

abbrev pub mdtext_low : Rule
mdtext_low = characters 33 61

abbrev pub mdtext_mid : Rule
mdtext_mid = characters 63 90

abbrev pub mdtext_high : Rule
mdtext_high = characters 94 126

abbrev pub locator_low : Rule
locator_low = characters 33 39

abbrev pub locator_mid : Rule
locator_mid = characters 41 58

abbrev pub locator_high : Rule
locator_high = characters 60 126
