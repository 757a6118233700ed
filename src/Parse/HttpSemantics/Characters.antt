-- ===== src/Parse/HttpSemantics/Characters.antt =====
-- include/xtd/grammars/RFC7231.hpp: the header fields of HTTP: its characters and classes of characters. Each rule stands under the
-- name that it has there, a character as its code.
use xtl.Parse.{Rule, character}

abbrev pub colon : Rule
colon = character 58

abbrev pub forward_slash : Rule
forward_slash = character 47

abbrev pub asterisk : Rule
asterisk = character 42

abbrev pub comma : Rule
comma = character 44

abbrev pub semi_colon : Rule
semi_colon = character 59

abbrev pub equal : Rule
equal = character 61

abbrev pub hyphen : Rule
hyphen = character 45

abbrev pub period : Rule
period = character 46

abbrev pub digits_0 : Rule
digits_0 = character 48

abbrev pub digits_1 : Rule
digits_1 = character 49

abbrev pub q : Rule
q = character 113
