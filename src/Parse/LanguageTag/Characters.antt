-- ===== src/Parse/LanguageTag/Characters.antt =====
-- include/xtd/grammars/RFC5646.hpp: language tags: its characters and classes of characters. Each rule stands under the
-- name that it has there, a character as its code.
use xtl.Parse.{Rule, character, characters}

abbrev pub hyphen : Rule
hyphen = character 45

abbrev pub x : Rule
x = character 120

abbrev pub singleton_upper_aw : Rule
singleton_upper_aw = characters 65 87

abbrev pub singleton_upper_yz : Rule
singleton_upper_yz = characters 89 90

abbrev pub singleton_lower_aw : Rule
singleton_lower_aw = characters 97 119

abbrev pub singleton_lower_yz : Rule
singleton_lower_yz = characters 121 122
