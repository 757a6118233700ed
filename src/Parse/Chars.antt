-- ===== src/Parse/Chars.antt =====
-- include/xtd/parse.hpp: the context, whitespace, and the tests of the terminals on characters. The
-- codes are those of ASCII, where `char` compares as they do; the ranges of the grammars that end at 255
-- start at 128, and hold the same characters whether `char` is signed or not.
use xtl.Prelude.{
  ℕ, ◌+◌, ◌-◌, Bool, true, false, Option, none, some, List, [], ◌∷◌, ◌==◌, leb, ◌&&◌, ◌||◌,
  if◌then◌else◌,
}

-- 'A' is 65, 'Z' 90, 'a' 97 and 'z' 122.
unfoldable pub to_lower_ch : ℕ → ℕ
to_lower_ch ch = if leb 65 ch && leb ch 90 then ch - 65 + 97 else ch

unfoldable pub swap_case_ch : ℕ → ℕ
swap_case_ch ch =
    if leb 65 ch && leb ch 90
    then ch - 65 + 97
    else (if leb 97 ch && leb ch 122 then ch - 97 + 65 else ch)

unfoldable pub char_match : ℕ → ℕ → Bool → Bool
unfolding to_lower_ch
char_match a b true = to_lower_ch a == to_lower_ch b
char_match a b false = a == b

-- `context`; its other members are not read by the matcher.
pub record Context : Type 0 where
  pub ignore_whitespace : Bool
  pub ignore_case : Bool
  pub whitespace_chars : List ℕ

unfoldable pub contains : List ℕ → ℕ → Bool
contains [] ch = false
contains (x ∷ xs) ch = x == ch || contains xs ch

unfoldable pub is_whitespace : Context → ℕ → Bool
unfolding contains
is_whitespace c ch = c.ignore_whitespace && contains c.whitespace_chars ch

unfoldable pub skip_ws : Context → List ℕ → List ℕ
unfolding is_whitespace
skip_ws c [] = []
skip_ws c (x ∷ s) = let rest = skip_ws c s in if is_whitespace c x then rest else x ∷ s

-- The text after the literal, if it starts with it.
unfoldable pub match_string : Context → List ℕ → List ℕ → Option (List ℕ)
unfolding char_match
match_string c [] s = some s
match_string c (x ∷ w) [] = none
match_string c (x ∷ w) (y ∷ s) =
    let rest = match_string c w s in if char_match y x c.ignore_case then rest else none

unfoldable pub match_char : Context → ℕ → List ℕ → Option (List ℕ)
unfolding char_match
match_char c ch [] = none
match_char c ch (y ∷ s) = if char_match y ch c.ignore_case then some s else none

unfoldable pub in_range : ℕ → ℕ → ℕ → Bool
in_range first last x =
    if leb first last then leb first x && leb x last else leb x first && leb last x

unfoldable pub match_range : Context → ℕ → ℕ → List ℕ → Option (List ℕ)
unfolding in_range swap_case_ch
match_range c first last [] = none
match_range c first last (y ∷ s) =
    if in_range first last y || (c.ignore_case && in_range first last (swap_case_ch y))
    then some s
    else none
