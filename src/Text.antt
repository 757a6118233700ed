-- ===== src/Text.antt =====
-- include/xtd/string.hpp: operations of `xstring` on the characters of one string. A string is the list
-- of its codes; `space` is the platform's `iswspace`, a parameter.
pub mod Trim
pub mod Suffix
pub mod Search
pub mod Split
pub mod Pieces
pub mod Remove
use xtl.Prelude.{
  ℕ, zero, suc, Bool, true, false, List, [], ◌∷◌, ◌==◌, ◌&&◌, ◌||◌, not, if◌then◌else◌,
}
use mathlib.Core.List.{reverse}

-- `ends_with`, on the two strings from their ends
unfoldable pub ends_loop : List ℕ → List ℕ → Bool
ends_loop dest [] = true
ends_loop [] (x ∷ src) = false
ends_loop (y ∷ dest) (x ∷ src) = let rest = ends_loop dest src in if x == y then rest else false

unfoldable pub ends_with : List ℕ → List ℕ → Bool
unfolding ends_loop
ends_with s suffix = ends_loop (reverse s) (reverse suffix)

module _ (space : ℕ → Bool) where
  unfoldable pub ltrim : List ℕ → List ℕ
  ltrim [] = []
  ltrim (x ∷ s) = let rest = ltrim s in if not (space x) then x ∷ s else rest

  -- the loop of `rtrim` on the string from its end; the first character is not looked at
  unfoldable pub rtrim_loop : List ℕ → List ℕ
  rtrim_loop [] = []
  rtrim_loop (x ∷ []) = x ∷ []
  rtrim_loop (x ∷ y ∷ r) =
      let rest = rtrim_loop (y ∷ r) in if not (space x) && not (x == 0) then x ∷ y ∷ r else rest

  unfoldable pub rtrim : List ℕ → List ℕ
  unfolding rtrim_loop
  rtrim s = reverse (rtrim_loop (reverse s))

  unfoldable pub trim : List ℕ → List ℕ
  unfolding ltrim rtrim
  trim s = rtrim (ltrim s)

-- `oFind == oCh` for one of the items
unfoldable pub found_in : List ℕ → ℕ → Bool
found_in [] ch = false
found_in (x ∷ items) ch = let rest = found_in items ch in if x == ch then true else rest

-- `replace` of a list of characters by one
unfoldable pub replace : List ℕ → ℕ → List ℕ → List ℕ
unfolding found_in
replace items ch [] = []
replace items ch (x ∷ s) = (if found_in items x then ch else x) ∷ replace items ch s
