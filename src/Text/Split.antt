-- ===== src/Text/Split.antt =====
-- `split` of include/xtd/string.hpp.
use xtl.Prelude.{
  ℕ, zero, suc, ◌+◌, ◌-◌, Bool, true, false, Option, none, some, List, [], ◌∷◌, ◌++◌, length, take,
  drop, if◌then◌else◌, ◌≡◌, refl, ap, ◌∙◌, inl, inr, Bool-cases,
}
use xtl.Text.Search.{find_first_of}
use mathlib.Core.List.{flatten, append_assoc}
use mathlib.Core.Option

-- `push_back` of a piece, which `trimEmpty` leaves out if it is empty
abbrev pub push : Bool → List ℕ → List (List ℕ) → List (List ℕ)
push true [] out = out
push true (x ∷ piece) out = (x ∷ piece) ∷ out
push false piece out = piece ∷ out

-- a round of `split` by delimiters, with what `find_first_of` returned and the rounds that follow
abbrev pub next_piece :
    Bool → List ℕ → ℕ → (ℕ → Option (List (List ℕ))) → Option ℕ → Option (List (List ℕ))
next_piece trim_empty s last_pos go none =
    some (push trim_empty (take (length s - last_pos) (drop last_pos s)) [])
next_piece trim_empty s last_pos go (some pos) =
    Option.map (push trim_empty (take (pos - last_pos) (drop last_pos s))) (go (pos + 1))

-- The loop, with a bound on its rounds; none: they were used up before the loop ended.
unfoldable pub split_loop : List ℕ → Bool → List ℕ → (rounds last_pos : ℕ) → Option (List (List ℕ))
unfolding find_first_of
split_loop delimiters trim_empty s zero last_pos = none
split_loop delimiters trim_empty s (suc rounds) last_pos =
    next_piece trim_empty s last_pos (split_loop delimiters trim_empty s rounds)
      (find_first_of delimiters s last_pos)

unfoldable pub split : List ℕ → Bool → List ℕ → Option (List (List ℕ))
unfolding split_loop
split delimiters trim_empty s = split_loop delimiters trim_empty s (suc (length s)) 0

-- The loop of `split` by a visitor, with the text from `iLast` to `iCurr` and the text from there. A
-- delimiter is a piece of its own.
unfoldable pub split_visit : (ℕ → Bool) → List ℕ → List ℕ → List (List ℕ)
split_visit visit [] [] = []
split_visit visit (y ∷ piece) [] = (y ∷ piece) ∷ []
split_visit visit [] (x ∷ s) =
    let found = split_visit visit [] s in
    let more = split_visit visit (x ∷ []) s in if visit x then (x ∷ []) ∷ found else more
split_visit visit (y ∷ piece) (x ∷ s) =
    let found = split_visit visit [] s in
    let more = split_visit visit (y ∷ piece ++ (x ∷ [])) s in
    if visit x then (y ∷ piece) ∷ (x ∷ []) ∷ found else more

unfoldable pub split_by : (ℕ → Bool) → List ℕ → List (List ℕ)
unfolding split_visit
split_by visit s = split_visit visit [] s

flatten-split_visit :
    (visit : ℕ → Bool) (piece s : List ℕ) → flatten (split_visit visit piece s) ≡ piece ++ s
unfolding split_visit flatten
flatten-split_visit visit [] [] = refl
flatten-split_visit visit (y ∷ piece) [] = refl
flatten-split_visit visit [] (x ∷ s) = elim (Bool-cases (visit x)) [
  | inl e ↦ rw e (ap (λ t. x ∷ t) (flatten-split_visit visit [] s))
  | inr e ↦ rw e (flatten-split_visit visit (x ∷ []) s)
]
flatten-split_visit visit (y ∷ piece) (x ∷ s) = elim (Bool-cases (visit x)) [
  | inl e ↦ rw e (ap (λ t. y ∷ piece ++ (x ∷ t)) (flatten-split_visit visit [] s))
  | inr e ↦ rw e (
      flatten-split_visit visit (y ∷ piece ++ (x ∷ [])) s
      ∙ ap (λ t. y ∷ t) (append_assoc piece (x ∷ []) s))
]

-- The pieces of `split` by a visitor, put together, are the string.
pub flatten-split_by : (visit : ℕ → Bool) (s : List ℕ) → flatten (split_by visit s) ≡ s
unfolding split_by
flatten-split_by visit s = flatten-split_visit visit [] s
