-- ===== src/Text/Pieces.antt =====
-- `split` by delimiters of include/xtd/string.hpp gives the pieces between the delimiters.
use xtl.Prelude.{
  ℕ, zero, suc, ◌+◌, ◌-◌, ◌≤◌, ◌<◌, Bool, none, some, List, [], ◌∷◌, length, take, drop,
  if◌then◌else◌, ◌≡◌, refl, ap, ◌∙◌, sym, inl, inr, Bool-cases, Option-cases, arith, length-drop,
  take_all,
}
use mathlib.Core.Option
use xtl.Text.{found_in}
use xtl.Text.Search.{find_from, find_from-ge, find_first, find_first_of_lem}
use xtl.Text.Split.{push, next_piece, split, split_loop}

-- The pieces of a text, read off one character after the other
abbrev pub first_add : ℕ → List (List ℕ) → List (List ℕ)
first_add x [] = []
first_add x (p ∷ ps) = (x ∷ p) ∷ ps

unfoldable pub pieces : (ℕ → Bool) → List ℕ → List (List ℕ)
pieces delimits [] = [] ∷ []
pieces delimits (x ∷ s) =
    let rest = pieces delimits s in if delimits x then [] ∷ rest else first_add x rest

-- the pieces without the empty ones, if `trim_empty`
unfoldable pub kept : Bool → List (List ℕ) → List (List ℕ)
kept trim_empty [] = []
kept trim_empty (p ∷ ps) = push trim_empty p (kept trim_empty ps)

drop-drop : (n m : ℕ) (s : List ℕ) → drop n (drop m s) ≡ drop (m + n) s
drop-drop n zero s = let e : 0 + n ≡ n = omega arith in rw e refl
drop-drop zero (suc m) [] = let e : suc m + 0 ≡ suc m = omega arith in rw e refl
drop-drop (suc n) (suc m) [] = let e : suc m + suc n ≡ suc (m + suc n) = omega arith in rw e refl
drop-drop n (suc m) (x ∷ s) =
    let e : suc m + n ≡ suc (m + n) = omega arith in rw e (drop-drop n m s)

module _ (f : ℕ → Bool) where
  pieces-none : (i : ℕ) (t : List ℕ) → find_from f i t ≡ none → pieces f t ≡ t ∷ []
  unfolding find_from pieces
  pieces-none i [] e = refl
  pieces-none i (x ∷ t) e = elim (Bool-cases (f x)) [
    | inl h ↦ absurd (ground arith)
    | inr h ↦ rw (h, pieces-none (i + 1) t (rw h at e)) refl
  ]

  find_from-lt : (i j : ℕ) (t : List ℕ) → find_from f i t ≡ some j → j < i + length t
  unfolding find_from
  find_from-lt i j [] e = absurd (ground arith)
  find_from-lt i j (x ∷ t) e = elim (Bool-cases (f x)) [
    | inl h ↦ ground arith
    | inr h ↦ let l = find_from-lt (i + 1) j t (rw h at e) in omega arith
  ]

  pieces-some :
      (i j : ℕ) (t : List ℕ)
      → find_from f i t ≡ some j
      → pieces f t ≡ take (j - i) t ∷ pieces f (drop (j + 1 - i) t)
  unfolding find_from pieces
  pieces-some i j [] e = absurd (ground arith)
  pieces-some i j (x ∷ t) e = elim (Bool-cases (f x)) [
    | inl h ↦
        let same : i ≡ j = ground arith in
        let a : j - i ≡ 0 = omega arith in let b : j + 1 - i ≡ 1 = omega arith in rw (h, a, b) refl
    | inr h ↦
        let e' = rw h at e in
        let l = find_from-ge f (i + 1) j t e' in
        let a : j - i ≡ suc (j - (i + 1)) = omega arith in
        let b : j + 1 - i ≡ suc (j + 1 - (i + 1)) = omega arith in
        rw (h, a, b) (ap (first_add x) (pieces-some (i + 1) j t e'))
  ]

split_loop-pieces :
    (delimiters : List ℕ) (trim_empty : Bool) (s : List ℕ) (rounds last_pos : ℕ)
    → last_pos ≤ length s
    → length s < rounds + last_pos
    → split_loop delimiters trim_empty s rounds last_pos
      ≡ some (kept trim_empty (pieces (found_in delimiters) (drop last_pos s)))
unfolding split_loop kept find_first
split_loop-pieces ds b s zero last le lt = absurd (omega arith)
split_loop-pieces ds b s (suc rounds) last le lt =
    let f = found_in ds in
    let same = find_first_of_lem ds s last in
    let round = next_piece b s last (split_loop ds b s rounds) in
    elim (Option-cases (find_from f last (drop last s))) [
      | inl e ↦
          let all =
            take_all (length s - last) (drop last s) (let n = length-drop last s in omega arith) in
          ap round (same ∙ e)
          ∙ ap (λ p. some (push b p [])) all
          ∙ ap (λ ps. some (kept b ps)) (sym (pieces-none f last (drop last s) e))
      | inr (pos, e) ↦
          let l = find_from-ge f last pos (drop last s) e in
          let m = find_from-lt f last pos (drop last s) e in
          let n = length-drop last s in
          let next : last + (pos + 1 - last) ≡ pos + 1 = omega arith in
          let after = drop-drop (pos + 1 - last) last s ∙ ap (λ k. drop k s) next in
          ap round (same ∙ e)
          ∙ ap (Option.map (push b (take (pos - last) (drop last s)))) (
              split_loop-pieces ds b s rounds (pos + 1) (omega arith) (omega arith)
              ∙ ap (λ t. some (kept b (pieces f t))) (sym after))
          ∙ ap (λ ps. some (kept b ps)) (sym (pieces-some f last pos (drop last s) e))
    ]

-- `split` by delimiters gives the pieces between them, the empty ones left out if `trim_empty`. Its
-- loop ends within the rounds it is given, one more than the length of the string.
pub split_lem :
    (delimiters : List ℕ) (trim_empty : Bool) (s : List ℕ)
    → split delimiters trim_empty s ≡ some (kept trim_empty (pieces (found_in delimiters) s))
unfolding split
split_lem ds b s = split_loop-pieces ds b s (suc (length s)) 0 (omega arith) (omega arith)
