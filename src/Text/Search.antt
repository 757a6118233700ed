-- ===== src/Text/Search.antt =====
-- `find_first_of` of include/xtd/string.hpp. A position is an index; `npos` is `none`.
use xtl.Prelude.{
  ℕ, ◌+◌, ◌≤◌, Bool, true, false, Option, none, some, List, [], ◌∷◌, drop, ltb, ◌==◌, if◌then◌else◌,
  ◌≡◌, refl, sym, ap, ◌∙◌, inl, inr, Bool-cases, arith,
}
use xtl.Text.{found_in}

-- the first position from `i` on, where the text `s` starts, at which the visitor returns true
unfoldable pub find_from : (ℕ → Bool) → ℕ → List ℕ → Option ℕ
find_from visit i [] = none
find_from visit i (x ∷ s) = let rest = find_from visit (i + 1) s in if visit x then some i else rest

-- `find_first_of` of a visitor
unfoldable pub find_first : (ℕ → Bool) → List ℕ → ℕ → Option ℕ
unfolding find_from
find_first visit s pos = find_from visit pos (drop pos s)

-- `basic_string::find_first_of` of one character
unfoldable pub find_char : ℕ → List ℕ → ℕ → Option ℕ
unfolding find_first
find_char ch s pos = find_first (λ x. ch == x) s pos

-- `iRet` after a delimiter that is first found at `x`
abbrev pub nearer : Option ℕ → Option ℕ → Option ℕ
nearer none ret = ret
nearer (some x) none = some x
nearer (some x) (some ret) = if ltb x ret then some x else some ret

unfoldable pub delimiter_loop : List ℕ → List ℕ → ℕ → Option ℕ → Option ℕ
unfolding find_char
delimiter_loop [] s pos ret = ret
delimiter_loop (ch ∷ delimiters) s pos ret =
    delimiter_loop delimiters s pos (nearer (find_char ch s pos) ret)

-- `find_first_of` of a list of delimiters
unfoldable pub find_first_of : List ℕ → List ℕ → ℕ → Option ℕ
unfolding delimiter_loop
find_first_of delimiters s pos = delimiter_loop delimiters s pos none

either : (ℕ → Bool) → (ℕ → Bool) → ℕ → Bool
either p q x = if p x then true else q x

pub find_from-ge : (p : ℕ → Bool) (i j : ℕ) (s : List ℕ) → find_from p i s ≡ some j → i ≤ j
unfolding find_from
find_from-ge p i j [] e = absurd (ground arith)
find_from-ge p i j (x ∷ s) e = elim (Bool-cases (p x)) [
  | inl h ↦ ground arith
  | inr h ↦ let l = find_from-ge p (i + 1) j s (rw h at e) in omega arith
]

nearer-first :
    (i : ℕ) (o : Option ℕ) → ((j : ℕ) → o ≡ some j → i + 1 ≤ j) → nearer (some i) o ≡ some i
nearer-first i none h = refl
nearer-first i (some j) h = ground (arith, h j refl)

nearer-second :
    (i : ℕ) (o : Option ℕ) → ((j : ℕ) → o ≡ some j → i + 1 ≤ j) → nearer o (some i) ≡ some i
nearer-second i none h = refl
nearer-second i (some j) h = ground (arith, h j refl)

find_from-either :
    (p q : ℕ → Bool) (i : ℕ) (s : List ℕ)
    → nearer (find_from p i s) (find_from q i s) ≡ find_from (either q p) i s
unfolding find_from either
find_from-either p q i [] = refl
find_from-either p q i (x ∷ s) = elim (Bool-cases (p x)) [
  | inl a ↦ elim (Bool-cases (q x)) [
    | inl b ↦ rw (a, b) (ground arith)
    | inr b ↦ rw (a, b) (nearer-first i (find_from q (i + 1) s) (λ j. find_from-ge q (i + 1) j s))
  ]
  | inr a ↦ elim (Bool-cases (q x)) [
    | inl b ↦ rw (a, b) (nearer-second i (find_from p (i + 1) s) (λ j. find_from-ge p (i + 1) j s))
    | inr b ↦ rw (a, b) (find_from-either p q (i + 1) s)
  ]
]

-- one of the delimiters, or what `q` says
abbrev any_of : List ℕ → (ℕ → Bool) → ℕ → Bool
any_of [] q = q
any_of (ch ∷ delimiters) q = any_of delimiters (either q (λ x. ch == x))

delimiter_loop-any_of :
    (delimiters s : List ℕ) (pos : ℕ) (q : ℕ → Bool)
    → delimiter_loop delimiters s pos (find_first q s pos) ≡ find_first (any_of delimiters q) s pos
unfolding delimiter_loop
delimiter_loop-any_of [] s pos q = refl
delimiter_loop-any_of (ch ∷ delimiters) s pos q =
    ap (delimiter_loop delimiters s pos) (find_from-either (λ x. ch == x) q pos (drop pos s))
    ∙ delimiter_loop-any_of delimiters s pos (either q (λ x. ch == x))

any_of-found_in :
    (delimiters : List ℕ) (q : ℕ → Bool) (x : ℕ)
    → any_of delimiters q x ≡ (if q x then true else found_in delimiters x)
unfolding found_in either
any_of-found_in [] q x = ground arith
any_of-found_in (ch ∷ delimiters) q x =
    any_of-found_in delimiters (either q (λ y. ch == y)) x ∙ ground arith

find_from-cong :
    (p q : ℕ → Bool) (i : ℕ) (s : List ℕ)
    → ((x : ℕ) → p x ≡ q x)
    → find_from p i s ≡ find_from q i s
unfolding find_from
find_from-cong p q i [] h = refl
find_from-cong p q i (x ∷ s) h = rw (h x, find_from-cong p q (i + 1) s h) refl

find_from-never : (i : ℕ) (s : List ℕ) → find_from (λ x. false) i s ≡ none
unfolding find_from
find_from-never i [] = refl
find_from-never i (x ∷ s) = find_from-never (i + 1) s

-- `find_first_of` of a list of delimiters, which keeps the least of their first positions, finds the
-- first position from `pos` on where one of them stands.
pub find_first_of_lem :
    (delimiters s : List ℕ) (pos : ℕ)
    → find_first_of delimiters s pos ≡ find_first (found_in delimiters) s pos
unfolding find_first_of
find_first_of_lem delimiters s pos =
    ap (delimiter_loop delimiters s pos) (sym (find_from-never pos (drop pos s)))
    ∙ delimiter_loop-any_of delimiters s pos (λ x. false)
    ∙ find_from-cong (any_of delimiters (λ x. false)) (found_in delimiters) pos (drop pos s)
        (any_of-found_in delimiters (λ x. false))
