-- ===== src/Text/Remove.antt =====
-- `remove` of include/xtd/string.hpp, which erases every occurrence of some characters.
use xtl.Prelude.{
  ℕ, zero, suc, ◌+◌, ◌≤◌, ◌<◌, Bool, true, false, Option, none, some, List, [], ◌∷◌, length, ◌==◌,
  if◌then◌else◌, ◌≡◌, refl, sym, ap, ◌∙◌, inl, inr, Bool-cases, Option-cases, arith,
}
use xtl.Text.{found_in}

-- `find` and `erase` of one character, or none where it is not found
unfoldable pub erase_char : ℕ → List ℕ → Option (List ℕ)
erase_char ch [] = none
erase_char ch (x ∷ s) =
    let rest = erase_char ch s in
    if ch == x then some s else elim rest [ none ↦ none | some t ↦ some (x ∷ t) ]

-- a round of the outer loop: the string afterwards, and `found`
unfoldable pub erase_each : List ℕ → List ℕ → List ℕ × Bool
unfolding erase_char
erase_each [] s = (s, false)
erase_each (ch ∷ chars) s = elim (erase_char ch s) [
  | none ↦ erase_each chars s
  | some t ↦ ((erase_each chars t).0, true)
]

-- The outer loop, with a bound on its rounds; none: they were used up before the loop ended.
unfoldable pub remove_loop : (rounds : ℕ) → List ℕ → List ℕ → Option (List ℕ)
unfolding erase_each
remove_loop zero chars s = none
remove_loop (suc rounds) chars s =
    let (t, found) = erase_each chars s in
    let rest = remove_loop rounds chars t in if found then rest else some t

-- Each round but the last erases a character.
unfoldable pub remove : List ℕ → List ℕ → Option (List ℕ)
unfolding remove_loop
remove chars s = remove_loop (length s + 1) chars s

-- the string without some characters
unfoldable pub without : List ℕ → List ℕ → List ℕ
without chars [] = []
without chars (x ∷ s) = let rest = without chars s in if found_in chars x then rest else x ∷ rest

abbrev content : Option (List ℕ) → List ℕ
content none = []
content (some s) = s

erase_char-without :
    (chars : List ℕ) (ch : ℕ) (s t : List ℕ)
    → found_in chars ch ≡ true
    → erase_char ch s ≡ some t
    → (without chars t ≡ without chars s) × (suc (length t) ≡ length s)
unfolding erase_char without
erase_char-without chars ch [] t f e = absurd (ground arith)
erase_char-without chars ch (x ∷ s) t f e = elim (Bool-cases (ch == x)) [
  | inl q ↦
      let c : ch ≡ x = ground arith in
      let e' = rw q at e in
      let f' : found_in chars x ≡ true = ap (found_in chars) (sym c) ∙ f in
      let d : s ≡ t = ap content e' in
      (rw f' (ap (without chars) (sym d)), ap (λ l. suc (length l)) (sym d))
  | inr q ↦ elim (Option-cases (erase_char ch s)) [
    | inl n ↦ let e' = rw (q, n) at e in absurd (ground arith)
    | inr (u, n) ↦
        let e' = rw (q, n) at e in
        let d : (x ∷ u) ≡ t = ap content e' in
        let (g, l) = erase_char-without chars ch s u f n in
        (
          ap (without chars) (sym d) ∙ ap (λ r. if found_in chars x then r else x ∷ r) g,
          ap (λ r. suc (length r)) (sym d) ∙ ap suc l,
        )
  ]
]

erase_char-none :
    (chars : List ℕ) (ch : ℕ) (s : List ℕ)
    → erase_char ch s ≡ none
    → without (ch ∷ chars) s ≡ without chars s
unfolding erase_char without found_in
erase_char-none chars ch [] e = refl
erase_char-none chars ch (x ∷ s) e = elim (Bool-cases (ch == x)) [
  | inl q ↦ let e' = rw q at e in absurd (ground arith)
  | inr q ↦ elim (Option-cases (erase_char ch s)) [
    | inl n ↦ rw (q, erase_char-none chars ch s n) refl
    | inr (u, n) ↦ let e' = rw (q, n) at e in absurd (ground arith)
  ]
]

-- each of the characters is one of `chars`
abbrev Among : List ℕ → List ℕ → Type 0
Among chars [] = Unit {0}
Among chars (ch ∷ some_chars) = (found_in chars ch ≡ true) × Among chars some_chars

Among-cons : (x : ℕ) (chars cs : List ℕ) → Among chars cs → Among (x ∷ chars) cs
unfolding found_in
Among-cons x chars [] a = tt
Among-cons x chars (ch ∷ cs) (f, a) = (ground arith, Among-cons x chars cs a)

Among-all : (chars : List ℕ) → Among chars chars
unfolding found_in
Among-all [] = tt
Among-all (x ∷ chars) = (ground arith, Among-cons x chars chars (Among-all chars))

-- What a round leaves
abbrev Round : List ℕ → List ℕ → List ℕ → List ℕ × Bool → Type 0
Round chars cs s r =
    (without chars r.0 ≡ without chars s)
    × (length r.0 + (if r.1 then 1 else 0) ≤ length s)
    × ((if r.1 then s else without cs s) ≡ (if r.1 then s else r.0))

without_none : (s : List ℕ) → without [] s ≡ s
unfolding without found_in
without_none [] = refl
without_none (x ∷ s) = ap (λ r. x ∷ r) (without_none s)

erase_each-hit :
    (ch : ℕ) (cs s t : List ℕ)
    → erase_char ch s ≡ some t
    → erase_each (ch ∷ cs) s ≡ ((erase_each cs t).0, true)
unfolding erase_each
erase_each-hit ch cs s t n = rw (n, erase_each) refl

erase_each-miss :
    (ch : ℕ) (cs s : List ℕ) → erase_char ch s ≡ none → erase_each (ch ∷ cs) s ≡ erase_each cs s
unfolding erase_each
erase_each-miss ch cs s n = rw (n, erase_each) refl

erase_each-Round : (chars cs s : List ℕ) → Among chars cs → Round chars cs s (erase_each cs s)
unfolding erase_each
erase_each-Round chars [] s a = (refl, omega arith, without_none s)
erase_each-Round chars (ch ∷ cs) s (f, a) = elim (Option-cases (erase_char ch s)) [
  | inl n ↦
      let (g, l, w) = erase_each-Round chars cs s a in
      rw (erase_each-miss ch cs s n, erase_char-none cs ch s n) (g, l, w)
  | inr (t, n) ↦
      let (g, l, w) = erase_each-Round chars cs t a in
      let (g', l') = erase_char-without chars ch s t f n in
      rw (erase_each-hit ch cs s t n) (g ∙ g', ground arith, refl)
]

remove_loop-without :
    (rounds : ℕ) (chars s : List ℕ)
    → length s < rounds
    → remove_loop rounds chars s ≡ some (without chars s)
unfolding remove_loop
remove_loop-without zero chars s h = absurd (omega arith)
remove_loop-without (suc rounds) chars s h =
    let (g, l, w) = erase_each-Round chars chars s (Among-all chars) in
    elim (Bool-cases ((erase_each chars s).1)) [
      | inl e ↦
          let l' = rw e at l in
          rw e (remove_loop-without rounds chars (erase_each chars s).0 (omega arith) ∙ ap some g)
      | inr e ↦ rw e (ap some (sym (rw e at w)))
    ]

-- The loop of `remove` ends within one round more than the string has characters, and what is left of
-- the string are the characters that are not in the list, in their order.
pub remove-without : (chars s : List ℕ) → remove chars s ≡ some (without chars s)
unfolding remove
remove-without chars s = remove_loop-without (length s + 1) chars s (omega arith)
