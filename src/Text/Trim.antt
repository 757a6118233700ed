-- ===== src/Text/Trim.antt =====
-- What `trim` and `rtrim` of include/xtd/string.hpp cut off, and what they leave.
use xtl.Prelude.{
  ℕ, Bool, true, List, [], ◌∷◌, ◌++◌, ◌==◌, ◌&&◌, ◌||◌, not, ◌≡◌, refl, sym, ap, ◌∙◌, inl, inr,
  Bool-cases, arith,
}
use xtl.Text.{ltrim, rtrim, rtrim_loop, trim}
use mathlib.Core.List.{reverse, reverse-cons, reverse-append, reverse-reverse}

module _ (space : ℕ → Bool) where
  -- what `rtrim` cuts off at the end
  abbrev pub blank : ℕ → Bool
  blank x = space x || (x == 0)

  unfoldable pub all : (ℕ → Bool) → List ℕ → Bool
  all p [] = true
  all p (x ∷ s) = p x && all p s

  ltrim-split : (s : List ℕ) → (p : List ℕ) × (s ≡ p ++ ltrim space s) × (all space p ≡ true)
  unfolding ltrim all
  ltrim-split [] = ([], refl, refl)
  ltrim-split (x ∷ s) = elim (Bool-cases (space x)) [
    | inl e ↦ let (p, q, a) = ltrim-split s in rw e (x ∷ p, ap (λ r. x ∷ r) q, rw (e, a) refl)
    | inr e ↦ rw e ([], refl, refl)
  ]

  all-append :
      (f : ℕ → Bool) (s t : List ℕ) → all f s ≡ true → all f t ≡ true → all f (s ++ t) ≡ true
  unfolding all
  all-append f [] t a b = b
  all-append f (x ∷ s) t a b = elim (Bool-cases (f x)) [
    | inl e ↦ rw e (all-append f s t (rw e at a) b)
    | inr e ↦ absurd (ground arith)
  ]

  all-reverse : (f : ℕ → Bool) (s : List ℕ) → all f s ≡ true → all f (reverse s) ≡ true
  unfolding all
  all-reverse f [] a = refl
  all-reverse f (x ∷ s) a = elim (Bool-cases (f x)) [
    | inl e ↦
        rw (reverse-cons x s)
          (all-append f (reverse s) (x ∷ []) (all-reverse f s (rw e at a)) (rw e refl))
    | inr e ↦ absurd (ground arith)
  ]

  rtrim_loop-split :
      (r : List ℕ) → (q : List ℕ) × (r ≡ q ++ rtrim_loop space r) × (all blank q ≡ true)
  unfolding rtrim_loop all
  rtrim_loop-split [] = ([], refl, refl)
  rtrim_loop-split (x ∷ []) = ([], refl, refl)
  rtrim_loop-split (x ∷ y ∷ r) = elim (Bool-cases (not (space x) && not (x == 0))) [
    | inl e ↦ rw e ([], refl, refl)
    | inr e ↦
        let (q, h, a) = rtrim_loop-split (y ∷ r) in
        let b : blank x ≡ true = ground arith in rw e (x ∷ q, ap (λ t. x ∷ t) h, rw (b, a) refl)
  ]

  -- A string that does not start with whitespace.
  abbrev pub first_ok : List ℕ → Bool
  first_ok [] = true
  first_ok (x ∷ s) = not (space x)

  -- A reversed string that does not end with a blank, or has one character only.
  abbrev pub last_ok : List ℕ → Bool
  last_ok [] = true
  last_ok (x ∷ []) = true
  last_ok (x ∷ y ∷ r) = not (blank x)

  first_ok-prefix : (t q : List ℕ) → first_ok (t ++ q) ≡ true → first_ok t ≡ true
  first_ok-prefix [] q e = refl
  first_ok-prefix (x ∷ t) q e = e

  ltrim-first_ok : (s : List ℕ) → first_ok (ltrim space s) ≡ true
  unfolding ltrim
  ltrim-first_ok [] = refl
  ltrim-first_ok (x ∷ s) = elim (Bool-cases (space x)) [
    | inl e ↦ rw e (ltrim-first_ok s)
    | inr e ↦ rw e (rw e refl)
  ]

  rtrim_loop-last_ok : (r : List ℕ) → last_ok (rtrim_loop space r) ≡ true
  unfolding rtrim_loop
  rtrim_loop-last_ok [] = refl
  rtrim_loop-last_ok (x ∷ []) = refl
  rtrim_loop-last_ok (x ∷ y ∷ r) = elim (Bool-cases (not (space x) && not (x == 0))) [
    | inl e ↦ rw e (ground arith)
    | inr e ↦ rw e (rtrim_loop-last_ok (y ∷ r))
  ]

  rtrim-split : (s : List ℕ) → (q : List ℕ) × (s ≡ rtrim space s ++ q) × (all blank q ≡ true)
  unfolding rtrim
  rtrim-split s =
      let (q, h, a) = rtrim_loop-split (reverse s) in
      (
        reverse q,
        sym (reverse-reverse s) ∙ ap reverse h ∙ reverse-append q (rtrim_loop space (reverse s)),
        all-reverse blank q a,
      )

  rtrim-last_ok : (s : List ℕ) → last_ok (reverse (rtrim space s)) ≡ true
  unfolding rtrim
  rtrim-last_ok s =
      ap last_ok (reverse-reverse (rtrim_loop space (reverse s))) ∙ rtrim_loop-last_ok (reverse s)

  -- `trim` cuts whitespace off at the front, and whitespace and null characters off at the end. What is
  -- left does not start with whitespace, and does not end with whitespace or a null character unless it
  -- is one character long.
  pub trim_lem :
      (s : List ℕ)
      → (p : List ℕ) × (q : List ℕ) × (s ≡ p ++ (trim space s ++ q))
        × (all space p ≡ true)
        × (all blank q ≡ true)
        × (first_ok (trim space s) ≡ true)
        × (last_ok (reverse (trim space s)) ≡ true)
  unfolding trim
  trim_lem s =
      let (p, h, a) = ltrim-split s in
      let u = ltrim space s in
      let (q, k, b) = rtrim-split u in
      (
        p,
        q,
        h ∙ ap (λ r. p ++ r) k,
        a,
        b,
        first_ok-prefix (rtrim space u) q (ap first_ok (sym k) ∙ ltrim-first_ok s),
        rtrim-last_ok u,
      )
