-- ===== src/Text/Suffix.antt =====
-- `ends_with` of include/xtd/string.hpp is the test for a suffix.
use xtl.Prelude.{
  ℕ, true, List, [], ◌∷◌, ◌++◌, ◌==◌, ◌≡◌, refl, sym, ap, ◌∙◌, ◌↔◌, inl, inr, Bool-cases, arith,
}
use xtl.Text.{ends_loop, ends_with}
use mathlib.Core.List.{reverse, reverse-append, reverse-reverse}

loop-prefix : (d r : List ℕ) → ends_loop d r ≡ true → (q : List ℕ) × (d ≡ r ++ q)
unfolding ends_loop
loop-prefix d [] e = (d, refl)
loop-prefix [] (x ∷ r) e = absurd (ground arith)
loop-prefix (y ∷ d) (x ∷ r) e = elim (Bool-cases (x == y)) [
  | inl h ↦
      let (q, k) = loop-prefix d r (rw h at e) in
      let same : y ≡ x = ground arith in (q, rw same (ap (λ t. x ∷ t) k))
  | inr h ↦ absurd (ground arith)
]

loop-append : (r q : List ℕ) → ends_loop (r ++ q) r ≡ true
unfolding ends_loop
loop-append [] q = refl
loop-append (x ∷ r) q = let h : (x == x) ≡ true = ground arith in rw h (loop-append r q)

-- `ends_with` holds if and only if the string is some text followed by the suffix.
pub ends_with_lem :
    (s suffix : List ℕ) → (ends_with s suffix ≡ true) ↔ ((p : List ℕ) × (s ≡ p ++ suffix))
unfolding ends_with
ends_with_lem s suffix = (
  λ e.
      let (q, h) = loop-prefix (reverse s) (reverse suffix) e in
      (
        reverse q,
        sym (reverse-reverse s)
            ∙ ap reverse h
            ∙ reverse-append (reverse suffix) q
            ∙ ap (λ t. reverse q ++ t) (reverse-reverse suffix),
      ),
  λ w.
      ap (λ t. ends_loop (reverse t) (reverse suffix)) w.1
      ∙ ap (λ t. ends_loop t (reverse suffix)) (reverse-append w.0 suffix)
      ∙ loop-append (reverse suffix) (reverse w.0),
)
