-- ===== src/HashMap/Wrap.antt =====
-- What `++` does behind a key whose top nibble is 15: the entry becomes 16, `_next` reads it as out of range, and the scan of the last bucket starts over.
use xtl.Prelude.{
  ℕ, zero, suc, ◌+◌, ◌-◌, ◌*◌, ◌%◌, ◌/◌, ◌<◌, ◌≡◌, inl, inr, refl, ap, Option, some, List, ◌∷◌,
  arith, Option-cases,
}
use mathlib.Core.Path.{subst}
use xtl.HashMap.{HashMap}
use xtl.HashMap.Lookup.{lookup, keys}
use xtl.HashMap.Cursor.{
  Found, scan_up, child_visit, next_scan, no_key, on_last, at_found, increment,
}
use xtl.HashMap.Scan.{digits, Before, Seen, miss, hit}
use xtl.HashMap.Slots.{NoneOf, Least, Every}
use xtl.HashMap.Iteration.{top_nibble, next-Fresh, on_last-digits, next_start_lem, none≢some}

-- a key with a value that is not behind `x`
pub record BackAt {V : Type 0} (n : ℕ) (at : ℕ → Option V) (x : ℕ) (r : Found V) : Type 0 where
  pub item : ℕ
  pub value : V
  pub small : item < keys n
  pub found : r ≡ (some value, digits n item)
  pub holds : at item ≡ some value
  pub not_behind : ¬ Before n x item

scan_up_hit :
    {V : Type 0} (visit : ℕ → List ℕ → Found V) (last i : ℕ) (rest : List ℕ) {v : V} {r : List ℕ}
    → i < 16
    → visit i rest ≡ (some v, r)
    → scan_up visit last (16 - i) i rest ≡ (some v, (i + 1) ∷ r)
unfolding scan_up
scan_up_hit visit last i rest h e = let q : 16 - i ≡ suc (15 - i) = omega arith in rw q (rw e refl)

leaf_back :
    {V : Type 0} (m : HashMap V zero) (x : ℕ) (v : V) {r : Found V}
    → x % 16 ≡ 15
    → x < 16
    → lookup V zero m x ≡ some v
    → Seen
        (λ r. r ≡ no_key zero)
        (NoneOf zero (lookup V zero m) Every)
        (Least zero (lookup V zero m) Every)
        r
    → BackAt zero (lookup V zero m) x r
leaf_back m x v t h e (miss o q) = absurd (none≢some (rw (q x h tt) at e))
leaf_back m x v t h e (hit {v = w} l) = record {
  item = l.item;
  value = w;
  small = l.small;
  found = ap (λ k. (some w, k)) l.spelled;
  holds = l.value;
  not_behind = λ b. omega arith;
}

-- one level up, in the slot of `x`
level_back :
    (V : Type 0) (n : ℕ) (m : HashMap V (suc n)) (x : ℕ) (c : HashMap V n)
    → x < keys (suc n)
    → m (x % 16) ≡ some c
    → BackAt n (lookup V n c) (x / 16) (next_scan V n c (on_last (λ i. i + 1) (digits n (x / 16))))
    → BackAt
        (suc n)
        (lookup V (suc n) m)
        x
        (next_scan V (suc n) m (on_last (λ i. i + 1) (digits (suc n) x)))
unfolding next_scan lookup
level_back V n m x c h q b =
    let y : ℕ = x % 16 + 16 * b.item in
    let e1 : y % 16 ≡ x % 16 = omega arith in
    let e2 : y / 16 ≡ b.item = omega arith in
    record {
      item = y;
      value = b.value;
      small = omega (arith, b.small);
      found = rw (on_last-digits (λ i. i + 1) n x) (
          rw (next_start_lem (x % 16) (omega arith), e1, e2)
            (scan_up_hit (child_visit (next_scan V n) m) 0 (x % 16) _ (omega arith)
              (rw (q, child_visit) b.found)));
      holds = rw (e1, e2, q) b.holds;
      not_behind = elim [
        | inl l ↦ omega arith
        | inr w ↦ b.not_behind (subst (Before n (x / 16)) e2 w.1)
      ];
    }

next-BackAt :
    (V : Type 0) (n : ℕ) (m : HashMap V n) (x : ℕ) (v : V)
    → x < keys n
    → top_nibble n x ≡ 15
    → lookup V n m x ≡ some v
    → BackAt n (lookup V n m) x (next_scan V n m (on_last (λ i. i + 1) (digits n x)))
unfolding next_scan top_nibble lookup
next-BackAt V zero m x v h t e =
    leaf_back m x v t h e (rw t (next-Fresh V zero m (no_key zero) refl))
next-BackAt V (suc n) m x v h t e = elim (Option-cases (m (x % 16))) [
  | inl q ↦ absurd (none≢some (rw (q, lookup) at e))
  | inr (c, q) ↦
      level_back V n m x c h q (next-BackAt V n c (x / 16) v (omega arith) t (rw (q, lookup) at e))
]

-- From a key with a value whose top nibble is 15, `++` goes to a key with a value that does not
-- come after it: it never comes to the end, nor to any key behind.
pub increment_wraps :
    (V : Type 0) (n : ℕ) (m : HashMap V n) (x : ℕ) (v : V)
    → x < keys n
    → top_nibble n x ≡ 15
    → lookup V n m x ≡ some v
    → (w : V) × (y : ℕ) × (increment V n m (record { current = some v; key = digits n x })
        ≡ record { current = some w; key = digits n y })
      × (lookup V n m y ≡ some w)
      × ¬ Before n x y
unfolding increment
increment_wraps V n m x v h t e =
    let b = next-BackAt V n m x v h t e in
    (b.value, b.item, ap at_found b.found, b.holds, b.not_behind)
