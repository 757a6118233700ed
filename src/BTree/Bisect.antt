-- ===== src/BTree/Bisect.antt =====
-- The binary search of include/xtd/btree.hpp finds the place where its test turns.
use xtl.Prelude.{
  ℕ, zero, suc, ◌+◌, ◌-◌, ◌/◌, ◌≤◌, ◌<◌, Bool, true, false, ltb, ◌≡◌, inl, inr, Bool-cases, dec_lt,
  arith, some, ap,
}
use xtl.BTree.{bisect}

true_below :
    (test : ℕ → Bool) (r hi i : ℕ)
    → ((i : ℕ) → r ≤ i → i < hi → test i ≡ false)
    → i < hi
    → test i ≡ true
    → i < r
true_below test r hi i e m q = elim (dec_lt i r) [
  | yes h ↦ h
  | no h ↦ let f = e i (omega arith) m in absurd (ground arith)
]

false_above :
    (test : ℕ → Bool) (r i : ℕ) → ((i : ℕ) → i < r → test i ≡ true) → test i ≡ false → r ≤ i
false_above test r i d q = elim (dec_lt i r) [
  | yes h ↦ let f = d i h in absurd (ground arith)
  | no h ↦ omega arith
]

-- If the test holds below `r` and not from `r` on, the search ends and returns `r`: its rounds are enough.
pub bisect_lem :
    (test : ℕ → Bool) (r rounds lo hi : ℕ)
    → lo ≤ r
    → r ≤ hi
    → hi ≤ rounds + lo
    → ((i : ℕ) → i < r → test i ≡ true)
    → ((i : ℕ) → r ≤ i → i < hi → test i ≡ false)
    → bisect test rounds lo hi ≡ some r
unfolding bisect
bisect_lem test r zero lo hi a b c d e =
    let q : ltb lo hi ≡ false = ground arith in
    let l : lo ≡ r = omega arith in rw (q, bisect) (ap some l)
bisect_lem test r (suc rounds) lo hi a b c d e = elim (Bool-cases (ltb lo hi)) [
  | inl p ↦
      let mid = lo + (hi - lo) / 2 in
      let l : lo < hi = ground arith in
      let m : mid < hi = omega arith in
      elim (Bool-cases (test mid)) [
        | inl q ↦
            let n : mid < r = true_below test r hi mid e m q in
            rw (p, q, bisect)
              (bisect_lem test r rounds (mid + 1) hi (omega arith) b (omega arith) d e)
        | inr q ↦
            let n : r ≤ mid = false_above test r mid d q in
            rw (p, q, bisect)
              (bisect_lem test r rounds lo mid a n (omega arith) d (λ i h k. e i h (omega arith)))
      ]
  | inr p ↦
      let l : hi ≤ lo = ground arith in let f : lo ≡ r = omega arith in rw (p, bisect) (ap some f)
]
