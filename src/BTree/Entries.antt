-- ===== src/BTree/Entries.antt =====
-- The order of the keys in a node of a b-tree, and where the search in a node ends.
use xtl.Prelude.{
  ℕ, zero, suc, ◌+◌, ◌≤◌, ◌<◌, Bool, true, false, not, List, [], ◌∷◌, length, get_or, ltb, some, ap,
  if◌then◌else◌, ◌≡◌, inl, inr, Bool-cases, arith,
}
use xtl.BTree.{bisect, settled, lower_search, lower_bound, child_search, child_index}
use xtl.BTree.Bisect.{bisect_lem}

-- The keys are strictly increasing, at least `lo` and less than `hi`.
abbrev pub Sorted : ℕ → ℕ → List ℕ → Type 0
Sorted lo hi [] = lo ≤ hi
Sorted lo hi (k ∷ ks) = (lo ≤ k) × Sorted (k + 1) hi ks

-- The keys are increasing, not less than `lo` and not more than `hi`.
abbrev pub Rising : ℕ → ℕ → List ℕ → Type 0
Rising lo hi [] = lo ≤ hi
Rising lo hi (k ∷ ks) = (lo ≤ k) × Rising k hi ks

-- the number of leading keys that pass the test
unfoldable pub leading : (ℕ → Bool) → List ℕ → ℕ
leading test [] = 0
leading test (k ∷ ks) = let n = leading test ks in if test k then suc n else 0

leading-le : (test : ℕ → Bool) (ks : List ℕ) → leading test ks ≤ length ks
unfolding leading
leading-le test [] = omega arith
leading-le test (k ∷ ks) = elim (Bool-cases (test k)) [
  | inl e ↦ rw e (omega (arith, leading-le test ks))
  | inr e ↦ rw e (omega arith)
]

leading-true :
    (test : ℕ → Bool) (ks : List ℕ) (i : ℕ) → i < leading test ks → test (get_or ks i 0) ≡ true
unfolding leading
leading-true test [] i h = absurd (omega arith)
leading-true test (k ∷ ks) zero h = elim (Bool-cases (test k)) [
  | inl e ↦ e
  | inr e ↦ let h' = rw e at h in absurd (omega arith)
]
leading-true test (k ∷ ks) (suc i) h = elim (Bool-cases (test k)) [
  | inl e ↦ let h' = rw e at h in leading-true test ks i (omega arith)
  | inr e ↦ let h' = rw e at h in absurd (omega arith)
]

-- The test fails from its first failure on, where it turns once only.
abbrev Turns : (ℕ → Bool) → List ℕ → Type 0
Turns test ks = (i : ℕ) → leading test ks ≤ i → i < length ks → test (get_or ks i 0) ≡ false

-- `test` may hold of numbers below a bound only.
module _ (test : ℕ → Bool) (falls : (x y : ℕ) → x ≤ y → test x ≡ false → test y ≡ false) where
  Rising-false :
      (lo hi : ℕ) (ks : List ℕ) (i : ℕ)
      → Rising lo hi ks
      → test lo ≡ false
      → i < length ks
      → test (get_or ks i 0) ≡ false
  Rising-false lo hi (k ∷ ks) zero (a, b) e h = falls lo k a e
  Rising-false lo hi (k ∷ ks) (suc i) (a, b) e h =
      Rising-false k hi ks i b (falls lo k a e) (omega arith)
  Rising-false lo hi [] i a e h = absurd (omega arith)

  Turns-cons :
      (k : ℕ) (ks : List ℕ) (i : ℕ)
      → test k ≡ true
      → Turns test ks
      → leading test (k ∷ ks) ≤ i
      → i < length (k ∷ ks)
      → test (get_or (k ∷ ks) i 0) ≡ false
  unfolding leading
  Turns-cons k ks zero e t a h = let a' = rw e at a in absurd (omega arith)
  Turns-cons k ks (suc i) e t a h = let a' = rw e at a in t i (omega arith) (omega arith)

  Rising-Turns : (lo hi : ℕ) (ks : List ℕ) → Rising lo hi ks → Turns test ks
  unfolding leading
  Rising-Turns lo hi [] r i a h = absurd (omega arith)
  Rising-Turns lo hi (k ∷ ks) (b, r) i a h = elim (Bool-cases (test k)) [
    | inl e ↦ Turns-cons k ks i e (Rising-Turns k hi ks r) a h
    | inr e ↦ Rising-false k hi (k ∷ ks) i (omega arith, r) e h
  ]

  pub bisect-leading :
      (lo hi : ℕ) (ks : List ℕ)
      → Rising lo hi ks
      → bisect (λ mid. test (get_or ks mid 0)) (length ks) 0 (length ks) ≡ some (leading test ks)
  bisect-leading lo hi ks r =
      bisect_lem (λ mid. test (get_or ks mid 0)) (leading test ks) (length ks) 0 (length ks)
        (omega arith) (leading-le test ks) (omega arith) (leading-true test ks)
        (Rising-Turns lo hi ks r)

pub Sorted-le : (lo hi : ℕ) (ks : List ℕ) → Sorted lo hi ks → lo ≤ hi
Sorted-le lo hi [] s = s
Sorted-le lo hi (k ∷ ks) (a, s) = omega (arith, Sorted-le (k + 1) hi ks s)

pub Rising-le : (lo hi : ℕ) (ks : List ℕ) → Rising lo hi ks → lo ≤ hi
Rising-le lo hi [] s = s
Rising-le lo hi (k ∷ ks) (a, s) = omega (arith, Rising-le k hi ks s)

Rising-lower : (lo m hi : ℕ) (ks : List ℕ) → lo ≤ m → Rising m hi ks → Rising lo hi ks
Rising-lower lo m hi [] h s = omega arith
Rising-lower lo m hi (k ∷ ks) h (a, s) = (omega arith, s)

Sorted-Rising : (lo hi : ℕ) (ks : List ℕ) → Sorted lo hi ks → Rising lo hi ks
Sorted-Rising lo hi [] s = s
Sorted-Rising lo hi (k ∷ ks) (a, s) =
    (a, Rising-lower k (k + 1) hi ks (omega arith) (Sorted-Rising (k + 1) hi ks s))

abbrev pub less : ℕ → ℕ → Bool
less key x = ltb x key

abbrev pub not_more : ℕ → ℕ → Bool
not_more key x = not (ltb key x)

lower_search-leading :
    (key lo hi : ℕ) (ks : List ℕ)
    → Sorted lo hi ks
    → lower_search ks key ≡ some (leading (less key) ks)
unfolding lower_search
lower_search-leading key lo hi ks s =
    bisect-leading (less key) (λ x y h e. ground arith) lo hi ks (Sorted-Rising lo hi ks s)

pub lower_bound-leading :
    (key lo hi : ℕ) (ks : List ℕ) → Sorted lo hi ks → lower_bound ks key ≡ leading (less key) ks
unfolding lower_bound
lower_bound-leading key lo hi ks s = ap settled (lower_search-leading key lo hi ks s)

-- Where the separators are in order, the loop of `child_index` ends within as many rounds as there are
-- separators, and returns the number of those that are not more than the key.
pub child_search-leading :
    (key lo hi : ℕ) (ks : List ℕ)
    → Rising lo hi ks
    → child_search ks key ≡ some (leading (not_more key) ks)
unfolding child_search
child_search-leading key lo hi ks r =
    bisect-leading (not_more key) (λ x y h e. ground arith) lo hi ks r

pub child_index-leading :
    (key lo hi : ℕ) (ks : List ℕ) → Rising lo hi ks → child_index ks key ≡ leading (not_more key) ks
unfolding child_index
child_index-leading key lo hi ks r = ap settled (child_search-leading key lo hi ks r)
