-- ===== src/LruCache/Recency.antt =====
-- `lru_cache` keeps the keys that were used last: an unbounded list of all keys, in which a lookup
-- moves its key to the front, cut off at the size of the cache.
use xtl.Prelude.{
  ℕ, zero, suc, ◌≤◌, ◌<◌, Bool, true, false, none, some, List, [], ◌∷◌, map, length, take, leb, ◌≡◌,
  refl, ap, ◌∙◌, inl, inr, Bool-cases, arith, if◌then◌else◌, length-map,
}
use xtl.LruCache.{pop_back, take_out, make_room, lookup, lookups}

module _ {K : Type 0} (same : K → K → Bool) where
  unfoldable pub has : K → List K → Bool
  has k [] = false
  has k (x ∷ xs) = let rest = has k xs in if same k x then true else rest

  unfoldable pub erase : K → List K → List K
  erase k [] = []
  erase k (x ∷ xs) = let rest = erase k xs in if same k x then xs else x ∷ rest

  -- all keys after a lookup, the last used first
  abbrev pub touch : K → List K → List K
  touch k h = k ∷ erase k h

  unfoldable pub touches : List K → List K → List K
  unfolding erase
  touches [] h = h
  touches (k ∷ ks) h = touches ks (touch k h)

  erase-take :
      (k : K) (m : ℕ) (h : List K)
      → has k (take (suc m) h) ≡ true
      → erase k (take (suc m) h) ≡ take m (erase k h)
  unfolding has erase
  erase-take k m [] e = absurd (ground arith)
  erase-take k zero (x ∷ h) e = elim (Bool-cases (same k x)) [
    | inl q ↦ rw q refl
    | inr q ↦ absurd (ground arith)
  ]
  erase-take k (suc m) (x ∷ h) e = elim (Bool-cases (same k x)) [
    | inl q ↦ rw q refl
    | inr q ↦ rw q (ap (λ r. x ∷ r) (erase-take k m h (rw q at e)))
  ]

  pop_back-take :
      (k : K) (m : ℕ) (h : List K)
      → has k (take (suc m) h) ≡ false
      → suc m ≤ length (take (suc m) h)
      → pop_back (take (suc m) h) ≡ take m (erase k h)
  unfolding has erase pop_back
  pop_back-take k m [] e le = absurd (omega arith)
  pop_back-take k zero (x ∷ h) e le = refl
  pop_back-take k (suc m) (x ∷ []) e le = absurd (omega arith)
  pop_back-take k (suc m) (x ∷ y ∷ h) e le = elim (Bool-cases (same k x)) [
    | inl q ↦ absurd (ground arith)
    | inr q ↦ rw q (ap (λ r. x ∷ r) (pop_back-take k m (y ∷ h) (rw q at e) (omega arith)))
  ]

  take-erase :
      (k : K) (m : ℕ) (h : List K)
      → has k (take (suc m) h) ≡ false
      → length (take (suc m) h) < suc m
      → take (suc m) h ≡ take m (erase k h)
  unfolding has erase
  take-erase k zero [] e lt = refl
  take-erase k (suc m) [] e lt = refl
  take-erase k zero (x ∷ h) e lt = absurd (omega arith)
  take-erase k (suc m) (x ∷ h) e lt = elim (Bool-cases (same k x)) [
    | inl q ↦ absurd (ground arith)
    | inr q ↦ rw q (ap (λ r. x ∷ r) (take-erase k m h (rw q at e) (omega arith)))
  ]

module _ {K V : Type 0} (same : K → K → Bool) (load : K → V) (m : ℕ) where
  abbrev pub entry : K → K × V
  entry k = (k, load k)

  -- the cache of size `m + 1` whose keys, with all those dropped, are `h`
  abbrev pub cached : List K → List (K × V)
  cached h = map entry (take (suc m) h)

  pop_back-map : (xs : List K) → pop_back (map entry xs) ≡ map entry (pop_back xs)
  unfolding pop_back
  pop_back-map [] = refl
  pop_back-map (x ∷ []) = refl
  pop_back-map (x ∷ y ∷ xs) = ap (λ r. entry x ∷ r) (pop_back-map (y ∷ xs))

  make_room-cached :
      (k : K) (h : List K)
      → has same k (take (suc m) h) ≡ false
      → make_room same load (suc m) (cached h) ≡ map entry (take m (erase same k h))
  make_room-cached k h e =
      let n : length (cached h) ≡ length (take (suc m) h) = length-map (take (suc m) h) entry in
      elim (Bool-cases (leb (suc m) (length (cached h)))) [
        | inl q ↦ rw q (
            pop_back-map (take (suc m) h)
            ∙ ap (map entry) (pop_back-take same k m h e (ground (arith, n))))
        | inr q ↦ rw q (ap (map entry) (take-erase same k m h e (ground (arith, n))))
      ]

  module _ (sound : (a b : K) → same a b ≡ true → a ≡ b) where
    take_out-entries :
        (k : K) (ks : List K)
        → take_out same load (suc m) k (map entry ks)
          ≡ (if has same k ks then some (load k, map entry (erase same k ks)) else none)
    unfolding take_out has erase
    take_out-entries k [] = refl
    take_out-entries k (x ∷ ks) = elim (Bool-cases (same k x)) [
      | inl q ↦ let e : k ≡ x = sound k x q in rw (q, e) refl
      | inr q ↦ elim (Bool-cases (has same k ks)) [
        | inl r ↦ rw (q, take_out-entries k ks, r) refl
        | inr r ↦ rw (q, take_out-entries k ks, r) refl
      ]
    ]

    -- A lookup of any key returns what the loader gives for it, and moves it to the front of the keys,
    -- of which the cache holds the first `m + 1`. (`same` holds of equal keys only.)
    pub lookup_lem :
        (k : K) (h : List K)
        → lookup same load (suc m) k (cached h) ≡ (cached (touch same k h), load k)
    unfolding lookup
    lookup_lem k h = elim (Bool-cases (has same k (take (suc m) h))) [
      | inl q ↦ rw (take_out-entries k (take (suc m) h), q, erase-take same k m h q) refl
      | inr q ↦
          rw (take_out-entries k (take (suc m) h), q)
            (ap (λ c. (entry k ∷ c, load k)) (make_room-cached k h q))
    ]

    lookups-cached :
        (ks h : List K) → lookups same load (suc m) ks (cached h) ≡ cached (touches same ks h)
    unfolding lookups touches
    lookups-cached [] h = refl
    lookups-cached (k ∷ ks) h = rw (lookup_lem k h) (lookups-cached ks (touch same k h))

    -- After any lookups from the empty cache it holds the `m + 1` keys that were used last, the last one
    -- first, each with the value that the loader gives for it. (`same` holds of equal keys only.)
    pub lookups_lem : (ks : List K) → lookups same load (suc m) ks [] ≡ cached (touches same ks [])
    lookups_lem ks = lookups-cached ks []
