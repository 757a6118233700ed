-- ===== src/HashMap/Slots.antt =====
-- From the slots of one level to its keys: the first slot that holds a value holds the first key.
use xtl.Prelude.{
  ℕ, zero, suc, ◌+◌, ◌*◌, ◌%◌, ◌/◌, ◌≤◌, ◌<◌, ◌≡◌, inl, inr, ap, ◌∙◌, Option, none, some, List, [],
  ◌∷◌, arith,
}
use xtl.HashMap.{HashMap}
use xtl.HashMap.Lookup.{lookup, via, keys}
use xtl.HashMap.Scan.{digits, Before, FirstIn, EmptyIn}

-- no key that satisfies `F` has a value under `at`
abbrev pub NoneOf : {V : Type 0} → ℕ → (ℕ → Option V) → (ℕ → Type 0) → Type 0
NoneOf n at F = (z : ℕ) → z < keys n → F z → at z ≡ none

-- `key` spells the first key that satisfies `F` and has a value under `at`, which is `v`
pub record Least {V : Type 0} (n : ℕ) (at : ℕ → Option V) (F : ℕ → Type 0) (v : V) (key : List ℕ)
    : Type 0 where
  pub item : ℕ
  pub small : item < keys n
  pub fits : F item
  pub spelled : key ≡ digits n item
  pub value : at item ≡ some v
  pub none_before : NoneOf n at (λ z. F z × Before n z item)

abbrev pub Every : ℕ → Type 0
Every z = Unit {0}

-- the values below one slot
abbrev pub slot_at : (V : Type 0) (n : ℕ) → Option (HashMap V n) → ℕ → Option V
slot_at V n o k = via (λ child. lookup V n child k) o

module _ (V : Type 0) (n : ℕ) (m : HashMap V (suc n)) (F : ℕ → Type 0) (G : ℕ → ℕ → Type 0) where
  abbrev pub SlotEmpty : ℕ → Type 0
  SlotEmpty i = NoneOf n (slot_at V n (m i)) (G i)

  abbrev pub SlotLeast : ℕ → V → List ℕ → Type 0
  SlotLeast i = Least n (slot_at V n (m i)) (G i)

  module _ (Ok : List ℕ → Type 0) (down : (z : ℕ) → F z → G (z % 16) (z / 16))
      (up : (i k : ℕ) → i < 16 → G i k → F (i + 16 * k)) (lo : ℕ)
      (low : (z : ℕ) → F z → lo ≤ z % 16) where
    pub NoneOf-slots : EmptyIn Ok SlotEmpty SlotLeast lo 16 → NoneOf (suc n) (lookup V (suc n) m) F
    unfolding lookup
    NoneOf-slots e z h f = e (z % 16) (low z f) (omega arith) (z / 16) (omega arith) (down z f)

    pub Least-slots :
        (v : V) (key : List ℕ)
        → FirstIn Ok SlotEmpty SlotLeast lo 16 v key
        → Least (suc n) (lookup V (suc n) m) F v key
    unfolding lookup
    Least-slots v key f =
        let g = f.good in
        let i = f.slot in
        let k = g.item in
        let y : ℕ = i + 16 * k in
        let e1 : y % 16 ≡ i = omega (arith, f.high) in
        let e2 : y / 16 ≡ k = omega (arith, f.high) in
        record {
          item = y;
          small = omega (arith, f.high, g.small);
          fits = up i k f.high g.fits;
          spelled = rw (e1, e2) (f.key_eq ∙ ap (λ r. (i + 1) ∷ r) g.spelled);
          value = rw (e1, e2) g.value;
          none_before = λ z h c. elim c.1 [
            | inl l ↦
                f.none_before (z % 16) (low z c.0) (rw e1 at l) (z / 16) (omega arith) (down z c.0)
            | inr q ↦
                let e : z % 16 ≡ i = q.0 ∙ e1 in
                rw e (g.none_before (z / 16) (omega arith) (rw e at (down z c.0), rw e2 at q.1))
          ];
        }

module _ (V : Type 0) (m : HashMap V zero) (F : ℕ → Type 0) where
  abbrev pub LeafEmpty : ℕ → Type 0
  LeafEmpty i = m i ≡ none

  abbrev pub LeafValue : ℕ → V → List ℕ → Type 0
  LeafValue i v rest = (m i ≡ some v) × (rest ≡ [])

  module _ (Ok : List ℕ → Type 0) (lo : ℕ) (low : (z : ℕ) → F z → lo ≤ z % 16)
      (up : (i : ℕ) → lo ≤ i → i < 16 → F i) where
    pub NoneOf-leaf : EmptyIn Ok LeafEmpty LeafValue lo 16 → NoneOf zero (lookup V zero m) F
    unfolding lookup
    NoneOf-leaf e z h f = e (z % 16) (low z f) (omega arith)

    pub Least-leaf :
        (v : V) (key : List ℕ)
        → FirstIn Ok LeafEmpty LeafValue lo 16 v key
        → Least zero (lookup V zero m) F v key
    unfolding lookup
    Least-leaf v key f =
        let i = f.slot in
        let e : i % 16 ≡ i = omega (arith, f.high) in
        record {
          item = i;
          small = f.high;
          fits = up i f.low f.high;
          spelled = rw e (f.key_eq ∙ ap (λ r. (i + 1) ∷ r) f.good.1);
          value = rw e f.good.0;
          none_before = λ z h c. f.none_before (z % 16) (low z c.0) (rw e at c.1);
        }
