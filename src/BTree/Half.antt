-- ===== src/BTree/Half.antt =====
-- A full leaf cut in two, and the entry that goes into one of the halves.
use xtl.Prelude.{
  ℕ, suc, ◌-◌, ◌/◌, ◌≤◌, ◌<◌, true, false, List, [], ◌∷◌, ◌++◌, length, take, drop, ltb, ◌==◌,
  take-drop, take_all, length-take, length-drop, ◌≡◌, refl, sym, ap, ◌∙◌, inl, inr, Bool-cases,
  arith,
}
use xtl.BTree.{keys_of}
use xtl.BTree.Entries.{Sorted}
use xtl.BTree.Records.{
  Sorted-cut, Sorted-put, put, put-left, put-right, keys_of-append, lookup, lookup-left,
  lookup-right, is_some,
}
use xtl.BTree.Insert.{first_key}

module _ {V : Type 0} where
  pub length-put : (key : ℕ) (v : V) (rs : List (ℕ × V)) → length (put key v rs) ≤ suc (length rs)
  unfolding put
  length-put key v [] = omega arith
  length-put key v ((k, w) ∷ rs) = elim (Bool-cases (ltb key k)) [
    | inl e ↦ rw e (omega arith)
    | inr e ↦ elim (Bool-cases (key == k)) [
      | inl q ↦ rw (e, q) (omega arith)
      | inr q ↦ rw (e, q) (omega (arith, length-put key v rs))
    ]
  ]

  first_key-put :
      (key : ℕ) (v : V) (rs : List (ℕ × V))
      → 1 ≤ length rs
      → ltb key (first_key rs) ≡ false
      → first_key (put key v rs) ≡ first_key rs
  unfolding put
  first_key-put key v [] h e = absurd (omega arith)
  first_key-put key v ((k, w) ∷ rs) h e = elim (Bool-cases (key == k)) [
    | inl q ↦ rw (e, q) refl
    | inr q ↦ rw (e, q) refl
  ]

  abbrev pub left_half : ℕ → List (ℕ × V) → List (ℕ × V)
  left_half order rs = take (order / 2) rs

  abbrev pub right_half : ℕ → List (ℕ × V) → List (ℕ × V)
  right_half order rs = take (order - order / 2) (drop (order / 2) rs)

  -- the halves of a leaf, with the new entry in one of them
  pub record Half (order lo hi key : ℕ) (v : V) (rs left right : List (ℕ × V)) : Type 0 where
    pub left_sorted : Sorted lo (first_key right) (keys_of left)
    pub right_sorted : Sorted (first_key right) hi (keys_of right)
    pub left_room : length left ≤ order
    pub right_room : length right ≤ order
    pub joined : left ++ right ≡ put key v rs

  Sorted-halves :
      (lo hi : ℕ) (a b : List (ℕ × V))
      → 1 ≤ length b
      → Sorted lo hi (keys_of (a ++ b))
      → Sorted lo (first_key b) (keys_of a) × Sorted (first_key b) hi (keys_of b)
  Sorted-halves lo hi a [] h s = absurd (omega arith)
  Sorted-halves lo hi a ((k, w) ∷ b) h s =
      Sorted-cut lo hi (keys_of a) k (keys_of b) (rw (keys_of-append a ((k, w) ∷ b)) at s)

  module _ (order lo hi key : ℕ) (v : V) (rs : List (ℕ × V)) (large : 2 ≤ order)
      (full : length rs ≡ order) (sorted : Sorted lo hi (keys_of rs)) where
    right_half-drop : right_half order rs ≡ drop (order / 2) rs
    right_half-drop =
        take_all (order - order / 2) (drop (order / 2) rs)
          (let e = length-drop (order / 2) rs in omega arith)

    joined_halves : left_half order rs ++ right_half order rs ≡ rs
    joined_halves = rw right_half-drop (take-drop (order / 2) rs)

    length-right : length (right_half order rs) ≡ order - order / 2
    length-right =
        ap length right_half-drop ∙ length-drop (order / 2) rs ∙ ap (λ n. n - order / 2) full

    length-left : length (left_half order rs) ≡ order / 2
    length-left = let e = length-take (order / 2) rs in omega arith

    pub halves_in_order :
        Sorted lo (first_key (right_half order rs)) (keys_of (left_half order rs))
        × Sorted (first_key (right_half order rs)) hi (keys_of (right_half order rs))
    halves_in_order =
        Sorted-halves lo hi (left_half order rs) (right_half order rs)
          (let e = length-right in omega arith) (rw (sym joined_halves) at sorted)

    pub put-left_half :
        lo ≤ key
        → ltb key (first_key (right_half order rs)) ≡ true
        → Half order lo hi key v rs (put key v (left_half order rs)) (right_half order rs)
    put-left_half a e =
        let (s, t) = halves_in_order in
        record {
          left_sorted =
              Sorted-put key v lo (first_key (right_half order rs)) (left_half order rs) a
                (ground arith) s;
          right_sorted = t;
          left_room =
              let n = length-put key v (left_half order rs) in let m = length-left in omega arith;
          right_room = let m = length-right in omega arith;
          joined =
              sym (
                put-left key v (first_key (right_half order rs)) hi (left_half order rs)
                  (right_half order rs) (ground arith) t)
              ∙ ap (put key v) joined_halves;
        }

    pub first_key-put_half :
        ltb key (first_key (right_half order rs)) ≡ false
        → first_key (put key v (right_half order rs)) ≡ first_key (right_half order rs)
    first_key-put_half e =
        first_key-put key v (right_half order rs) (let m = length-right in omega arith) e

    pub put-right_half :
        key < hi
        → ltb key (first_key (right_half order rs)) ≡ false
        → Half order lo hi key v rs (left_half order rs) (put key v (right_half order rs))
    put-right_half b e =
        let (s, t) = halves_in_order in
        let q = first_key-put_half e in
        record {
          left_sorted = rw q s;
          right_sorted = rw q (
              Sorted-put key v (first_key (right_half order rs)) hi (right_half order rs)
                (ground arith) b t);
          left_room = let m = length-left in omega arith;
          right_room =
              let n = length-put key v (right_half order rs) in let m = length-right in omega arith;
          joined =
              sym (
                put-right key v lo (first_key (right_half order rs)) (left_half order rs)
                  (right_half order rs) (ground arith) s)
              ∙ ap (put key v) joined_halves;
        }

    pub absent-left_half :
        is_some (lookup key rs) ≡ false
        → ltb key (first_key (right_half order rs)) ≡ true
        → is_some (lookup key (left_half order rs)) ≡ false
    absent-left_half f e =
        ap is_some (
          sym (
            lookup-left key (first_key (right_half order rs)) hi (left_half order rs)
              (right_half order rs) (ground arith) halves_in_order.1)
          ∙ ap (lookup key) joined_halves)
        ∙ f

    pub absent-right_half :
        is_some (lookup key rs) ≡ false
        → ltb key (first_key (right_half order rs)) ≡ false
        → is_some (lookup key (right_half order rs)) ≡ false
    absent-right_half f e =
        ap is_some (
          sym (
            lookup-right key lo (first_key (right_half order rs)) (left_half order rs)
              (right_half order rs) (ground arith) halves_in_order.0)
          ∙ ap (lookup key) joined_halves)
        ∙ f
