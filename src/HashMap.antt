-- ===== src/HashMap.antt =====
-- include/xtd/concurrent/hash_map.hpp: the trie of 16-way buckets behind `hash_map`, run by one
-- thread. `HashMap V n` is `hash_map<_KeyT, V, n + 1>`: the level `zero` is the specialization
-- for the last nibble, with `_Values`; a level above it holds `_Buckets` of the level below.
-- The arrays are functions of an index, and a null pointer is `none`. A key is the unsigned
-- integer that `intrinsic_cast` makes of it; `x & 0xf` is `x % 16` and `x >>= 4` is `x / 16`.
pub mod Lookup
pub mod Cursor
pub mod Scan
pub mod Slots
pub mod Iteration
pub mod Wrap
use xtl.Prelude.{ℕ, zero, suc, ◌%◌, ◌/◌, Bool, true, false, Option, none, some, update}

abbrev pub HashMap : Type 0 → ℕ → Type 0
HashMap V zero = ℕ → Option V
HashMap V (suc n) = ℕ → Option (HashMap V n)

-- The constructor stores null in every slot.
pub empty : (V : Type 0) (n : ℕ) → HashMap V n
empty V zero = λ i. none
empty V (suc n) = λ i. none

-- `child_bucket_type` of a slot, made anew if the slot is null
pub child_or_new : (V : Type 0) (n : ℕ) → Option (HashMap V n) → HashMap V n
child_or_new V n none = empty V n
child_or_new V n (some c) = c

pub insert_leaf : (V : Type 0) → HashMap V zero → ℕ → V → Option V → HashMap V zero × Bool
insert_leaf V m index v (some old) = (m, false)
insert_leaf V m index v none = (update m index (some v), true)

-- `insert`: false if the key has a value, which is kept
unfoldable pub insert : (V : Type 0) (n : ℕ) → HashMap V n → ℕ → V → HashMap V n × Bool
unfolding insert_leaf child_or_new empty
insert V zero m x v = insert_leaf V m (x % 16) v (m (x % 16))
insert V (suc n) m x v =
    let (child, done) = insert V n (child_or_new V n (m (x % 16))) (x / 16) v in
    (update m (x % 16) (some child), done)

pub exists_leaf : {V : Type 0} → Option V → Bool
exists_leaf (some v) = true
exists_leaf none = false

unfoldable pub exists : (V : Type 0) (n : ℕ) → HashMap V n → ℕ → Bool
unfolding exists_leaf
exists V zero m x = exists_leaf (m (x % 16))
exists V (suc n) m x = elim (m (x % 16)) [ some child ↦ exists V n child (x / 16) | none ↦ false ]

abbrev pub remove_leaf : {V : Type 0} → (ℕ → Option V) → ℕ → Option V → (ℕ → Option V) × Bool
remove_leaf m i (some v) = (update m i none, true)
remove_leaf m i none = (m, false)

-- `remove`: the value of the key is deleted; the buckets on its way stay
unfoldable pub remove : (V : Type 0) (n : ℕ) → HashMap V n → ℕ → HashMap V n × Bool
remove V zero m x = remove_leaf m (x % 16) (m (x % 16))
remove V (suc n) m x = elim (m (x % 16)) [
  | some child ↦
      let (child', done) = remove V n child (x / 16) in (update m (x % 16) (some child'), done)
  | none ↦ (m, false)
]

-- `raw` is what `new value_type` leaves in the value it makes: what the default constructor of a class
-- does, and any value for a number or a pointer, which `new` leaves as it is.
abbrev pub index_leaf :
    {V : Type 0} → (raw : V) → (ℕ → Option V) → ℕ → Option V → (ℕ → Option V) × V
index_leaf raw m i (some v) = (m, v)
index_leaf raw m i none = (update m i (some raw), raw)

-- `operator[]`: the value at the key, made if there is none. Where a bucket on its way is missing,
-- `value_type()`, which is `d`, is inserted; where only the value is, it is made in its slot.
unfoldable pub index : (V : Type 0) (d raw : V) (n : ℕ) → HashMap V n → ℕ → HashMap V n × V
unfolding insert
index V d raw zero m x = index_leaf raw m (x % 16) (m (x % 16))
index V d raw (suc n) m x = elim (m (x % 16)) [
  | some child ↦
      let (child', v) = index V d raw n child (x / 16) in (update m (x % 16) (some child'), v)
  | none ↦
      let (m', done) = insert V (suc n) m x d in
      let (child', v) = index V d raw n (child_or_new V n (m' (x % 16))) (x / 16) in
      (update m' (x % 16) (some child'), v)
]
