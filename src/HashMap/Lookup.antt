-- ===== src/HashMap/Lookup.antt =====
-- What the operations do to the value under each key.
use xtl.Prelude.{
  ℕ, zero, suc, ◌*◌, ◌%◌, ◌/◌, ◌<◌, ◌≡◌, refl, Bool, true, false, Option, none, some, update,
  update_self, ◌==◌, if◌then◌else◌, arith, Option-cases, inl, inr, ap, ◌∙◌,
}
use xtl.HashMap.{HashMap, empty, child_or_new, insert, exists_leaf, exists, remove, index}

-- a read through a pointer that may be null
abbrev pub via : {A B : Type 0} → (A → Option B) → Option A → Option B
via f none = none
via f (some a) = f a

-- A write to the slot of `x`, seen at `y`, where the new child holds `a` for `x` and is the old
-- child elsewhere.
via-update :
    {A B : Type 0} (f : A → Option B) (m : ℕ → Option A) (x y : ℕ) (c : A) (a : Option B)
    → f c ≡ (if x / 16 == y / 16 then a else via f (m (x % 16)))
    → via f (update m (x % 16) (some c) (y % 16)) ≡ (if x == y then a else via f (m (y % 16)))
via-update f m x y c a h = ground arith

via-none :
    {A B : Type 0} (f : A → Option B) (m : ℕ → Option A) (x y : ℕ)
    → m (x % 16) ≡ none
    → via f (m (y % 16)) ≡ (if x == y then none else via f (m (y % 16)))
via-none f m x y h = ground arith

-- The abstract view: the value that the trie holds under a key.
unfoldable pub lookup : (V : Type 0) (n : ℕ) → HashMap V n → ℕ → Option V
lookup V zero m x = m (x % 16)
lookup V (suc n) m x = via (λ child. lookup V n child (x / 16)) (m (x % 16))

-- `16 ^ (n + 1)`, the number of keys
abbrev pub keys : ℕ → ℕ
keys zero = 16
keys (suc n) = 16 * keys n

-- a value that is there stays
abbrev pub or_new : {V : Type 0} → Option V → V → Option V
or_new none v = some v
or_new (some old) v = some old

abbrev pub is_none : {V : Type 0} → Option V → Bool
is_none none = true
is_none (some old) = false

lookup-empty : (V : Type 0) (n x : ℕ) → lookup V n (empty V n) x ≡ none
unfolding lookup empty
lookup-empty V zero x = refl
lookup-empty V (suc n) x = refl

lookup-child_or_new :
    (V : Type 0) (n : ℕ) (o : Option (HashMap V n)) (k : ℕ)
    → lookup V n (child_or_new V n o) k ≡ via (λ child. lookup V n child k) o
unfolding child_or_new
lookup-child_or_new V n none k = lookup-empty V n k
lookup-child_or_new V n (some c) k = refl

pub exists-lookup :
    (V : Type 0) (n : ℕ) (m : HashMap V n) (x : ℕ) → exists V n m x ≡ exists_leaf (lookup V n m x)
unfolding lookup exists
exists-lookup V zero m x = refl
exists-lookup V (suc n) m x = elim (Option-cases (m (x % 16))) [
  | inl e ↦ rw (e, lookup, exists) refl
  | inr (c, e) ↦ rw (e, lookup, exists) (exists-lookup V n c (x / 16))
]

insert-done :
    (V : Type 0) (n : ℕ) (m : HashMap V n) (x : ℕ) (v : V)
    → (insert V n m x v).1 ≡ is_none (lookup V n m x)
unfolding lookup insert
insert-done V zero m x v = ground arith
insert-done V (suc n) m x v =
    insert-done V n _ (x / 16) v ∙ ap is_none (lookup-child_or_new V n (m (x % 16)) (x / 16))

lookup-insert :
    (V : Type 0) (n : ℕ) (m : HashMap V n) (x y : ℕ) (v : V)
    → x < keys n
    → y < keys n
    → lookup V n (insert V n m x v).0 y
      ≡ (if x == y then or_new (lookup V n m x) v else lookup V n m y)
unfolding lookup insert
lookup-insert V zero m x y v hx hy = ground arith
lookup-insert V (suc n) m x y v hx hy =
    let old = child_or_new V n (m (x % 16)) in
    via-update (λ child. lookup V n child (y / 16)) m x y _ _
      (rw
        (
          ← lookup-child_or_new V n (m (x % 16)) (x / 16),
          ← lookup-child_or_new V n (m (x % 16)) (y / 16),
        )
        (lookup-insert V n old (x / 16) (y / 16) v (omega arith) (omega arith)))

remove-done : (V : Type 0) (n : ℕ) (m : HashMap V n) (x : ℕ) → (remove V n m x).1 ≡ exists V n m x
unfolding remove exists
remove-done V zero m x = ground arith
remove-done V (suc n) m x = elim (Option-cases (m (x % 16))) [
  | inl e ↦ rw (e, remove, exists) refl
  | inr (c, e) ↦ rw (e, remove, exists) (remove-done V n c (x / 16))
]

lookup-remove :
    (V : Type 0) (n : ℕ) (m : HashMap V n) (x y : ℕ)
    → x < keys n
    → y < keys n
    → lookup V n (remove V n m x).0 y ≡ (if x == y then none else lookup V n m y)
unfolding lookup remove
lookup-remove V zero m x y hx hy = ground arith
lookup-remove V (suc n) m x y hx hy = elim (Option-cases (m (x % 16))) [
  | inl e ↦ rw (e, remove) (via-none _ m x y e)
  | inr (c, e) ↦
      rw (e, remove)
        (via-update (λ child. lookup V n child (y / 16)) m x y _ _
          (rw e (lookup-remove V n c (x / 16) (y / 16) (omega arith) (omega arith))))
]

abbrev pub or_default : {V : Type 0} → Option V → V → V
or_default none d = d
or_default (some v) d = v

-- The child that `insert` makes in an empty slot.
lookup-insert_new :
    (V : Type 0) (d : V) (n : ℕ) (k : ℕ)
    → k < keys n
    → lookup V n (insert V n (empty V n) k d).0 k ≡ some d
lookup-insert_new V d n k h =
    rw (lookup-insert V n (empty V n) k k d h h) (rw (lookup-empty V n k) (ground arith))

slot-insert :
    (V : Type 0) (n : ℕ) (m : HashMap V (suc n)) (x : ℕ) (d : V)
    → m (x % 16) ≡ none
    → (insert V (suc n) m x d).0 (x % 16) ≡ some (insert V n (empty V n) (x / 16) d).0
unfolding insert child_or_new
slot-insert V n m x d e =
    update_self m (x % 16) _ ∙ ap (λ o. some (insert V n (child_or_new V n o) (x / 16) d).0) e

if_same :
    {A : Type 0} (b : Bool) (a r : A)
    → (if b then a else (if b then a else r)) ≡ (if b then a else r)
if_same b a r = ground arith

-- All buckets on the way of the key are there.
unfoldable pub has_leaf : (V : Type 0) (n : ℕ) → HashMap V n → ℕ → Bool
has_leaf V zero m x = true
has_leaf V (suc n) m x = elim (m (x % 16)) [
  | some child ↦ has_leaf V n child (x / 16)
  | none ↦ false
]

-- the value that `operator[]` makes for a key without one
unfoldable pub made : (V : Type 0) (d raw : V) (n : ℕ) → HashMap V n → ℕ → V
unfolding has_leaf
made V d raw n m x = if has_leaf V n m x then raw else d

made-none :
    (V : Type 0) (d raw : V) (n : ℕ) (m : HashMap V (suc n)) (x : ℕ)
    → m (x % 16) ≡ none
    → made V d raw (suc n) m x ≡ d
unfolding made has_leaf
made-none V d raw n m x e = rw (e, has_leaf) refl

made-some :
    (V : Type 0) (d raw : V) (n : ℕ) (m : HashMap V (suc n)) (x : ℕ) (c : HashMap V n)
    → m (x % 16) ≡ some c
    → made V d raw (suc n) m x ≡ made V d raw n c (x / 16)
unfolding made has_leaf
made-some V d raw n m x c e = rw (e, has_leaf) refl

index_zero_lem :
    (V : Type 0) (d raw : V) (m : HashMap V zero) (x y : ℕ)
    → x < keys zero
    → y < keys zero
    → ((index V d raw zero m x).1 ≡ or_default (lookup V zero m x) (made V d raw zero m x))
      × (lookup V zero (index V d raw zero m x).0 y ≡ (
          if x == y then or_new (lookup V zero m x) (made V d raw zero m x) else lookup V zero m y))
unfolding lookup index made has_leaf
index_zero_lem V d raw m x y hx hy = ground arith

-- `operator[]` returns the value of the key, or a new value if it has none, and afterwards the key has
-- that value; the values of the other keys stay. The new value is `value_type()` if a bucket on the way
-- of the key is missing, and else what `new value_type` leaves. (The keys have the width of the map.)
pub index_lem :
    (V : Type 0) (d raw : V) (n : ℕ) (m : HashMap V n) (x y : ℕ)
    → x < keys n
    → y < keys n
    → ((index V d raw n m x).1 ≡ or_default (lookup V n m x) (made V d raw n m x))
      × (lookup V n (index V d raw n m x).0 y
          ≡ (if x == y then or_new (lookup V n m x) (made V d raw n m x) else lookup V n m y))
unfolding lookup index child_or_new
index_lem V d raw zero m x y hx hy = index_zero_lem V d raw m x y hx hy
index_lem V d raw (suc n) m x y hx hy = elim (Option-cases (m (x % 16))) [
  | inl e ↦
      let m' = (insert V (suc n) m x d).0 in
      let child = (insert V n (empty V n) (x / 16) d).0 in
      let ih = index_lem V d raw n child (x / 16) (y / 16) (omega arith) (omega arith) in
      let w = made V d raw n child (x / 16) in
      let new : lookup V n child (x / 16) ≡ some d =
        lookup-insert_new V d n (x / 16) (omega arith) in
      let slot : m' (x % 16) ≡ some child = slot-insert V n m x d e in
      let there : lookup V (suc n) m' y ≡ (if x == y then some d else lookup V (suc n) m y) =
        lookup-insert V (suc n) m x y d hx hy ∙ rw (e, lookup) refl in
      rw (made-none V d raw n m x e) (
        rw (e, index)
          (rw (slot, child_or_new)
            (
              ih.0 ∙ ap (λ o. or_default o w) new,
              via-update (λ child. lookup V n child (y / 16)) m' x y _ (some d)
                    (rw slot (
                      ih.1
                      ∙ ap (λ o. if x / 16 == y / 16 then or_new o w else lookup V n child (y / 16))
                          new))
                  ∙ ap (λ o. if x == y then some d else o) there
                  ∙ if_same (x == y) (some d) _,
            )))
  | inr (c, e) ↦
      let ih = index_lem V d raw n c (x / 16) (y / 16) (omega arith) (omega arith) in
      rw (made-some V d raw n m x c e) (
        rw (e, index) (ih.0, via-update (λ child. lookup V n child (y / 16)) m x y _ _ (rw e ih.1)))
]

-- `insert` returns whether the key had no value. Afterwards the key has its old value if it had one,
-- and the new one if not; the values of the other keys stay. (The keys have the width of the map.)
pub insert_lem :
    (V : Type 0) (n : ℕ) (m : HashMap V n) (x y : ℕ) (v : V)
    → x < keys n
    → y < keys n
    → ((insert V n m x v).1 ≡ is_none (lookup V n m x))
      × (lookup V n (insert V n m x v).0 y
          ≡ (if x == y then or_new (lookup V n m x) v else lookup V n m y))
insert_lem V n m x y v hx hy = (insert-done V n m x v, lookup-insert V n m x y v hx hy)

-- `remove` returns whether the key had a value. Afterwards it has none, and the values of the other
-- keys stay. (The keys have the width of the map.)
pub remove_lem :
    (V : Type 0) (n : ℕ) (m : HashMap V n) (x y : ℕ)
    → x < keys n
    → y < keys n
    → ((remove V n m x).1 ≡ exists V n m x)
      × (lookup V n (remove V n m x).0 y ≡ (if x == y then none else lookup V n m y))
remove_lem V n m x y hx hy = (remove-done V n m x, lookup-remove V n m x y hx hy)

-- What `exists` says of a key after an `insert` and after a `remove`: inserted keys exist, removed
-- ones do not, and the others exist if they did. (The keys have the width of the map.)
pub exists_lem :
    (V : Type 0) (n : ℕ) (m : HashMap V n) (x y : ℕ) (v : V)
    → x < keys n
    → y < keys n
    → (exists V n (insert V n m x v).0 y ≡ (if x == y then true else exists V n m y))
      × (exists V n (remove V n m x).0 y ≡ (if x == y then false else exists V n m y))
unfolding exists_leaf
exists_lem V n m x y v hx hy = (
  ground (
    arith,
    exists-lookup V n (insert V n m x v).0 y,
    exists-lookup V n m y,
    lookup-insert V n m x y v hx hy,
  ),
  ground (
    arith,
    exists-lookup V n (remove V n m x).0 y,
    exists-lookup V n m y,
    lookup-remove V n m x y hx hy,
  ),
)
