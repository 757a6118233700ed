-- ===== src/BTree/Records.antt =====
-- The records of a b-tree as a list in the order of the keys: lookup and insertion in it, and what the
-- search in a leaf finds there.
use xtl.Prelude.{
  ℕ, ◌+◌, ◌≤◌, ◌<◌, Bool, true, false, Option, none, some, List, [], ◌∷◌, ◌++◌, ltb, ◌==◌,
  if◌then◌else◌, ◌≡◌, refl, ap, inl, inr, Bool-cases, arith,
}
use xtl.BTree.{keys_of, found_at, insert_at}
use xtl.BTree.Entries.{Sorted, leading, Sorted-le, less}

-- Lists of records
module _ {V : Type 0} where
  unfoldable pub lookup : ℕ → List (ℕ × V) → Option V
  lookup key [] = none
  lookup key ((k, v) ∷ es) = let rest = lookup key es in if key == k then some v else rest

  -- insertion that keeps a value which is there
  unfoldable pub put : ℕ → V → List (ℕ × V) → List (ℕ × V)
  put key v [] = (key, v) ∷ []
  put key v ((k, w) ∷ es) =
      let rest = put key v es in
      if ltb key k
      then (key, v) ∷ (k, w) ∷ es
      else (if key == k then (k, w) ∷ es else (k, w) ∷ rest)

  abbrev pub is_some : Option V → Bool
  is_some none = false
  is_some (some v) = true

  pub lookup-before :
      (key lo hi : ℕ) (es : List (ℕ × V))
      → Sorted lo hi (keys_of es)
      → key < lo
      → lookup key es ≡ none
  unfolding lookup
  lookup-before key lo hi [] s h = refl
  lookup-before key lo hi ((k, v) ∷ es) (a, s) h =
      let e : (key == k) ≡ false = ground arith in
      rw e (lookup-before key (k + 1) hi es s (omega arith))

  pub found_at-lookup :
      (key lo hi : ℕ) (es : List (ℕ × V))
      → Sorted lo hi (keys_of es)
      → found_at es (leading (less key) (keys_of es)) key ≡ is_some (lookup key es)
  unfolding leading lookup
  found_at-lookup key lo hi [] s = refl
  found_at-lookup key lo hi ((k, v) ∷ es) (a, s) = elim (Bool-cases (ltb k key)) [
    | inl e ↦
        let q : (key == k) ≡ false = ground arith in rw (e, q) (found_at-lookup key (k + 1) hi es s)
    | inr e ↦ elim (Bool-cases (key == k)) [
      | inl q ↦ let q' : (k == key) ≡ true = ground arith in rw (e, q, q') refl
      | inr q ↦
          let q' : (k == key) ≡ false = ground arith in
          rw (e, q, q', lookup-before key (k + 1) hi es s (ground arith)) refl
    ]
  ]

  pub insert_at-put :
      (key : ℕ) (v : V) (es : List (ℕ × V))
      → found_at es (leading (less key) (keys_of es)) key ≡ false
      → insert_at (leading (less key) (keys_of es)) (key, v) es ≡ put key v es
  unfolding leading put insert_at
  insert_at-put key v [] f = refl
  insert_at-put key v ((k, w) ∷ es) f = elim (Bool-cases (ltb k key)) [
    | inl e ↦
        let p : ltb key k ≡ false = ground arith in
        let q : (key == k) ≡ false = ground arith in
        rw (e, p, q) (ap (λ r. (k, w) ∷ r) (insert_at-put key v es (rw e at f)))
    | inr e ↦ let f' = rw e at f in let p : ltb key k ≡ true = ground arith in rw (e, p) refl
  ]

  pub put-present :
      (key : ℕ) (v : V) (lo hi : ℕ) (es : List (ℕ × V))
      → Sorted lo hi (keys_of es)
      → is_some (lookup key es) ≡ true
      → put key v es ≡ es
  unfolding put lookup
  put-present key v lo hi [] s f = absurd (ground arith)
  put-present key v lo hi ((k, w) ∷ es) (a, s) f = elim (Bool-cases (key == k)) [
    | inl q ↦ let p : ltb key k ≡ false = ground arith in rw (p, q) refl
    | inr q ↦
        let f' = rw q at f in
        elim (Bool-cases (ltb key k)) [
          | inl p ↦
              let n = lookup-before key (k + 1) hi es s (ground arith) in absurd (ground arith)
          | inr p ↦ rw (p, q) (ap (λ r. (k, w) ∷ r) (put-present key v (k + 1) hi es s f'))
        ]
  ]

  pub Sorted-put :
      (key : ℕ) (v : V) (lo hi : ℕ) (es : List (ℕ × V))
      → lo ≤ key
      → key < hi
      → Sorted lo hi (keys_of es)
      → Sorted lo hi (keys_of (put key v es))
  unfolding put
  Sorted-put key v lo hi [] a b s = (a, omega arith)
  Sorted-put key v lo hi ((k, w) ∷ es) a b (c, s) = elim (Bool-cases (ltb key k)) [
    | inl p ↦ rw p (a, (ground arith, s))
    | inr p ↦ elim (Bool-cases (key == k)) [
      | inl q ↦ rw (p, q) (c, s)
      | inr q ↦ rw (p, q) (c, Sorted-put key v (k + 1) hi es (ground arith) b s)
    ]
  ]

  pub keys_of-append : (a b : List (ℕ × V)) → keys_of (a ++ b) ≡ keys_of a ++ keys_of b
  keys_of-append [] b = refl
  keys_of-append ((k, v) ∷ a) b = ap (λ r. k ∷ r) (keys_of-append a b)

  pub put-left :
      (key : ℕ) (v : V) (m hi : ℕ) (a b : List (ℕ × V))
      → key < m
      → Sorted m hi (keys_of b)
      → put key v (a ++ b) ≡ put key v a ++ b
  unfolding put
  put-left key v m hi [] [] h s = refl
  put-left key v m hi [] ((k, w) ∷ b) h (c, s) =
      let p : ltb key k ≡ true = ground arith in rw p refl
  put-left key v m hi ((k, w) ∷ a) b h s = elim (Bool-cases (ltb key k)) [
    | inl p ↦ rw p refl
    | inr p ↦ elim (Bool-cases (key == k)) [
      | inl q ↦ rw (p, q) refl
      | inr q ↦ rw (p, q) (ap (λ r. (k, w) ∷ r) (put-left key v m hi a b h s))
    ]
  ]

  pub put-right :
      (key : ℕ) (v : V) (lo m : ℕ) (a b : List (ℕ × V))
      → m ≤ key
      → Sorted lo m (keys_of a)
      → put key v (a ++ b) ≡ a ++ put key v b
  unfolding put
  put-right key v lo m [] b h s = refl
  put-right key v lo m ((k, w) ∷ a) b h (c, s) =
      let l = Sorted-le (k + 1) m (keys_of a) s in
      let p : ltb key k ≡ false = ground arith in
      let q : (key == k) ≡ false = ground arith in
      rw (p, q) (ap (λ r. (k, w) ∷ r) (put-right key v (k + 1) m a b h s))

  pub lookup-left :
      (key m hi : ℕ) (a b : List (ℕ × V))
      → key < m
      → Sorted m hi (keys_of b)
      → lookup key (a ++ b) ≡ lookup key a
  unfolding lookup
  lookup-left key m hi [] b h s = lookup-before key m hi b s h
  lookup-left key m hi ((k, w) ∷ a) b h s = rw (lookup-left key m hi a b h s) refl

  pub lookup-right :
      (key lo m : ℕ) (a b : List (ℕ × V))
      → m ≤ key
      → Sorted lo m (keys_of a)
      → lookup key (a ++ b) ≡ lookup key b
  unfolding lookup
  lookup-right key lo m [] b h s = refl
  lookup-right key lo m ((k, w) ∷ a) b h (c, s) =
      let l = Sorted-le (k + 1) m (keys_of a) s in
      let q : (key == k) ≡ false = ground arith in rw q (lookup-right key (k + 1) m a b h s)

pub Sorted-append :
    (lo m hi : ℕ) (a b : List ℕ) → Sorted lo m a → Sorted m hi b → Sorted lo hi (a ++ b)
Sorted-append lo m hi [] [] s t = omega arith
Sorted-append lo m hi [] (k ∷ b) s (c, t) = (omega arith, t)
Sorted-append lo m hi (k ∷ a) b (c, s) t = (c, Sorted-append (k + 1) m hi a b s t)

-- where a sorted list is cut, its next key divides it
pub Sorted-cut :
    (lo hi : ℕ) (a : List ℕ) (k : ℕ) (b : List ℕ)
    → Sorted lo hi (a ++ (k ∷ b))
    → Sorted lo k a × Sorted k hi (k ∷ b)
Sorted-cut lo hi [] k b (c, s) = (c, (omega arith, s))
Sorted-cut lo hi (x ∷ a) k b (c, s) = let (p, q) = Sorted-cut (x + 1) hi a k b s in ((c, p), q)
