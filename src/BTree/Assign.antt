-- ===== src/BTree/Assign.antt =====
-- A value overwritten in the list of entries, and in the leaf of the tree that its key leads to.
use xtl.Prelude.{
  ℕ, suc, ◌+◌, ◌≤◌, ◌<◌, false, List, [], ◌∷◌, ◌++◌, length, ltb, ◌==◌, if◌then◌else◌, ◌≡◌, refl,
  ap, inl, inr, Bool-cases, arith,
}
use xtl.BTree.{keys_of}
use xtl.BTree.Entries.{Sorted, Sorted-le}
use xtl.BTree.Shape.{
  Tree, leaf, branch, Kids, only, more, root, separators, roots, one, tally, tally_kids,
}
use xtl.BTree.Kids.{kid}

module _ {V : Type 0} where
  -- the entry of a key that is there gets a new value
  unfoldable pub assign : ℕ → V → List (ℕ × V) → List (ℕ × V)
  assign key v [] = []
  assign key v ((k, w) ∷ es) =
      let rest = assign key v es in if key == k then (k, v) ∷ es else (k, w) ∷ rest

  pub keys_of-assign :
      (key : ℕ) (v : V) (es : List (ℕ × V)) → keys_of (assign key v es) ≡ keys_of es
  unfolding assign
  keys_of-assign key v [] = refl
  keys_of-assign key v ((k, w) ∷ es) = elim (Bool-cases (key == k)) [
    | inl e ↦ rw e refl
    | inr e ↦ rw e (ap (λ r. k ∷ r) (keys_of-assign key v es))
  ]

  pub length-assign : (key : ℕ) (v : V) (es : List (ℕ × V)) → length (assign key v es) ≡ length es
  unfolding assign
  length-assign key v [] = refl
  length-assign key v ((k, w) ∷ es) = elim (Bool-cases (key == k)) [
    | inl e ↦ rw e refl
    | inr e ↦ rw e (ap suc (length-assign key v es))
  ]

  assign-before :
      (key lo hi : ℕ) (v : V) (es : List (ℕ × V))
      → Sorted lo hi (keys_of es)
      → key < lo
      → assign key v es ≡ es
  unfolding assign
  assign-before key lo hi v [] s h = refl
  assign-before key lo hi v ((k, w) ∷ es) (a, s) h =
      let e : (key == k) ≡ false = ground arith in
      rw e (ap (λ r. (k, w) ∷ r) (assign-before key (k + 1) hi v es s (omega arith)))

  pub assign-left :
      (key m hi : ℕ) (v : V) (a b : List (ℕ × V))
      → key < m
      → Sorted m hi (keys_of b)
      → assign key v (a ++ b) ≡ assign key v a ++ b
  unfolding assign
  assign-left key m hi v [] b h s = assign-before key m hi v b s h
  assign-left key m hi v ((k, w) ∷ a) b h s = elim (Bool-cases (key == k)) [
    | inl e ↦ rw e refl
    | inr e ↦ rw e (ap (λ r. (k, w) ∷ r) (assign-left key m hi v a b h s))
  ]

  pub assign-right :
      (key lo m : ℕ) (v : V) (a b : List (ℕ × V))
      → m ≤ key
      → Sorted lo m (keys_of a)
      → assign key v (a ++ b) ≡ a ++ assign key v b
  unfolding assign
  assign-right key lo m v [] b h s = refl
  assign-right key lo m v ((k, w) ∷ a) b h (c, s) =
      let l = Sorted-le (k + 1) m (keys_of a) s in
      let q : (key == k) ≡ false = ground arith in
      rw q (ap (λ r. (k, w) ∷ r) (assign-right key (k + 1) m v a b h s))

  unfoldable mutual
    -- the page of the leaf that the key leads to, with its records
    pub target : ℕ → Tree V → ℕ × List (ℕ × V)
    target key (leaf i rs) = (i, rs)
    target key (branch i ks) = target_kids key ks

    pub target_kids : ℕ → Kids V → ℕ × List (ℕ × V)
    target_kids key (only t) = target key t
    target_kids key (more t k ks) =
        let rest = target_kids key ks in
        let first = target key t in if ltb key k then first else rest

  pub target-kid : (key : ℕ) (ks : Kids V) → target_kids key ks ≡ target key (kid key ks)
  unfolding target kid
  target-kid key (only t) = refl
  target-kid key (more t k ks) = elim (Bool-cases (ltb key k)) [
    | inl e ↦ rw e refl
    | inr e ↦ rw e (target-kid key ks)
  ]

  unfoldable mutual
    unfolding assign

    pub assign_tree : ℕ → V → Tree V → Tree V
    assign_tree key v (leaf i rs) = leaf i (assign key v rs)
    assign_tree key v (branch i ks) = branch i (assign_kids key v ks)

    pub assign_kids : ℕ → V → Kids V → Kids V
    assign_kids key v (only t) = only (assign_tree key v t)
    assign_kids key v (more t k ks) =
        let rest = assign_kids key v ks in
        let first = assign_tree key v t in if ltb key k then more first k ks else more t k rest

  pub root-assign : (key : ℕ) (v : V) (t : Tree V) → root (assign_tree key v t) ≡ root t
  unfolding assign_tree
  root-assign key v (leaf i rs) = refl
  root-assign key v (branch i ks) = refl

  pub separators-assign :
      (key : ℕ) (v : V) (ks : Kids V) → separators (assign_kids key v ks) ≡ separators ks
  unfolding assign_tree
  separators-assign key v (only t) = refl
  separators-assign key v (more t k ks) = elim (Bool-cases (ltb key k)) [
    | inl e ↦ rw e refl
    | inr e ↦ rw e (ap (λ r. k ∷ r) (separators-assign key v ks))
  ]

  pub roots-assign : (key : ℕ) (v : V) (ks : Kids V) → roots (assign_kids key v ks) ≡ roots ks
  unfolding assign_tree
  roots-assign key v (only t) = ap (λ r. r ∷ []) (root-assign key v t)
  roots-assign key v (more t k ks) = elim (Bool-cases (ltb key k)) [
    | inl e ↦ rw e (ap (λ r. r ∷ roots ks) (root-assign key v t))
    | inr e ↦ rw e (ap (λ r. root t ∷ r) (roots-assign key v ks))
  ]

  mutual
    unfolding assign_tree tally target

    pub tally-assign : (j key : ℕ) (v : V) (t : Tree V) → tally j (assign_tree key v t) ≡ tally j t
    tally-assign j key v (leaf i rs) = refl
    tally-assign j key v (branch i ks) = ap (λ n. one j i + n) (tally-assign_kids j key v ks)

    tally-assign_kids :
        (j key : ℕ) (v : V) (ks : Kids V) → tally_kids j (assign_kids key v ks) ≡ tally_kids j ks
    tally-assign_kids j key v (only t) = tally-assign j key v t
    tally-assign_kids j key v (more t k ks) = elim (Bool-cases (ltb key k)) [
      | inl e ↦ rw e (ap (λ n. n + tally_kids j ks) (tally-assign j key v t))
      | inr e ↦ rw e (ap (λ n. tally j t + n) (tally-assign_kids j key v ks))
    ]

  mutual
    unfolding tally target

    -- the target is a page of the tree
    pub target-tally : (key : ℕ) (t : Tree V) → 1 ≤ tally (target key t).0 t
    target-tally key (leaf i rs) = ground arith
    target-tally key (branch i ks) = let h = target-tally_kids key ks in omega arith

    pub target-tally_kids : (key : ℕ) (ks : Kids V) → 1 ≤ tally_kids (target_kids key ks).0 ks
    target-tally_kids key (only t) = target-tally key t
    target-tally_kids key (more t k ks) = elim (Bool-cases (ltb key k)) [
      | inl e ↦ rw e (let h = target-tally key t in omega arith)
      | inr e ↦ rw e (let h = target-tally_kids key ks in omega arith)
    ]
