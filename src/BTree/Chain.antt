-- ===== src/BTree/Chain.antt =====
-- The links between the leaves of a b-tree, and the steps of a computation on its pages.
use xtl.Prelude.{
  ℕ, Bool, true, false, Option, some, List, ◌≡◌, refl, ◌⊎◌, inl, inr, Bool-cases, ◌==◌, arith,
  update, ap,
}
use xtl.BTree.{
  Page, free_page, leaf_page, branch_page, Store, M, ◌>>=◌, get_leaf, get_branch, get_page, as_leaf,
  as_branch,
}

module _ {V : Type 0} where
  abbrev pub is_leaf : Page V → Bool
  is_leaf (free_page next) = false
  is_leaf (leaf_page rs nx pv) = true
  is_leaf (branch_page ks cs) = false

  -- the next leaf of a leaf is a leaf
  abbrev pub Points : (ℕ → Page V) → Page V → Type 0
  Points pages (free_page next) = Unit {0}
  Points pages (leaf_page rs nx pv) = (nx ≡ 0) ⊎ (is_leaf (pages nx) ≡ true)
  Points pages (branch_page ks cs) = Unit {0}

  abbrev pub Linked : (ℕ → Page V) → Type 0
  Linked pages = (i : ℕ) → Points pages (pages i)

  Points-mono :
      (pages pages' : ℕ → Page V) (p : Page V)
      → ((j : ℕ) → is_leaf (pages j) ≡ true → is_leaf (pages' j) ≡ true)
      → Points pages p
      → Points pages' p
  Points-mono pages pages' (free_page next) k h = tt
  Points-mono pages pages' (leaf_page rs nx pv) k (inl e) = inl e
  Points-mono pages pages' (leaf_page rs nx pv) k (inr e) = inr (k nx e)
  Points-mono pages pages' (branch_page ks cs) k h = tt

  pub leaf-update :
      (pages : ℕ → Page V) (i : ℕ) (p : Page V) (j : ℕ)
      → (is_leaf (pages i) ≡ true → is_leaf p ≡ true)
      → is_leaf (pages j) ≡ true
      → is_leaf (update pages i p j) ≡ true
  leaf-update pages i p j k h = elim (Bool-cases (i == j)) [
    | inl e ↦ let q : i ≡ j = ground arith in rw e (k (rw q h))
    | inr e ↦ rw e h
  ]

  pub Linked-update :
      (pages : ℕ → Page V) (i : ℕ) (p : Page V)
      → (is_leaf (pages i) ≡ true → is_leaf p ≡ true)
      → Points (update pages i p) p
      → Linked pages
      → Linked (update pages i p)
  Linked-update pages i p k h l j = elim (Bool-cases (i == j)) [
    | inl e ↦ rw e h
    | inr e ↦
        rw e (Points-mono pages (update pages i p) (pages j) (λ n. leaf-update pages i p n k) (l j))
  ]

  -- a leaf that keeps its next leaf
  pub Linked-leaf :
      (pages : ℕ → Page V) (i nx pv pv' : ℕ) (rs rs' : List (ℕ × V))
      → pages i ≡ leaf_page rs nx pv
      → Linked pages
      → Linked (update pages i (leaf_page rs' nx pv'))
  Linked-leaf pages i nx pv pv' rs rs' e l =
      let h = l i in
      Linked-update pages i (leaf_page rs' nx pv') (λ q. refl)
        (Points-mono pages (update pages i (leaf_page rs' nx pv')) (leaf_page rs' nx pv')
          (λ j. leaf-update pages i (leaf_page rs' nx pv') j (λ q. refl)) (rw e at h))
        l

  pub get_leaf-runs :
      (st : Store V) (i nx pv : ℕ) (rs : List (ℕ × V))
      → st.pages i ≡ leaf_page rs nx pv
      → get_leaf i st ≡ some ((rs, nx, pv), st)
  unfolding get_leaf get_page
  get_leaf-runs st i nx pv rs e = ap (λ p. as_leaf p st) e

  pub get_branch-runs :
      (st : Store V) (i : ℕ) (ks cs : List ℕ)
      → st.pages i ≡ branch_page ks cs
      → get_branch i st ≡ some ((ks, cs), st)
  unfolding get_branch get_page
  get_branch-runs st i ks cs e = ap (λ p. as_branch p st) e

  pub step :
      {A B : Type 0} (m : M V A) (f : A → M V B) (st st' : Store V) (a : A)
      (r : Option (B × Store V))
      → m st ≡ some (a, st')
      → f a st' ≡ r
      → (m >>= f) st ≡ r
  step m f st st' a r e d = rw (e, ◌>>=◌) d
