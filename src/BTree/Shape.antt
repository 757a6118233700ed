-- ===== src/BTree/Shape.antt =====
-- The tree that the pages of a b-tree stand for, and what is true of it.
use xtl.Prelude.{ℕ, suc, ◌+◌, ◌≤◌, List, [], ◌∷◌, ◌++◌, length, ◌==◌, if◌then◌else◌, ◌≡◌, arith}
use xtl.BTree.{Page, free_page, leaf_page, branch_page, keys_of}
use xtl.BTree.Entries.{Sorted, Sorted-le, Rising}
use xtl.BTree.Records.{Sorted-append, keys_of-append}

mutual
  -- each node with the index of its page
  pub data Tree (V : Type 0) : Type 0 where
    leaf : ℕ → List (ℕ × V) → Tree V
    branch : ℕ → Kids V → Tree V

  -- the children of a branch, with a separator between each two
  pub data Kids (V : Type 0) : Type 0 where
    only : Tree V → Kids V
    more : Tree V → ℕ → Kids V → Kids V

abbrev pub one : ℕ → ℕ → ℕ
one j i = if j == i then 1 else 0

module _ {V : Type 0} where
  abbrev pub root : Tree V → ℕ
  root (leaf i rs) = i
  root (branch i ks) = i

  abbrev pub separators : Kids V → List ℕ
  separators (only t) = []
  separators (more t k ks) = k ∷ separators ks

  abbrev pub roots : Kids V → List ℕ
  roots (only t) = root t ∷ []
  roots (more t k ks) = root t ∷ roots ks

  unfoldable mutual
    pub entries : Tree V → List (ℕ × V)
    entries (leaf i rs) = rs
    entries (branch i ks) = entries_kids ks

    pub entries_kids : Kids V → List (ℕ × V)
    entries_kids (only t) = entries t
    entries_kids (more t k ks) = entries t ++ entries_kids ks

  unfoldable mutual
    -- how often page `j` stands in the tree
    pub tally : ℕ → Tree V → ℕ
    tally j (leaf i rs) = one j i
    tally j (branch i ks) = one j i + tally_kids j ks

    pub tally_kids : ℕ → Kids V → ℕ
    tally_kids j (only t) = tally j t
    tally_kids j (more t k ks) = tally j t + tally_kids j ks

  unfoldable mutual
    -- All leaves have the depth `h`.
    pub Depth : ℕ → Tree V → Type 0
    Depth h (leaf i rs) = h ≡ 1
    Depth h (branch i ks) = (h' : ℕ) × (h ≡ suc h') × DepthKids h' ks

    pub DepthKids : ℕ → Kids V → Type 0
    DepthKids h (only t) = Depth h t
    DepthKids h (more t k ks) = Depth h t × DepthKids h ks

  -- The pages hold the tree; the links between the leaves are left open.
  unfoldable mutual
    pub Holds : (ℕ → Page V) → Tree V → Type 0
    Holds pages (leaf i rs) = (nx : ℕ) × (pv : ℕ) × (pages i ≡ leaf_page rs nx pv)
    Holds pages (branch i ks) =
        (pages i ≡ branch_page (separators ks) (roots ks)) × HoldsKids pages ks

    pub HoldsKids : (ℕ → Page V) → Kids V → Type 0
    HoldsKids pages (only t) = Holds pages t
    HoldsKids pages (more t k ks) = Holds pages t × HoldsKids pages ks

  unfoldable mutual
    -- The keys are in order and from `lo` on below `hi`, and no node holds more than `order`.
    pub Valid : (order lo hi : ℕ) → Tree V → Type 0
    Valid order lo hi (leaf i rs) = Sorted lo hi (keys_of rs) × (length rs ≤ order)
    Valid order lo hi (branch i ks) = ValidKids order lo hi ks × (length (separators ks) ≤ order)

    pub ValidKids : (order lo hi : ℕ) → Kids V → Type 0
    ValidKids order lo hi (only t) = Valid order lo hi t
    ValidKids order lo hi (more t k ks) = Valid order lo k t × ValidKids order k hi ks

  mutual
    unfolding Valid entries

    Valid-Sorted :
        (order lo hi : ℕ) (t : Tree V) → Valid order lo hi t → Sorted lo hi (keys_of (entries t))
    Valid-Sorted order lo hi (leaf i rs) v = v.0
    Valid-Sorted order lo hi (branch i ks) v = ValidKids-Sorted order lo hi ks v.0

    ValidKids-Sorted :
        (order lo hi : ℕ) (ks : Kids V)
        → ValidKids order lo hi ks
        → Sorted lo hi (keys_of (entries_kids ks))
    ValidKids-Sorted order lo hi (only t) v = Valid-Sorted order lo hi t v
    ValidKids-Sorted order lo hi (more t k ks) v =
        rw (keys_of-append (entries t) (entries_kids ks)) (
          Sorted-append lo k hi (keys_of (entries t)) (keys_of (entries_kids ks))
            (Valid-Sorted order lo k t v.0) (ValidKids-Sorted order k hi ks v.1))

  pub Valid-entries :
      (order lo hi : ℕ) (t : Tree V) → Valid order lo hi t → Sorted lo hi (keys_of (entries t))
  Valid-entries order lo hi t v = Valid-Sorted order lo hi t v

  pub ValidKids-entries :
      (order lo hi : ℕ) (ks : Kids V)
      → ValidKids order lo hi ks
      → Sorted lo hi (keys_of (entries_kids ks))
  ValidKids-entries order lo hi ks v = ValidKids-Sorted order lo hi ks v

  pub Valid-le : (order lo hi : ℕ) (t : Tree V) → Valid order lo hi t → lo ≤ hi
  Valid-le order lo hi t v = Sorted-le lo hi (keys_of (entries t)) (Valid-entries order lo hi t v)

  pub ValidKids-Rising :
      (order lo hi : ℕ) (ks : Kids V) → ValidKids order lo hi ks → Rising lo hi (separators ks)
  unfolding Valid
  ValidKids-Rising order lo hi (only t) v = Valid-le order lo hi t v
  ValidKids-Rising order lo hi (more t k ks) v =
      (Valid-le order lo k t v.0, ValidKids-Rising order k hi ks v.1)

  -- The same page, except that a leaf may have other links
  abbrev pub Like : Page V → Page V → Type 0
  Like (free_page next) q = q ≡ free_page next
  Like (leaf_page rs nx pv) q = (nx' : ℕ) × (pv' : ℕ) × (q ≡ leaf_page rs nx' pv')
  Like (branch_page ks cs) q = q ≡ branch_page ks cs

  pub Like-refl : (p q : Page V) → q ≡ p → Like p q
  Like-refl (free_page next) q e = e
  Like-refl (leaf_page rs nx pv) q e = (nx, pv, e)
  Like-refl (branch_page ks cs) q e = e

  pub Like-trans : (p q r : Page V) → Like p q → Like q r → Like p r
  Like-trans (free_page next) q r a b = rw a at b
  Like-trans (leaf_page rs nx pv) q r (nx', pv', e) b = rw e at b
  Like-trans (branch_page ks cs) q r a b = rw a at b

  -- Pages that change nothing of a tree but the links of its leaves
  abbrev pub Keeps : (ℕ → ℕ) → (ℕ → Page V) → (ℕ → Page V) → Type 0
  Keeps owns pages pages' = (j : ℕ) → 1 ≤ owns j → Like (pages j) (pages' j)

  mutual
    unfolding Holds tally

    Holds-Keeps :
        (pages pages' : ℕ → Page V) (t : Tree V)
        → Keeps (λ j. tally j t) pages pages'
        → Holds pages t
        → Holds pages' t
    Holds-Keeps pages pages' (leaf i rs) k (nx, pv, e) = let l = k i (ground arith) in rw e at l
    Holds-Keeps pages pages' (branch i ks) k (e, h) =
        let l = k i (ground arith) in
        (rw e at l, HoldsKids-Keeps pages pages' ks (λ j o. k j (omega arith)) h)

    HoldsKids-Keeps :
        (pages pages' : ℕ → Page V) (ks : Kids V)
        → Keeps (λ j. tally_kids j ks) pages pages'
        → HoldsKids pages ks
        → HoldsKids pages' ks
    HoldsKids-Keeps pages pages' (only t) k h = Holds-Keeps pages pages' t k h
    HoldsKids-Keeps pages pages' (more t s ks) k (a, b) = (
      Holds-Keeps pages pages' t (λ j o. k j (omega arith)) a,
      HoldsKids-Keeps pages pages' ks (λ j o. k j (omega arith)) b,
    )

  pub HoldsKids-frame :
      (pages pages' : ℕ → Page V) (ks : Kids V)
      → Keeps (λ j. tally_kids j ks) pages pages'
      → HoldsKids pages ks
      → HoldsKids pages' ks
  HoldsKids-frame pages pages' ks k h = HoldsKids-Keeps pages pages' ks k h

  pub Holds-frame :
      (pages pages' : ℕ → Page V) (t : Tree V)
      → Keeps (λ j. tally j t) pages pages'
      → Holds pages t
      → Holds pages' t
  Holds-frame pages pages' t k h = Holds-Keeps pages pages' t k h
