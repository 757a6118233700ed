-- ===== src/BTree/LeafLinks.antt =====
-- The steps of an insertion into a leaf of a b-tree, and the links of its new neighbour.
use xtl.Prelude.{
  ℕ, zero, suc, true, false, some, List, [], ◌≡◌, ◌≢◌, refl, sym, ap, ◌∙◌, ◌⊎◌, ℕ_discrete, inl,
  inr, arith, update, update_self, update_other,
}
use xtl.BTree.{
  Page, free_page, leaf_page, branch_page, Store, M, keys_of, get_leaf, set_page, lower_bound_leaf,
  found_at, insert_at,
}
use xtl.BTree.Chain.{Linked, Linked-leaf, Linked-update, get_leaf-runs, step, is_leaf, leaf-update}
use xtl.BTree.Entries.{Sorted, lower_bound-leading}
use xtl.BTree.Records.{lookup, put, is_some, found_at-lookup, insert_at-put}
use xtl.BTree.Insert.{leaf_insert_at, set_prev}
use xtl.BTree.Shape.{Like, Like-refl}

module _ {V : Type 0} where
  abbrev pub with_pages : Store V → (ℕ → Page V) → Store V
  with_pages st pages = record st { pages = pages }

  pub update-Like :
      (pages : ℕ → Page V) (i : ℕ) (p : Page V) (j : ℕ)
      → i ≢ j
      → Like (pages j) (update pages i p j)
  update-Like pages i p j ne =
      Like-refl (pages j) (update pages i p j) (update_other pages i j p ne)

  pub found-lookup :
      (key lo hi : ℕ) (rs : List (ℕ × V))
      → Sorted lo hi (keys_of rs)
      → found_at rs (lower_bound_leaf rs key) key ≡ is_some (lookup key rs)
  found-lookup key lo hi rs s =
      ap (λ n. found_at rs n key) (lower_bound-leading key lo hi (keys_of rs) s)
      ∙ found_at-lookup key lo hi rs s

  insert-put :
      (key : ℕ) (v : V) (lo hi : ℕ) (rs : List (ℕ × V))
      → Sorted lo hi (keys_of rs)
      → is_some (lookup key rs) ≡ false
      → insert_at (lower_bound_leaf rs key) (key, v) rs ≡ put key v rs
  insert-put key v lo hi rs s e =
      ap (λ n. insert_at n (key, v) rs) (lower_bound-leading key lo hi (keys_of rs) s)
      ∙ insert_at-put key v rs (found_at-lookup key lo hi rs s ∙ e)

  pub leaf_insert_at-runs :
      (order : ℕ) (st : Store V) (i key lo hi : ℕ) (v : V) (rs : List (ℕ × V)) (nx pv : ℕ)
      → st.pages i ≡ leaf_page rs nx pv
      → Sorted lo hi (keys_of rs)
      → is_some (lookup key rs) ≡ false
      → leaf_insert_at order i key v st
        ≡ some (tt, with_pages st (update st.pages i (leaf_page (put key v rs) nx pv)))
  unfolding leaf_insert_at set_page
  leaf_insert_at-runs order st i key lo hi v rs nx pv e s f =
      step (get_leaf i) _ st st (rs, nx, pv) _ (get_leaf-runs st i nx pv rs e)
        (ap (λ l. some (tt, with_pages st (update st.pages i (leaf_page l nx pv))))
          (insert-put key v lo hi rs s f))

  -- What `set_prev` does: it writes the link of one leaf.
  abbrev pub Relinked : Store V → M V (Unit {0}) → Type 0
  Relinked st run =
      (pages : ℕ → Page V) × (run st ≡ some (tt, with_pages st pages))
      × Linked pages
      × ((j : ℕ) → Like (st.pages j) (pages j))

  leaf_of :
      (p : Page V)
      → is_leaf p ≡ true
      → (rs : List (ℕ × V)) × (nx : ℕ) × (pv : ℕ) × (p ≡ leaf_page rs nx pv)
  leaf_of (free_page next) h = absurd (ground arith)
  leaf_of (leaf_page rs nx pv) h = (rs, nx, pv, refl)
  leaf_of (branch_page ks cs) h = absurd (ground arith)

  Like-leaf :
      (p q : Page V) (rs : List (ℕ × V)) (nx pv nx' pv' : ℕ)
      → p ≡ leaf_page rs nx pv
      → q ≡ leaf_page rs nx' pv'
      → Like p q
  Like-leaf p q rs nx pv nx' pv' e d = rw e (nx', pv', d)

  pub set_prev-Relinked :
      (order : ℕ) (st : Store V) (nx r : ℕ)
      → Linked st.pages
      → ((nx ≡ 0) ⊎ (is_leaf (st.pages nx) ≡ true))
      → Relinked st (set_prev order nx r)
  unfolding set_prev set_page
  set_prev-Relinked order st zero r l h =
      (st.pages, refl, l, λ j. Like-refl (st.pages j) (st.pages j) refl)
  set_prev-Relinked order st (suc nx) r l (inl e) = absurd (omega arith)
  set_prev-Relinked order st (suc nx) r l (inr h) =
      let (rs, n, p, e) = leaf_of (st.pages (suc nx)) h in
      let pages = update st.pages (suc nx) (leaf_page rs n r) in
      (
        pages,
        step (get_leaf (suc nx)) _ st st (rs, n, p) _ (get_leaf-runs st (suc nx) n p rs e) refl,
        Linked-leaf st.pages (suc nx) n p r rs rs e l,
        λ j. elim (ℕ_discrete (suc nx) j) [
          | yes q ↦
              Like-leaf (st.pages j) (pages j) rs n p n r (ap st.pages (sym q) ∙ e)
                (ap pages (sym q) ∙ update_self st.pages (suc nx) (leaf_page rs n r))
          | no ne ↦ update-Like st.pages (suc nx) (leaf_page rs n r) j ne
        ],
      )

  -- The pages after the two halves are written and linked, before the entry is put in
  pub record Linking (pages : ℕ → Page V) (i r : ℕ) (left right : List (ℕ × V)) : Type 0 where
    pub next_left : ℕ
    pub prev_left : ℕ
    pub next_right : ℕ
    pub prev_right : ℕ
    pub at_left : pages i ≡ leaf_page left next_left prev_left
    pub at_right : pages r ≡ leaf_page right next_right prev_right
    pub linked : Linked pages

  abbrev pub three : (ℕ → Page V) → (i r nx pv : ℕ) → (left right : List (ℕ × V)) → ℕ → Page V
  three pages i r nx pv left right =
      update (update (update pages r (leaf_page [] 0 0)) i (leaf_page left r pv)) r
        (leaf_page right nx i)

  pub three-Linked :
      (pages : ℕ → Page V) (i r nx pv : ℕ) (rs left right : List (ℕ × V))
      → i ≢ r
      → pages i ≡ leaf_page rs nx pv
      → Linked pages
      → Linked (three pages i r nx pv left right)
        × ((nx ≡ 0) ⊎ (is_leaf (three pages i r nx pv left right nx) ≡ true))
  three-Linked pages i r nx pv rs left right ne e l =
      let p1 = update pages r (leaf_page [] 0 0) in
      let p2 = update p1 i (leaf_page left r pv) in
      let p3 = update p2 r (leaf_page right nx i) in
      let l1 = Linked-update pages r (leaf_page [] 0 0) (λ q. refl) (inl refl) l in
      let at_r : p2 r ≡ leaf_page [] 0 0 =
        update_other p1 i r (leaf_page left r pv) ne ∙ update_self pages r (leaf_page [] 0 0) in
      let l2 = Linked-update p1 i (leaf_page left r pv) (λ q. refl) (inr (ap is_leaf at_r)) l1 in
      let old = l i in
      let link : (nx ≡ 0) ⊎ (is_leaf (p3 nx) ≡ true) = elim (rw e at old) [
        | inl z ↦ inl z
        | inr h ↦ inr (
            leaf-update p2 r (leaf_page right nx i) nx (λ q. refl)
              (leaf-update p1 i (leaf_page left r pv) nx (λ q. refl)
                (leaf-update pages r (leaf_page [] 0 0) nx (λ q. refl) h)))
      ] in
      (Linked-update p2 r (leaf_page right nx i) (λ q. refl) link l2, link)
