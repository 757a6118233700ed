-- ===== src/BTree/Reached.antt =====
-- The walk from the root of a b-tree to the leaf for a key, and the search in that leaf.
use xtl.Prelude.{
  ℕ, zero, suc, ◌≤◌, ◌<◌, true, false, Option, none, some, List, [], ◌∷◌, ltb, ◌==◌, ◌≡◌, refl, sym,
  ap, ◌∙◌, inl, inr, Bool-cases, arith,
}
use xtl.BTree.{leaf_page, Store, M, pure, read, keys_of, get_leaf, get_page, found_at}
use xtl.BTree.Chain.{get_leaf-runs, step}
use xtl.BTree.Entries.{Sorted, leading, less, child_index-leading, lower_bound-leading}
use xtl.BTree.Records.{lookup, is_some, found_at-lookup}
use xtl.BTree.Find.{next_node, find_leaf_from, search_leaf, value_at}
use xtl.BTree.Access.{out_of_range, accessed}
use xtl.BTree.Assign.{target, target-kid}
use xtl.BTree.Shape.{
  Tree, leaf, branch, root, separators, entries, tally, Depth, Holds, Valid, ValidKids-Rising,
}
use xtl.BTree.Kids.{kid, get_or-kid, kid-Fitting, lookup-kid}
use xtl.BTree.KidPages.{kid-tally, kid-Depth, kid-Holds}

module _ {V : Type 0} where
  -- the leaf that `find_leaf` ends at
  pub record Reached (key : ℕ) (st : Store V) (t : Tree V) (run : M V ℕ) : Type 0 where
    pub idx : ℕ
    pub records : List (ℕ × V)
    pub next : ℕ
    pub prev : ℕ
    pub low : ℕ
    pub high : ℕ
    pub runs : run st ≡ some (suc idx, st)
    pub page : st.pages (suc idx) ≡ leaf_page records next prev
    pub sorted : Sorted low high (keys_of records)
    pub same : lookup key records ≡ lookup key (entries t)
    pub aimed : (suc idx, records) ≡ target key t

  pub find_leaf-Reached :
      (order height lo hi key : ℕ) (st : Store V) (t : Tree V) (i : ℕ)
      → lo ≤ key
      → key < hi
      → root t ≡ i
      → tally 0 t ≡ 0
      → Holds st.pages t
      → Depth height t
      → Valid order lo hi t
      → Reached key st t (find_leaf_from height key i)
  unfolding find_leaf_from get_page Holds Depth Valid entries tally target
  find_leaf-Reached order zero lo hi key st (leaf i rs) r a b q z h d v = absurd (omega arith)
  find_leaf-Reached order zero lo hi key st (branch i ks) r a b q z h (h', e, d) v =
      absurd (omega arith)
  find_leaf-Reached order (suc height) lo hi key st (leaf i rs) zero a b q z h d v =
      absurd (ground arith)
  find_leaf-Reached order (suc height) lo hi key st (branch i ks) zero a b q z h d v =
      absurd (ground arith)
  find_leaf-Reached order (suc height) lo hi key st (leaf i rs) (suc r) a b q z (nx, pv, e) d v =
      let e' = rw q at e in
      record {
        idx = r;
        records = rs;
        next = nx;
        prev = pv;
        low = lo;
        high = hi;
        runs = ap (λ p. next_node (λ child. find_leaf_from height key child) key (suc r) p st) e';
        page = e';
        sorted = v.0;
        same = refl;
        aimed = ap (λ n. (n, rs)) (sym q);
      }
  find_leaf-Reached order (suc height) lo hi key st (branch i ks) (suc r) a b q z (e, h) (h', d', d)
        v =
      let f = kid-Fitting order lo hi key ks a b v.0 in
      let e' = rw q at e in
      let g : h' ≡ height = omega arith in
      let n =
        find_leaf-Reached order height f.low f.high key st (kid key ks) (root (kid key ks)) f.above
          f.below refl (let t = kid-tally 0 key ks in ground arith) (kid-Holds st.pages key ks h)
          (rw (sym g) (kid-Depth h' key ks d)) f.valid in
      let ci =
        child_index-leading key lo hi (separators ks) (ValidKids-Rising order lo hi ks v.0) in
      record {
        idx = n.idx;
        records = n.records;
        next = n.next;
        prev = n.prev;
        low = n.low;
        high = n.high;
        runs =
            ap (λ p. next_node (λ child. find_leaf_from height key child) key (suc r) p st) e'
            ∙ rw (ci, get_or-kid key ks) n.runs;
        page = n.page;
        sorted = n.sorted;
        same = n.same ∙ sym (lookup-kid key order lo hi ks v.0);
        aimed = n.aimed ∙ sym (target-kid key ks);
      }

  value_at-lookup :
      (key : ℕ) (rs : List (ℕ × V))
      → found_at rs (leading (less key) (keys_of rs)) key ≡ true
      → value_at rs (leading (less key) (keys_of rs)) ≡ lookup key rs
  unfolding leading lookup
  value_at-lookup key [] f = absurd (ground arith)
  value_at-lookup key ((k, v) ∷ rs) f = elim (Bool-cases (ltb k key)) [
    | inl e ↦
        let q : (key == k) ≡ false = ground arith in rw (e, q) (value_at-lookup key rs (rw e at f))
    | inr e ↦ let f' = rw e at f in let q : (key == k) ≡ true = ground arith in rw (e, q) refl
  ]

  is_none : (o : Option V) → is_some o ≡ false → o ≡ none
  is_none none e = refl
  is_none (some v) e = absurd (ground arith)

  -- the outcomes of `search_leaf` in a leaf that is sorted
  module _ (key lo hi i nx pv : ℕ) (rs : List (ℕ × V)) (st : Store V)
      (page : st.pages (suc i) ≡ leaf_page rs nx pv) (sorted : Sorted lo hi (keys_of rs)) where
    abbrev position : ℕ
    position = leading (less key) (keys_of rs)

    pub search_leaf-found :
        {A : Type 0} (absent : M V A) (found : ℕ → ℕ → List (ℕ × V) × ℕ × ℕ → M V A)
        → is_some (lookup key rs) ≡ true
        → search_leaf key absent found (suc i) st ≡ found (suc i) position (rs, nx, pv) st
    unfolding search_leaf
    search_leaf-found absent found e =
        step (get_leaf (suc i)) _ st st (rs, nx, pv) _ (get_leaf-runs st (suc i) nx pv rs page)
          (rw
            (
              lower_bound-leading key lo hi (keys_of rs) sorted,
              found_at-lookup key lo hi rs sorted,
              e,
            )
            (ap (λ p. found (suc i) p (rs, nx, pv) st)
              (lower_bound-leading key lo hi (keys_of rs) sorted)))

    pub search_leaf-absent :
        {A : Type 0} (absent : M V A) (found : ℕ → ℕ → List (ℕ × V) × ℕ × ℕ → M V A)
        → is_some (lookup key rs) ≡ false
        → search_leaf key absent found (suc i) st ≡ absent st
    unfolding search_leaf
    search_leaf-absent absent found e =
        step (get_leaf (suc i)) _ st st (rs, nx, pv) _ (get_leaf-runs st (suc i) nx pv rs page)
          (rw
            (
              lower_bound-leading key lo hi (keys_of rs) sorted,
              found_at-lookup key lo hi rs sorted,
              e,
            )
            refl)

    pub search_leaf-value :
        search_leaf key (pure none) (λ leaf pos l. read (λ s. value_at l.0 pos)) (suc i) st
        ≡ some (lookup key rs, st)
    search_leaf-value = elim (Bool-cases (is_some (lookup key rs))) [
      | inl e ↦
          search_leaf-found (pure none) (λ leaf pos l. read (λ s. value_at l.0 pos)) e
          ∙ ap (λ o. some (o, st))
              (value_at-lookup key rs (found_at-lookup key lo hi rs sorted ∙ e))
      | inr e ↦
          search_leaf-absent (pure none) (λ leaf pos l. read (λ s. value_at l.0 pos)) e
          ∙ ap (λ o. some (o, st)) (sym (is_none (lookup key rs) e))
    ]

  pub search_leaf-access :
      (key lo hi i nx pv : ℕ) (rs : List (ℕ × V)) (st : Store V)
      → st.pages (suc i) ≡ leaf_page rs nx pv
      → Sorted lo hi (keys_of rs)
      → search_leaf key
          (pure out_of_range)
          (λ leaf pos l. read (λ s. accessed (value_at l.0 pos)))
          (suc i)
          st
        ≡ some (accessed (lookup key rs), st)
  search_leaf-access key lo hi i nx pv rs st page sorted =
      elim (Bool-cases (is_some (lookup key rs))) [
        | inl e ↦
            search_leaf-found key lo hi i nx pv rs st page sorted (pure out_of_range)
              (λ leaf pos l. read (λ s. accessed (value_at l.0 pos))) e
            ∙ ap (λ o. some (accessed o, st))
                (value_at-lookup key rs (found_at-lookup key lo hi rs sorted ∙ e))
        | inr e ↦
            search_leaf-absent key lo hi i nx pv rs st page sorted (pure out_of_range)
              (λ leaf pos l. read (λ s. accessed (value_at l.0 pos))) e
            ∙ ap (λ o. some (accessed o, st)) (sym (is_none (lookup key rs) e))
      ]
