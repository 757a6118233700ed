-- ===== src/BTree/Find.antt =====
-- include/xtd/btree.hpp: lookup, the overwriting of values, and the iterator over the leaves. The walk
-- from the root to a leaf takes the height as the bound of its rounds.
use xtl.Prelude.{
  ℕ, zero, suc, ◌+◌, Bool, true, false, Option, none, some, List, [], ◌∷◌, length, get_or, ltb,
  ◌==◌, not, ◌&&◌,
}
use xtl.BTree.{
  Page, free_page, leaf_page, branch_page, M, pure, fault, ◌>>=◌, ◌>>◌, read, get_page, set_page,
  get_leaf, lower_bound, lower_bound_leaf, child_index, found_at,
}
use xtl.BTree.Insert.{insert}

-- a `const_iterator`: `_leaf_idx` and `_pos`
abbrev pub Iterator : Type 0
Iterator = ℕ × ℕ

abbrev pub end : Iterator
end = (0, 0)

module _ {V : Type 0} where
  -- a round of `find_leaf` at a node whose page is read: a branch leads to one of its children
  abbrev pub next_node : (ℕ → M V ℕ) → ℕ → ℕ → Page V → M V ℕ
  next_node go key idx (free_page next) = pure idx
  next_node go key idx (leaf_page rs nx pv) = pure idx
  next_node go key idx (branch_page ks cs) = go (get_or cs (child_index ks key) 0)

  -- `find_leaf` from a node
  unfoldable pub find_leaf_from : ℕ → ℕ → ℕ → M V ℕ
  unfolding get_page child_index
  find_leaf_from rounds key zero = pure 0
  find_leaf_from zero key (suc idx) = fault
  find_leaf_from (suc rounds) key (suc idx) =
      get_page (suc idx) >>= next_node (λ child. find_leaf_from rounds key child) key (suc idx)

  unfoldable pub find_leaf : ℕ → M V ℕ
  unfolding find_leaf_from
  find_leaf key st = find_leaf_from st.height key st.root_page st

  -- the search for a key in a leaf that `find_leaf` returned, and what follows in each case
  unfoldable pub search_leaf :
      {A : Type 0} → ℕ → M V A → (ℕ → ℕ → List (ℕ × V) × ℕ × ℕ → M V A) → ℕ → M V A
  unfolding get_leaf lower_bound
  search_leaf key absent found zero = absent
  search_leaf key absent found (suc leaf) = get_leaf (suc leaf) >>= λ l.
      let pos = lower_bound_leaf l.0 key in
      elim (found_at l.0 pos key) [ true ↦ found (suc leaf) pos l | false ↦ absent ]

  abbrev pub value_at : List (ℕ × V) → ℕ → Option V
  value_at [] pos = none
  value_at ((k, v) ∷ rs) zero = some v
  value_at ((k, v) ∷ rs) (suc pos) = value_at rs pos

  -- `find_value`; `at` throws where this is `none`
  unfoldable pub find_value : ℕ → M V (Option V)
  unfolding find_leaf search_leaf
  find_value key =
      find_leaf key >>= search_leaf key (pure none) (λ leaf pos l. read (λ st. value_at l.0 pos))

  unfoldable pub find : ℕ → M V Iterator
  unfolding find_leaf search_leaf
  find key = find_leaf key >>= search_leaf key (pure end) (λ leaf pos l. pure (leaf, pos))

  -- `find(key) != end()`
  unfoldable pub contains : ℕ → M V Bool
  unfolding find
  contains key = find key >>= λ it. pure (not (it.0 == 0 && it.1 == 0))

  abbrev pub set_value : List (ℕ × V) → ℕ → V → List (ℕ × V)
  set_value [] pos value = []
  set_value ((k, v) ∷ rs) zero value = (k, value) ∷ rs
  set_value ((k, v) ∷ rs) (suc pos) value = (k, v) ∷ set_value rs pos value

  unfoldable pub update_value : ℕ → V → M V Bool
  unfolding find_leaf search_leaf set_page
  update_value key value =
      find_leaf key
      >>= search_leaf key (pure false)
          (λ leaf pos l. set_page leaf (leaf_page (set_value l.0 pos value) l.1 l.2) >> pure true)

  unfoldable pub insert_or_assign : ℕ → ℕ → V → M V Bool
  unfolding update_value insert
  insert_or_assign order key value = update_value key value >>= λ done. elim done [
    | true ↦ pure true
    | false ↦ insert order key value
  ]

  -- `skip_to_nonempty`
  unfoldable pub skip_to_nonempty : ℕ → Iterator → M V Iterator
  unfolding get_leaf
  skip_to_nonempty rounds (zero, pos) = pure (0, pos)
  skip_to_nonempty zero (suc leaf, pos) = fault
  skip_to_nonempty (suc rounds) (suc leaf, pos) = get_leaf (suc leaf) >>= λ l.
      elim (length l.0 == 0) [
        | true ↦ elim (l.1 == 0) [ true ↦ pure end | false ↦ skip_to_nonempty rounds (l.1, 0) ]
        | false ↦ pure (suc leaf, pos)
      ]

  unfoldable pub begin : M V Iterator
  unfolding skip_to_nonempty
  begin st = elim (st.count == 0) [
    | true ↦ some (end, st)
    | false ↦ skip_to_nonempty st.page_count (st.first_leaf, 0) st
  ]

  -- `operator++`
  unfoldable pub increment : Iterator → M V Iterator
  unfolding get_leaf skip_to_nonempty
  increment (leaf, pos) = get_leaf leaf >>= λ l. elim (ltb (pos + 1) (length l.0)) [
    | true ↦ pure (leaf, pos + 1)
    | false ↦ elim (l.1 == 0) [
      | true ↦ pure end
      | false ↦ λ st. skip_to_nonempty st.page_count (l.1, 0) st
    ]
  ]
