-- ===== src/BTree/Insert.antt =====
-- include/xtd/btree.hpp: insertion. `insert_rec` takes the height of the node as the bound of its
-- depth.
use xtl.Prelude.{
  ℕ, zero, suc, ◌+◌, ◌-◌, ◌/◌, Bool, true, false, List, [], ◌∷◌, take, drop, length, get_or, ltb,
}
use xtl.BTree.{
  Page, free_page, leaf_page, branch_page, M, pure, fault, ◌>>=◌, ◌>>◌, modify, read, succ_size,
  get_page, set_page, get_leaf, get_branch, new_leaf, new_branch, keys_of, lower_bound,
  lower_bound_leaf, child_index, found_at, insert_at,
}

-- `insert_result`
pub record InsertResult : Type 0 where
  pub inserted : Bool
  pub split : Bool
  pub promo_key : ℕ
  pub right_idx : ℕ

abbrev pub result : Bool → Bool → ℕ → ℕ → InsertResult
result i s p r = record { inserted = i; split = s; promo_key = p; right_idx = r }

-- `_records[0]._key`
abbrev pub first_key : {V : Type 0} → List (ℕ × V) → ℕ
first_key rs = get_or (keys_of rs) 0 0

module _ {V : Type 0} (order : ℕ) where
  -- `leaf_insert_at` at the place that `lower_bound_leaf` finds
  unfoldable pub leaf_insert_at : ℕ → ℕ → V → M V (Unit {0})
  unfolding get_leaf set_page insert_at lower_bound
  leaf_insert_at idx key value = get_leaf idx >>= λ l.
      let (rs, nx, pv) = l in
      set_page idx (leaf_page (insert_at (lower_bound_leaf rs key) (key, value) rs) nx pv)

  -- `if (oRight->_next_page)`: the leaf behind gets its new predecessor.
  unfoldable pub set_prev : ℕ → ℕ → M V (Unit {0})
  unfolding get_leaf set_page
  set_prev zero ridx = pure tt
  set_prev (suc idx) ridx =
      get_leaf (suc idx) >>= λ l. let (rs, nx, pv) = l in set_page (suc idx) (leaf_page rs nx ridx)

  -- the part of `insert_leaf` for a full leaf
  unfoldable pub split_leaf : ℕ → ℕ → V → M V InsertResult
  unfolding new_leaf get_leaf set_page leaf_insert_at set_prev
  split_leaf idx key value = new_leaf >>= λ ridx. get_leaf idx >>= λ l.
      let (rs, nx, pv) = l in
      let mid = order / 2 in
      let right = take (order - mid) (drop mid rs) in
      set_page idx (leaf_page (take mid rs) ridx pv)
      >> set_page ridx (leaf_page right nx idx)
      >> set_prev nx ridx
      >> elim (ltb key (first_key right)) [
        | true ↦ leaf_insert_at idx key value
        | false ↦ leaf_insert_at ridx key value
      ]
      >> get_leaf ridx
      >>= λ r. pure (result true true (first_key r.0) ridx)

  unfoldable pub insert_leaf : ℕ → ℕ → V → M V InsertResult
  unfolding get_leaf lower_bound leaf_insert_at split_leaf
  insert_leaf idx key value = get_leaf idx >>= λ l.
      elim (found_at l.0 (lower_bound_leaf l.0 key) key) [
        | true ↦ pure (result false false key 0)
        | false ↦ elim (ltb (length l.0) order) [
          | true ↦ leaf_insert_at idx key value >> pure (result true false key 0)
          | false ↦ split_leaf idx key value
        ]
      ]

  -- the part of `insert_branch` for a full branch: `tkeys` and `tchildren` are the over-full sequence
  unfoldable pub split_branch : ℕ → Bool → List ℕ → List ℕ → M V InsertResult
  unfolding set_page new_branch
  split_branch idx inserted tkeys tchildren =
      let mid = (order + 1) / 2 in
      set_page idx (branch_page (take mid tkeys) (take (mid + 1) tchildren))
      >> new_branch
      >>= λ ridx.
          set_page ridx (
            branch_page (take (order + 1 - mid - 1) (drop (mid + 1) tkeys))
              (take (order + 1 - mid - 1 + 1) (drop (mid + 1) tchildren)))
          >> pure (result inserted true (get_or tkeys mid 0) ridx)

  -- `insert_branch` after the recursive call, which returned `res`
  unfoldable pub branch_insert_at : ℕ → ℕ → ℕ → InsertResult → M V InsertResult
  unfolding get_branch set_page insert_at split_branch
  branch_insert_at idx ci key res = elim (res.split) [
    | false ↦ pure res
    | true ↦ get_branch idx >>= λ b.
        let keys = insert_at ci res.promo_key b.0 in
        let children = insert_at (ci + 1) res.right_idx b.1 in
        elim (ltb (length b.0) order) [
          | true ↦
              set_page idx (branch_page keys children) >> pure (result res.inserted false key 0)
          | false ↦ split_branch idx res.inserted keys children
        ]
  ]

  -- `insert_branch`, with `insert_rec` for the child
  abbrev pub insert_branch : (ℕ → M V InsertResult) → ℕ → ℕ → M V InsertResult
  insert_branch insert_child idx key = get_branch idx >>= λ b.
      let ci = child_index b.0 key in insert_child (get_or b.1 ci 0) >>= branch_insert_at idx ci key

  abbrev pub by_type : M V InsertResult → M V InsertResult → Page V → M V InsertResult
  by_type leaf branch (free_page next) = fault
  by_type leaf branch (leaf_page rs nx pv) = leaf
  by_type leaf branch (branch_page ks cs) = branch

  unfoldable pub insert_rec : ℕ → ℕ → ℕ → V → M V InsertResult
  unfolding get_page get_branch child_index insert_leaf branch_insert_at
  insert_rec zero idx key value = fault
  insert_rec (suc height) idx key value =
      get_page idx
      >>= by_type (insert_leaf idx key value)
          (insert_branch (λ child. insert_rec height child key value) idx key)

  unfoldable pub insert_first : ℕ → V → M V Bool
  unfolding new_leaf set_page
  insert_first key value = new_leaf >>= λ lidx.
      set_page lidx (leaf_page ((key, value) ∷ []) 0 0)
      >> modify (λ st. record st { root_page = lidx; first_leaf = lidx; height = 1; count = 1 })
      >> pure true

  -- `if (res.split)`
  unfoldable pub grow_root : InsertResult → M V (Unit {0})
  unfolding new_branch set_page
  grow_root res = elim (res.split) [
    | false ↦ pure tt
    | true ↦ new_branch >>= λ nr. read (λ st. st.root_page) >>= λ root.
        set_page nr (branch_page (res.promo_key ∷ []) (root ∷ res.right_idx ∷ []))
        >> modify (λ st. record st { root_page = nr; height = succ_size st.height })
  ]

  -- `if (res.inserted)`
  unfoldable pub count_up : Bool → M V Bool
  count_up true = modify (λ st. record st { count = succ_size st.count }) >> pure true
  count_up false = pure false

  abbrev pub insert_into : ℕ → ℕ → ℕ → V → M V Bool
  insert_into zero height key value = insert_first key value
  insert_into (suc root) height key value =
      insert_rec height (suc root) key value >>= λ res. grow_root res >> count_up res.inserted

  unfoldable pub insert : ℕ → V → M V Bool
  unfolding insert_first insert_rec grow_root count_up
  insert key value st = insert_into st.root_page st.height key value st
