-- ===== src/BTree/Erase.antt =====
-- include/xtd/btree.hpp: erasure, and the return of pages to the free list. The recursions take the
-- height as the bound of their depth.
use xtl.Prelude.{
  ℕ, zero, suc, ◌+◌, ◌-◌, Bool, true, false, List, [], ◌∷◌, take, length, get_or, ◌==◌,
}
use xtl.BTree.{
  Page, free_page, leaf_page, branch_page, M, pure, fault, ◌>>=◌, ◌>>◌, modify, read, pred_size,
  get_page, set_page, get_leaf, get_branch, free_page_at, lower_bound, lower_bound_leaf,
  child_index, found_at, remove_at,
}

-- `erase_result`
pub record EraseResult : Type 0 where
  pub erased : Bool
  pub child_empty : Bool

abbrev pub erase_result : Bool → Bool → EraseResult
erase_result e c = record { erased = e; child_empty = c }

module _ {V : Type 0} where
  -- `if (p) get_leaf(p)->_next_page = n`
  unfoldable pub link_next : ℕ → ℕ → M V (Unit {0})
  unfolding get_leaf set_page
  link_next zero n = pure tt
  link_next (suc p) n = get_leaf (suc p) >>= λ l. set_page (suc p) (leaf_page l.0 n l.2)

  -- `if (n) get_leaf(n)->_prev_page = p`
  unfoldable pub link_prev : ℕ → ℕ → M V (Unit {0})
  unfolding get_leaf set_page
  link_prev p zero = pure tt
  link_prev p (suc n) = get_leaf (suc n) >>= λ l. set_page (suc n) (leaf_page l.0 l.1 p)

  -- the part of `remove_child` for a leaf
  unfoldable pub unlink : ℕ → Page V → M V (Unit {0})
  unfolding link_next link_prev
  unlink cidx (free_page next) = pure tt
  unlink cidx (branch_page ks cs) = pure tt
  unlink cidx (leaf_page rs nx pv) =
      link_next pv nx >> link_prev pv nx >> read (λ st. st.first_leaf) >>= λ first.
      elim (first == cidx) [ true ↦ modify (λ st. record st { first_leaf = nx }) | false ↦ pure tt ]

  -- the keys and children of a branch with count `cnt` without child `ci`
  unfoldable pub without_child : ℕ → ℕ → List ℕ × List ℕ → Page V
  unfolding remove_at
  without_child ci cnt (ks, cs) = elim (ci == cnt) [
    | true ↦ elim (cnt == 0) [
      | true ↦ branch_page ks cs
      | false ↦ branch_page (take (cnt - 1) ks) (take cnt cs)
    ]
    | false ↦ branch_page (remove_at ci ks) (remove_at ci cs)
  ]

  unfoldable pub remove_child : ℕ → ℕ → M V (Unit {0})
  unfolding get_branch get_page unlink free_page_at set_page without_child
  remove_child bidx ci = get_branch bidx >>= λ b.
      let cidx = get_or b.1 ci 0 in
      get_page cidx >>= unlink cidx >> free_page_at cidx >> get_branch bidx >>= λ b'.
      set_page bidx (without_child ci (length b'.0) b')

  -- `erase_rec` at a leaf
  unfoldable pub erase_leaf : ℕ → ℕ → M V EraseResult
  unfolding get_leaf set_page lower_bound remove_at
  erase_leaf idx key = get_leaf idx >>= λ l.
      let pos = lower_bound_leaf l.0 key in
      elim (found_at l.0 pos key) [
        | false ↦ pure (erase_result false false)
        | true ↦
            let rs = remove_at pos l.0 in
            set_page idx (leaf_page rs l.1 l.2) >> pure (erase_result true (length rs == 0))
      ]

  -- `erase_rec` at a branch after the recursive call, which returned `res`
  unfoldable pub after_child : ℕ → ℕ → EraseResult → M V EraseResult
  unfolding get_branch remove_child
  after_child idx ci res = elim (res.erased) [
    | false ↦ pure (erase_result false false)
    | true ↦ elim (res.child_empty) [
      | false ↦ pure (erase_result true false)
      | true ↦
          get_branch idx >>= λ b. remove_child idx ci >> pure (erase_result true (length b.0 == 0))
    ]
  ]

  abbrev pub erase_at : (ℕ → M V EraseResult) → ℕ → ℕ → Page V → M V EraseResult
  erase_at erase_child idx key (free_page next) = fault
  erase_at erase_child idx key (leaf_page rs nx pv) = erase_leaf idx key
  erase_at erase_child idx key (branch_page ks cs) =
      let ci = child_index ks key in erase_child (get_or cs ci 0) >>= after_child idx ci

  unfoldable pub erase_rec : ℕ → ℕ → ℕ → M V EraseResult
  unfolding get_page erase_leaf after_child child_index
  erase_rec zero idx key = fault
  erase_rec (suc height) idx key =
      get_page idx >>= erase_at (λ child. erase_rec height child key) idx key

  -- a round of the loop in `erase`, at a root whose page is read
  abbrev pub only_child : ℕ → M V (Unit {0}) → Page V → M V (Unit {0})
  only_child old go (free_page next) = pure tt
  only_child old go (leaf_page rs nx pv) = pure tt
  only_child old go (branch_page ks cs) = elim (length ks == 0) [
    | false ↦ pure tt
    | true ↦
        modify (λ st. record st { root_page = get_or cs 0 0; height = pred_size st.height })
        >> free_page_at old
        >> go
  ]

  -- The loop that replaces a root branch by its only child.
  unfoldable pub collapse : ℕ → M V (Unit {0})
  unfolding get_page free_page_at
  collapse zero = pure tt
  collapse (suc rounds) = read (λ st. st.root_page) >>= λ old. elim (old == 0) [
    | true ↦ pure tt
    | false ↦ get_page old >>= only_child old (collapse rounds)
  ]

  unfoldable pub empty_tree : M V (Unit {0})
  empty_tree = modify (λ st. record st { root_page = 0; first_leaf = 0; height = 0 })

  -- `erase` of a key that is in the tree with root `root`, after `erase_rec`
  unfoldable pub after_erase : ℕ → EraseResult → M V ℕ
  unfolding free_page_at empty_tree collapse
  after_erase root res = elim (res.erased) [
    | false ↦ pure 0
    | true ↦
        modify (λ st. record st { count = pred_size st.count })
        >> elim (res.child_empty) [
          | true ↦ free_page_at root >> empty_tree
          | false ↦ λ st. collapse st.height st
        ]
        >> pure 1
  ]

  abbrev pub erase_from : ℕ → ℕ → ℕ → M V ℕ
  erase_from zero height key = pure 0
  erase_from (suc root) height key = erase_rec height (suc root) key >>= after_erase (suc root)

  unfoldable pub erase : ℕ → M V ℕ
  unfolding erase_rec after_erase
  erase key st = erase_from st.root_page st.height key st

  -- `free_subtree`
  unfoldable pub free_each : (ℕ → M V (Unit {0})) → List ℕ → M V (Unit {0})
  free_each free [] = pure tt
  free_each free (c ∷ cs) = free c >> free_each free cs

  abbrev pub free_kids : (ℕ → M V (Unit {0})) → Page V → M V (Unit {0})
  free_kids free (free_page next) = pure tt
  free_kids free (leaf_page rs nx pv) = pure tt
  free_kids free (branch_page ks cs) = free_each free (take (length ks + 1) cs)

  unfoldable pub free_subtree : ℕ → ℕ → M V (Unit {0})
  unfolding get_page free_each free_page_at
  free_subtree zero idx = fault
  free_subtree (suc height) idx =
      get_page idx >>= free_kids (λ c. free_subtree height c) >> free_page_at idx

  abbrev pub free_root : ℕ → ℕ → M V (Unit {0})
  free_root zero height = pure tt
  free_root (suc root) height = free_subtree height (suc root)

  unfoldable pub clear : M V (Unit {0})
  unfolding free_subtree empty_tree
  clear st =
      (free_root st.root_page st.height >> empty_tree >> modify (λ st. record st { count = 0 })) st
