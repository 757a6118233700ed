-- ===== src/BTree/AssignTree.antt =====
-- The tree of a b-tree with a value overwritten in one leaf: its entries, its bounds and its pages.
use xtl.Prelude.{
  ℕ, ◌≤◌, List, ◌++◌, ltb, ◌≡◌, ◌≢◌, refl, sym, ap, ◌∙◌, inl, inr, Bool-cases, arith, update,
  update_self, update_other,
}
use xtl.BTree.{Page, leaf_page}
use xtl.BTree.Assign.{
  assign, keys_of-assign, length-assign, assign-left, assign-right, target, target_kids,
  assign_tree, assign_kids, separators-assign, roots-assign, target-tally, target-tally_kids,
}
use xtl.BTree.LeafLinks.{update-Like}
use xtl.BTree.Shape.{
  Tree, leaf, branch, Kids, only, more, entries, entries_kids, tally, tally_kids, Depth, DepthKids,
  Holds, HoldsKids, Holds-frame, HoldsKids-frame, Valid, ValidKids, Valid-entries,
  ValidKids-entries,
}

module _ {V : Type 0} (key : ℕ) (v : V) where
  mutual
    unfolding assign_tree Depth

    pub assign-Depth : (h : ℕ) (t : Tree V) → Depth h t → Depth h (assign_tree key v t)
    assign-Depth h (leaf i rs) d = d
    assign-Depth h (branch i ks) (h', e, d) = (h', e, assign-DepthKids h' ks d)

    assign-DepthKids : (h : ℕ) (ks : Kids V) → DepthKids h ks → DepthKids h (assign_kids key v ks)
    assign-DepthKids h (only t) d = assign-Depth h t d
    assign-DepthKids h (more t k ks) (a, b) = elim (Bool-cases (ltb key k)) [
      | inl e ↦ rw e (assign-Depth h t a, b)
      | inr e ↦ rw e (a, assign-DepthKids h ks b)
    ]

  mutual
    unfolding assign_tree Valid

    pub assign-Valid :
        (order lo hi : ℕ) (t : Tree V)
        → Valid order lo hi t
        → Valid order lo hi (assign_tree key v t)
    assign-Valid order lo hi (leaf i rs) (s, l) =
        (rw (keys_of-assign key v rs) s, rw (length-assign key v rs) l)
    assign-Valid order lo hi (branch i ks) (a, l) =
        (assign-ValidKids order lo hi ks a, rw (separators-assign key v ks) l)

    assign-ValidKids :
        (order lo hi : ℕ) (ks : Kids V)
        → ValidKids order lo hi ks
        → ValidKids order lo hi (assign_kids key v ks)
    assign-ValidKids order lo hi (only t) w = assign-Valid order lo hi t w
    assign-ValidKids order lo hi (more t k ks) (a, b) = elim (Bool-cases (ltb key k)) [
      | inl e ↦ rw e (assign-Valid order lo k t a, b)
      | inr e ↦ rw e (a, assign-ValidKids order k hi ks b)
    ]

  mutual
    unfolding assign_tree Valid entries

    pub assign-entries :
        (order lo hi : ℕ) (t : Tree V)
        → Valid order lo hi t
        → entries (assign_tree key v t) ≡ assign key v (entries t)
    assign-entries order lo hi (leaf i rs) w = refl
    assign-entries order lo hi (branch i ks) (a, l) = assign-entries_kids order lo hi ks a

    assign-entries_kids :
        (order lo hi : ℕ) (ks : Kids V)
        → ValidKids order lo hi ks
        → entries_kids (assign_kids key v ks) ≡ assign key v (entries_kids ks)
    assign-entries_kids order lo hi (only t) w = assign-entries order lo hi t w
    assign-entries_kids order lo hi (more t k ks) (a, b) = elim (Bool-cases (ltb key k)) [
      | inl e ↦ rw e (
          ap (λ r. r ++ entries_kids ks) (assign-entries order lo k t a)
          ∙ sym (
              assign-left key k hi v (entries t) (entries_kids ks) (ground arith)
                (ValidKids-entries order k hi ks b)))
      | inr e ↦ rw e (
          ap (λ r. entries t ++ r) (assign-entries_kids order k hi ks b)
          ∙ sym (
              assign-right key lo k v (entries t) (entries_kids ks) (ground arith)
                (Valid-entries order lo k t a)))
    ]

  module _ (pages : ℕ → Page V) (nx pv : ℕ) where
    -- the pages with the value overwritten in the leaf `x`
    abbrev pub overwritten : ℕ × List (ℕ × V) → ℕ → Page V
    overwritten (i, rs) = update pages i (leaf_page (assign key v rs) nx pv)

    mutual
      unfolding assign_tree Holds tally target

      pub assign-Holds :
          (t : Tree V)
          → ((j : ℕ) → tally j t ≤ 1)
          → Holds pages t
          → Holds (overwritten (target key t)) (assign_tree key v t)
      assign-Holds (leaf i rs) o h =
          (nx, pv, update_self pages i (leaf_page (assign key v rs) nx pv))
      assign-Holds (branch i ks) o (e, h) =
          let x = target_kids key ks in
          let ne : x.0 ≢ i = λ q. let a = o i in let b = target-tally_kids key ks in ground arith in
          (
            update_other pages x.0 i (leaf_page (assign key v x.1) nx pv) ne
                ∙ rw (separators-assign key v ks, roots-assign key v ks) e,
            assign-HoldsKids ks (λ j. let a = o j in omega arith) h,
          )

      assign-HoldsKids :
          (ks : Kids V)
          → ((j : ℕ) → tally_kids j ks ≤ 1)
          → HoldsKids pages ks
          → HoldsKids (overwritten (target_kids key ks)) (assign_kids key v ks)
      assign-HoldsKids (only t) o h = assign-Holds t o h
      assign-HoldsKids (more t k ks) o (a, b) = elim (Bool-cases (ltb key k)) [
        | inl e ↦ rw e (
          assign-Holds t (λ j. let c = o j in omega arith) a,
          HoldsKids-frame pages (overwritten (target key t)) ks
              (λ j c.
                update-Like pages (target key t).0 (leaf_page (assign key v (target key t).1) nx pv)
                  j (λ q. let d = o j in let m = target-tally key t in ground arith))
              b,
        )
        | inr e ↦ rw e (
          Holds-frame pages (overwritten (target_kids key ks)) t
              (λ j c.
                update-Like pages (target_kids key ks).0
                  (leaf_page (assign key v (target_kids key ks).1) nx pv) j
                  (λ q. let d = o j in let m = target-tally_kids key ks in ground arith))
              a,
          assign-HoldsKids ks (λ j. let c = o j in omega arith) b,
        )
      ]
