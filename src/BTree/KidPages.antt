-- ===== src/BTree/KidPages.antt =====
-- The pages of a branch with a child replaced: how often each stands there, the depth of the leaves,
-- what the pages hold, and the keys and children of the branch.
use xtl.Prelude.{ℕ, suc, ◌+◌, ◌≤◌, [], ◌∷◌, ltb, ◌≡◌, refl, ap, inl, inr, Bool-cases, arith}
use xtl.BTree.{Page, insert_at}
use xtl.BTree.Entries.{leading, not_more}
use xtl.BTree.Shape.{
  Tree, Kids, only, more, root, separators, roots, tally, tally_kids, Depth, DepthKids, Holds,
  HoldsKids, Like, Holds-frame, HoldsKids-frame,
}
use xtl.BTree.Kids.{kid, splice, graft, splice-tally, splice-Depth, splice-Holds}

module _ {V : Type 0} where
  pub kid-tally : (j key : ℕ) (ks : Kids V) → tally j (kid key ks) ≤ tally_kids j ks
  unfolding kid tally
  kid-tally j key (only t) = omega arith
  kid-tally j key (more t k ks) = elim (Bool-cases (ltb key k)) [
    | inl p ↦ rw p (omega arith)
    | inr p ↦ rw p (omega (arith, kid-tally j key ks))
  ]

  pub graft-tally :
      (j key : ℕ) (g ks : Kids V)
      → tally_kids j (graft key g ks) + tally j (kid key ks) ≡ tally_kids j g + tally_kids j ks
  unfolding kid graft tally
  graft-tally j key g (only t) = omega arith
  graft-tally j key g (more t k ks) = elim (Bool-cases (ltb key k)) [
    | inl p ↦ rw p (omega (arith, splice-tally j g k ks))
    | inr p ↦ rw p (omega (arith, graft-tally j key g ks))
  ]

  pub kid-Depth : (h key : ℕ) (ks : Kids V) → DepthKids h ks → Depth h (kid key ks)
  unfolding kid Depth
  kid-Depth h key (only t) d = d
  kid-Depth h key (more t k ks) d = elim (Bool-cases (ltb key k)) [
    | inl p ↦ rw p (d.0)
    | inr p ↦ rw p (kid-Depth h key ks d.1)
  ]

  pub graft-Depth :
      (h key : ℕ) (g ks : Kids V) → DepthKids h ks → DepthKids h g → DepthKids h (graft key g ks)
  unfolding graft Depth
  graft-Depth h key g (only t) d e = e
  graft-Depth h key g (more t k ks) d e = elim (Bool-cases (ltb key k)) [
    | inl p ↦ rw p (splice-Depth h g k ks e d.1)
    | inr p ↦ rw p (d.0, graft-Depth h key g ks d.1 e)
  ]

  pub kid-Holds :
      (pages : ℕ → Page V) (key : ℕ) (ks : Kids V) → HoldsKids pages ks → Holds pages (kid key ks)
  unfolding kid Holds
  kid-Holds pages key (only t) d = d
  kid-Holds pages key (more t k ks) d = elim (Bool-cases (ltb key k)) [
    | inl p ↦ rw p (d.0)
    | inr p ↦ rw p (kid-Holds pages key ks d.1)
  ]

  -- The pages of the other children are left as they are.
  pub graft-Holds :
      (pages pages' : ℕ → Page V) (key : ℕ) (g ks : Kids V)
      → ((j : ℕ) → tally_kids j ks ≤ 1)
      → ((j : ℕ) → tally j (kid key ks) ≡ 0 → 1 ≤ tally_kids j ks → Like (pages j) (pages' j))
      → HoldsKids pages ks
      → HoldsKids pages' g
      → HoldsKids pages' (graft key g ks)
  unfolding kid graft Holds tally
  graft-Holds pages pages' key g (only t) d l h e = e
  graft-Holds pages pages' key g (more t k ks) d l h e = elim (Bool-cases (ltb key k)) [
    | inl p ↦ rw p (
        splice-Holds pages' g k ks e (
          HoldsKids-frame pages pages' ks
            (λ j o. (rw p at l) j (let b = d j in omega arith) (omega arith)) h.1))
    | inr p ↦ rw p (
      Holds-frame pages pages' t
          (λ j o.
            (rw p at l) j (let b = d j in let m = kid-tally j key ks in omega arith) (omega arith))
          h.0,
      graft-Holds pages pages' key g ks (λ j. let b = d j in omega arith)
          (λ j z o. (rw p at l) j z (omega arith)) h.1 e,
    )
  ]

  -- the keys and children of the branch with one child in the place of another
  pub graft-separators_one :
      (key : ℕ) (t : Tree V) (ks : Kids V) → separators (graft key (only t) ks) ≡ separators ks
  unfolding graft splice
  graft-separators_one key t (only u) = refl
  graft-separators_one key t (more u k ks) = elim (Bool-cases (ltb key k)) [
    | inl p ↦ rw p refl
    | inr p ↦ rw p (ap (λ r. k ∷ r) (graft-separators_one key t ks))
  ]

  pub graft-roots_one :
      (key : ℕ) (t : Tree V) (ks : Kids V)
      → root t ≡ root (kid key ks)
      → roots (graft key (only t) ks) ≡ roots ks
  unfolding graft splice kid
  graft-roots_one key t (only u) e = ap (λ r. r ∷ []) e
  graft-roots_one key t (more u k ks) e = elim (Bool-cases (ltb key k)) [
    | inl p ↦ rw p (ap (λ r. r ∷ roots ks) (rw p at e))
    | inr p ↦ rw p (ap (λ r. root u ∷ r) (graft-roots_one key t ks (rw p at e)))
  ]

  -- and with two
  pub graft-separators_two :
      (key : ℕ) (t : Tree V) (p : ℕ) (t' : Tree V) (ks : Kids V)
      → separators (graft key (more t p (only t')) ks)
        ≡ insert_at (leading (not_more key) (separators ks)) p (separators ks)
  unfolding graft splice leading insert_at
  graft-separators_two key t p t' (only u) = refl
  graft-separators_two key t p t' (more u k ks) = elim (Bool-cases (ltb key k)) [
    | inl e ↦ rw e refl
    | inr e ↦ rw e (ap (λ r. k ∷ r) (graft-separators_two key t p t' ks))
  ]

  pub graft-roots_two :
      (key : ℕ) (t : Tree V) (p : ℕ) (t' : Tree V) (ks : Kids V)
      → root t ≡ root (kid key ks)
      → roots (graft key (more t p (only t')) ks)
        ≡ insert_at (leading (not_more key) (separators ks) + 1) (root t') (roots ks)
  unfolding graft splice leading insert_at kid
  graft-roots_two key t p t' (only u) e = ap (λ r. r ∷ root t' ∷ []) e
  graft-roots_two key t p t' (more u k ks) e = elim (Bool-cases (ltb key k)) [
    | inl h ↦ rw h (ap (λ r. r ∷ root t' ∷ roots ks) (rw h at e))
    | inr h ↦
        let n = leading (not_more key) (separators ks) in
        let q : suc n + 1 ≡ suc (n + 1) = omega arith in
        rw (h, q) (ap (λ r. root u ∷ r) (graft-roots_two key t p t' ks (rw h at e)))
  ]
