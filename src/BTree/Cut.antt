-- ===== src/BTree/Cut.antt =====
-- The children of a branch cut in two at a separator.
use xtl.Prelude.{
  ℕ, zero, suc, ◌+◌, ◌<◌, ◌∷◌, ◌++◌, length, get_or, take, drop, ◌≡◌, refl, ap, ◌∙◌, arith,
}
use xtl.BTree.{Page}
use xtl.BTree.Shape.{
  Kids, only, more, root, separators, roots, entries, entries_kids, tally, tally_kids, Depth,
  DepthKids, Holds, HoldsKids, Valid, ValidKids,
}
use mathlib.Core.List.{append_assoc}

module _ {V : Type 0} where
  unfoldable pub cut_left : ℕ → Kids V → Kids V
  cut_left m (only t) = only t
  cut_left zero (more t k ks) = only t
  cut_left (suc m) (more t k ks) = more t k (cut_left m ks)

  unfoldable pub cut_right : ℕ → Kids V → Kids V
  cut_right m (only t) = only t
  cut_right zero (more t k ks) = ks
  cut_right (suc m) (more t k ks) = cut_right m ks

  abbrev pub cut_key : ℕ → Kids V → ℕ
  cut_key m ks = get_or (separators ks) m 0

  pub cut-separators :
      (m : ℕ) (ks : Kids V)
      → m < length (separators ks)
      → (separators (cut_left m ks) ≡ take m (separators ks))
        × (separators (cut_right m ks) ≡ drop (suc m) (separators ks))
        × (roots (cut_left m ks) ≡ take (suc m) (roots ks))
        × (roots (cut_right m ks) ≡ drop (suc m) (roots ks))
  unfolding cut_left cut_right
  cut-separators m (only t) h = absurd (omega arith)
  cut-separators zero (more t k ks) h = (refl, refl, refl, refl)
  cut-separators (suc m) (more t k ks) h =
      let (a, b, c, d) = cut-separators m ks (omega arith) in
      (ap (λ r. k ∷ r) a, b, ap (λ r. root t ∷ r) c, d)

  pub cut-entries :
      (m : ℕ) (ks : Kids V)
      → m < length (separators ks)
      → entries_kids (cut_left m ks) ++ entries_kids (cut_right m ks) ≡ entries_kids ks
  unfolding cut_left cut_right entries
  cut-entries m (only t) h = absurd (omega arith)
  cut-entries zero (more t k ks) h = refl
  cut-entries (suc m) (more t k ks) h =
      append_assoc (entries t) (entries_kids (cut_left m ks)) (entries_kids (cut_right m ks))
      ∙ ap (λ r. entries t ++ r) (cut-entries m ks (omega arith))

  pub cut-tally :
      (j m : ℕ) (ks : Kids V)
      → m < length (separators ks)
      → tally_kids j (cut_left m ks) + tally_kids j (cut_right m ks) ≡ tally_kids j ks
  unfolding cut_left cut_right tally
  cut-tally j m (only t) h = absurd (omega arith)
  cut-tally j zero (more t k ks) h = refl
  cut-tally j (suc m) (more t k ks) h = let e = cut-tally j m ks (omega arith) in omega arith

  pub cut-Depth :
      (h m : ℕ) (ks : Kids V)
      → DepthKids h ks
      → DepthKids h (cut_left m ks) × DepthKids h (cut_right m ks)
  unfolding cut_left cut_right Depth
  cut-Depth h m (only t) d = (d, d)
  cut-Depth h zero (more t k ks) d = d
  cut-Depth h (suc m) (more t k ks) d = let (a, b) = cut-Depth h m ks d.1 in ((d.0, a), b)

  pub cut-Holds :
      (pages : ℕ → Page V) (m : ℕ) (ks : Kids V)
      → HoldsKids pages ks
      → HoldsKids pages (cut_left m ks) × HoldsKids pages (cut_right m ks)
  unfolding cut_left cut_right Holds
  cut-Holds pages m (only t) d = (d, d)
  cut-Holds pages zero (more t k ks) d = d
  cut-Holds pages (suc m) (more t k ks) d = let (a, b) = cut-Holds pages m ks d.1 in ((d.0, a), b)

  pub cut-Valid :
      (order lo hi m : ℕ) (ks : Kids V)
      → m < length (separators ks)
      → ValidKids order lo hi ks
      → ValidKids order lo (cut_key m ks) (cut_left m ks)
        × ValidKids order (cut_key m ks) hi (cut_right m ks)
  unfolding cut_left cut_right Valid
  cut-Valid order lo hi m (only t) h v = absurd (omega arith)
  cut-Valid order lo hi zero (more t k ks) h v = v
  cut-Valid order lo hi (suc m) (more t k ks) h v =
      let (a, b) = cut-Valid order k hi m ks (omega arith) v.1 in ((v.0, a), b)
