-- ===== src/BTree/Kids.antt =====
-- The child of a branch that a key leads to, and the branch with that child replaced by one tree or by
-- two with a separator between them: the entries and the bounds of the keys.
use xtl.Prelude.{
  ℕ, ◌+◌, ◌≤◌, ◌<◌, ◌++◌, get_or, ltb, if◌then◌else◌, ◌≡◌, refl, sym, ap, ◌∙◌, inl, inr, Bool-cases,
  arith,
}
use xtl.BTree.{Page}
use xtl.BTree.Entries.{leading, not_more}
use xtl.BTree.Records.{lookup, put, put-left, put-right, lookup-left, lookup-right}
use xtl.BTree.Shape.{
  Tree, Kids, only, more, root, separators, roots, entries, entries_kids, tally, tally_kids, Depth,
  DepthKids, Holds, HoldsKids, Valid, ValidKids, Valid-entries, ValidKids-entries,
}
use mathlib.Core.List.{append_assoc}

module _ {V : Type 0} where
  unfoldable pub kid : ℕ → Kids V → Tree V
  kid key (only t) = t
  kid key (more t k ks) = let rest = kid key ks in if ltb key k then t else rest

  unfoldable pub splice : Kids V → ℕ → Kids V → Kids V
  splice (only t) k ks = more t k ks
  splice (more t p g) k ks = more t p (splice g k ks)

  unfoldable pub graft : ℕ → Kids V → Kids V → Kids V
  unfolding splice
  graft key g (only t) = g
  graft key g (more t k ks) =
      let rest = graft key g ks in if ltb key k then splice g k ks else more t k rest

  abbrev pub place : ℕ → Kids V → ℕ
  place key ks = leading (not_more key) (separators ks)

  pub get_or-kid :
      (key : ℕ) (ks : Kids V)
      → get_or (roots ks) (leading (not_more key) (separators ks)) 0 ≡ root (kid key ks)
  unfolding kid leading
  get_or-kid key (only t) = refl
  get_or-kid key (more t k ks) = elim (Bool-cases (ltb key k)) [
    | inl e ↦ rw e refl
    | inr e ↦ rw e (get_or-kid key ks)
  ]

  splice-entries :
      (g : Kids V) (k : ℕ) (ks : Kids V)
      → entries_kids (splice g k ks) ≡ entries_kids g ++ entries_kids ks
  unfolding splice entries
  splice-entries (only t) k ks = refl
  splice-entries (more t p g) k ks =
      ap (λ r. entries t ++ r) (splice-entries g k ks)
      ∙ sym (append_assoc (entries t) (entries_kids g) (entries_kids ks))

  pub splice-tally :
      (j : ℕ) (g : Kids V) (k : ℕ) (ks : Kids V)
      → tally_kids j (splice g k ks) ≡ tally_kids j g + tally_kids j ks
  unfolding splice tally
  splice-tally j (only t) k ks = refl
  splice-tally j (more t p g) k ks = omega (arith, splice-tally j g k ks)

  pub splice-Depth :
      (h : ℕ) (g : Kids V) (k : ℕ) (ks : Kids V)
      → DepthKids h g
      → DepthKids h ks
      → DepthKids h (splice g k ks)
  unfolding splice Depth
  splice-Depth h (only t) k ks a b = (a, b)
  splice-Depth h (more t p g) k ks a b = (a.0, splice-Depth h g k ks a.1 b)

  pub splice-Holds :
      (pages : ℕ → Page V) (g : Kids V) (k : ℕ) (ks : Kids V)
      → HoldsKids pages g
      → HoldsKids pages ks
      → HoldsKids pages (splice g k ks)
  unfolding splice Holds
  splice-Holds pages (only t) k ks a b = (a, b)
  splice-Holds pages (more t p g) k ks a b = (a.0, splice-Holds pages g k ks a.1 b)

  splice-Valid :
      (order lo hi : ℕ) (g : Kids V) (k : ℕ) (ks : Kids V)
      → ValidKids order lo k g
      → ValidKids order k hi ks
      → ValidKids order lo hi (splice g k ks)
  unfolding splice Valid
  splice-Valid order lo hi (only t) k ks a b = (a, b)
  splice-Valid order lo hi (more t p g) k ks a b = (a.0, splice-Valid order p hi g k ks a.1 b)

  -- What holds of the child in its own bounds, with what may take its place
  pub record Fitting (order lo hi key : ℕ) (ks : Kids V) : Type 0 where
    pub low : ℕ
    pub high : ℕ
    pub above : low ≤ key
    pub below : key < high
    pub valid : Valid order low high (kid key ks)
    pub graft_valid :
        (g : Kids V) → ValidKids order low high g → ValidKids order lo hi (graft key g ks)

  pub kid-Fitting :
      (order lo hi key : ℕ) (ks : Kids V)
      → lo ≤ key
      → key < hi
      → ValidKids order lo hi ks
      → Fitting order lo hi key ks
  unfolding kid graft Valid
  kid-Fitting order lo hi key (only t) a b v = record {
    low = lo;
    high = hi;
    above = a;
    below = b;
    valid = v;
    graft_valid = λ g w. w;
  }
  kid-Fitting order lo hi key (more t k ks) a b v = elim (Bool-cases (ltb key k)) [
    | inl e ↦ record {
      low = lo;
      high = k;
      above = a;
      below = ground arith;
      valid = rw e (v.0);
      graft_valid = λ g w. rw e (splice-Valid order lo hi g k ks w v.1);
    }
    | inr e ↦
        let f = kid-Fitting order k hi key ks (ground arith) b v.1 in
        record {
          low = f.low;
          high = f.high;
          above = f.above;
          below = f.below;
          valid = rw e f.valid;
          graft_valid = λ g w. rw e (v.0, f.graft_valid g w);
        }
  ]

  pub graft-entries :
      (key : ℕ) (v : V) (order lo hi : ℕ) (g ks : Kids V)
      → ValidKids order lo hi ks
      → entries_kids g ≡ put key v (entries (kid key ks))
      → entries_kids (graft key g ks) ≡ put key v (entries_kids ks)
  unfolding kid graft Valid entries
  graft-entries key v order lo hi g (only t) w e = e
  graft-entries key v order lo hi g (more t k ks) w e = elim (Bool-cases (ltb key k)) [
    | inl p ↦ rw p (
        splice-entries g k ks
        ∙ ap (λ r. r ++ entries_kids ks) (rw p at e)
        ∙ sym (
            put-left key v k hi (entries t) (entries_kids ks) (ground arith)
              (ValidKids-entries order k hi ks w.1)))
    | inr p ↦ rw p (
        ap (λ r. entries t ++ r) (graft-entries key v order k hi g ks w.1 (rw p at e))
        ∙ sym (
            put-right key v lo k (entries t) (entries_kids ks) (ground arith)
              (Valid-entries order lo k t w.0)))
  ]

  pub lookup-kid :
      (key order lo hi : ℕ) (ks : Kids V)
      → ValidKids order lo hi ks
      → lookup key (entries_kids ks) ≡ lookup key (entries (kid key ks))
  unfolding kid Valid entries
  lookup-kid key order lo hi (only t) w = refl
  lookup-kid key order lo hi (more t k ks) w = elim (Bool-cases (ltb key k)) [
    | inl p ↦ rw p (
        lookup-left key k hi (entries t) (entries_kids ks) (ground arith)
          (ValidKids-entries order k hi ks w.1))
    | inr p ↦ rw p (
        lookup-right key lo k (entries t) (entries_kids ks) (ground arith)
          (Valid-entries order lo k t w.0)
        ∙ lookup-kid key order k hi ks w.1)
  ]
