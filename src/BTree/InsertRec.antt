-- ===== src/BTree/InsertRec.antt =====
-- Insertion into a subtree of a b-tree: `insert_branch` and `insert_rec`.
use xtl.Prelude.{
  ℕ, zero, suc, ◌≤◌, ◌<◌, false, not, some, List, length, ltb, ◌≡◌, refl, sym, ap, ◌∙◌, inl, inr,
  Bool-cases, arith, get_or, update,
}
use xtl.BTree.{branch_page, Store, M, get_branch, get_page, set_page, child_index}
use xtl.BTree.Chain.{get_branch-runs, step}
use xtl.BTree.Entries.{leading, not_more, child_index-leading}
use xtl.BTree.Records.{lookup, is_some}
use xtl.BTree.Insert.{
  InsertResult, result, insert_leaf, insert_branch, branch_insert_at, insert_rec, by_type,
  split_branch,
}
use xtl.BTree.Shape.{
  Tree, leaf, branch, Kids, root, roots, separators, entries_kids, tally, Depth, Holds, Valid,
  ValidKids-Rising,
}
use xtl.BTree.Kids.{kid, graft, get_or-kid, Fitting, kid-Fitting, lookup-kid}
use xtl.BTree.KidPages.{
  kid-tally, kid-Depth, kid-Holds, graft-separators_one, graft-roots_one, graft-separators_two,
  graft-roots_two,
}
use xtl.BTree.Grow.{Grow, whole, halves, grown, first_root, answer, Ready, Inserted}
use xtl.BTree.LeafLinks.{with_pages}
use xtl.BTree.LeafInsert.{insert_leaf-Inserted}
use xtl.BTree.Grafted.{Grafted, grafted, length-insert_at}
use xtl.BTree.BranchInsert.{Finished, finish_whole, finish_room, finish_split}

module _ {V : Type 0} where
  abbrev place : ℕ → Kids V → ℕ
  place key ks = leading (not_more key) (separators ks)

  Moved :
      (order height lo hi key : ℕ) (v : V) (st : Store V) (free : List ℕ) (t : Tree V)
      (run run' : M V InsertResult)
      → run st ≡ run' st
      → Inserted order height lo hi key v st free t run'
      → Inserted order height lo hi key v st free t run
  Moved order height lo hi key v st free t run run' e n = record {
    grow = n.grow;
    after = n.after;
    rest = n.rest;
    runs = e ∙ n.runs;
    is_free = n.is_free;
    linked = n.linked;
    takes = n.takes;
    holds = n.holds;
    depth = n.depth;
    valid = n.valid;
    adds = n.adds;
    same_root = n.same_root;
    frame = n.frame;
    header_same = n.header_same;
  }

  finish :
      (order height lo hi key : ℕ) (v : V) (st : Store V) (free : List ℕ) (i : ℕ) (ks : Kids V)
      (after : Store V) (rest : List ℕ) (grow : Grow V)
      → 2 ≤ order
      → first_root grow ≡ root (kid key ks)
      → Grafted order height lo hi key v st free i ks (graft key (grown grow) ks) after rest
      → Finished order height lo hi key v st free i ks (
          branch_insert_at order i
            (place key ks)
            key
            (answer grow (not (is_some (lookup key (entries_kids ks)))) key)
            after)
  unfolding branch_insert_at set_page
  finish order height lo hi key v st free i ks after rest (whole t) large r g =
      finish_whole order height lo hi key v st free i ks (graft key (grown (whole t)) ks) after rest
        large g (graft-separators_one key t ks) (graft-roots_one key t ks r)
  finish order height lo hi key v st free i ks after rest (halves t p u) large r g =
      let ks' = graft key (grown (halves t p u)) ks in
      let news = not (is_some (lookup key (entries_kids ks))) in
      let res = answer (halves t p u) news key in
      let es = graft-separators_two key t p u ks in
      let er = graft-roots_two key t p u ks r in
      let n = ap length es ∙ length-insert_at (place key ks) p (separators ks) in
      let few = g.few in
      let run = branch_insert_at order i (place key ks) key res in
      elim (Bool-cases (ltb (length (separators ks)) order)) [
        | inl e ↦
            Moved order (suc height) lo hi key v st free (branch i ks) (λ s. run after)
              (λ s. some (
                result news false key 0,
                with_pages after (update after.pages i (branch_page (separators ks') (roots ks'))),
              ))
              (step (get_branch i) _ after after (separators ks, roots ks) _
                (get_branch-runs after i (separators ks) (roots ks) g.page)
                (rw (e, sym es, sym er) refl))
              (finish_room order height lo hi key v st free i ks ks' after rest large g
                (ground arith))
        | inr e ↦
            Moved order (suc height) lo hi key v st free (branch i ks) (λ s. run after)
              (λ s. split_branch order i news (separators ks') (roots ks') after)
              (step (get_branch i) _ after after (separators ks, roots ks) _
                (get_branch-runs after i (separators ks) (roots ks) g.page)
                (rw (e, sym es, sym er) refl))
              (finish_split order height lo hi key v st free i ks ks' after rest large g
                (ground arith))
      ]

  kid-Ready :
      (order height lo hi key : ℕ) (st : Store V) (free : List ℕ) (i : ℕ) (ks : Kids V)
      → Ready order (suc height) lo hi st free (branch i ks)
      → (f : Fitting order lo hi key ks) → Ready order height f.low f.high st free (kid key ks)
  unfolding Holds Depth tally
  kid-Ready order height lo hi key st free i ks ready f =
      let (h, e, d) = ready.depth in
      let q : h ≡ height = omega arith in
      record {
        is_free = ready.is_free;
        linked = ready.linked;
        owned = λ j. let o = ready.owned j in let t = kid-tally j key ks in omega arith;
        holds = kid-Holds st.pages key ks ready.holds.1;
        depth = rw (sym q) (kid-Depth h key ks d);
        valid = f.valid;
      }

  insert_branch-Inserted :
      (order height lo hi key : ℕ) (v : V) (st : Store V) (free : List ℕ) (i : ℕ) (ks : Kids V)
      (insert_child : ℕ → M V InsertResult)
      → 2 ≤ order
      → Ready order (suc height) lo hi st free (branch i ks)
      → (f : Fitting order lo hi key ks)
      → Inserted order height f.low f.high key v st free
          (kid key ks)
          (insert_child (root (kid key ks)))
      → Inserted order
          (suc height)
          lo
          hi
          key
          v
          st
          free
          (branch i ks)
          (insert_branch order insert_child i key)
  unfolding Holds Valid
  insert_branch-Inserted order height lo hi key v st free i ks insert_child large ready f n =
      let ci : child_index (separators ks) key ≡ place key ks =
        child_index-leading key lo hi (separators ks)
          (ValidKids-Rising order lo hi ks ready.valid.0) in
      let at : get_or (roots ks) (place key ks) 0 ≡ root (kid key ks) = get_or-kid key ks in
      let look = lookup-kid key order lo hi ks ready.valid.0 in
      let res = answer n.grow (not (is_some (lookup key (entries_kids ks)))) key in
      Moved order (suc height) lo hi key v st free (branch i ks)
        (insert_branch order insert_child i key)
        (λ s. branch_insert_at order i (place key ks) key res n.after)
        (step (get_branch i) _ st st (separators ks, roots ks) _
          (get_branch-runs st i (separators ks) (roots ks) ready.holds.0)
          (rw (ci, at)
            (step (insert_child (root (kid key ks))) (branch_insert_at order i (place key ks) key)
              st n.after res _ (rw look n.runs) refl)))
        (finish order height lo hi key v st free i ks n.after n.rest n.grow large n.same_root (
          grafted order height lo hi key v st free i ks (insert_child (root (kid key ks))) ready f
            n))

  -- Where the pages hold a subtree, `insert_rec` ends within its height and returns whether the key was
  -- new and what it promotes; the pages then hold the subtree with the entry, as one tree or two, in
  -- the same bounds. No page is lost or taken twice, no other page is written but in the links of a
  -- leaf, and the header keeps the root, the first leaf, the count and the height. A node has room for
  -- two entries or more.
  pub insert_rec-Inserted :
      (order height lo hi key : ℕ) (v : V) (st : Store V) (free : List ℕ) (t : Tree V)
      → 2 ≤ order
      → lo ≤ key
      → key < hi
      → Ready order height lo hi st free t
      → Inserted order height lo hi key v st free t (insert_rec order height (root t) key v)
  unfolding Depth Holds Valid insert_rec get_page
  insert_rec-Inserted order zero lo hi key v st free (leaf i rs) large a b ready =
      absurd (let d = ready.depth in omega arith)
  insert_rec-Inserted order zero lo hi key v st free (branch i ks) large a b ready =
      absurd (let (h, e, d) = ready.depth in omega arith)
  insert_rec-Inserted order (suc height) lo hi key v st free (leaf i rs) large a b ready =
      let d : suc height ≡ 1 = ready.depth in
      let (nx, pv, e) = ready.holds in
      Moved order (suc height) lo hi key v st free (leaf i rs)
        (insert_rec order (suc height) i key v) (insert_leaf order i key v)
        (ap
          (λ p.
            by_type order (insert_leaf order i key v)
              (insert_branch order (λ child. insert_rec order height child key v) i key) p st)
          e)
        (rw d (insert_leaf-Inserted order lo hi key v st free i rs large a b (rw d at ready)))
  insert_rec-Inserted order (suc height) lo hi key v st free (branch i ks) large a b ready =
      let f = kid-Fitting order lo hi key ks a b ready.valid.0 in
      let r = kid-Ready order height lo hi key st free i ks ready f in
      Moved order (suc height) lo hi key v st free (branch i ks)
        (insert_rec order (suc height) i key v)
        (insert_branch order (λ child. insert_rec order height child key v) i key)
        (ap
          (λ p.
            by_type order (insert_leaf order i key v)
              (insert_branch order (λ child. insert_rec order height child key v) i key) p st)
          ready.holds.0)
        (insert_branch-Inserted order height lo hi key v st free i ks
          (λ child. insert_rec order height child key v) large ready f
          (insert_rec-Inserted order height f.low f.high key v st free (kid key ks) large f.above
            f.below r))
