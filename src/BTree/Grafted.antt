-- ===== src/BTree/Grafted.antt =====
-- The branch of a b-tree after its child took the key.
use xtl.Prelude.{ℕ, zero, suc, ◌+◌, ◌≤◌, List, [], ◌∷◌, length, ◌≡◌, refl, ap, arith}
use xtl.BTree.{branch_page, Store, M, insert_at}
use xtl.BTree.Chain.{Linked}
use xtl.BTree.FreeList.{Free, spare, header_of}
use xtl.BTree.Records.{put}
use xtl.BTree.Insert.{InsertResult}
use xtl.BTree.Shape.{
  branch, Kids, only, more, roots, separators, one, entries, entries_kids, tally, tally_kids, Depth,
  DepthKids, Holds, HoldsKids, Valid, ValidKids, Like,
}
use xtl.BTree.Kids.{kid, graft, Fitting, graft-entries}
use xtl.BTree.KidPages.{kid-tally, graft-tally, graft-Depth, graft-Holds}
use xtl.BTree.Grow.{grown, Ready, Inserted}

pub length-insert_at : (n x : ℕ) (xs : List ℕ) → length (insert_at n x xs) ≡ suc (length xs)
unfolding insert_at
length-insert_at zero x xs = refl
length-insert_at (suc n) x [] = refl
length-insert_at (suc n) x (y ∷ xs) = ap suc (length-insert_at n x xs)

module _ {V : Type 0} where
  pub length-roots : (ks : Kids V) → length (roots ks) ≡ suc (length (separators ks))
  length-roots (only t) = refl
  length-roots (more t k ks) = ap suc (length-roots ks)

  -- The branch after its child took the key, with its page still to be written
  pub record Grafted (order height lo hi key : ℕ) (v : V) (st : Store V) (free : List ℕ) (i : ℕ)
      (ks ks' : Kids V) (after : Store V) (rest : List ℕ) : Type 0 where
    pub page : after.pages i ≡ branch_page (separators ks) (roots ks)
    pub is_free : Free after rest
    pub linked : Linked after.pages
    pub takes :
        (j : ℕ)
        → one j i + tally_kids j ks' + spare rest after.page_count j
          ≡ one j i + tally_kids j ks + spare free st.page_count j
    pub single : (j : ℕ) → one j i + tally_kids j ks + spare free st.page_count j ≤ 1
    pub holds : HoldsKids after.pages ks'
    pub depth : DepthKids height ks'
    pub valid : ValidKids order lo hi ks'
    pub few : length (separators ks) ≤ order
    pub adds : entries_kids ks' ≡ put key v (entries_kids ks)
    pub frame :
        (j : ℕ)
        → one j i + tally_kids j ks ≡ 0
        → spare free st.page_count j ≡ 0
        → Like (st.pages j) (after.pages j)
    pub header_same : header_of after ≡ header_of st

  pub grafted :
      (order height lo hi key : ℕ) (v : V) (st : Store V) (free : List ℕ) (i : ℕ) (ks : Kids V)
      (run : M V InsertResult) (ready : Ready order (suc height) lo hi st free (branch i ks))
      (f : Fitting order lo hi key ks)
      (n : Inserted order height f.low f.high key v st free (kid key ks) run)
      → Grafted order height lo hi key v st free i ks (graft key (grown n.grow) ks) n.after n.rest
  unfolding Valid Holds entries Depth tally
  grafted order height lo hi key v st free i ks run ready f n =
      let (h, e, d) = ready.depth in
      let d' : DepthKids height ks = let q : height ≡ h = omega arith in rw q d in
      let (p, k) = ready.holds in
      let own : (j : ℕ) → one j i + tally_kids j ks + spare free st.page_count j ≤ 1 =
        ready.owned in
      let l =
        n.frame i (let o = own i in let t = kid-tally i key ks in ground arith)
          (let o = own i in ground arith) in
      record {
        page = rw p at l;
        is_free = n.is_free;
        linked = n.linked;
        takes =
            λ j. let a = n.takes j in let b = graft-tally j key (grown n.grow) ks in omega arith;
        single = own;
        holds =
            graft-Holds st.pages n.after.pages key (grown n.grow) ks
              (λ j. let o = own j in omega arith)
              (λ j z o. n.frame j z (let o' = own j in omega arith)) k n.holds;
        depth = graft-Depth height key (grown n.grow) ks d' n.depth;
        valid = f.graft_valid (grown n.grow) n.valid;
        few = ready.valid.1;
        adds = graft-entries key v order lo hi (grown n.grow) ks ready.valid.0 n.adds;
        frame = λ j z s. n.frame j (let t = kid-tally j key ks in omega arith) s;
        header_same = n.header_same;
      }
