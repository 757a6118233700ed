-- ===== src/BTree/LeafInsert.antt =====
-- Insertion into a leaf of a b-tree: the key is there, there is room, or the leaf is split.
use xtl.Prelude.{
  ℕ, ◌+◌, ◌≤◌, ◌<◌, true, false, List, length, ltb, ◌≡◌, ◌≢◌, refl, sym, ap, ◌∙◌, inl, inr,
  Bool-cases, arith, update, update_self,
}
use xtl.BTree.{leaf_page, Store, get_leaf, set_page, new_leaf, allocate_raw}
use xtl.BTree.Chain.{Linked, Linked-leaf, get_leaf-runs, step}
use xtl.BTree.FreeList.{Free-frame, allocate}
use xtl.BTree.Records.{Sorted-put, lookup, put, is_some, put-present}
use xtl.BTree.Insert.{insert_leaf, leaf_insert_at, first_key}
use xtl.BTree.Shape.{leaf, one, entries, tally, Depth, Holds, Valid, Like, Like-refl}
use xtl.BTree.Half.{length-put, right_half}
use xtl.BTree.Grow.{whole, halves, Ready, Inserted}
use xtl.BTree.LeafLinks.{with_pages, update-Like, found-lookup, leaf_insert_at-runs}
use xtl.BTree.LeafSplit.{split_leaf-Halved}

module _ {V : Type 0} where
  module _ (order lo hi key : ℕ) (v : V) (st : Store V) (free : List ℕ) (i : ℕ) (rs : List (ℕ × V))
      (ready : Ready order 1 lo hi st free (leaf i rs)) (above : lo ≤ key) (below : key < hi) where
    insert_present :
        is_some (lookup key rs) ≡ true
        → Inserted order 1 lo hi key v st free (leaf i rs) (insert_leaf order i key v)
    unfolding insert_leaf Valid Holds entries Depth tally
    insert_present f =
        let (nx, pv, e) = ready.holds in
        let s = ready.valid.0 in
        record {
          grow = whole (leaf i rs);
          after = st;
          rest = free;
          runs =
              step (get_leaf i) _ st st (rs, nx, pv) _ (get_leaf-runs st i nx pv rs e)
                (rw (found-lookup key lo hi rs s, f) refl);
          is_free = ready.is_free;
          linked = ready.linked;
          takes = λ j. refl;
          holds = (nx, pv, e);
          depth = refl;
          valid = ready.valid;
          adds = sym (put-present key v lo hi rs s f);
          same_root = refl;
          frame = λ j a b. Like-refl (st.pages j) (st.pages j) refl;
          header_same = refl;
        }

    insert_room :
        is_some (lookup key rs) ≡ false
        → ltb (length rs) order ≡ true
        → Inserted order 1 lo hi key v st free (leaf i rs) (insert_leaf order i key v)
    unfolding insert_leaf Valid Holds entries Depth tally
    insert_room f r =
        let (nx, pv, e) = ready.holds in
        let s = ready.valid.0 in
        let pages = update st.pages i (leaf_page (put key v rs) nx pv) in
        record {
          grow = whole (leaf i (put key v rs));
          after = with_pages st pages;
          rest = free;
          runs =
              step (get_leaf i) _ st st (rs, nx, pv) _ (get_leaf-runs st i nx pv rs e)
                (rw (found-lookup key lo hi rs s, f, r)
                  (step (leaf_insert_at order i key v) _ st (with_pages st pages) tt _
                    (leaf_insert_at-runs order st i key lo hi v rs nx pv e s f) refl));
          is_free =
              Free-frame st pages free
                (λ j o.
                  update-Like st.pages i (leaf_page (put key v rs) nx pv) j
                    (λ q. let n = ready.owned j in ground arith))
                ready.is_free;
          linked = Linked-leaf st.pages i nx pv pv rs (put key v rs) e ready.linked;
          takes = λ j. refl;
          holds = (nx, pv, update_self st.pages i (leaf_page (put key v rs) nx pv));
          depth = refl;
          valid = (
            Sorted-put key v lo hi rs above below s,
            let n = length-put key v rs in ground arith,
          );
          adds = refl;
          same_root = refl;
          frame = λ j a b.
              update-Like st.pages i (leaf_page (put key v rs) nx pv) j (λ q. ground arith);
          header_same = refl;
        }

    insert_split :
        2 ≤ order
        → is_some (lookup key rs) ≡ false
        → ltb (length rs) order ≡ false
        → Inserted order 1 lo hi key v st free (leaf i rs) (insert_leaf order i key v)
    unfolding insert_leaf Valid Holds entries Depth tally new_leaf set_page
    insert_split large f r =
        let (nx, pv, e) = ready.holds in
        let s = ready.valid.0 in
        let a = allocate st free ready.is_free in
        let ne : i ≢ a.idx = λ q. let n = ready.owned i in let m = a.takes i in ground arith in
        let full : length rs ≡ order = let n = ready.valid.1 in ground arith in
        let e' : a.after.pages i ≡ leaf_page rs nx pv = ap (λ p. p i) a.same ∙ e in
        let links : Linked a.after.pages = rw (a.same) ready.linked in
        let (pages, runs, h) =
          split_leaf-Halved order lo hi key v a.after i a.idx rs nx pv large full s above below ne
            e' links f st (step allocate_raw _ st a.after a.idx _ a.runs refl) in
        let others : (j : ℕ) → tally j (leaf i rs) + one j a.idx ≡ 0 → Like (st.pages j) (pages j) =
          λ j z.
            rw (sym (ap (λ p. p j) a.same)) (h.others j (λ q. ground arith) (λ q. ground arith)) in
        record {
          grow = halves (leaf i h.left) (first_key (right_half order rs)) (leaf a.idx h.right);
          after = with_pages a.after pages;
          rest = a.rest;
          runs =
              step (get_leaf i) _ st st (rs, nx, pv) _ (get_leaf-runs st i nx pv rs e)
                (rw (found-lookup key lo hi rs s, f, r) runs);
          is_free =
              Free-frame a.after pages a.rest
                (λ j o.
                  rw (ap (λ p. p j) a.same)
                    (others j (let n = ready.owned j in let m = a.takes j in omega arith)))
                a.is_free;
          linked = h.linked;
          takes = λ j. let m = a.takes j in omega arith;
          holds = (h.at_left, h.at_right);
          depth = (refl, refl);
          valid = (
            (rw (h.promoted) at (h.half.left_sorted), h.half.left_room),
            (rw (h.promoted) at (h.half.right_sorted), h.half.right_room),
          );
          adds = h.half.joined;
          same_root = refl;
          frame = λ j x y. others j (let m = a.takes j in omega arith);
          header_same = a.header_same;
        }

  pub insert_leaf-Inserted :
      (order lo hi key : ℕ) (v : V) (st : Store V) (free : List ℕ) (i : ℕ) (rs : List (ℕ × V))
      → 2 ≤ order
      → lo ≤ key
      → key < hi
      → Ready order 1 lo hi st free (leaf i rs)
      → Inserted order 1 lo hi key v st free (leaf i rs) (insert_leaf order i key v)
  insert_leaf-Inserted order lo hi key v st free i rs large above below ready =
      elim (Bool-cases (is_some (lookup key rs))) [
        | inl f ↦ insert_present order lo hi key v st free i rs ready above below f
        | inr f ↦ elim (Bool-cases (ltb (length rs) order)) [
          | inl r ↦ insert_room order lo hi key v st free i rs ready above below f r
          | inr r ↦ insert_split order lo hi key v st free i rs ready above below large f r
        ]
      ]
