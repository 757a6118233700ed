-- ===== src/BTree/BranchInsert.antt =====
-- Insertion into a branch of a b-tree, once its child has taken the key: the child was not split, there
-- is room for the new child, or the branch is split.
use xtl.Prelude.{
  ℕ, suc, ◌+◌, ◌-◌, ◌/◌, ◌≤◌, Bool, true, false, not, Option, some, List, [], length, take, drop,
  get_or, ◌≡◌, ◌≢◌, refl, ap, ◌∙◌, take_all, length-take, length-drop, arith, update, update_self,
}
use xtl.BTree.{Page, branch_page, Store, ◌>>◌, pure, set_page, new_branch, allocate_raw}
use xtl.BTree.Chain.{Linked, Linked-update, step, is_leaf}
use xtl.BTree.FreeList.{Free, Free-frame, spare, allocate, Allocated}
use xtl.BTree.Records.{lookup, is_some}
use xtl.BTree.Insert.{InsertResult, result, split_branch}
use xtl.BTree.Shape.{
  branch, Kids, roots, separators, one, entries, entries_kids, tally, tally_kids, Depth, Holds,
  HoldsKids, HoldsKids-frame, Valid, Like, Like-refl, Like-trans,
}
use xtl.BTree.Cut.{
  cut_left, cut_right, cut_key, cut-separators, cut-entries, cut-tally, cut-Depth, cut-Holds,
  cut-Valid,
}
use xtl.BTree.LeafLinks.{with_pages, update-Like}
use xtl.BTree.Grow.{whole, halves, Inserted}
use xtl.BTree.Grafted.{length-roots, Grafted}

module _ {V : Type 0} where
  -- the rest of `insert_branch` after the recursive call
  abbrev pub Finished :
      (order height lo hi key : ℕ) (v : V) (st : Store V) (free : List ℕ) (i : ℕ) (ks : Kids V)
      → Option (InsertResult × Store V)
      → Type 0
  Finished order height lo hi key v st free i ks outcome =
      Inserted order (suc height) lo hi key v st free (branch i ks) (λ s. outcome)

  module _ (order height lo hi key : ℕ) (v : V) (st : Store V) (free : List ℕ) (i : ℕ)
      (ks ks' : Kids V) (after : Store V) (rest : List ℕ) (large : 2 ≤ order)
      (g : Grafted order height lo hi key v st free i ks ks' after rest) where
    abbrev news : Bool
    news = not (is_some (lookup key (entries_kids ks)))

    pub finish_whole :
        separators ks' ≡ separators ks
        → roots ks' ≡ roots ks
        → Finished order height lo hi key v st free i ks (some (result news false key 0, after))
    unfolding Valid Holds entries Depth tally
    finish_whole e d = record {
      grow = whole (branch i ks');
      after = after;
      rest = rest;
      runs = refl;
      is_free = g.is_free;
      linked = g.linked;
      takes = g.takes;
      holds = (rw (e, d) g.page, g.holds);
      depth = (height, refl, g.depth);
      valid = (g.valid, rw e g.few);
      adds = g.adds;
      same_root = refl;
      frame = g.frame;
      header_same = g.header_same;
    }

    not_leaf : is_leaf (after.pages i) ≡ true → (p : Page V) → is_leaf p ≡ true
    not_leaf h p = let h' = rw (g.page) at h in absurd (ground arith)

    -- a branch page of the tree itself may be written
    abbrev rewritten : (keys children : List ℕ) → Store V
    rewritten keys children = with_pages after (update after.pages i (branch_page keys children))

    rewritten-Free : (keys children : List ℕ) → Free (rewritten keys children) rest
    rewritten-Free keys children =
        Free-frame after (update after.pages i (branch_page keys children)) rest
          (λ j o.
            update-Like after.pages i (branch_page keys children) j
              (λ q. let a = g.takes j in let b = g.single j in ground arith))
          g.is_free

    rewritten-Linked : (keys children : List ℕ) → Linked (rewritten keys children).pages
    rewritten-Linked keys children =
        Linked-update after.pages i (branch_page keys children)
          (λ h. not_leaf h (branch_page keys children)) tt g.linked

    rewritten-Holds : (keys children : List ℕ) → HoldsKids (rewritten keys children).pages ks'
    rewritten-Holds keys children =
        HoldsKids-frame after.pages (rewritten keys children).pages ks'
          (λ j o.
            update-Like after.pages i (branch_page keys children) j
              (λ q. let a = g.takes j in let b = g.single j in ground arith))
          g.holds

    rewritten-frame :
        (keys children : List ℕ) (j : ℕ)
        → one j i + tally_kids j ks ≡ 0
        → spare free st.page_count j ≡ 0
        → Like (st.pages j) ((rewritten keys children).pages j)
    rewritten-frame keys children j a b =
        Like-trans (st.pages j) (after.pages j) ((rewritten keys children).pages j) (g.frame j a b)
          (update-Like after.pages i (branch_page keys children) j (λ q. ground arith))

    pub finish_room :
        length (separators ks') ≤ order
        → Finished order height lo hi key v st free i ks
            (some (result news false key 0, rewritten (separators ks') (roots ks')))
    unfolding Valid Holds entries Depth tally
    finish_room few = record {
      grow = whole (branch i ks');
      after = rewritten (separators ks') (roots ks');
      rest = rest;
      runs = refl;
      is_free = rewritten-Free (separators ks') (roots ks');
      linked = rewritten-Linked (separators ks') (roots ks');
      takes = g.takes;
      holds = (
        update_self after.pages i (branch_page (separators ks') (roots ks')),
        rewritten-Holds (separators ks') (roots ks'),
      );
      depth = (height, refl, g.depth);
      valid = (g.valid, few);
      adds = g.adds;
      same_root = refl;
      frame = rewritten-frame (separators ks') (roots ks');
      header_same = g.header_same;
    }

    abbrev middle : ℕ
    middle = (order + 1) / 2

    -- the pages of a branch that is split
    abbrev left_keys : List ℕ
    left_keys = take middle (separators ks')

    abbrev left_children : List ℕ
    left_children = take (middle + 1) (roots ks')

    abbrev right_keys : List ℕ
    right_keys = take (order + 1 - middle - 1) (drop (middle + 1) (separators ks'))

    abbrev right_children : List ℕ
    right_children = take (order + 1 - middle - 1 + 1) (drop (middle + 1) (roots ks'))

    module _ (full : length (separators ks') ≡ order + 1) where
      cut_pages :
          ◌≡◌ {A = Page V}
            (branch_page left_keys left_children)
            (branch_page (separators (cut_left middle ks')) (roots (cut_left middle ks')))
          × ◌≡◌ {A = Page V}
              (branch_page right_keys right_children)
              (branch_page (separators (cut_right middle ks')) (roots (cut_right middle ks')))
      cut_pages =
          let (a, b, c, d) = cut-separators middle ks' (omega arith) in
          let q : middle + 1 ≡ suc middle = omega arith in
          let n = length-drop (middle + 1) (separators ks') in
          let m = length-drop (middle + 1) (roots ks') in
          let t = length-roots ks' in
          (
            rw (a, c, q) refl,
            rw
                (
                  take_all (order + 1 - middle - 1) (drop (middle + 1) (separators ks'))
                      (omega arith),
                  take_all (order + 1 - middle - 1 + 1) (drop (middle + 1) (roots ks'))
                      (omega arith),
                  b,
                  d,
                  q,
                )
                refl,
          )

      allocated : Allocated (rewritten left_keys left_children) rest
      allocated =
          allocate (rewritten left_keys left_children) rest (rewritten-Free left_keys left_children)

      -- the pages at the end
      abbrev pages_with : ℕ → ℕ → Page V
      pages_with r =
          update (update (rewritten left_keys left_children).pages r (branch_page [] [])) r
            (branch_page right_keys right_children)

      new_page :
          (j : ℕ)
          → one j allocated.idx
              + one j i
              + tally_kids j ks'
              + spare allocated.rest allocated.after.page_count j
            ≤ 1
      new_page j =
          let a = allocated.takes j in let b = g.takes j in let c = g.single j in omega arith

      pages-others :
          (j : ℕ)
          → allocated.idx ≢ j
          → Like ((rewritten left_keys left_children).pages j) (pages_with allocated.idx j)
      pages-others j ne =
          Like-refl ((rewritten left_keys left_children).pages j) (pages_with allocated.idx j)
            (ground arith)

      pages-Linked : Linked (pages_with allocated.idx)
      pages-Linked =
          let r = allocated.idx in
          let (n, e) = allocated.was_free in
          let s = rewritten left_keys left_children in
          let p1 = update s.pages r (branch_page [] []) in
          let none_here : is_leaf (s.pages r) ≡ true → (p : Page V) → is_leaf p ≡ true =
            λ h p. let h' = rw e at h in absurd (ground arith) in
          let l1 =
            Linked-update s.pages r (branch_page [] []) (λ h. none_here h (branch_page [] [])) tt
              (rewritten-Linked left_keys left_children) in
          let at_r = update_self s.pages r (branch_page [] []) in
          Linked-update p1 r (branch_page right_keys right_children)
            (λ h. let h' = rw at_r at h in absurd (ground arith)) tt l1

      pages-Holds : HoldsKids (pages_with allocated.idx) ks'
      pages-Holds =
          HoldsKids-frame (rewritten left_keys left_children).pages (pages_with allocated.idx) ks'
            (λ j o. pages-others j (λ q. let n = new_page j in ground arith))
            (rewritten-Holds left_keys left_children)

      split_after : Store V
      split_after = with_pages allocated.after (pages_with allocated.idx)

      split-runs :
          split_branch order i news (separators ks') (roots ks') after
          ≡ some (result news true (cut_key middle ks') allocated.idx, split_after)
      unfolding split_branch set_page new_branch split_after
      split-runs =
          let r = allocated.idx in
          let s1 = rewritten left_keys left_children in
          let s2 = with_pages allocated.after (update s1.pages r (branch_page [] [])) in
          step (set_page i (branch_page left_keys left_children) >> new_branch)
            (λ n.
              set_page n (branch_page right_keys right_children)
              >> pure (result news true (get_or (separators ks') middle 0) n))
            after s2 r _
            (step allocate_raw _ s1 allocated.after r _ allocated.runs (rw (allocated.same) refl))
            refl

      pub finish_split :
          Finished order height lo hi key v st free i ks
            (split_branch order i news (separators ks') (roots ks') after)
      unfolding Valid Holds entries Depth tally split_after
      finish_split =
          let r = allocated.idx in
          let (pl, pr) = cut_pages in
          let (dl, dr) = cut-Depth height middle ks' g.depth in
          let (hl, hr) = cut-Holds (pages_with r) middle ks' pages-Holds in
          let (vl, vr) = cut-Valid order lo hi middle ks' (omega arith) g.valid in
          let (sl, sr, rl, rr) = cut-separators middle ks' (omega arith) in
          record {
            grow =
                halves (branch i (cut_left middle ks')) (cut_key middle ks')
                  (branch r (cut_right middle ks'));
            after = split_after;
            rest = allocated.rest;
            runs = split-runs;
            is_free =
                Free-frame allocated.after (pages_with r) allocated.rest
                  (λ j o.
                    rw (ap (λ p. p j) allocated.same)
                      (pages-others j (λ q. let n = new_page j in ground arith)))
                  allocated.is_free;
            linked = pages-Linked;
            takes = λ j.
                let a = allocated.takes j in
                let b = g.takes j in let c = cut-tally j middle ks' (omega arith) in omega arith;
            holds = ((ground (arith, pl, new_page i), hl), (ground (arith, pr), hr));
            depth = ((height, refl, dl), (height, refl, dr));
            valid = (
              (vl, rw sl (let n = length-take middle (separators ks') in omega arith)),
              (vr, rw sr (let n = length-drop (suc middle) (separators ks') in omega arith)),
            );
            adds = cut-entries middle ks' (omega arith) ∙ g.adds;
            same_root = refl;
            frame = λ j x y.
                Like-trans (st.pages j) ((rewritten left_keys left_children).pages j)
                  (pages_with r j) (rewritten-frame left_keys left_children j x y)
                  (pages-others j
                    (λ q. let a = allocated.takes j in let b = g.takes j in ground arith));
            header_same = allocated.header_same ∙ g.header_same;
          }
