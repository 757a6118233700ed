-- ===== src/BTree/RootGrow.antt =====
-- The first page of a b-tree, and the growth of its root.
use xtl.Prelude.{
  ℕ, ◌+◌, ◌≤◌, ◌<◌, ◌^◌, Bool, true, some, List, [], ◌∷◌, ◌≡◌, ◌≢◌, refl, sym, ap, ◌∙◌, inl, arith,
  update, update_self,
}
use xtl.BTree.{
  Page, free_page, leaf_page, branch_page, Store, M, allocate_raw, new_leaf, new_branch, set_page,
  succ_size,
}
use xtl.BTree.Chain.{Linked, Linked-update, Points, step, is_leaf}
use xtl.BTree.FreeList.{Free, Free-frame, spare, allocate, header_of}
use xtl.BTree.Insert.{insert_first, grow_root}
use xtl.BTree.Shape.{
  Tree, leaf, branch, only, more, root, one, entries, entries_kids, tally, tally_kids, Depth,
  DepthKids, Holds, HoldsKids, HoldsKids-frame, Valid, ValidKids, Like, Like-refl,
}
use xtl.BTree.LeafLinks.{with_pages}
use xtl.BTree.Grow.{Grow, whole, halves, grown, first_root, answer, Ready}
use xtl.BTree.Represents.{Represents, rooted, Empty}

module _ {V : Type 0} where
  pub same_fields :
      (st st' : Store V) (free : List ℕ)
      → st'.pages ≡ st.pages
      → st'.page_count ≡ st.page_count
      → st'.free_list_head ≡ st.free_list_head
      → Free st free
      → Free st' free
  same_fields st st' free p c h f = record {
    chain = rw (p, h) f.chain;
    beyond = λ j l. ap (λ q. q j) p ∙ f.beyond j (rw c at l);
    header = rw c f.header;
  }

  -- A page that is allocated, made as `q` and written as `p`
  record Fresh (st : Store V) (free : List ℕ) (q p : Page V) : Type 0 where
    idx : ℕ
    after : Store V
    rest : List ℕ
    runs : allocate_raw st ≡ some (idx, after)
    takes : (j : ℕ) → one j idx + spare rest after.page_count j ≡ spare free st.page_count j
    nonzero : idx ≢ 0
    is_free : Free (with_pages after (update (update after.pages idx q) idx p)) rest
    linked : Linked (update (update after.pages idx q) idx p)
    others : (j : ℕ) → idx ≢ j → Like (st.pages j) (update (update after.pages idx q) idx p j)
    header_same : header_of after ≡ header_of st

  fresh :
      (st : Store V) (free : List ℕ) (q p : Page V)
      → Free st free
      → Linked st.pages
      → ((j : ℕ) → spare free st.page_count j ≤ 1)
      → ((pages : ℕ → Page V) → Points pages q)
      → ((pages : ℕ → Page V) → Points pages p)
      → (is_leaf q ≡ true → is_leaf p ≡ true)
      → Fresh st free q p
  fresh st free q p f linked once q-points p-points p-leaf =
      let a = allocate st free f in
      let r = a.idx in
      let (n, e) = a.was_free in
      let e' : a.after.pages r ≡ free_page n = ap (λ g. g r) a.same ∙ e in
      let p1 = update a.after.pages r q in
      let p2 = update p1 r p in
      let like : (j : ℕ) → r ≢ j → Like (a.after.pages j) (p2 j) =
        λ j ne. Like-refl (a.after.pages j) (p2 j) (ground arith) in
      let l1 =
        Linked-update a.after.pages r q (λ h. let h' = rw e' at h in absurd (ground arith))
          (q-points p1) (rw (a.same) linked) in
      record {
        idx = r;
        after = a.after;
        rest = a.rest;
        runs = a.runs;
        takes = a.takes;
        nonzero = a.nonzero;
        is_free =
            Free-frame a.after p2 a.rest
              (λ j o. like j (λ c. let t = a.takes j in let b = once j in ground arith)) a.is_free;
        linked =
            Linked-update p1 r p (λ h. p-leaf (rw (update_self a.after.pages r q) at h))
              (p-points p2) l1;
        others = λ j ne. rw (sym (ap (λ g. g j) a.same)) (like j ne);
        header_same = a.header_same;
      }

  pub insert_first-Represents :
      (order bound key : ℕ) (v : V) (st : Store V) (free : List ℕ)
      → 2 ≤ order
      → key < bound
      → Empty st free
      → (st' : Store V) × (insert_first order key v st ≡ some (true, st'))
        × Represents order bound st' ((key, v) ∷ [])
  unfolding insert_first new_leaf set_page Holds Depth Valid entries tally
  insert_first-Represents order bound key v st free large h e =
      let q = leaf_page [] 0 0 in
      let p = leaf_page ((key, v) ∷ []) 0 0 in
      let a =
        fresh st free q p e.is_free e.linked e.once (λ g. inl refl) (λ g. inl refl) (λ g. refl) in
      let s0 = with_pages a.after (update a.after.pages a.idx q) in
      let s1 = with_pages a.after (update s0.pages a.idx p) in
      let st' = record s1 { root_page = a.idx; first_leaf = a.idx; height = 1; count = 1 } in
      (
        st',
        step new_leaf _ st s0 a.idx _ (step allocate_raw _ st a.after a.idx _ a.runs refl) refl,
        rooted a.rest (leaf a.idx ((key, v) ∷ [])) (record {
          at_root = refl;
          counted = refl;
          no_header = let n = a.nonzero in ground arith;
          ready = record {
            is_free = same_fields s1 st' a.rest refl refl refl a.is_free;
            linked = a.linked;
            owned = λ j. let b = a.takes j in let c = e.once j in omega arith;
            holds = (0, 0, update_self s0.pages a.idx p);
            depth = refl;
            valid = ((omega arith, omega arith), omega arith);
          };
        }),
      )

  -- The file once the root has grown; the number of records is still to be counted up.
  pub record Planted (order bound : ℕ) (st : Store V) (es : List (ℕ × V)) (run : M V (Unit {0}))
      : Type 0 where
    pub after : Store V
    pub free : List ℕ
    pub tree : Tree V
    pub runs : run st ≡ some (tt, after)
    pub at_root : after.root_page ≡ root tree
    pub no_header : tally 0 tree ≡ 0
    pub ready : Ready order after.height 0 bound after free tree
    pub same_entries : entries tree ≡ es
    pub same_count : after.count ≡ st.count

  pub grow_root-Planted :
      (order bound height key : ℕ) (st : Store V) (free : List ℕ) (news : Bool) (grow : Grow V)
      → 2 ≤ order
      → st.root_page ≡ first_root grow
      → st.height ≡ height
      → height + 1 < 2 ^ 64
      → Free st free
      → Linked st.pages
      → ((j : ℕ) → tally_kids j (grown grow) + spare free st.page_count j ≤ 1)
      → tally_kids 0 (grown grow) ≡ 0
      → HoldsKids st.pages (grown grow)
      → DepthKids height (grown grow)
      → ValidKids order 0 bound (grown grow)
      → Planted order bound st (entries_kids (grown grow)) (grow_root order (answer grow news key))
  unfolding grow_root new_branch set_page Holds Depth Valid entries tally
  grow_root-Planted order bound height key st free news (whole t) large r e b f l o z h d v =
      record {
        after = st;
        free = free;
        tree = t;
        runs = refl;
        at_root = r;
        no_header = z;
        ready = record { is_free = f; linked = l; owned = o; holds = h; depth = rw e d; valid = v };
        same_entries = refl;
        same_count = refl;
      }
  grow_root-Planted order bound height key st free news (halves t k u) large r e b f l o z h d v =
      let q = branch_page [] [] in
      let p = branch_page (k ∷ []) (root t ∷ root u ∷ []) in
      let a =
        fresh st free q p f l (λ j. let c = o j in omega arith) (λ g. tt) (λ g. tt)
          (λ c. absurd (ground arith)) in
      let s0 = with_pages a.after (update a.after.pages a.idx q) in
      let s1 = with_pages a.after (update s0.pages a.idx p) in
      let st' = record s1 { root_page = a.idx; height = succ_size a.after.height } in
      let r' : a.after.root_page ≡ root t = ap (λ x. x.0) a.header_same ∙ r in
      let e' : a.after.height ≡ height = ap (λ x. x.3) a.header_same ∙ e in
      let kids = more t k (only u) in
      record {
        after = st';
        free = a.rest;
        tree = branch a.idx kids;
        runs =
            step new_branch _ st s0 a.idx _ (step allocate_raw _ st a.after a.idx _ a.runs refl) (
              ap
                (λ x. some (
                  tt,
                  record a.after {
                    pages = update s0.pages a.idx (branch_page (k ∷ []) (x ∷ root u ∷ []));
                    root_page = a.idx;
                    height = succ_size a.after.height;
                  },
                ))
                r');
        at_root = refl;
        no_header = let n = a.nonzero in ground (arith, z);
        ready = record {
          is_free = same_fields s1 st' a.rest refl refl refl a.is_free;
          linked = a.linked;
          owned = λ j. let c = a.takes j in let c' = o j in omega arith;
          holds = (
            update_self s0.pages a.idx p,
            HoldsKids-frame st.pages s1.pages kids
                (λ j c. a.others j (λ w. let y = a.takes j in let y' = o j in ground arith)) h,
          );
          depth = (height, rw e' (omega arith), d);
          valid = (v, omega arith);
        };
        same_entries = refl;
        same_count = ap (λ x. x.2) a.header_same;
      }
