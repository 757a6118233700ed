-- ===== src/BTree/LeafSplit.antt =====
-- The pages of a leaf of a b-tree that is split.
use xtl.Prelude.{
  ℕ, ◌≤◌, ◌<◌, true, false, some, List, [], length, ltb, ◌≡◌, ◌≢◌, refl, sym, ap, ◌∙◌, inl, inr,
  Bool-cases, arith, update, update_self, update_other,
}
use xtl.BTree.{Page, leaf_page, Store, M, ◌>>◌, pure, keys_of, get_leaf, set_page, new_leaf}
use xtl.BTree.Chain.{Linked, Linked-leaf, get_leaf-runs, step}
use xtl.BTree.Entries.{Sorted}
use xtl.BTree.Records.{lookup, put, is_some}
use xtl.BTree.Insert.{InsertResult, result, leaf_insert_at, set_prev, split_leaf, first_key}
use xtl.BTree.Shape.{Like, Like-trans}
use xtl.BTree.Half.{
  Half, left_half, right_half, put-left_half, put-right_half, first_key-put_half, halves_in_order,
  absent-left_half, absent-right_half,
}
use xtl.BTree.LeafLinks.{
  with_pages, update-Like, leaf_insert_at-runs, Relinked, set_prev-Relinked, Linking, three,
  three-Linked,
}

module _ {V : Type 0} where
  -- What holds of the two pages of a leaf that was split
  pub record Halved (order lo hi key : ℕ) (v : V) (st : Store V) (i r : ℕ) (rs : List (ℕ × V))
      (promo : ℕ) (pages : ℕ → Page V) : Type 0 where
    pub left : List (ℕ × V)
    pub right : List (ℕ × V)
    pub half : Half order lo hi key v rs left right
    pub promoted : first_key right ≡ promo
    pub at_left : (nx : ℕ) × (pv : ℕ) × (pages i ≡ leaf_page left nx pv)
    pub at_right : (nx : ℕ) × (pv : ℕ) × (pages r ≡ leaf_page right nx pv)
    pub linked : Linked pages
    pub others : (j : ℕ) → i ≢ j → r ≢ j → Like (st.pages j) (pages j)

  module _ (order lo hi key : ℕ) (v : V) (st : Store V) (i r : ℕ) (rs : List (ℕ × V)) (nx pv : ℕ)
      (large : 2 ≤ order) (full : length rs ≡ order) (sorted : Sorted lo hi (keys_of rs))
      (above : lo ≤ key) (below : key < hi) (ne : i ≢ r) (page : st.pages i ≡ leaf_page rs nx pv)
      (links : Linked st.pages) (absent : is_some (lookup key rs) ≡ false) where
    abbrev left_of : List (ℕ × V)
    left_of = left_half order rs

    abbrev right_of : List (ℕ × V)
    right_of = right_half order rs

    abbrev written : ℕ → Page V
    written = three st.pages i r nx pv left_of right_of

    written-others : (j : ℕ) → i ≢ j → r ≢ j → written j ≡ st.pages j
    written-others j a b = ground arith

    relinked : Relinked (with_pages st written) (set_prev order nx r)
    relinked =
        let (l, k) = three-Linked st.pages i r nx pv rs left_of right_of ne page links in
        set_prev-Relinked order (with_pages st written) nx r l k

    linking : Linking relinked.0 i r left_of right_of
    linking =
        let (pages, e, l, k) = relinked in
        let at_i : written i ≡ leaf_page left_of r pv = ground arith in
        let at_r : written r ≡ leaf_page right_of nx i = ground arith in
        let ki = k i in
        let kr = k r in
        let (a, b, c) = rw at_i at ki in
        let (a', b', c') = rw at_r at kr in
        record {
          next_left = a;
          prev_left = b;
          next_right = a';
          prev_right = b';
          at_left = c;
          at_right = c';
          linked = l;
        }

    -- the entry put into one of the halves
    abbrev put_half : M V (Unit {0})
    put_half = elim (ltb key (first_key right_of)) [
      | true ↦ leaf_insert_at order i key v
      | false ↦ leaf_insert_at order r key v
    ]

    abbrev Put : (ℕ → Page V) → Type 0
    Put pages =
        (pages' : ℕ → Page V) × (put_half (with_pages st pages) ≡ some (tt, with_pages st pages'))
        × Halved order lo hi key v st i r rs (first_key right_of) pages'

    linked_others : (j : ℕ) → i ≢ j → r ≢ j → Like (st.pages j) (relinked.0 j)
    linked_others j a b = let k = relinked.3 j in rw (written-others j a b) at k

    left_case : ltb key (first_key right_of) ≡ true → Put relinked.0
    left_case e =
        let l = linking in
        let page' = leaf_page (put key v left_of) l.next_left l.prev_left in
        let pages' = update relinked.0 i page' in
        (
          pages',
          rw (e, put_half)
              (leaf_insert_at-runs order (with_pages st relinked.0) i key lo (first_key right_of) v
                left_of l.next_left l.prev_left l.at_left
                (halves_in_order order lo hi key v rs large full sorted).0
                (absent-left_half order lo hi key v rs large full sorted absent e)),
          record {
            left = put key v left_of;
            right = right_of;
            half = put-left_half order lo hi key v rs large full sorted above e;
            promoted = refl;
            at_left = (l.next_left, l.prev_left, update_self relinked.0 i page');
            at_right =
                (l.next_right, l.prev_right, update_other relinked.0 i r page' ne ∙ l.at_right);
            linked =
                Linked-leaf relinked.0 i l.next_left l.prev_left l.prev_left left_of
                  (put key v left_of) l.at_left l.linked;
            others = λ j a b.
                Like-trans (st.pages j) (relinked.0 j) (pages' j) (linked_others j a b)
                  (update-Like relinked.0 i page' j a);
          },
        )

    right_case : ltb key (first_key right_of) ≡ false → Put relinked.0
    right_case e =
        let l = linking in
        let page' = leaf_page (put key v right_of) l.next_right l.prev_right in
        let pages' = update relinked.0 r page' in
        (
          pages',
          rw (e, put_half)
              (leaf_insert_at-runs order (with_pages st relinked.0) r key (first_key right_of) hi v
                right_of l.next_right l.prev_right l.at_right
                (halves_in_order order lo hi key v rs large full sorted).1
                (absent-right_half order lo hi key v rs large full sorted absent e)),
          record {
            left = left_of;
            right = put key v right_of;
            half = put-right_half order lo hi key v rs large full sorted below e;
            promoted = first_key-put_half order lo hi key v rs large full sorted e;
            at_left = (
              l.next_left,
              l.prev_left,
              update_other relinked.0 r i page' (λ q. ne (sym q)) ∙ l.at_left,
            );
            at_right = (l.next_right, l.prev_right, update_self relinked.0 r page');
            linked =
                Linked-leaf relinked.0 r l.next_right l.prev_right l.prev_right right_of
                  (put key v right_of) l.at_right l.linked;
            others = λ j a b.
                Like-trans (st.pages j) (relinked.0 j) (pages' j) (linked_others j a b)
                  (update-Like relinked.0 r page' j b);
          },
        )

    either_case : Put relinked.0
    either_case = elim (Bool-cases (ltb key (first_key right_of))) [
      | inl e ↦ left_case e
      | inr e ↦ right_case e
    ]

    abbrev link_halves : M V (Unit {0})
    link_halves =
        set_page i (leaf_page left_of r pv)
        >> set_page r (leaf_page right_of nx i)
        >> set_prev order nx r

    abbrev promote : List (ℕ × V) × ℕ × ℕ → M V InsertResult
    promote l = pure (result true true (first_key l.0) r)

    pub split_leaf-Halved :
        (st0 : Store V)
        → new_leaf st0 ≡ some (r, with_pages st (update st.pages r (leaf_page [] 0 0)))
        → (pages : ℕ → Page V) × (split_leaf order i key v st0
            ≡ some (result true true (first_key right_of) r, with_pages st pages))
          × Halved order lo hi key v st i r rs (first_key right_of) pages
    unfolding split_leaf set_page
    split_leaf-Halved st0 new =
        let (pages, e, h) = either_case in
        let (nx', pv', e') = h.at_right in
        let s1 = with_pages st (update st.pages r (leaf_page [] 0 0)) in
        let s3 = with_pages st relinked.0 in
        let s4 = with_pages st pages in
        let page1 = update_other st.pages r i (leaf_page [] 0 0) (λ q. ne (sym q)) ∙ page in
        (
          pages,
          step new_leaf _ st0 s1 r _ new (
              step (get_leaf i) _ s1 s1 (rs, nx, pv) _ (get_leaf-runs s1 i nx pv rs page1)
                (step (link_halves >> put_half >> get_leaf r) promote s1 s4 (h.right, nx', pv') _
                  (step (link_halves >> put_half) (λ u. get_leaf r) s1 s4 tt _
                    (step link_halves (λ u. put_half) s1 s3 tt _ relinked.1 e)
                    (get_leaf-runs s4 r nx' pv' h.right e'))
                  (ap (λ p. some (result true true p r, s4)) h.promoted))),
          h,
        )
