-- ===== src/BTree/Update.antt =====
-- What `update` and `insert_or_assign` do to the entries of a b-tree.
use xtl.Prelude.{
  ℕ, suc, ◌+◌, ◌≤◌, ◌<◌, ◌^◌, Bool, true, false, some, List, [], ◌∷◌, length, ltb, ◌==◌,
  if◌then◌else◌, ◌≡◌, refl, sym, ap, ◌∙◌, inl, inr, Bool-cases, arith, update,
}
use xtl.BTree.{leaf_page, Store, M, ◌>>◌, pure, set_page, keys_of, found_at}
use xtl.BTree.Assign.{
  assign, assign_tree, target, root-assign, tally-assign, target-tally, length-assign,
}
use xtl.BTree.AssignTree.{assign-Depth, assign-Valid, assign-entries, assign-Holds, overwritten}
use xtl.BTree.Chain.{Linked-leaf, step}
use xtl.BTree.Entries.{leading, less}
use xtl.BTree.Find.{
  find_leaf, find_leaf_from, search_leaf, set_value, update_value, insert_or_assign,
}
use xtl.BTree.FreeList.{Free-frame}
use xtl.BTree.Insert.{insert}
use xtl.BTree.InsertRoot.{insert-Represents}
use xtl.BTree.LeafLinks.{update-Like}
use xtl.BTree.Lookup.{reached}
use xtl.BTree.Reached.{search_leaf-found, search_leaf-absent}
use xtl.BTree.Records.{lookup, is_some, put, found_at-lookup}
use xtl.BTree.Represents.{Represents, empty, rooted, Rooted}
use xtl.BTree.Shape.{Tree, entries}

module _ {V : Type 0} where
  set_value-assign :
      (key : ℕ) (v : V) (rs : List (ℕ × V))
      → found_at rs (leading (less key) (keys_of rs)) key ≡ true
      → set_value rs (leading (less key) (keys_of rs)) v ≡ assign key v rs
  unfolding leading assign
  set_value-assign key v [] f = absurd (ground arith)
  set_value-assign key v ((k, w) ∷ rs) f = elim (Bool-cases (ltb k key)) [
    | inl e ↦
        let q : (key == k) ≡ false = ground arith in
        rw (e, q) (ap (λ r. (k, w) ∷ r) (set_value-assign key v rs (rw e at f)))
    | inr e ↦ let f' = rw e at f in let q : (key == k) ≡ true = ground arith in rw (e, q) refl
  ]

  assign_absent :
      (key : ℕ) (v : V) (es : List (ℕ × V)) → is_some (lookup key es) ≡ false → assign key v es ≡ es
  unfolding lookup assign
  assign_absent key v [] f = refl
  assign_absent key v ((k, w) ∷ es) f = elim (Bool-cases (key == k)) [
    | inl e ↦ let f' = rw e at f in absurd (ground arith)
    | inr e ↦ rw e (ap (λ r. (k, w) ∷ r) (assign_absent key v es (rw e at f)))
  ]

  -- the store with the value of the key overwritten
  abbrev renewed : ℕ → V → (st : Store V) → ℕ × List (ℕ × V) → ℕ → ℕ → Store V
  renewed key v st x nx pv = record st { pages = overwritten key v st.pages nx pv x }

  renewed-Rooted :
      (order bound key : ℕ) (v : V) (st : Store V) (free : List ℕ) (t : Tree V) (nx pv : ℕ)
      → st.pages (target key t).0 ≡ leaf_page (target key t).1 nx pv
      → Rooted order bound st free t
      → Rooted order bound (renewed key v st (target key t) nx pv) free (assign_tree key v t)
  renewed-Rooted order bound key v st free t nx pv page r =
      let x = target key t in
      let m = r.ready in
      record {
        at_root = r.at_root ∙ sym (root-assign key v t);
        counted =
            r.counted
            ∙ sym (
                ap length (assign-entries key v order 0 bound t m.valid)
                ∙ length-assign key v (entries t));
        no_header = tally-assign 0 key v t ∙ r.no_header;
        ready = record {
          is_free =
              Free-frame st (overwritten key v st.pages nx pv x) free
                (λ j o.
                  update-Like st.pages x.0 (leaf_page (assign key v x.1) nx pv) j
                    (λ q. let a = m.owned j in let b = target-tally key t in ground arith))
                m.is_free;
          linked = Linked-leaf st.pages x.0 nx pv pv x.1 (assign key v x.1) page m.linked;
          owned = λ j. rw (tally-assign j key v t) (m.owned j);
          holds =
              assign-Holds key v st.pages nx pv t (λ j. let a = m.owned j in omega arith) m.holds;
          depth = assign-Depth key v st.height t m.depth;
          valid = assign-Valid key v order 0 bound t m.valid;
        };
      }

  update_nonempty :
      (order bound key : ℕ) (v : V) (st : Store V) (free : List ℕ) (t : Tree V)
      → key < bound
      → Rooted order bound st free t
      → (st' : Store V) × (update_value key v st ≡ some (is_some (lookup key (entries t)), st'))
        × Represents order bound st' (assign key v (entries t))
        × (st'.height ≡ st.height)
  unfolding update_value set_page
  update_nonempty order bound key v st free t h r =
      let n = reached order bound key st free t h r in
      let write : ℕ → ℕ → List (ℕ × V) × ℕ × ℕ → M V Bool =
        λ leaf pos l. set_page leaf (leaf_page (set_value l.0 pos v) l.1 l.2) >> pure true in
      elim (Bool-cases (is_some (lookup key n.records))) [
        | inl e ↦ (
          renewed key v st (target key t) n.next n.prev,
          step (find_leaf key) _ st st (suc n.idx) _ n.runs (
              search_leaf-found key n.low n.high n.idx n.next n.prev n.records st n.page n.sorted
                (pure false) write e
              ∙ ap
                  (λ l. some (
                    true,
                    record st { pages = update st.pages (suc n.idx) (leaf_page l n.next n.prev) },
                  ))
                  (set_value-assign key v n.records
                    (found_at-lookup key n.low n.high n.records n.sorted ∙ e))
              ∙ ap (λ b. some (b, renewed key v st (suc n.idx, n.records) n.next n.prev))
                  (sym e ∙ ap is_some n.same)
              ∙ ap (λ x. some (is_some (lookup key (entries t)), renewed key v st x n.next n.prev))
                  n.aimed),
          rw (sym (assign-entries key v order 0 bound t r.ready.valid)) (
              rooted free (assign_tree key v t) (
                renewed-Rooted order bound key v st free t n.next n.prev
                  (ap (λ x. st.pages x.0) (sym n.aimed)
                    ∙ n.page
                    ∙ ap (λ x. leaf_page x.1 n.next n.prev) n.aimed)
                  r)),
          refl,
        )
        | inr e ↦ (
          st,
          step (find_leaf key) _ st st (suc n.idx) _ n.runs (
              search_leaf-absent key n.low n.high n.idx n.next n.prev n.records st n.page n.sorted
                (pure false) write e
              ∙ ap (λ b. some (b, st)) (sym e ∙ ap is_some n.same)),
          rw (assign_absent key v (entries t) (sym (ap is_some n.same) ∙ e)) (rooted free t r),
          refl,
        )
      ]

  -- In a file that represents a list of entries, `update` returns whether the list has the key, and
  -- leaves a file of the same height that represents the list with the new value for that key.
  pub update_value-Represents :
      (order bound key : ℕ) (v : V) (st : Store V) (es : List (ℕ × V))
      → key < bound
      → Represents order bound st es
      → (st' : Store V) × (update_value key v st ≡ some (is_some (lookup key es), st'))
        × Represents order bound st' (assign key v es)
        × (st'.height ≡ st.height)
  unfolding update_value find_leaf find_leaf_from search_leaf lookup assign
  update_value-Represents order bound key v st [] h (empty free e) =
      (st, rw (e.no_root) refl, empty free e, refl)
  update_value-Represents order bound key v st es h (rooted free t r) =
      update_nonempty order bound key v st free t h r

  insert_or_assign-steps :
      (order key : ℕ) (v : V) (st st1 st2 : Store V) (found : Bool)
      → update_value key v st ≡ some (found, st1)
      → (found ≡ false → insert order key v st1 ≡ some (true, st2))
      → insert_or_assign order key v st ≡ some (true, if found then st1 else st2)
  unfolding insert_or_assign
  insert_or_assign-steps order key v st st1 st2 true a b =
      step (update_value key v) _ st st1 true _ a refl
  insert_or_assign-steps order key v st st1 st2 false a b =
      step (update_value key v) _ st st1 false _ a (b refl)

  -- In a file that represents a list of entries, `insert_or_assign` leaves a file that represents the list
  -- with the new value where it has the key, and with the new entry where it has not. The keys have a
  -- bound, a node has room for two entries or more, and the number of records and the height are
  -- less than 2^64 - 1.
  pub insert_or_assign-Represents :
      (order bound key : ℕ) (v : V) (st : Store V) (es : List (ℕ × V))
      → 2 ≤ order
      → key < bound
      → length es + 1 < 2 ^ 64
      → st.height + 1 < 2 ^ 64
      → Represents order bound st es
      → (st' : Store V) × (insert_or_assign order key v st ≡ some (true, st'))
        × Represents order bound st'
            (if is_some (lookup key es) then assign key v es else put key v es)
  insert_or_assign-Represents order bound key v st es large h few low rep =
      let (st1, a, rep1, same) = update_value-Represents order bound key v st es h rep in
      elim (Bool-cases (is_some (lookup key es))) [
        | inl e ↦ (
          st1,
          rw e at (
              insert_or_assign-steps order key v st st1 st1 (is_some (lookup key es)) a
                (λ n. absurd (ground arith))),
          rw e rep1,
        )
        | inr e ↦
            let back = assign_absent key v es e in
            let (st2, b, rep2) =
              insert-Represents order bound key v st1 es large h few (omega (arith, same))
                (rw back at rep1) in
            (
              st2,
              rw e at (
                  insert_or_assign-steps order key v st st1 st2 (is_some (lookup key es)) a
                    (λ n. rw e at b)),
              rw e rep2,
            )
      ]
