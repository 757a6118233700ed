-- ===== src/BTree/InsertRoot.antt =====
-- Insertion into a b-tree, and the list of entries that the file stands for.
use xtl.Prelude.{
  ℕ, zero, suc, ◌+◌, ◌≤◌, ◌<◌, ◌^◌, Bool, true, false, not, Option, none, some, List, [], ◌∷◌,
  length, ltb, ◌==◌, if◌then◌else◌, ◌≡◌, ◌≢◌, refl, sym, ap, ◌∙◌, inl, inr, Bool-cases, arith,
}
use xtl.BTree.{Store, M, succ_size, keys_of}
use xtl.BTree.Chain.{step}
use xtl.BTree.FreeList.{Free-zero, spare}
use xtl.BTree.Entries.{Sorted}
use xtl.BTree.Records.{lookup, lookup-before, put, is_some}
use xtl.BTree.Insert.{insert_rec, grow_root, count_up, insert_into, insert}
use xtl.BTree.Shape.{
  Tree, leaf, branch, root, entries, entries_kids, tally, tally_kids, Valid-entries,
}
use xtl.BTree.Grow.{Grow, whole, halves, grown, answer}
use xtl.BTree.InsertRec.{insert_rec-Inserted}
use xtl.BTree.Represents.{Represents, empty, rooted, Rooted}
use xtl.BTree.RootGrow.{same_fields, insert_first-Represents, Planted, grow_root-Planted}

module _ {V : Type 0} where
  length-put_lem :
      (key : ℕ) (v : V) (lo hi : ℕ) (es : List (ℕ × V))
      → Sorted lo hi (keys_of es)
      → length (put key v es) ≡ (if is_some (lookup key es) then length es else suc (length es))
  unfolding put lookup
  length-put_lem key v lo hi [] s = refl
  length-put_lem key v lo hi ((k, w) ∷ es) (a, s) = elim (Bool-cases (key == k)) [
    | inl q ↦ let p : ltb key k ≡ false = ground arith in rw (p, q) refl
    | inr q ↦
        let ih = length-put_lem key v (k + 1) hi es s in
        elim (Bool-cases (ltb key k)) [
          | inl p ↦ rw (p, q, lookup-before key (k + 1) hi es s (ground arith)) refl
          | inr p ↦ rw (p, q) (ground arith)
        ]
  ]

  count_up-Represents :
      (order bound : ℕ) (st : Store V) (news : Bool) (es es' : List (ℕ × V)) (run : M V (Unit {0}))
      → (n : Planted order bound st es' run) → st.count ≡ length es
      → length es' ≡ (if news then suc (length es) else length es)
      → length es + 1 < 2 ^ 64
      → (st' : Store V) × (count_up order news n.after ≡ some (news, st'))
        × Represents order bound st' es'
  unfolding count_up
  count_up-Represents order bound st true es es' run n c l b =
      let st' = record n.after { count = succ_size n.after.count } in
      let m = n.ready in
      (
        st',
        refl,
        rw (sym n.same_entries) (
            rooted n.free n.tree (record {
              at_root = n.at_root;
              counted = let e = n.same_count in let e' = ap length n.same_entries in omega arith;
              no_header = n.no_header;
              ready = record {
                is_free = same_fields n.after st' n.free refl refl refl m.is_free;
                linked = m.linked;
                owned = m.owned;
                holds = m.holds;
                depth = m.depth;
                valid = m.valid;
              };
            })),
      )
  count_up-Represents order bound st false es es' run n c l b = (
    n.after,
    refl,
    rw (sym n.same_entries) (
        rooted n.free n.tree (record {
          at_root = n.at_root;
          counted = let e = n.same_count in let e' = ap length n.same_entries in omega arith;
          no_header = n.no_header;
          ready = n.ready;
        })),
  )

  news_length :
      (o : Option V) (n : ℕ)
      → (if is_some o then n else suc n) ≡ (if not (is_some o) then suc n else n)
  news_length none n = refl
  news_length (some v) n = refl

  root_nonzero : (t : Tree V) → tally 0 t ≡ 0 → root t ≢ 0
  unfolding tally
  root_nonzero (leaf i rs) z e = ground arith
  root_nonzero (branch i ks) z e = ground arith

  answer-inserted : (grow : Grow V) (news : Bool) (key : ℕ) → (answer grow news key).inserted ≡ news
  answer-inserted (whole t) news key = refl
  answer-inserted (halves t p u) news key = refl

  -- the steps of `insert` where there is a root
  insert-steps :
      (order key : ℕ) (v : V) (st : Store V) (i : ℕ) (grow : Grow V) (st1 st2 : Store V)
      (news : Bool) (st3 : Store V)
      → st.root_page ≡ i
      → i ≢ 0
      → insert_rec order st.height i key v st ≡ some (answer grow news key, st1)
      → grow_root order (answer grow news key) st1 ≡ some (tt, st2)
      → count_up order news st2 ≡ some (news, st3)
      → insert order key v st ≡ some (news, st3)
  unfolding insert
  insert-steps order key v st zero grow st1 st2 news st3 r ne a b c = absurd (ne refl)
  insert-steps order key v st (suc i) grow st1 st2 news st3 r ne a b c =
      let res = answer grow news key in
      ap (λ x. insert_into order x st.height key v st) r
      ∙ step (insert_rec order st.height (suc i) key v) _ st st1 res _ a (
          step (grow_root order res) (λ u. count_up order res.inserted) st1 st2 tt _ b
            (rw (answer-inserted grow news key) c))

  insert_nonempty-Represents :
      (order bound key : ℕ) (v : V) (st : Store V) (free : List ℕ) (t : Tree V)
      → 2 ≤ order
      → key < bound
      → length (entries t) + 1 < 2 ^ 64
      → st.height + 1 < 2 ^ 64
      → Rooted order bound st free t
      → (st' : Store V) × (insert order key v st
          ≡ some (not (is_some (lookup key (entries t))), st'))
        × Represents order bound st' (put key v (entries t))
  insert_nonempty-Represents order bound key v st free t large h few low r =
      let n =
        insert_rec-Inserted order st.height 0 bound key v st free t large (omega arith) h r.ready in
      let news = not (is_some (lookup key (entries t))) in
      let z0 = Free-zero st free r.ready.is_free in
      let z1 = Free-zero n.after n.rest n.is_free in
      let own : (j : ℕ) → tally_kids j (grown n.grow) + spare n.rest n.after.page_count j ≤ 1 =
        λ j. let a = n.takes j in let b = r.ready.owned j in omega arith in
      let p =
        grow_root-Planted order bound st.height key n.after n.rest news n.grow large
          (ap (λ x. x.0) n.header_same ∙ r.at_root ∙ sym n.same_root) (ap (λ x. x.3) n.header_same)
          low n.is_free n.linked own (let a = n.takes 0 in let b = r.no_header in omega arith)
          n.holds n.depth n.valid in
      let es' = entries_kids (grown n.grow) in
      let len =
        ap length n.adds
        ∙ length-put_lem key v 0 bound (entries t) (Valid-entries order 0 bound t r.ready.valid)
        ∙ news_length (lookup key (entries t)) (length (entries t)) in
      let (st', e, rep) =
        count_up-Represents order bound n.after news (entries t) es'
          (grow_root order (answer n.grow news key)) p (ap (λ x. x.2) n.header_same ∙ r.counted) len
          few in
      (
        st',
        insert-steps order key v st (root t) n.grow n.after p.after news st' r.at_root
            (root_nonzero t r.no_header) n.runs p.runs e,
        rw (sym n.adds) rep,
      )

  -- In a file that represents a list of entries, `insert` ends within the height of the tree, returns
  -- whether the list had no entry for the key, and leaves a file that represents the list with the new
  -- entry, or the same list where the key was there. The keys have a bound, a node has room for two
  -- entries or more, and the number of records and the height are less than 2^64 - 1.
  pub insert-Represents :
      (order bound key : ℕ) (v : V) (st : Store V) (es : List (ℕ × V))
      → 2 ≤ order
      → key < bound
      → length es + 1 < 2 ^ 64
      → st.height + 1 < 2 ^ 64
      → Represents order bound st es
      → (st' : Store V) × (insert order key v st ≡ some (not (is_some (lookup key es)), st'))
        × Represents order bound st' (put key v es)
  unfolding insert lookup put
  insert-Represents order bound key v st [] large h few low (empty free e) =
      let (st', a, r) = insert_first-Represents order bound key v st free large h e in
      (st', ap (λ x. insert_into order x st.height key v st) e.no_root ∙ a, r)
  insert-Represents order bound key v st es large h few low (rooted free t r) =
      insert_nonempty-Represents order bound key v st free t large h few low r
