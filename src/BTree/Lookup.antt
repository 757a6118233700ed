-- ===== src/BTree/Lookup.antt =====
-- The search for a key in a b-tree finds what the list of its entries has.
use xtl.Prelude.{
  ℕ, suc, ◌<◌, false, some, List, [], ◌==◌, ◌≡◌, refl, sym, ap, ◌∙◌, inl, inr, Bool-cases, arith,
}
use xtl.BTree.{Store, M, pure, keys_of}
use xtl.BTree.Chain.{step}
use xtl.BTree.Entries.{leading, less}
use xtl.BTree.Records.{lookup, is_some}
use xtl.BTree.Find.{
  Iterator, end, find_leaf_from, find_leaf, search_leaf, find_value, find, contains,
}
use xtl.BTree.Shape.{Tree}
use xtl.BTree.Represents.{Represents, empty, rooted, Rooted}
use xtl.BTree.Reached.{
  search_leaf-value, search_leaf-found, search_leaf-absent, Reached, find_leaf-Reached,
}

module _ {V : Type 0} where
  pub reached :
      (order bound key : ℕ) (st : Store V) (free : List ℕ) (t : Tree V)
      → key < bound
      → Rooted order bound st free t
      → Reached key st t (find_leaf key)
  unfolding find_leaf
  reached order bound key st free t h r =
      let n =
        find_leaf-Reached order st.height 0 bound key st t st.root_page (omega arith) h
          (sym r.at_root) r.no_header r.ready.holds r.ready.depth r.ready.valid in
      record {
        idx = n.idx;
        records = n.records;
        next = n.next;
        prev = n.prev;
        low = n.low;
        high = n.high;
        runs = n.runs;
        page = n.page;
        sorted = n.sorted;
        same = n.same;
        aimed = n.aimed;
      }

  -- In a file that represents a list of entries, `find_value` ends within the height of the tree, leaves
  -- the file as it is, and returns the value that the list has for the key, or none where it has none.
  pub find_value-lookup :
      (order bound key : ℕ) (st : Store V) (es : List (ℕ × V))
      → key < bound
      → Represents order bound st es
      → find_value key st ≡ some (lookup key es, st)
  unfolding find_value find_leaf find_leaf_from search_leaf lookup
  find_value-lookup order bound key st [] h (empty free e) = rw (e.no_root) refl
  find_value-lookup order bound key st es h (rooted free t r) =
      let n = reached order bound key st free t h r in
      step (find_leaf key) _ st st (suc n.idx) _ n.runs (
        search_leaf-value key n.low n.high n.idx n.next n.prev n.records st n.page n.sorted
        ∙ ap (λ o. some (o, st)) n.same)

  -- In a file that represents a list of entries, `contains` tells whether the list has the key, and
  -- leaves the file as it is.
  pub contains-lookup :
      (order bound key : ℕ) (st : Store V) (es : List (ℕ × V))
      → key < bound
      → Represents order bound st es
      → contains key st ≡ some (is_some (lookup key es), st)
  unfolding contains find find_leaf find_leaf_from search_leaf lookup
  contains-lookup order bound key st [] h (empty free e) = rw (e.no_root) refl
  contains-lookup order bound key st es h (rooted free t r) =
      let n = reached order bound key st free t h r in
      let at : ℕ → ℕ → List (ℕ × V) × ℕ × ℕ → M V Iterator = λ leaf pos l. pure (leaf, pos) in
      elim (Bool-cases (is_some (lookup key n.records))) [
        | inl e ↦
            step (find key) _ st st (suc n.idx, leading (less key) (keys_of n.records)) _
              (step (find_leaf key) _ st st (suc n.idx) _ n.runs (
                search_leaf-found key n.low n.high n.idx n.next n.prev n.records st n.page n.sorted
                  (pure end) at e))
              (let z : (suc n.idx == 0) ≡ false = ground arith in
                rw z (ap (λ b. some (b, st)) (sym e ∙ ap is_some n.same)))
        | inr e ↦
            step (find key) _ st st end _
              (step (find_leaf key) _ st st (suc n.idx) _ n.runs (
                search_leaf-absent key n.low n.high n.idx n.next n.prev n.records st n.page n.sorted
                  (pure end) at e))
              (ap (λ b. some (b, st)) (sym e ∙ ap is_some n.same))
      ]
