-- ===== src/BTree/AccessEntries.antt =====
-- What `at` and the proxy of `operator[]` do to the entries of a b-tree, and a file that was just opened.
use xtl.Prelude.{
  ℕ, suc, ◌+◌, ◌≤◌, ◌<◌, ◌^◌, Bool, not, Option, none, some, List, [], length, if◌then◌else◌, ◌≡◌,
  refl, ap, ◌∙◌, inl, inr, Bool-cases,
}
use xtl.BTree.{Store}
use xtl.BTree.Access.{accessed, at, proxy_read}
use xtl.BTree.Chain.{step}
use xtl.BTree.Records.{lookup, put, put-present, is_some}
use xtl.BTree.Find.{find_leaf, find_leaf_from, search_leaf, find_value}
use xtl.BTree.Insert.{insert}
use xtl.BTree.InsertFind.{or_else, Represents-Sorted}
use xtl.BTree.InsertRoot.{insert-Represents}
use xtl.BTree.Reached.{search_leaf-access}
use xtl.BTree.Lookup.{find_value-lookup, reached}
use xtl.BTree.Represents.{Represents, empty, rooted}

module _ {V : Type 0} where
  -- In a file that represents a list of entries, `at` returns the value that the list has for the key,
  -- and throws where it has none; it leaves the file as it is.
  pub at-lookup :
      (order bound key : ℕ) (st : Store V) (es : List (ℕ × V))
      → key < bound
      → Represents order bound st es
      → at key st ≡ some (accessed (lookup key es), st)
  unfolding at find_leaf find_leaf_from search_leaf lookup
  at-lookup order bound key st [] h (empty free e) = rw (e.no_root) refl
  at-lookup order bound key st es h (rooted free t r) =
      let n = reached order bound key st free t h r in
      step (find_leaf key) _ st st (suc n.idx) _ n.runs (
        search_leaf-access key n.low n.high n.idx n.next n.prev n.records st n.page n.sorted
        ∙ ap (λ o. some (accessed o, st)) n.same)

  proxy_step :
      (order key : ℕ) (default : V) (st st' : Store V) (o : Option V) (b : Bool)
      → find_value key st ≡ some (o, st)
      → insert order key default st ≡ some (b, st')
      → proxy_read order key default st ≡ some (or_else o default, if is_some o then st else st')
  unfolding proxy_read
  proxy_step order key default st st' none b e d =
      step (find_value key) _ st st none _ e (step (insert order key default) _ st st' b _ d refl)
  proxy_step order key default st st' (some v) b e d =
      step (find_value key) _ st st (some v) _ e refl

  -- In a file that represents a list of entries, reading `operator[]` returns the value that the list has
  -- for the key, or the default value where it has none, and leaves a file that represents the list with
  -- an entry for the key. The keys have a bound, a node has room for two entries or more, and the number
  -- of records and the height are less than 2^64 - 1.
  pub proxy_read-Represents :
      (order bound key : ℕ) (default : V) (st : Store V) (es : List (ℕ × V))
      → 2 ≤ order
      → key < bound
      → length es + 1 < 2 ^ 64
      → st.height + 1 < 2 ^ 64
      → Represents order bound st es
      → (st' : Store V) × (proxy_read order key default st
          ≡ some (or_else (lookup key es) default, st'))
        × Represents order bound st' (put key default es)
  proxy_read-Represents order bound key default st es large h few low rep =
      let (st1, e, rep1) = insert-Represents order bound key default st es large h few low rep in
      let f = find_value-lookup order bound key st es h rep in
      let run =
        proxy_step order key default st st1 (lookup key es) (not (is_some (lookup key es))) f e in
      elim (Bool-cases (is_some (lookup key es))) [
        | inl p ↦ (
          st,
          rw p at run,
          rw (put-present key default 0 bound es (Represents-Sorted order bound st es rep) p) rep,
        )
        | inr p ↦ (st1, rw p at run, rep1)
      ]
