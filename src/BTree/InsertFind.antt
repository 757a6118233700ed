-- ===== src/BTree/InsertFind.antt =====
-- What is found in a b-tree after an insertion.
use xtl.Prelude.{
  ℕ, ◌+◌, ◌≤◌, ◌<◌, ◌^◌, false, not, Option, none, some, List, [], ◌∷◌, length, ltb, ◌==◌,
  if◌then◌else◌, ◌≡◌, refl, ap, ◌∙◌, inl, inr, Bool-cases, arith,
}
use xtl.BTree.{Store, keys_of}
use xtl.BTree.Entries.{Sorted}
use xtl.BTree.Records.{lookup, lookup-before, put, is_some}
use xtl.BTree.Find.{find_value}
use xtl.BTree.Insert.{insert}
use xtl.BTree.InsertRoot.{insert-Represents}
use xtl.BTree.Lookup.{find_value-lookup}
use xtl.BTree.Represents.{Represents, empty, rooted}
use xtl.BTree.Shape.{Valid-entries}

module _ {V : Type 0} where
  abbrev pub or_else : Option V → V → V
  or_else none v = v
  or_else (some w) v = w

  lookup-put :
      (key k : ℕ) (v : V) (lo hi : ℕ) (es : List (ℕ × V))
      → Sorted lo hi (keys_of es)
      → lookup k (put key v es)
        ≡ (if k == key then some (or_else (lookup key es) v) else lookup k es)
  unfolding lookup put
  lookup-put key k v lo hi [] s = elim (Bool-cases (k == key)) [
    | inl e ↦ rw e refl
    | inr e ↦ rw e refl
  ]
  lookup-put key k v lo hi ((x, w) ∷ es) (a, s) = elim (Bool-cases (key == x)) [
    | inl q ↦
        let p : ltb key x ≡ false = ground arith in
        let c : key ≡ x = ground arith in rw (p, q, c) (ground arith)
    | inr q ↦ elim (Bool-cases (ltb key x)) [
      | inl p ↦ rw (p, q, lookup-before key (x + 1) hi es s (ground arith)) (ground arith)
      | inr p ↦ elim (Bool-cases (k == x)) [
        | inl e ↦ let d : (k == key) ≡ false = ground arith in rw (p, q, e, d) refl
        | inr e ↦ rw (p, q, e) (lookup-put key k v (x + 1) hi es s)
      ]
    ]
  ]

  pub Represents-Sorted :
      (order bound : ℕ) (st : Store V) (es : List (ℕ × V))
      → Represents order bound st es
      → Sorted 0 bound (keys_of es)
  Represents-Sorted order bound st [] (empty free e) = omega arith
  Represents-Sorted order bound st es (rooted free t r) =
      Valid-entries order 0 bound t r.ready.valid

  -- After an insertion into a file that represents a list of entries, `find_value` returns for the
  -- inserted key the value that the list had for it, or the new value where it had none, and for each
  -- other key what the list had. The keys have a bound, a node has room for two entries or more, and the
  -- number of records and the height are less than 2^64 - 1.
  pub find_value-insert :
      (order bound key k : ℕ) (v : V) (st : Store V) (es : List (ℕ × V))
      → 2 ≤ order
      → key < bound
      → k < bound
      → length es + 1 < 2 ^ 64
      → st.height + 1 < 2 ^ 64
      → Represents order bound st es
      → (st' : Store V) × (insert order key v st ≡ some (not (is_some (lookup key es)), st'))
        × (find_value k st'
            ≡ some ((if k == key then some (or_else (lookup key es) v) else lookup k es), st'))
  find_value-insert order bound key k v st es large h h' few low rep =
      let (st', e, rep') = insert-Represents order bound key v st es large h few low rep in
      (
        st',
        e,
        find_value-lookup order bound k st' (put key v es) h' rep'
            ∙ ap (λ o. some (o, st'))
                (lookup-put key k v 0 bound es (Represents-Sorted order bound st es rep)),
      )
