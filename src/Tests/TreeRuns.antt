-- ===== src/Tests/TreeRuns.antt =====
-- Runs of the b-tree with two records in a node.
use xtl.Prelude.{ℕ, ◌+◌, true, Option, none, some, List, [], ◌∷◌, ◌≡◌, refl, inl, arith, update}
use xtl.BTree.{free_page, leaf_page, Store, M, pure, ◌>>=◌, ◌>>◌, read, child_search}
use xtl.BTree.Insert.{insert, insert_rec}
use xtl.BTree.Erase.{erase}
use xtl.BTree.Find.{insert_or_assign, find_value}
use xtl.BTree.Chain.{Linked, Linked-update}
use xtl.BTree.FreeList.{spare}
use xtl.BTree.Entries.{leading, child_search-leading}
use xtl.BTree.Records.{lookup, put}
use xtl.BTree.Shape.{leaf, entries, tally, Holds, Depth, Valid}
use xtl.BTree.Grow.{Ready, Inserted}
use xtl.BTree.InsertRec.{insert_rec-Inserted}
use xtl.BTree.InsertRoot.{insert-Represents}
use xtl.BTree.InsertFind.{find_value-insert}
use xtl.BTree.Lookup.{find_value-lookup}
use xtl.BTree.Access.{at, out_of_range, proxy_read}
use xtl.BTree.AccessEntries.{at-lookup, proxy_read-Represents}
use xtl.BTree.Assign.{assign}
use xtl.BTree.Update.{insert_or_assign-Represents}
use xtl.BTree.Represents.{Represents, rooted}

abbrev new_file : Store ℕ
new_file = record {
  pages = λ j. free_page 0;
  page_count = 1;
  root_page = 0;
  first_leaf = 0;
  count = 0;
  height = 0;
  free_list_head = 0;
  free_list_count = 0;
}

insert_all : List ℕ → M ℕ (Unit {0})
unfolding insert
insert_all [] = pure tt
insert_all (k ∷ ks) = insert 2 k (k + 100) >>= λ done. insert_all ks

erase_all : List ℕ → M ℕ (Unit {0})
unfolding erase
erase_all [] = pure tt
erase_all (k ∷ ks) = erase {V = ℕ} k >>= λ n. erase_all ks

abbrev value_of : {A B : Type 0} → Option (A × B) → Option A
value_of none = none
value_of (some (a, b)) = some a

found :
    value_of ((insert_all (5 ∷ 3 ∷ 9 ∷ 7 ∷ 1 ∷ 8 ∷ 2 ∷ []) >> find_value 8) new_file)
    ≡ some (some 108)
unfolding insert_all find_value
found = refl

missing :
    value_of ((insert_all (5 ∷ 3 ∷ 9 ∷ 7 ∷ 1 ∷ 8 ∷ 2 ∷ []) >> find_value 4) new_file) ≡ some none
unfolding insert_all find_value
missing = refl

height_grows :
    value_of ((insert_all (5 ∷ 3 ∷ 9 ∷ 7 ∷ 1 ∷ 8 ∷ 2 ∷ []) >> read (λ st. st.height)) new_file)
    ≡ some 3
unfolding insert_all
height_grows = refl

erased :
    value_of (
      (insert_all (5 ∷ 3 ∷ 9 ∷ 7 ∷ 1 ∷ [])
          >> erase_all (3 ∷ 9 ∷ 5 ∷ 7 ∷ 1 ∷ [])
          >> read (λ st. st.free_list_count))
        new_file)
    ≡ some 4
unfolding insert_all erase_all
erased = refl

-- A file with one full leaf, for two records in a node
abbrev two : List (ℕ × ℕ)
two = (3, 103) ∷ (5, 105) ∷ []

abbrev one_leaf : Store ℕ
one_leaf = record {
  pages = update (λ j. free_page 0) 1 (leaf_page two 0 0);
  page_count = 2;
  root_page = 1;
  first_leaf = 1;
  count = 2;
  height = 1;
  free_list_head = 0;
  free_list_count = 0;
}

one_leaf-Linked : Linked one_leaf.pages
one_leaf-Linked =
    Linked-update (λ j. free_page 0) 1 (leaf_page two 0 0) (λ h. refl) (inl refl) (λ i. tt)

one_leaf-Ready : Ready 2 1 0 10 one_leaf [] (leaf 1 two)
unfolding Holds Depth Valid tally spare
one_leaf-Ready = record {
  is_free = record { chain = refl; beyond = λ j h. ground arith; header = omega arith };
  linked = one_leaf-Linked;
  owned = λ j. ground arith;
  holds = (0, 0, refl);
  depth = refl;
  valid = ((omega arith, (omega arith, omega arith)), omega arith);
}

one_leaf-Represents : Represents 2 10 one_leaf two
unfolding entries tally
one_leaf-Represents =
    rooted [] (leaf 1 two)
      (record { at_root = refl; counted = refl; no_header = refl; ready = one_leaf-Ready })

insert-Represents_example :
    (st' : Store ℕ) × (insert 2 4 104 one_leaf ≡ some (true, st'))
    × Represents 2 10 st' ((3, 103) ∷ (4, 104) ∷ (5, 105) ∷ [])
unfolding lookup put
insert-Represents_example =
    insert-Represents 2 10 4 104 one_leaf two (omega arith) (omega arith) (omega arith)
      (omega arith) one_leaf-Represents

insert_rec-Inserted_example :
    Inserted 2 1 0 10 4 104 one_leaf [] (leaf 1 two) (insert_rec 2 1 1 4 104)
insert_rec-Inserted_example =
    insert_rec-Inserted 2 1 0 10 4 104 one_leaf [] (leaf 1 two) (omega arith) (omega arith)
      (omega arith) one_leaf-Ready

find_value-lookup_example : find_value 5 one_leaf ≡ some (some 105, one_leaf)
unfolding lookup
find_value-lookup_example = find_value-lookup 2 10 5 one_leaf two (omega arith) one_leaf-Represents

find_value-insert_example :
    (st' : Store ℕ) × (insert 2 4 104 one_leaf ≡ some (true, st'))
    × (find_value 4 st' ≡ some (some 104, st'))
unfolding lookup
find_value-insert_example =
    find_value-insert 2 10 4 4 104 one_leaf two (omega arith) (omega arith) (omega arith)
      (omega arith) (omega arith) one_leaf-Represents

child_search-leading_example : child_search (2 ∷ 4 ∷ 6 ∷ []) 4 ≡ some 2
unfolding leading
child_search-leading_example =
    child_search-leading 4 0 10 (2 ∷ 4 ∷ 6 ∷ [])
      (omega arith, (omega arith, (omega arith, omega arith)))

at-lookup_example : at 4 one_leaf ≡ some (out_of_range, one_leaf)
unfolding lookup
at-lookup_example = at-lookup 2 10 4 one_leaf two (omega arith) one_leaf-Represents

proxy_read-Represents_example :
    (st' : Store ℕ) × (proxy_read 2 4 0 one_leaf ≡ some (0, st'))
    × Represents 2 10 st' ((3, 103) ∷ (4, 0) ∷ (5, 105) ∷ [])
unfolding lookup put
proxy_read-Represents_example =
    proxy_read-Represents 2 10 4 0 one_leaf two (omega arith) (omega arith) (omega arith)
      (omega arith) one_leaf-Represents

insert_or_assign-Represents_example :
    (st' : Store ℕ) × (insert_or_assign 2 5 7 one_leaf ≡ some (true, st'))
    × Represents 2 10 st' ((3, 103) ∷ (5, 7) ∷ [])
unfolding lookup put assign
insert_or_assign-Represents_example =
    insert_or_assign-Represents 2 10 5 7 one_leaf two (omega arith) (omega arith) (omega arith)
      (omega arith) one_leaf-Represents
