-- ===== src/BTree/Grow.antt =====
-- What an insertion makes of a subtree of the b-tree: one tree, or two with a separator between them.
use xtl.Prelude.{ℕ, ◌+◌, ◌≤◌, Bool, true, false, not, some, List, ◌≡◌}
use xtl.BTree.{Store, M}
use xtl.BTree.Chain.{Linked}
use xtl.BTree.FreeList.{Free, spare, header_of}
use xtl.BTree.Records.{lookup, put, is_some}
use xtl.BTree.Insert.{InsertResult, result}
use xtl.BTree.Shape.{
  Tree, Kids, only, more, root, entries, entries_kids, tally, tally_kids, Depth, DepthKids, Holds,
  HoldsKids, Valid, ValidKids, Like,
}

pub data Grow (V : Type 0) : Type 0 where
  whole : Tree V → Grow V
  halves : Tree V → ℕ → Tree V → Grow V

module _ {V : Type 0} where
  abbrev pub grown : Grow V → Kids V
  grown (whole t) = only t
  grown (halves t p u) = more t p (only u)

  abbrev pub first_root : Grow V → ℕ
  first_root (whole t) = root t
  first_root (halves t p u) = root t

  abbrev pub answer : Grow V → Bool → ℕ → InsertResult
  answer (whole t) inserted key = result inserted false key 0
  answer (halves t p u) inserted key = result inserted true p (root u)

  -- A store that holds the subtree, no page of it twice and none of it free
  pub record Ready (order height lo hi : ℕ) (st : Store V) (free : List ℕ) (t : Tree V)
      : Type 0 where
    pub is_free : Free st free
    pub linked : Linked st.pages
    pub owned : (j : ℕ) → tally j t + spare free st.page_count j ≤ 1
    pub holds : Holds st.pages t
    pub depth : Depth height t
    pub valid : Valid order lo hi t

  -- What `run` does, where it inserts the key with the value into the subtree: no page is lost or taken
  -- twice, and of the other pages only the links of leaves are written.
  pub record Inserted (order height lo hi key : ℕ) (v : V) (st : Store V) (free : List ℕ)
      (t : Tree V) (run : M V InsertResult) : Type 0 where
    pub grow : Grow V
    pub after : Store V
    pub rest : List ℕ
    pub runs : run st ≡ some (answer grow (not (is_some (lookup key (entries t)))) key, after)
    pub is_free : Free after rest
    pub linked : Linked after.pages
    pub takes :
        (j : ℕ)
        → tally_kids j (grown grow) + spare rest after.page_count j
          ≡ tally j t + spare free st.page_count j
    pub holds : HoldsKids after.pages (grown grow)
    pub depth : DepthKids height (grown grow)
    pub valid : ValidKids order lo hi (grown grow)
    pub adds : entries_kids (grown grow) ≡ put key v (entries t)
    pub same_root : first_root grow ≡ root t
    pub frame :
        (j : ℕ) → tally j t ≡ 0 → spare free st.page_count j ≡ 0 → Like (st.pages j) (after.pages j)
    pub header_same : header_of after ≡ header_of st
