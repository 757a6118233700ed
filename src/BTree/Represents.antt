-- ===== src/BTree/Represents.antt =====
-- A b-tree as the list of its entries in the order of the keys.
use xtl.Prelude.{ℕ, ◌≤◌, List, [], length, ◌≡◌}
use xtl.BTree.{Store}
use xtl.BTree.Chain.{Linked}
use xtl.BTree.FreeList.{Free, spare}
use xtl.BTree.Shape.{Tree, root, entries, tally}
use xtl.BTree.Grow.{Ready}

module _ {V : Type 0} where
  pub record Empty (st : Store V) (free : List ℕ) : Type 0 where
    pub no_root : st.root_page ≡ 0
    pub no_count : st.count ≡ 0
    pub no_height : st.height ≡ 0
    pub is_free : Free st free
    pub linked : Linked st.pages
    pub once : (j : ℕ) → spare free st.page_count j ≤ 1

  pub record Rooted (order bound : ℕ) (st : Store V) (free : List ℕ) (t : Tree V) : Type 0 where
    pub at_root : st.root_page ≡ root t
    pub counted : st.count ≡ length (entries t)
    pub no_header : tally 0 t ≡ 0
    pub ready : Ready order st.height 0 bound st free t

  -- The file holds the entries, whose keys are less than `bound`.
  pub data Represents (order bound : ℕ) (st : Store V) : List (ℕ × V) → Type 0 where
    empty : (free : List ℕ) → Empty st free → Represents order bound st []
    rooted :
        (free : List ℕ) (t : Tree V)
        → Rooted order bound st free t
        → Represents order bound st (entries t)
