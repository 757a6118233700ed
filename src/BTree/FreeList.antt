-- ===== src/BTree/FreeList.antt =====
-- The pages of a b-tree that are free: those on the list in the header, and those beyond the end of the
-- file.
use xtl.Prelude.{
  ℕ, zero, suc, ◌+◌, ◌≤◌, some, List, [], ◌∷◌, leb, if◌then◌else◌, ◌≡◌, ◌≢◌, refl, ap, ◌∙◌, arith,
}
use xtl.BTree.{
  Page, free_page, Store, pred_size, get_page, allocate_from, allocate_raw, as_free, modify, pure,
  ◌>>◌, ◌>>=◌, get_page,
}
use xtl.BTree.Chain.{step}
use xtl.BTree.Shape.{one, Like}

-- how often `j` stands in the list
unfoldable pub occ : ℕ → List ℕ → ℕ
occ j [] = 0
occ j (x ∷ xs) = one j x + occ j xs

-- whether page `j` is free: on the list `free`, or beyond the end
unfoldable pub spare : List ℕ → ℕ → ℕ → ℕ
unfolding occ
spare free page_count j = occ j free + (if leb page_count j then 1 else 0)

module _ {V : Type 0} where
  abbrev pub Chain : (ℕ → Page V) → ℕ → List ℕ → Type 0
  Chain pages head [] = head ≡ 0
  Chain pages head (x ∷ free) =
      (head ≡ x) × (x ≢ 0) × ((next : ℕ) × (pages x ≡ free_page next) × Chain pages next free)

  -- `free` is the list of free pages in the file.
  pub record Free (st : Store V) (free : List ℕ) : Type 0 where
    pub chain : Chain st.pages st.free_list_head free
    pub beyond : (j : ℕ) → st.page_count ≤ j → st.pages j ≡ free_page 0
    pub header : 1 ≤ st.page_count

  -- the fields of the header that the tree has
  abbrev pub header_of : Store V → ℕ × ℕ × ℕ × ℕ
  header_of st = (st.root_page, st.first_leaf, st.count, st.height)

  Chain-frame :
      (pages pages' : ℕ → Page V) (head : ℕ) (free : List ℕ)
      → ((j : ℕ) → 1 ≤ occ j free → Like (pages j) (pages' j))
      → Chain pages head free
      → Chain pages' head free
  unfolding occ
  Chain-frame pages pages' head [] k c = c
  Chain-frame pages pages' head (x ∷ free) k (a, b, (next, e, c)) =
      let l = k x (ground arith) in
      (a, b, (next, rw e at l, Chain-frame pages pages' next free (λ j o. k j (omega arith)) c))

  pub Free-frame :
      (st : Store V) (pages : ℕ → Page V) (free : List ℕ)
      → ((j : ℕ) → 1 ≤ spare free st.page_count j → Like (st.pages j) (pages j))
      → Free st free
      → Free (record st { pages = pages }) free
  unfolding spare
  Free-frame st pages free k f = record {
    chain = Chain-frame st.pages pages st.free_list_head free (λ j o. k j (ground arith)) f.chain;
    beyond = λ j h. let l = k j (ground arith) in rw (f.beyond j h) at l;
    header = f.header;
  }

  Chain-zero :
      (pages : ℕ → Page V) (head : ℕ) (free : List ℕ) → Chain pages head free → occ 0 free ≡ 0
  unfolding occ
  Chain-zero pages head [] c = refl
  Chain-zero pages head (x ∷ free) (a, b, (next, e, c)) =
      let z = Chain-zero pages next free c in ground arith

  -- Page 0, the header, is never free.
  pub Free-zero : (st : Store V) (free : List ℕ) → Free st free → spare free st.page_count 0 ≡ 0
  unfolding spare
  Free-zero st free f =
      let z = Chain-zero st.pages st.free_list_head free f.chain in let h = f.header in ground arith

  -- What `allocate_raw` does: it takes one free page, and writes no page.
  pub record Allocated (st : Store V) (free : List ℕ) : Type 0 where
    pub idx : ℕ
    pub after : Store V
    pub rest : List ℕ
    pub runs : allocate_raw st ≡ some (idx, after)
    pub same : after.pages ≡ st.pages
    pub is_free : Free after rest
    pub takes : (j : ℕ) → one j idx + spare rest after.page_count j ≡ spare free st.page_count j
    pub was_free : (next : ℕ) × (st.pages idx ≡ free_page next)
    pub nonzero : idx ≢ 0
    pub header_same : header_of after ≡ header_of st

  allocate_end : (st : Store V) → Free st [] → Allocated st []
  unfolding allocate_raw spare
  allocate_end st f = record {
    idx = st.page_count;
    after = record st { page_count = st.page_count + 1 };
    rest = [];
    runs = rw (f.chain) refl;
    same = refl;
    is_free = record {
      chain = f.chain;
      beyond = λ j h. f.beyond j (omega arith);
      header = omega arith;
    };
    takes = λ j. ground arith;
    was_free = (0, f.beyond st.page_count (omega arith));
    nonzero = λ e. let h = f.header in omega arith;
    header_same = refl;
  }

  allocate_from-head :
      (st : Store V) (x next : ℕ)
      → st.pages (suc x) ≡ free_page next
      → allocate_from (suc x) st
        ≡ some (
          suc x,
          record st { free_list_head = next; free_list_count = pred_size st.free_list_count },
        )
  unfolding allocate_from get_page
  allocate_from-head st x next e =
      step (get_page (suc x) >>= as_free)
        (λ n.
          modify
            (λ s. record s { free_list_head = n; free_list_count = pred_size s.free_list_count })
          >> pure (suc x))
        st st next _ (ap (λ p. as_free p st) e) refl

  allocate_head :
      (st : Store V) (x : ℕ) (free : List ℕ) → Free st (x ∷ free) → Allocated st (x ∷ free)
  unfolding allocate_raw spare
  allocate_head st zero free f = absurd ((f.chain).1 refl)
  allocate_head st (suc x) free f =
      let (a, b, (next, e, c)) = f.chain in
      record {
        idx = suc x;
        after = record st { free_list_head = next; free_list_count = pred_size st.free_list_count };
        rest = free;
        runs = ap (λ h. allocate_from h st) a ∙ allocate_from-head st x next e;
        same = refl;
        is_free = record { chain = c; beyond = f.beyond; header = f.header };
        takes = λ j. omega arith;
        was_free = (next, e);
        nonzero = b;
        header_same = refl;
      }

  pub allocate : (st : Store V) (free : List ℕ) → Free st free → Allocated st free
  allocate st [] f = allocate_end st f
  allocate st (x ∷ free) f = allocate_head st x free f
