-- ===== src/BTree.antt =====
-- include/xtd/btree.hpp: the pages of the file, the header, the allocation of pages and the search in
-- one node. A page's array with its count is the list of the entries below the count; the slots above
-- it are never read. Page 0, the header, is kept as fields of the store. Keys are numbers, with `<`
-- and `==` as theirs.
pub mod Insert
pub mod Erase
pub mod Find
pub mod Bisect
pub mod Entries
pub mod Records
pub mod Shape
pub mod Kids
pub mod KidPages
pub mod Cut
pub mod FreeList
pub mod Chain
pub mod Half
pub mod Grow
pub mod LeafLinks
pub mod LeafSplit
pub mod LeafInsert
pub mod Grafted
pub mod BranchInsert
pub mod InsertRec
pub mod Represents
pub mod Reached
pub mod Lookup
pub mod RootGrow
pub mod InsertRoot
pub mod InsertFind
pub mod Access
pub mod AccessEntries
pub mod Assign
pub mod AssignTree
pub mod Update
use xtl.Prelude.{
  ℕ, zero, suc, ◌+◌, ◌-◌, ◌/◌, ◌%◌, ◌^◌, Bool, true, false, Option, none, some, List, [], ◌∷◌, ◌++◌,
  map, take, drop, length, get_or, get_elem?, ltb, ◌==◌, not, update, if◌then◌else◌,
}

pub data Page (V : Type 0) : Type 0 where
  free_page : (next : ℕ) → Page V
  leaf_page : (records : List (ℕ × V)) (next_page prev_page : ℕ) → Page V
  branch_page : (keys children : List ℕ) → Page V

-- The file: its pages, their number, and the header. Beyond its end the file reads as zeros, which
-- is a free page.
pub record Store (V : Type 0) : Type 0 where
  pub pages : ℕ → Page V
  pub page_count : ℕ
  pub root_page : ℕ
  pub first_leaf : ℕ
  pub count : ℕ
  pub height : ℕ
  pub free_list_head : ℕ
  pub free_list_count : ℕ

-- `none` is a page that is read as one of another kind.
abbrev pub M : Type 0 → Type 0 → Type 0
M V A = Store V → Option (A × Store V)

module _ {V : Type 0} where
  abbrev pub pure : {A : Type 0} → A → M V A
  pure a st = some (a, st)

  abbrev pub fault : {A : Type 0} → M V A
  fault st = none

  infixl 5 ◌>>=◌ ◌>>◌
  abbrev pub ◌>>=◌ : {A B : Type 0} → M V A → (A → M V B) → M V B
  ◌>>=◌ m f st = elim (m st) [ none ↦ none | some (a, st') ↦ f a st' ]

  abbrev pub ◌>>◌ : {B : Type 0} → M V (Unit {0}) → M V B → M V B
  m >> k = m >>= λ _. k

  abbrev pub modify : (Store V → Store V) → M V (Unit {0})
  modify f st = some (tt, f st)

  abbrev pub read : {A : Type 0} → (Store V → A) → M V A
  read f st = some (f st, st)

-- arithmetic of `size_t`
abbrev pub succ_size : ℕ → ℕ
succ_size n = (n + 1) % 2 ^ 64

abbrev pub pred_size : ℕ → ℕ
pred_size n = (n + 2 ^ 64 - 1) % 2 ^ 64

module _ {V : Type 0} where
  unfoldable pub get_page : ℕ → M V (Page V)
  get_page idx st = some (st.pages idx, st)

  unfoldable pub set_page : ℕ → Page V → M V (Unit {0})
  set_page idx p st = some (tt, record st { pages = update st.pages idx p })

  abbrev pub as_free : Page V → M V ℕ
  as_free (free_page next) = pure next
  as_free (leaf_page rs nx pv) = fault
  as_free (branch_page ks cs) = fault

  -- records, `_next_page` and `_prev_page`
  abbrev pub as_leaf : Page V → M V (List (ℕ × V) × ℕ × ℕ)
  as_leaf (free_page next) = fault
  as_leaf (leaf_page rs nx pv) = pure (rs, nx, pv)
  as_leaf (branch_page ks cs) = fault

  -- keys and children
  abbrev pub as_branch : Page V → M V (List ℕ × List ℕ)
  as_branch (free_page next) = fault
  as_branch (leaf_page rs nx pv) = fault
  as_branch (branch_page ks cs) = pure (ks, cs)

  unfoldable pub get_leaf : ℕ → M V (List (ℕ × V) × ℕ × ℕ)
  unfolding get_page
  get_leaf idx = get_page idx >>= as_leaf

  unfoldable pub get_branch : ℕ → M V (List ℕ × List ℕ)
  unfolding get_page
  get_branch idx = get_page idx >>= as_branch

  -- the page that `allocate_raw` takes, with the head of the free list
  unfoldable pub allocate_from : ℕ → M V ℕ
  unfolding get_page
  allocate_from zero = read (λ st. st.page_count) >>= λ idx.
      modify (λ st. record st { page_count = st.page_count + 1 }) >> pure idx
  allocate_from (suc head) = get_page (suc head) >>= as_free >>= λ next.
      modify
        (λ st. record st { free_list_head = next; free_list_count = pred_size st.free_list_count })
      >> pure (suc head)

  unfoldable pub allocate_raw : M V ℕ
  unfolding allocate_from
  allocate_raw st = allocate_from st.free_list_head st

  unfoldable pub new_leaf : M V ℕ
  unfolding allocate_raw set_page
  new_leaf = allocate_raw >>= λ idx. set_page idx (leaf_page [] 0 0) >> pure idx

  unfoldable pub new_branch : M V ℕ
  unfolding allocate_raw set_page
  new_branch = allocate_raw >>= λ idx. set_page idx (branch_page [] []) >> pure idx

  unfoldable pub free_page_at : ℕ → M V (Unit {0})
  unfolding set_page
  free_page_at idx st =
      (set_page idx (free_page st.free_list_head)
          >> modify (λ st. record st {
            free_list_head = idx;
            free_list_count = succ_size st.free_list_count;
          }))
        st

-- The loop of the two searches in a node, with a bound on its rounds: where `test` holds of the middle
-- entry the lower end goes behind it, and else the upper end goes to it. None: the rounds were used up
-- before the loop ended.
unfoldable pub bisect : (ℕ → Bool) → (rounds lo hi : ℕ) → Option ℕ
bisect test zero lo hi = elim (ltb lo hi) [ true ↦ none | false ↦ some lo ]
bisect test (suc rounds) lo hi = elim (ltb lo hi) [
  | true ↦
      let mid = lo + (hi - lo) / 2 in
      elim (test mid) [ true ↦ bisect test rounds (mid + 1) hi | false ↦ bisect test rounds lo mid ]
  | false ↦ some lo
]

abbrev pub settled : Option ℕ → ℕ
settled none = 0
settled (some i) = i

abbrev pub keys_of {ℓ} : {V : Type ℓ} → List (ℕ × V) → List ℕ
keys_of [] = []
keys_of ((k, v) ∷ rs) = k ∷ keys_of rs

-- The loop of `lower_bound`, with as many rounds as there are keys; none if they are too few.
unfoldable pub lower_search : List ℕ → ℕ → Option ℕ
unfolding bisect
lower_search keys key = bisect (λ mid. ltb (get_or keys mid 0) key) (length keys) 0 (length keys)

unfoldable pub lower_bound : List ℕ → ℕ → ℕ
unfolding lower_search
lower_bound keys key = settled (lower_search keys key)

-- `lower_bound_leaf`
abbrev pub lower_bound_leaf {ℓ} : {V : Type ℓ} → List (ℕ × V) → ℕ → ℕ
lower_bound_leaf rs key = lower_bound (keys_of rs) key

-- The loop of `child_index`, with as many rounds as there are keys; none if they are too few.
unfoldable pub child_search : List ℕ → ℕ → Option ℕ
unfolding bisect
child_search keys key =
    bisect (λ mid. not (ltb key (get_or keys mid 0))) (length keys) 0 (length keys)

unfoldable pub child_index : List ℕ → ℕ → ℕ
unfolding child_search
child_index keys key = settled (child_search keys key)

-- `pos < _count && _records[pos]._key == key`
abbrev pub key_is : ℕ → Option ℕ → Bool
key_is key none = false
key_is key (some k) = k == key

abbrev pub found_at {ℓ} : {V : Type ℓ} → List (ℕ × V) → ℕ → ℕ → Bool
found_at rs pos key = key_is key (get_elem? (keys_of rs) pos)

-- The loops that shift the entries from `pos` on up by one, and the write at `pos`
unfoldable pub insert_at {ℓ} : {A : Type ℓ} → ℕ → A → List A → List A
insert_at zero a xs = a ∷ xs
insert_at (suc pos) a [] = a ∷ []
insert_at (suc pos) a (x ∷ xs) = x ∷ insert_at pos a xs

-- The loops that shift the entries behind `pos` down by one
unfoldable pub remove_at {ℓ} : {A : Type ℓ} → ℕ → List A → List A
remove_at pos [] = []
remove_at zero (x ∷ xs) = xs
remove_at (suc pos) (x ∷ xs) = x ∷ remove_at pos xs
