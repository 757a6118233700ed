-- ===== src/BTree/Access.antt =====
-- include/xtd/btree.hpp: opening a file, the size, `at`, and the proxy that `operator[]` returns.
use xtl.Prelude.{ℕ, Bool, true, false, Option, none, some, ◌==◌, if◌then◌else◌}
use xtl.BTree.{M, pure, ◌>>=◌, modify, read}
use xtl.BTree.Find.{find_leaf, search_leaf, value_at, find_value, contains, insert_or_assign}
use xtl.BTree.Insert.{insert}

-- what `at` comes to: a value, or `std::out_of_range`
pub data Access (V : Type 0) : Type 0 where
  returned : V → Access V
  out_of_range : Access V

module _ {V : Type 0} where
  -- the constructor, given whether the header has the magic number
  unfoldable pub open_file : Bool → M V (Unit {0})
  open_file true = pure tt
  open_file false = modify (λ st. record st {
    root_page = 0;
    first_leaf = 0;
    count = 0;
    height = 0;
    free_list_head = 0;
    free_list_count = 0;
  })

  unfoldable pub size : M V ℕ
  size = read (λ st. st.count)

  -- `empty`
  unfoldable pub is_empty : M V Bool
  unfolding size
  is_empty = size >>= λ n. pure (n == 0)

  unfoldable pub count_of : ℕ → M V ℕ
  unfolding contains
  count_of key = contains key >>= λ b. pure (if b then 1 else 0)

  abbrev pub accessed : Option V → Access V
  accessed none = out_of_range
  accessed (some v) = returned v

  unfoldable pub at : ℕ → M V (Access V)
  unfolding find_leaf search_leaf
  at key =
      find_leaf key
      >>= search_leaf key (pure out_of_range)
          (λ leaf pos l. read (λ st. accessed (value_at l.0 pos)))

  -- the conversion of the proxy to a value, with the default value
  unfoldable pub proxy_read : ℕ → ℕ → V → M V V
  unfolding find_value insert
  proxy_read order key default = find_value key >>= λ o. elim o [
    | none ↦ insert order key default >>= λ done. pure default
    | some v ↦ pure v
  ]

  -- the assignment to the proxy
  unfoldable pub proxy_assign : ℕ → ℕ → V → M V (Unit {0})
  unfolding insert_or_assign
  proxy_assign order key value = insert_or_assign order key value >>= λ done. pure tt
