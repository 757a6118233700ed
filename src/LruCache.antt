-- ===== src/LruCache.antt =====
-- include/xtd/lru_cache.hpp: `lru_cache`, a deque of keys with their values, the most recent first.
-- `same` is the keys' `==`, `load` the loader and `size` the parameter `_cache_size`. The reference
-- that `operator[]` returns is read, not written.
pub mod Recency
use xtl.Prelude.{
  ℕ, zero, suc, Bool, true, false, Option, none, some, List, [], ◌∷◌, length, leb, if◌then◌else◌,
}

unfoldable pub pop_back {ℓ} : {A : Type ℓ} → List A → List A
pop_back [] = []
pop_back (x ∷ []) = []
pop_back (x ∷ y ∷ xs) = x ∷ pop_back (y ∷ xs)

module _ {K V : Type 0} (same : K → K → Bool) (load : K → V) (size : ℕ) where
  abbrev pub keep : K × V → Option (V × List (K × V)) → Option (V × List (K × V))
  keep p (some (w, c)) = some (w, p ∷ c)
  keep p none = none

  -- the loop of `operator[]`: the value of the key, and the deque without that item
  unfoldable pub take_out : K → List (K × V) → Option (V × List (K × V))
  take_out key [] = none
  take_out key ((k, v) ∷ c) =
      let rest = take_out key c in if same key k then some (v, c) else keep (k, v) rest

  abbrev pub make_room : List (K × V) → List (K × V)
  make_room c = if leb size (length c) then pop_back c else c

  abbrev pub index_found : K → List (K × V) → Option (V × List (K × V)) → List (K × V) × V
  index_found key c (some (v, c')) = ((key, v) ∷ c', v)
  index_found key c none = ((key, load key) ∷ make_room c, load key)

  -- `operator[]`: the deque afterwards, and the value
  unfoldable pub lookup : K → List (K × V) → List (K × V) × V
  unfolding take_out pop_back
  lookup key c = index_found key c (take_out key c)

  -- the deque after the lookups of some keys, the first of the list first
  unfoldable pub lookups : List K → List (K × V) → List (K × V)
  unfolding lookup
  lookups [] c = c
  lookups (k ∷ ks) c = lookups ks (lookup k c).0
