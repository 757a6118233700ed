-- ===== src/Tests/CacheRuns.antt =====
-- Runs of `lru_cache` with two places, numbers as keys and their squares as values.
use xtl.Prelude.{ℕ, ◌*◌, Bool, true, [], ◌∷◌, ◌==◌, ◌≡◌, refl, arith}
use xtl.LruCache.{lookup, lookups}
use xtl.LruCache.Recency.{erase, touches, lookup_lem, lookups_lem}

abbrev square : ℕ → ℕ
square k = k * k

abbrev same_number : ℕ → ℕ → Bool
same_number a b = a == b

same_number_sound : (a b : ℕ) → same_number a b ≡ true → a ≡ b
same_number_sound a b e = ground arith

last_two : lookups same_number square 2 (3 ∷ 4 ∷ 3 ∷ 5 ∷ []) [] ≡ ((5, 25) ∷ (3, 9) ∷ [])
unfolding lookups
last_two = refl

lookup_lem_example :
    lookup same_number square 2 6 ((4, 16) ∷ (5, 25) ∷ []) ≡ ((6, 36) ∷ (4, 16) ∷ [], 36)
unfolding erase
lookup_lem_example = lookup_lem same_number square 1 same_number_sound 6 (4 ∷ 5 ∷ 3 ∷ [])

lookups_lem_example : lookups same_number square 2 (3 ∷ 4 ∷ 3 ∷ 5 ∷ []) [] ≡ ((5, 25) ∷ (3, 9) ∷ [])
unfolding touches
lookups_lem_example = lookups_lem same_number square 1 same_number_sound (3 ∷ 4 ∷ 3 ∷ 5 ∷ [])
