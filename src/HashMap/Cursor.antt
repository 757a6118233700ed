-- ===== src/HashMap/Cursor.antt =====
-- `hash_map_iterator` and the four scans behind it. `pKey` points into the iterator's vector of
-- `int8_t` nibbles, first the lowest nibble of the key; each level reads and writes the first
-- entry and hands the rest to its child. An entry is kept as one more than its value, so that
-- -1 is 0 and 16 is 17.
use xtl.Prelude.{
  ℕ, zero, suc, ◌+◌, ◌-◌, Bool, Option, none, some, List, [], ◌∷◌, replicate, ◌==◌, ◌||◌, leb,
  if◌then◌else◌,
}
use xtl.HashMap.{HashMap}

-- What a scan returns: the item, and the nibbles that it has written.
abbrev pub Found : Type 0 → Type 0
Found V = Option V × List ℕ

-- Was something found in slot `i`? If not, the scan goes on with the nibbles written so far.
abbrev pub stop_or : {V : Type 0} → ℕ → Found V → (List ℕ → Found V) → Found V
stop_or i (some v, rest) go = (some v, (i + 1) ∷ rest)
stop_or i (none, rest) go = go rest

-- `for (; *pKey < nibble_count; ++*pKey)`, with the rounds left; `last` is stored at the end.
unfoldable pub scan_up : {V : Type 0} → (ℕ → List ℕ → Found V) → ℕ → ℕ → ℕ → List ℕ → Found V
scan_up visit last zero i rest = (none, last ∷ rest)
scan_up visit last (suc rounds) i rest =
    stop_or i (visit i rest) (λ rest'. scan_up visit last rounds (i + 1) rest')

-- `for (; *pKey >= 0; --*pKey)`, over the slots below `n`
unfoldable pub scan_down : {V : Type 0} → (ℕ → List ℕ → Found V) → ℕ → List ℕ → Found V
scan_down visit zero rest = (none, 0 ∷ rest)
scan_down visit (suc i) rest = stop_or i (visit i rest) (λ rest'. scan_down visit i rest')

-- `(pChildBucket = _Buckets[i].load()) && (pRet = pChildBucket->f(1 + pKey))`
abbrev pub child_visit :
    {V C : Type 0} → (C → List ℕ → Found V) → (ℕ → Option C) → ℕ → List ℕ → Found V
child_visit f m i rest = elim (m i) [ some child ↦ f child rest | none ↦ (none, rest) ]

abbrev pub leaf_visit : {V : Type 0} → (ℕ → Option V) → ℕ → List ℕ → Found V
leaf_visit m i rest = (m i, rest)

-- the first entry and the others; a scan is never handed an empty vector
abbrev pub first : List ℕ → ℕ
first [] = 0
first (i ∷ rest) = i

abbrev pub others : List ℕ → List ℕ
others [] = []
others (i ∷ rest) = rest

abbrev pub begin_leaf : {V : Type 0} → (ℕ → Option V) → List ℕ → Found V
begin_leaf m key = scan_up (leaf_visit m) 17 16 0 (others key)

-- `_begin`
unfoldable pub begin_scan : (V : Type 0) (n : ℕ) → HashMap V n → List ℕ → Found V
begin_scan V zero m key = begin_leaf m key
begin_scan V (suc n) m key = scan_up (child_visit (begin_scan V n) m) 17 16 0 (others key)

abbrev pub back_leaf : {V : Type 0} → (ℕ → Option V) → List ℕ → Found V
back_leaf m key = scan_down (leaf_visit m) 16 (others key)

-- `_back`
unfoldable pub back_scan : (V : Type 0) (n : ℕ) → HashMap V n → List ℕ → Found V
back_scan V zero m key = back_leaf m key
back_scan V (suc n) m key = scan_down (child_visit (back_scan V n) m) 16 (others key)

-- `*pKey < 0 || *pKey >= nibble_count`
abbrev pub out_of_range : ℕ → Bool
out_of_range i = i == 0 || leb 17 i

abbrev pub next_start : ℕ → ℕ
next_start i = if out_of_range i then 0 else i - 1

abbrev pub prev_start : ℕ → ℕ
prev_start i = if out_of_range i then 15 else i - 1

abbrev pub next_leaf : {V : Type 0} → (ℕ → Option V) → List ℕ → Found V
next_leaf m key = let i = next_start (first key) in scan_up (leaf_visit m) 0 (16 - i) i (others key)

-- `_next`
unfoldable pub next_scan : (V : Type 0) (n : ℕ) → HashMap V n → List ℕ → Found V
next_scan V zero m key = next_leaf m key
next_scan V (suc n) m key =
    let i = next_start (first key) in
    scan_up (child_visit (next_scan V n) m) 0 (16 - i) i (others key)

abbrev pub prev_leaf : {V : Type 0} → (ℕ → Option V) → List ℕ → Found V
prev_leaf m key = scan_down (leaf_visit m) (prev_start (first key) + 1) (others key)

-- `_prev`
unfoldable pub prev_scan : (V : Type 0) (n : ℕ) → HashMap V n → List ℕ → Found V
prev_scan V zero m key = prev_leaf m key
prev_scan V (suc n) m key =
    scan_down (child_visit (prev_scan V n) m) (prev_start (first key) + 1) (others key)

-- `hash_map_iterator` over a map: `_Current` and `_Key`
pub record Iterator (V : Type 0) : Type 0 where
  pub current : Option V
  pub key : List ℕ

-- `std::vector<int8_t>(key_nibbles, -1)`
abbrev pub no_key : ℕ → List ℕ
no_key n = replicate (suc n) 0

unfoldable pub at_found : {V : Type 0} → Found V → Iterator V
at_found (v, key) = record { current = v; key = key }

unfoldable pub begin : (V : Type 0) (n : ℕ) → HashMap V n → Iterator V
unfolding begin_scan at_found
begin V n m = at_found (begin_scan V n m (no_key n))

unfoldable pub back : (V : Type 0) (n : ℕ) → HashMap V n → Iterator V
unfolding back_scan at_found
back V n m = at_found (back_scan V n m (no_key n))

unfoldable pub end : (V : Type 0) (n : ℕ) → Iterator V
end V n = record { current = none; key = no_key n }

-- `_Key.back()` changed by `f`
abbrev pub on_last : (ℕ → ℕ) → List ℕ → List ℕ
on_last f [] = []
on_last f (i ∷ []) = f i ∷ []
on_last f (i ∷ j ∷ rest) = i ∷ on_last f (j ∷ rest)

-- `operator++`
unfoldable pub increment : (V : Type 0) (n : ℕ) → HashMap V n → Iterator V → Iterator V
unfolding next_scan at_found
increment V n m it = at_found (next_scan V n m (on_last (λ i. i + 1) it.key))

-- `operator--`; below -1 only an iterator that has passed its end goes, and `_prev` reads that as -1
unfoldable pub decrement : (V : Type 0) (n : ℕ) → HashMap V n → Iterator V → Iterator V
unfolding prev_scan at_found
decrement V n m it = at_found (prev_scan V n m (on_last (λ i. i - 1) it.key))
