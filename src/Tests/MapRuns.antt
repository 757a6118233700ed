-- ===== src/Tests/MapRuns.antt =====
-- `hash_map` with one-byte keys, as in the unit test of the map.
use xtl.Prelude.{ℕ, ◌≡◌, refl, true, false, none, some, arith, ◌==◌, if◌then◌else◌}
use xtl.HashMap.{HashMap, empty, insert, exists, remove, index}
use xtl.HashMap.Lookup.{
  lookup, or_new, is_none, or_default, made, has_leaf, insert_lem, remove_lem, index_lem,
  exists_lem,
}
use xtl.HashMap.Cursor.{scan_up, scan_down, begin, back, end, increment, decrement}
use xtl.HashMap.Scan.{digits, Before}
use xtl.HashMap.Slots.{Every}
use xtl.HashMap.Iteration.{Arrives, top_nibble, begin_lem, increment_lem}
use xtl.HashMap.Wrap.{increment_wraps}

program : Unit {0}
unfolding insert exists remove index made has_leaf scan_up scan_down begin back end increment
    decrement lookup top_nibble
program = tt

-- 0x21 and 0x53 have their last nibbles apart from 15, 0xF3 has not
abbrev pair : HashMap ℕ 1
pair = (insert ℕ 1 (insert ℕ 1 (empty ℕ 1) 0x21 7).0 0x53 9).0

abbrev wrapped : HashMap ℕ 1
wrapped = (insert ℕ 1 pair 0xF3 4).0

insert_twice : (insert ℕ 1 pair 0x21 8).1 ≡ false
unfolding program
insert_twice = refl

iterate : (begin ℕ 1 pair).current ≡ some 7
unfolding program
iterate = refl

iterate_on : (increment ℕ 1 pair (begin ℕ 1 pair)).current ≡ some 9
unfolding program
iterate_on = refl

iterate_past : (increment ℕ 1 pair (increment ℕ 1 pair (begin ℕ 1 pair))) ≡ end ℕ 1
unfolding program
iterate_past = refl

iterate_back : decrement ℕ 1 pair (back ℕ 1 pair) ≡ begin ℕ 1 pair
unfolding program
iterate_back = refl

-- The iterator at 0xF3 goes back to 0x53.
iterate_forever :
    (increment ℕ 1 wrapped (record { current = some 4; key = digits 1 0xF3 })).current ≡ some 9
unfolding program
iterate_forever = refl

insert_lem_example :
    ((insert ℕ 1 pair 0x21 8).1 ≡ is_none (lookup ℕ 1 pair 0x21))
    × (lookup ℕ 1 (insert ℕ 1 pair 0x21 8).0 0x53
        ≡ (if 0x21 == 0x53 then or_new (lookup ℕ 1 pair 0x21) 8 else lookup ℕ 1 pair 0x53))
insert_lem_example = insert_lem ℕ 1 pair 0x21 0x53 8 (omega arith) (omega arith)

remove_lem_example :
    ((remove ℕ 1 pair 0x21).1 ≡ exists ℕ 1 pair 0x21)
    × (lookup ℕ 1 (remove ℕ 1 pair 0x21).0 0x21
        ≡ (if 0x21 == 0x21 then none else lookup ℕ 1 pair 0x21))
remove_lem_example = remove_lem ℕ 1 pair 0x21 0x21 (omega arith) (omega arith)

-- The bucket of 0x31 is there, and its value is not: `new value_type`, here 77, is what is returned.
index_lem_example :
    ((index ℕ 0 77 1 pair 0x31).1 ≡ or_default (lookup ℕ 1 pair 0x31) 77)
    × (lookup ℕ 1 (index ℕ 0 77 1 pair 0x31).0 0x21
        ≡ (if 0x31 == 0x21 then or_new (lookup ℕ 1 pair 0x31) 77 else lookup ℕ 1 pair 0x21))
unfolding program
index_lem_example = index_lem ℕ 0 77 1 pair 0x31 0x21 (omega arith) (omega arith)

-- The bucket of 0x32 is not there, and `value_type()` is what is returned.
index_new_bucket : (index ℕ 0 77 1 pair 0x32).1 ≡ 0
unfolding program
index_new_bucket = refl

exists_lem_example :
    (exists ℕ 1 (insert ℕ 1 pair 0x31 5).0 0x53
      ≡ (if 0x31 == 0x53 then true else exists ℕ 1 pair 0x53))
    × (exists ℕ 1 (remove ℕ 1 pair 0x31).0 0x53
        ≡ (if 0x31 == 0x53 then false else exists ℕ 1 pair 0x53))
exists_lem_example = exists_lem ℕ 1 pair 0x31 0x53 5 (omega arith) (omega arith)

begin_lem_example : Arrives 1 (lookup ℕ 1 pair) Every (begin ℕ 1 pair)
begin_lem_example = begin_lem ℕ 1 pair

increment_lem_example :
    Arrives 1
      (lookup ℕ 1 pair)
      (Before 1 0x21)
      (increment ℕ 1 pair (record { current = some 7; key = digits 1 0x21 }))
unfolding program
increment_lem_example = increment_lem ℕ 1 pair 0x21 7 (omega arith) (omega arith) refl

increment_wraps_example :
    (w : ℕ) × (y : ℕ) × (increment ℕ 1 wrapped (record { current = some 4; key = digits 1 0xF3 })
      ≡ record { current = some w; key = digits 1 y })
    × (lookup ℕ 1 wrapped y ≡ some w)
    × ¬ Before 1 0xF3 y
unfolding program
increment_wraps_example = increment_wraps ℕ 1 wrapped 0xF3 4 (omega arith) refl refl
