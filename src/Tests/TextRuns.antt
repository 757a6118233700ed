-- ===== src/Tests/TextRuns.antt =====
-- Runs of the operations on strings.
use xtl.Prelude.{ℕ, Bool, true, some, List, [], ◌∷◌, ◌++◌, codes, ◌==◌, ◌≡◌, ◌↔◌, refl}
use xtl.Text.{ends_with, rtrim, trim, found_in, replace}
use xtl.Text.Trim.{all, blank, first_ok, last_ok, trim_lem}
use xtl.Text.Suffix.{ends_with_lem}
use xtl.Text.Search.{find_first, find_first_of, find_first_of_lem}
use xtl.Text.Remove.{remove, remove-without, without}
use xtl.Text.Split.{split, split_by, flatten-split_by}
use xtl.Text.Pieces.{pieces, kept, split_lem}
use mathlib.Core.List.{reverse, flatten}

abbrev is_blank : ℕ → Bool
is_blank x = x == 32

-- The first character stays, blank or not.
rtrim_blank : rtrim is_blank (codes "  ") ≡ codes " "
unfolding rtrim
rtrim_blank = refl

trim_word : trim is_blank (codes "  ab ") ≡ codes "ab"
unfolding trim
trim_word = refl

replace_both : replace (codes "-_") 32 (codes "a-b_c") ≡ codes "a b c"
unfolding replace
replace_both = refl

trim_lem_example :
    (p : List ℕ) × (q : List ℕ) × (codes " ab " ≡ p ++ (trim is_blank (codes " ab ") ++ q))
    × (all is_blank is_blank p ≡ true)
    × (all is_blank (blank is_blank) q ≡ true)
    × (first_ok is_blank (trim is_blank (codes " ab ")) ≡ true)
    × (last_ok is_blank (reverse (trim is_blank (codes " ab "))) ≡ true)
trim_lem_example = trim_lem is_blank (codes " ab ")

ends_with_lem_example :
    (ends_with (codes "name.txt") (codes ".txt") ≡ true)
    ↔ ((p : List ℕ) × (codes "name.txt" ≡ p ++ codes ".txt"))
ends_with_lem_example = ends_with_lem (codes "name.txt") (codes ".txt")

find_first_of_lem_example : find_first_of (codes ",;") (codes "a;b,c") 2 ≡ some 3
unfolding find_first found_in
find_first_of_lem_example = find_first_of_lem (codes ",;") (codes "a;b,c") 2

split_lem_example :
    split (codes ",;") true (codes "a;;b,c") ≡ some (codes "a" ∷ codes "b" ∷ codes "c" ∷ [])
unfolding pieces kept found_in
split_lem_example = split_lem (codes ",;") true (codes "a;;b,c")

flatten-split_by_example : flatten (split_by is_blank (codes "a b  c")) ≡ codes "a b  c"
flatten-split_by_example = flatten-split_by is_blank (codes "a b  c")

remove-without_example : remove (codes "a ") (codes "a banana") ≡ some (codes "bnn")
unfolding without found_in
remove-without_example = remove-without (codes "a ") (codes "a banana")
