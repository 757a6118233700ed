-- ===== src/Parse/Octet.antt =====
-- include/xtd/grammars/RFC3986.hpp: which numerals `dec_octet` accepts.
use xtl.Prelude.{
  ℕ, zero, suc, ◌+◌, ◌/◌, ◌%◌, ◌<◌, Bool, true, false, Option, none, some, List, [], ◌∷◌, ◌≡◌, refl,
  ltb, if◌then◌else◌, not, ◌&&◌, ℕ_discrete, arith,
}
use xtl.Parse.{Node, parser, default_whitespace}
use xtl.Parse.Uri.Address.{dec_octet}

abbrev figure : ℕ → ℕ
figure d = 48 + d

-- the decimal numeral of a number below 1000
unfoldable pub decimal : ℕ → List ℕ
decimal n =
    if ltb n 10
    then figure n ∷ []
    else (if ltb n 100
        then figure (n / 10) ∷ figure (n % 10) ∷ []
        else figure (n / 100) ∷ figure (n / 10 % 10) ∷ figure (n % 10) ∷ [])

unfoldable pub accepted : Option Node → Bool
accepted (some n) = true
accepted none = false

abbrev same : Bool → Bool → Bool
same true b = b
same false b = not b

right : ℕ → Bool
unfolding accepted parser decimal
right n = same (ltb n 256) (accepted (parser dec_octet false default_whitespace (decimal n)))

-- Do the numbers below `n` all pass the test?
all_below : (ℕ → Bool) → ℕ → Bool
all_below p zero = true
all_below p (suc n) = p n && all_below p n

all_below-true : (p : ℕ → Bool) (k n : ℕ) → all_below p k ≡ true → n < k → p n ≡ true
unfolding all_below
all_below-true p zero n e h = absurd (omega arith)
all_below-true p (suc k) n e h = elim (ℕ_discrete n k) [
  | yes q ↦ rw q (ground arith)
  | no q ↦ all_below-true p k n (ground arith) (omega arith)
]

below_1000 : all_below right 1000 ≡ true
unfolding all_below right
below_1000 = refl

same-eq : (a b : Bool) → same a b ≡ true → b ≡ a
same-eq true b e = e
same-eq false false e = refl
same-eq false true e = absurd (ground arith)

-- Of the numerals of the numbers below 1000, `dec_octet` accepts those of the numbers below 256.
pub dec_octet_lem :
    (n : ℕ)
    → n < 1000
    → accepted (parser dec_octet false default_whitespace (decimal n)) ≡ ltb n 256
unfolding right
dec_octet_lem n h = same-eq (ltb n 256) _ (all_below-true right 1000 n below_1000 h)
