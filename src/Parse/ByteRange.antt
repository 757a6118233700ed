-- ===== src/Parse/ByteRange.antt =====
-- include/xtd/grammars/RFC7233.hpp: which texts `byte_range_spec` accepts.
use xtl.Prelude.{
  ℕ, Bool, true, false, Option, none, some, List, [], ◌∷◌, leb, ◌==◌, ◌&&◌, if◌then◌else◌, ◌≡◌,
  refl, ap, ◌∙◌, inl, inr, Bool-cases, arith, String,
}
use xtl.Parse.{
  Result, parse, parser, skipping, character, one_or_more_, zero_or_one_, declared, nil, ◌▸◌, after,
  at_end,
}
use xtl.Parse.Abnf.{digit}
use xtl.Parse.Chars.{Context, skip_ws, match_char, match_range}
use xtl.Parse.HttpRange.{byte_range_spec}
use xtl.Parse.Octet.{accepted}
use xtl.Parse.Peg.{Peg, Seq, Star, outcome}
use xtl.Parse.Peg.Complete.{Peg-iff}

abbrev pub is_figure : ℕ → Bool
is_figure ch = leb 48 ch && leb ch 57

-- the text behind its leading figures
unfoldable pub skip_figures : List ℕ → List ℕ
skip_figures [] = []
skip_figures (x ∷ s) = let rest = skip_figures s in if is_figure x then rest else x ∷ s

-- what is left behind one figure, behind a numeral, and behind a hyphen with an optional numeral
abbrev figure_rest : List ℕ → Option (List ℕ)
figure_rest [] = none
figure_rest (x ∷ s) = if is_figure x then some s else none

unfoldable pub numeral_rest : List ℕ → Option (List ℕ)
unfolding skip_figures
numeral_rest [] = none
numeral_rest (x ∷ s) = if is_figure x then some (skip_figures s) else none

abbrev pub hyphen_rest : List ℕ → Option (List ℕ)
hyphen_rest [] = none
hyphen_rest (x ∷ s) = if x == 45 then some s else none

abbrev pub at_the_end : Option (List ℕ) → Bool
at_the_end none = false
at_the_end (some []) = true
at_the_end (some (x ∷ s)) = false

-- Is the text a numeral, a hyphen, and a numeral or nothing?
abbrev pub last_part : Option (List ℕ) → Option (List ℕ)
last_part none = none
last_part (some s) = some (skip_figures s)

abbrev pub first_part : Option (List ℕ) → Option (List ℕ)
first_part none = none
first_part (some s) = last_part (hyphen_rest s)

abbrev pub is_byte_range : List ℕ → Bool
is_byte_range s = at_the_end (first_part (numeral_rest s))

abbrev bare : Context
bare = skipping false []

digit-rest : (s : List ℕ) → match_range bare 48 57 (skip_ws bare s) ≡ figure_rest s
unfolding skip_ws match_range
digit-rest [] = refl
digit-rest (x ∷ s) = ground arith

hyphen-rest : (s : List ℕ) → match_char bare 45 (skip_ws bare s) ≡ hyphen_rest s
unfolding skip_ws match_char
hyphen-rest [] = refl
hyphen-rest (x ∷ s) = refl

digit-Peg : (s : List ℕ) → Peg bare digit s (figure_rest s)
digit-Peg s =
    let p : Peg bare digit s (match_range bare 48 57 (skip_ws bare s)) = Peg.characters in
    rw (digit-rest s) at p

hyphen-Peg : (s : List ℕ) → Peg bare (character 45) s (hyphen_rest s)
hyphen-Peg s =
    let p : Peg bare (character 45) s (match_char bare 45 (skip_ws bare s)) = Peg.character in
    rw (hyphen-rest s) at p

digits-Star : (s : List ℕ) → Star bare digit s (skip_figures s)
unfolding skip_figures
digits-Star [] = Star.fails (digit-Peg [])
digits-Star (x ∷ s) = elim (Bool-cases (is_figure x)) [
  | inl e ↦ rw e (Star.again (rw e at (digit-Peg (x ∷ s))) (λ q. omega arith) (digits-Star s))
  | inr e ↦ rw e (Star.fails (rw e at (digit-Peg (x ∷ s))))
]

numeral-Peg : (s : List ℕ) → Peg bare (one_or_more_ digit) s (numeral_rest s)
unfolding numeral_rest
numeral-Peg [] = Peg.more_miss (digit-Peg [])
numeral-Peg (x ∷ s) = elim (Bool-cases (is_figure x)) [
  | inl e ↦ rw e (Peg.more_hit (rw e at (digit-Peg (x ∷ s))) (digits-Star s))
  | inr e ↦ rw e (Peg.more_miss (rw e at (digit-Peg (x ∷ s))))
]

-- the optional numeral at the end
optional-Peg :
    (name : String) (s : List ℕ)
    → Peg bare (zero_or_one_ (declared name (one_or_more_ digit))) s (some (skip_figures s))
unfolding numeral_rest skip_figures
optional-Peg name [] = Peg.one_miss (Peg.declared (numeral-Peg []))
optional-Peg name (x ∷ s) = elim (Bool-cases (is_figure x)) [
  | inl e ↦ rw e (Peg.one_hit (Peg.declared (rw e at (numeral-Peg (x ∷ s)))))
  | inr e ↦ rw e (Peg.one_miss (Peg.declared (rw e at (numeral-Peg (x ∷ s)))))
]

-- a hyphen and what follows it
rest-Peg :
    (name : String) (s : List ℕ) (o : Option (List ℕ))
    → Peg bare (character 45) s o
    → Seq bare
        (character 45 ▸ zero_or_one_ (declared name (one_or_more_ digit)) ▸ nil)
        s
        (last_part o)
rest-Peg name s none p = Seq.stop p
rest-Peg name s (some t) p = Seq.next p (Seq.next (optional-Peg name t) Seq.done)

spec-Peg :
    (first last : String) (s : List ℕ) (o : Option (List ℕ))
    → Peg bare (one_or_more_ digit) s o
    → Seq bare
        (declared first (one_or_more_ digit)
          ▸ character 45
          ▸ zero_or_one_ (declared last (one_or_more_ digit))
          ▸ nil)
        s
        (first_part o)
spec-Peg first last s none p = Seq.stop (Peg.declared p)
spec-Peg first last s (some t) p =
    Seq.next (Peg.declared p) (rest-Peg last t (hyphen_rest t) (hyphen-Peg t))

accepted-outcome : (x : Result) → accepted (after x at_end (λ t. none)) ≡ at_the_end (outcome x)
unfolding accepted
accepted-outcome (none, t) = refl
accepted-outcome (some n, []) = refl
accepted-outcome (some n, x ∷ t) = refl

-- With no whitespace to skip, `byte_range_spec` accepts a text if and only if it is a numeral, a hyphen,
-- and a numeral or nothing.
pub byte_range_spec_lem :
    (s : List ℕ) → accepted (parser byte_range_spec false [] s) ≡ is_byte_range s
unfolding parser
byte_range_spec_lem s =
    accepted-outcome (parse bare byte_range_spec s)
    ∙ ap at_the_end (
        (Peg-iff bare byte_range_spec s (first_part (numeral_rest s))).0
          (Peg.declared (Peg.and_ (spec-Peg _ _ s (numeral_rest s) (numeral-Peg s)))))
