-- ===== src/Parse.antt =====
-- include/xtd/parse.hpp: the rules of a grammar, the tree of a match, and the matcher. A rule is a
-- C++ type there, a value here; a pack of rules is `Rules`. A grammar that refers to itself is not
-- such a value. Text is a list of character codes, and an iterator is the text from it to the end.
pub mod Chars
pub mod Match
pub mod Spelling
pub mod Peg
pub mod Uri
pub mod Octet
pub mod ByteRange
pub mod Abnf
pub mod LanguageTag
pub mod LanguageRange
pub mod Http
pub mod HttpSemantics
pub mod HttpConditional
pub mod HttpRange
pub mod Mail
pub mod News
use xtl.Prelude.{
  ℕ, zero, suc, ◌-◌, Bool, true, false, Option, none, some, List, [], ◌∷◌, String, length, take,
  drop, ◌==◌, ◌&&◌, if◌then◌else◌, not,
}
use xtl.Parse.Chars.{Context, skip_ws, match_string, match_char, match_range}

mutual
  -- `declared name r` is a struct that derives from `rule<name, r>`, `plain name` one that derives
  -- from `rule<name>`. The matcher of a regular expression, which the standard library makes from
  -- the pattern, is given by the length of its match at the start of a text.
  pub data Rule : Type 0 where
    declared : String → Rule → Rule
    plain : String → Rule
    not_ : Rules → Rule
    and_ : Rules → Rule
    or_ : Rules → Rule
    one_or_more_ : Rule → Rule
    zero_or_more_ : Rule → Rule
    zero_or_one_ : Rule → Rule
    string : List ℕ → Rule
    character : ℕ → Rule
    characters : ℕ → ℕ → Rule
    regex : (List ℕ → Option ℕ) → Rule

  pub data Rules : Type 0 where
    nil : Rules
    cons : Rule → Rules → Rules

-- a pack of rules, as its elements
infixr 45 ◌▸◌
abbrev pub ◌▸◌ : Rule → Rules → Rules
r ▸ rs = cons r rs

mutual
  -- A terminal is a leaf with its `_matched`; every other node has the span that it matched.
  pub data Node : Type 0 where
    leaf : Rule → List ℕ → Node
    node : Rule → List ℕ → Nodes → Node

  pub data Nodes : Type 0 where
    none_left : Nodes
    add : Node → Nodes → Nodes

abbrev pub get_text : Node → List ℕ
get_text (leaf r w) = w
get_text (node r w ns) = w

-- What `parse` returns, and `begin` afterwards
abbrev pub Result : Type 0
Result = Option Node × List ℕ

-- the text from one iterator to a later one
unfoldable pub span : List ℕ → List ℕ → List ℕ
span from to = take (length from - length to) from

abbrev pub terminal : Rule → (backup from : List ℕ) → Option (List ℕ) → Result
terminal r backup from (some rest) = (some (leaf r (span from rest)), rest)
terminal r backup from none = (none, backup)

-- `if (child)`, and what follows in each case
abbrev pub after {ℓ κ} :
    {A : Type ℓ} {B : Type κ} → Option A × List ℕ → (A → List ℕ → B) → (List ℕ → B) → B
after (some a, t) found missed = found a t
after (none, t) found missed = missed t

-- `while (begin != end)` of the two repetitions, with a bound on its rounds
unfoldable pub repeat : (List ℕ → Result) → ℕ → List ℕ → Nodes × List ℕ
repeat p rounds [] = (none_left, [])
repeat p zero (x ∷ s) = (none_left, x ∷ s)
repeat p (suc rounds) (x ∷ s) =
    after (p (x ∷ s))
      (λ n t. elim (length t == length (x ∷ s)) [
        | true ↦ (none_left, t)
        | false ↦ let (ns, u) = repeat p rounds t in (add n ns, u)
      ])
      (λ t. (none_left, x ∷ s))

-- the node of a rule with its children and span
abbrev pub spanning : Rule → List ℕ → Nodes × List ℕ → Result
spanning r s (ns, t) = (some (node r (span s t) ns), t)

abbrev pub search : (List ℕ → Option ℕ) → List ℕ → Option (List ℕ)
search f [] = none
search f (x ∷ s) = elim (f (x ∷ s)) [ some n ↦ some (drop n (x ∷ s)) | none ↦ none ]

abbrev pub add_first : Node → Nodes × List ℕ → Nodes × List ℕ
add_first n (ns, t) = (add n ns, t)

-- the `parse` of the repetitions, for a rule and the matcher of its child
abbrev pub one_or_more_parse : Rule → (List ℕ → Result) → List ℕ → Result
one_or_more_parse r p s =
    after (p s) (λ n t. spanning r s (add_first n (repeat p (length t) t))) (λ t. (none, s))

abbrev pub zero_or_more_parse : Rule → (List ℕ → Result) → List ℕ → Result
zero_or_more_parse r p s = spanning r s (repeat p (length s) s)

abbrev pub zero_or_one_parse : Rule → (List ℕ → Result) → List ℕ → Result
zero_or_one_parse r p s =
    after (p s) (λ n t. spanning r s (add n none_left, t)) (λ t. spanning r s (none_left, s))

unfoldable mutual
  unfolding skip_ws match_string match_char match_range repeat span

  pub parse : Context → Rule → List ℕ → Result
  parse c (declared name r) s =
      after (parse c r s) (λ n t. spanning (declared name r) s (add n none_left, t))
        (λ t. (none, s))
  parse c (plain name) s = (some (node (plain name) [] none_left), s)
  parse c (not_ rs) s = elim (try_seq c rs (skip_ws c s)) [
    | true ↦ (none, s)
    | false ↦ (some (node (not_ rs) [] none_left), s)
  ]
  parse c (and_ rs) s =
      after (try_all c rs s) (λ ns t. spanning (and_ rs) s (ns, t)) (λ t. (none, s))
  parse c (or_ rs) s =
      after (try_any c rs s) (λ n t. spanning (or_ rs) s (add n none_left, t)) (λ t. (none, s))
  parse c (one_or_more_ r) s = one_or_more_parse (one_or_more_ r) (parse c r) s
  parse c (zero_or_more_ r) s = zero_or_more_parse (zero_or_more_ r) (parse c r) s
  parse c (zero_or_one_ r) s = zero_or_one_parse (zero_or_one_ r) (parse c r) s
  parse c (string w) s =
      let from = skip_ws c s in terminal (string w) s from (match_string c w from)
  parse c (character ch) s =
      let from = skip_ws c s in terminal (character ch) s from (match_char c ch from)
  parse c (characters a b) s =
      let from = skip_ws c s in terminal (characters a b) s from (match_range c a b from)
  parse c (regex f) s = let from = skip_ws c s in terminal (regex f) s from (search f from)

  -- the sequence under `not_`, whose iterator is dropped
  pub try_seq : Context → Rules → List ℕ → Bool
  try_seq c nil s = true
  try_seq c (cons r rs) s = after (parse c r s) (λ n t. try_seq c rs t) (λ t. false)

  pub try_all : Context → Rules → List ℕ → Option Nodes × List ℕ
  try_all c nil s = (some none_left, s)
  try_all c (cons r rs) s =
      after (parse c r s)
        (λ n t. after (try_all c rs t) (λ ns u. (some (add n ns), u)) (λ u. (none, u)))
        (λ t. (none, t))

  pub try_any : Context → Rules → List ℕ → Result
  try_any c nil s = (none, s)
  try_any c (cons r rs) s = after (parse c r s) (λ n t. (some n, t)) (λ t. try_any c rs s)

abbrev pub at_end : Node → List ℕ → Option Node
at_end n [] = some n
at_end n (x ∷ t) = none

-- the default of the parameter `_whitespace_t`: blank, tab, newline and carriage return
abbrev pub default_whitespace : List ℕ
default_whitespace = 32 ∷ 9 ∷ 10 ∷ 13 ∷ []

-- the context that `parser` makes
abbrev pub skipping : Bool → List ℕ → Context
skipping ignore_case whitespace = record {
  ignore_whitespace = true;
  ignore_case = ignore_case;
  whitespace_chars = whitespace;
}

-- `parser<r, ignore_case, whitespace>::parse`: the tree, if the rule matches the whole text
unfoldable pub parser : Rule → Bool → List ℕ → List ℕ → Option Node
unfolding parse
parser r ignore_case whitespace s =
    after (parse (skipping ignore_case whitespace) r s) at_end (λ t. none)
