-- ===== src/Parse/Peg.antt =====
-- The meaning of the rules as parsing expressions: which texts a rule fails on, and what a match
-- leaves. The relation knows no iterators, trees or bounds; `zero_or_more_` ends where its rule fails
-- or leaves the text as it is.
pub mod Sound
pub mod Complete
use xtl.Prelude.{
  ℕ, zero, suc, ◌≤◌, Bool, true, false, Option, none, some, List, [], ◌∷◌, ◌++◌, length, ◌==◌, ◌≡◌,
  ◌≢◌, refl, sym, ap, ◌∙◌, ◌⊎◌, inl, inr, Bool-cases, arith, length-append, String,
}
use xtl.Parse.{
  Rule, Rules, Node, Nodes, Result, terminal, repeat, search, parse, try_seq, try_all, try_any,
  after, spanning,
}
use xtl.Parse.Chars.{Context, skip_ws, match_string, match_char, match_range}
use xtl.Parse.Match.{Fit, Fits}
use xtl.Parse.Spelling.{after-Fits, length-zero, parse_lem}

mutual
  pub data Peg (c : Context) : Rule → List ℕ → Option (List ℕ) → Type 0 where
    declared :
        {name : String} {r : Rule} {s : List ℕ} {o : Option (List ℕ)}
        → Peg c r s o
        → Peg c (Rule.declared name r) s o
    plain : {name : String} {s : List ℕ} → Peg c (Rule.plain name) s (some s)
    not_hit :
        {rs : Rules} {s t : List ℕ} → Seq c rs (skip_ws c s) (some t) → Peg c (Rule.not_ rs) s none
    not_miss :
        {rs : Rules} {s : List ℕ} → Seq c rs (skip_ws c s) none → Peg c (Rule.not_ rs) s (some s)
    and_ : {rs : Rules} {s : List ℕ} {o : Option (List ℕ)} → Seq c rs s o → Peg c (Rule.and_ rs) s o
    or_ : {rs : Rules} {s : List ℕ} {o : Option (List ℕ)} → Any c rs s o → Peg c (Rule.or_ rs) s o
    more_hit :
        {r : Rule} {s t u : List ℕ}
        → Peg c r s (some t)
        → Star c r t u
        → Peg c (Rule.one_or_more_ r) s (some u)
    more_miss : {r : Rule} {s : List ℕ} → Peg c r s none → Peg c (Rule.one_or_more_ r) s none
    star : {r : Rule} {s t : List ℕ} → Star c r s t → Peg c (Rule.zero_or_more_ r) s (some t)
    one_hit :
        {r : Rule} {s t : List ℕ} → Peg c r s (some t) → Peg c (Rule.zero_or_one_ r) s (some t)
    one_miss : {r : Rule} {s : List ℕ} → Peg c r s none → Peg c (Rule.zero_or_one_ r) s (some s)
    string : {w s : List ℕ} → Peg c (Rule.string w) s (match_string c w (skip_ws c s))
    character : {ch : ℕ} {s : List ℕ} → Peg c (Rule.character ch) s (match_char c ch (skip_ws c s))
    characters :
        {a b : ℕ} {s : List ℕ} → Peg c (Rule.characters a b) s (match_range c a b (skip_ws c s))
    regex : {f : List ℕ → Option ℕ} {s : List ℕ} → Peg c (Rule.regex f) s (search f (skip_ws c s))

  pub data Seq (c : Context) : Rules → List ℕ → Option (List ℕ) → Type 0 where
    done : {s : List ℕ} → Seq c Rules.nil s (some s)
    stop : {r : Rule} {rs : Rules} {s : List ℕ} → Peg c r s none → Seq c (Rules.cons r rs) s none
    next :
        {r : Rule} {rs : Rules} {s t : List ℕ} {o : Option (List ℕ)}
        → Peg c r s (some t)
        → Seq c rs t o
        → Seq c (Rules.cons r rs) s o

  pub data Any (c : Context) : Rules → List ℕ → Option (List ℕ) → Type 0 where
    no_more : {s : List ℕ} → Any c Rules.nil s none
    take_it :
        {r : Rule} {rs : Rules} {s t : List ℕ}
        → Peg c r s (some t)
        → Any c (Rules.cons r rs) s (some t)
    or_else :
        {r : Rule} {rs : Rules} {s : List ℕ} {o : Option (List ℕ)}
        → Peg c r s none
        → Any c rs s o
        → Any c (Rules.cons r rs) s o

  pub data Star (c : Context) : Rule → List ℕ → List ℕ → Type 0 where
    fails : {r : Rule} {s : List ℕ} → Peg c r s none → Star c r s s
    still : {r : Rule} {s : List ℕ} → Peg c r s (some s) → Star c r s s
    again :
        {r : Rule} {s t u : List ℕ}
        → Peg c r s (some t)
        → length t ≢ length s
        → Star c r t u
        → Star c r s u

-- what a result leaves
abbrev pub outcome {ℓ} : {A : Type ℓ} → Option A × List ℕ → Option (List ℕ)
outcome (some a, t) = some t
outcome (none, t) = none
