-- ===== src/Parse/Spelling.antt =====
-- Every rule of include/xtd/parse.hpp: a failed match consumes nothing, and a matched tree spells the
-- text that was consumed.
use xtl.Prelude.{
  ℕ, zero, suc, Bool, true, false, Option, none, some, List, [], ◌∷◌, length, ◌==◌, ◌≡◌, refl, sym,
  ap, ◌∙◌, inl, inr, Bool-cases, arith, length-append,
}
use xtl.Parse.{
  Rule, Rules, Node, Nodes, Result, repeat, spanning, parse, try_seq, try_all, try_any, after,
  parser, at_end, get_text, skipping,
}
use xtl.Parse.Chars.{Context, skip_ws}
use xtl.Parse.Match.{
  Took, Took-here, Took-then, spell, spell_all, strip, Fit, Fits, terminal-Fits, spanning-Fits,
  Fit-Took, match_string-Leaves, match_char-Leaves, match_range-Leaves, search-Leaves,
}
use mathlib.Core.List.{append-nil}

pub length-zero : (p : List ℕ) → length p ≡ 0 → p ≡ []
length-zero [] e = refl
length-zero (x ∷ p) e = absurd (omega arith)

abbrev TookAll : Context → List ℕ → Option Nodes × List ℕ → Type 0
TookAll c s (some ns, t) = Took c s t (spell_all ns)
TookAll c s (none, t) = Unit

module _ (c : Context) where
  pub after-Fits {ℓ κ} :
      {B : Type ℓ} (P : B → Type κ) {s : List ℕ} {f : Node → List ℕ → B} {g : List ℕ → B}
      (q : Result)
      → Fits c s q
      → ((n : Node) (t : List ℕ) → Fit c s n t → P (f n t))
      → ((t : List ℕ) → t ≡ s → P (g t))
      → P (after q f g)
  after-Fits P (some n, t) h a b = a n t h
  after-Fits P (none, t) h a b = b t h

  Fit-add :
      {s t u : List ℕ} {n : Node} (ns : Nodes)
      → Fit c s n t
      → Took c t u (spell_all ns)
      → Took c s u (spell_all (Nodes.add n ns))
  unfolding spell
  Fit-add ns f a =
      Took-then c (record { consumed = f.consumed; split = f.split; spelled = f.spelled }) a

  -- A match that leaves as much as there was has consumed nothing.
  Fit-still : {s t : List ℕ} {n : Node} → Fit c s n t → length t ≡ length s → Took c s t []
  Fit-still {s} {t} f e =
      let h : length f.consumed ≡ 0 =
        omega (arith, length-append f.consumed t, ap length f.split) in
      record {
        consumed = f.consumed;
        split = f.split;
        spelled = ap (strip c) (length-zero f.consumed h);
      }

  Fit-empty : (r : Rule) (s : List ℕ) → Fit c s (Node.node r [] Nodes.none_left) s
  unfolding spell
  Fit-empty r s = record { consumed = []; split = refl; spelled = refl; text = refl }

  repeat-Took :
      (p : List ℕ → Result)
      → ((s : List ℕ) → Fits c s (p s))
      → (rounds : ℕ) (s : List ℕ) → Took c s (repeat p rounds s).1 (spell_all (repeat p rounds s).0)
  unfolding repeat spell
  repeat-Took p h rounds [] = Took-here c []
  repeat-Took p h zero (x ∷ s) = Took-here c (x ∷ s)
  repeat-Took p h (suc rounds) (x ∷ s) =
      after-Fits (λ (q : Nodes × List ℕ). Took c (x ∷ s) q.1 (spell_all q.0)) (p (x ∷ s))
        (h (x ∷ s))
        (λ n t f. elim (Bool-cases (length t == length (x ∷ s))) [
          | inl e ↦ rw e (Fit-still f (ground arith))
          | inr e ↦ rw e (Fit-add (repeat p rounds t).0 f (repeat-Took p h rounds t))
        ])
        (λ t e. Took-here c (x ∷ s))

  Fits-after_not :
      (r : Rule) (s : List ℕ) (b : Bool)
      → Fits c s (elim b [ true ↦ (none, s) | false ↦ (some (Node.node r [] Nodes.none_left), s) ])
  Fits-after_not r s true = refl
  Fits-after_not r s false = Fit-empty r s

  Fits-after_all :
      (r : Rule) (s : List ℕ) (q : Option Nodes × List ℕ)
      → TookAll c s q
      → Fits c s (after q (λ ns t. spanning r s (ns, t)) (λ t. (none, s)))
  Fits-after_all r s (some ns, t) h = spanning-Fits c r s ns t h
  Fits-after_all r s (none, t) h = refl

  TookAll-after :
      {s t : List ℕ} {n : Node}
      → Fit c s n t
      → (q : Option Nodes × List ℕ) → TookAll c t q
      → TookAll c s (after q (λ ns u. (some (Nodes.add n ns), u)) (λ u. (none, u)))
  TookAll-after f (some ns, u) h = Fit-add ns f h
  TookAll-after f (none, u) h = tt

mutual
  unfolding parse spell

  parse-Fits : (c : Context) (r : Rule) (s : List ℕ) → Fits c s (parse c r s)
  parse-Fits c (Rule.declared name r) s =
      after-Fits c (Fits c s) (parse c r s) (parse-Fits c r s)
        (λ n t f. spanning-Fits c _ s _ t (Fit-Took c s n t f)) (λ t e. refl)
  parse-Fits c (Rule.plain name) s = Fit-empty c _ s
  parse-Fits c (Rule.not_ rs) s = Fits-after_not c (Rule.not_ rs) s (try_seq c rs (skip_ws c s))
  parse-Fits c (Rule.and_ rs) s = Fits-after_all c _ s (try_all c rs s) (try_all-Took c rs s)
  parse-Fits c (Rule.or_ rs) s =
      after-Fits c (Fits c s) (try_any c rs s) (try_any-Fits c rs s)
        (λ n t f. spanning-Fits c _ s _ t (Fit-Took c s n t f)) (λ t e. refl)
  parse-Fits c (Rule.one_or_more_ r) s =
      after-Fits c (Fits c s) (parse c r s) (parse-Fits c r s)
        (λ n t f. spanning-Fits c _ s _ _ (
          Fit-add c (repeat (parse c r) (length t) t).0 f
            (repeat-Took c (parse c r) (parse-Fits c r) (length t) t)))
        (λ t e. refl)
  parse-Fits c (Rule.zero_or_more_ r) s =
      spanning-Fits c _ s _ _ (repeat-Took c (parse c r) (parse-Fits c r) (length s) s)
  parse-Fits c (Rule.zero_or_one_ r) s =
      after-Fits c (Fits c s) (parse c r s) (parse-Fits c r s)
        (λ n t f. spanning-Fits c _ s _ t (Fit-Took c s n t f))
        (λ t e. spanning-Fits c _ s Nodes.none_left s (Took-here c s))
  parse-Fits c (Rule.string w) s = terminal-Fits c _ s _ (match_string-Leaves c w (skip_ws c s))
  parse-Fits c (Rule.character ch) s = terminal-Fits c _ s _ (match_char-Leaves c ch (skip_ws c s))
  parse-Fits c (Rule.characters a b) s =
      terminal-Fits c _ s _ (match_range-Leaves c a b (skip_ws c s))
  parse-Fits c (Rule.regex f) s = terminal-Fits c _ s _ (search-Leaves f (skip_ws c s))

  try_any-Fits : (c : Context) (rs : Rules) (s : List ℕ) → Fits c s (try_any c rs s)
  try_any-Fits c Rules.nil s = refl
  try_any-Fits c (Rules.cons r rs) s =
      after-Fits c (Fits c s) (parse c r s) (parse-Fits c r s) (λ n t f. f)
        (λ t e. try_any-Fits c rs s)

  try_all-Took : (c : Context) (rs : Rules) (s : List ℕ) → TookAll c s (try_all c rs s)
  try_all-Took c Rules.nil s = Took-here c s
  try_all-Took c (Rules.cons r rs) s =
      after-Fits c (TookAll c s) (parse c r s) (parse-Fits c r s)
        (λ n t f. TookAll-after c f (try_all c rs t) (try_all-Took c rs t)) (λ t e. tt)

-- Whatever the rule and the text: if the match fails, `begin` is where it was; if it succeeds with the
-- tree `n`, the text from the old `begin` to the new one is, whitespace aside, what the leaves of `n`
-- spell and what `get_text` of `n` returns.
pub parse_lem : (c : Context) (r : Rule) (s : List ℕ) → Fits c s (parse c r s)
parse_lem c r s = parse-Fits c r s

Fits-at_end :
    (c : Context) (s : List ℕ) (n : Node) (q : Result)
    → Fits c s q
    → after q at_end (λ t. none) ≡ some n
    → (strip c s ≡ strip c (spell n)) × (strip c s ≡ strip c (get_text n))
Fits-at_end c s n (some m, []) f e =
    let whole : s ≡ f.consumed = sym f.split ∙ append-nil f.consumed in
    let same : m ≡ n = ground arith in rw (sym same, whole) (f.spelled, f.text)
Fits-at_end c s n (some m, x ∷ t) f e = absurd (ground arith)
Fits-at_end c s n (none, t) f e = absurd (ground arith)

-- If `parser::parse` returns a tree, its leaves spell the whole text, and so does `get_text` of its
-- root, whitespace aside.
pub parser-spell :
    (r : Rule) (ignore_case : Bool) (whitespace s : List ℕ) (n : Node)
    → parser r ignore_case whitespace s ≡ some n
    → (strip (skipping ignore_case whitespace) s
        ≡ strip (skipping ignore_case whitespace) (spell n))
      × (strip (skipping ignore_case whitespace) s
          ≡ strip (skipping ignore_case whitespace) (get_text n))
unfolding parser
parser-spell r b ws s n e =
    let c = skipping b ws in Fits-at_end c s n (parse c r s) (parse_lem c r s) e
