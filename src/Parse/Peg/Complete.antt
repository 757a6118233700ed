-- ===== src/Parse/Peg/Complete.antt =====
-- What the rules of include/xtd/parse.hpp mean, their matcher does: a text has one outcome at most.
use xtl.Prelude.{
  ℕ, zero, suc, ◌≤◌, Bool, true, false, Option, none, some, List, [], ◌∷◌, length, ◌==◌, ◌≡◌, ◌≢◌,
  refl, sym, ap, ◌∙◌, ◌↔◌, arith,
}
use xtl.Parse.{
  Rule, Rules, Node, Nodes, Result, repeat, parse, try_seq, try_all, try_any, after, spanning,
}
use xtl.Parse.Chars.{Context, skip_ws}
use xtl.Parse.Match.{Fits}
use xtl.Parse.Spelling.{parse_lem}
use xtl.Parse.Peg.{Peg, Seq, Any, Star, outcome}
use xtl.Parse.Peg.Sound.{Fit-le, parse-Peg, terminal-outcome}

module _ {ℓ κ μ} {A : Type ℓ} {B : Type κ} (P : B → Type μ) where
  after-some :
      (f : A → List ℕ → B) (g : List ℕ → B) (t : List ℕ) (q : Option A × List ℕ)
      → outcome q ≡ some t
      → ((a : A) → P (f a t))
      → P (after q f g)
  after-some f g t (some a, u) e h = let same : u ≡ t = ground arith in rw same (h a)
  after-some f g t (none, u) e h = absurd (ground arith)

  after-none :
      (f : A → List ℕ → B) (g : List ℕ → B) (q : Option A × List ℕ)
      → outcome q ≡ none
      → ((t : List ℕ) → P (g t))
      → P (after q f g)
  after-none f g (some a, u) e h = absurd (ground arith)
  after-none f g (none, u) e h = h u

abbrev is_hit : Option (List ℕ) → Bool
is_hit (some t) = true
is_hit none = false

module _ (c : Context) where
  outcome-le : (s t : List ℕ) (q : Result) → Fits c s q → outcome q ≡ some t → length t ≤ length s
  outcome-le s t (some n, u) f e = let same : u ≡ t = ground arith in rw (sym same) (Fit-le c f)
  outcome-le s t (none, u) f e = absurd (ground arith)

  outcome-one :
      (r : Rule) (s : List ℕ) (q : Result)
      → outcome {A = Node}
          (after q (λ n t. spanning r s (Nodes.add n Nodes.none_left, t)) (λ t. (none, s)))
        ≡ outcome q
  outcome-one r s (some n, t) = refl
  outcome-one r s (none, t) = refl

  outcome-all :
      (r : Rule) (s : List ℕ) (q : Option Nodes × List ℕ)
      → outcome {A = Node} (after q (λ ns t. spanning r s (ns, t)) (λ t. (none, s))) ≡ outcome q
  outcome-all r s (some ns, t) = refl
  outcome-all r s (none, t) = refl

  outcome-add :
      (n : Node) (q : Option Nodes × List ℕ)
      → outcome {A = Nodes} (after q (λ ns u. (some (Nodes.add n ns), u)) (λ u. (none, u)))
        ≡ outcome q
  outcome-add n (some ns, t) = refl
  outcome-add n (none, t) = refl

  not-outcome :
      (rs : Rules) (s : List ℕ) (b : Bool) (o : Option (List ℕ))
      → b ≡ is_hit o
      → outcome {A = Node} (elim b [
        | true ↦ (none, s)
        | false ↦ (some (Node.node (Rule.not_ rs) [] Nodes.none_left), s)
      ])
        ≡ (elim o [ some t ↦ none | none ↦ some s ])
  not-outcome rs s true (some t) e = refl
  not-outcome rs s true none e = absurd (ground arith)
  not-outcome rs s false (some t) e = absurd (ground arith)
  not-outcome rs s false none e = refl

  repeat-outcome :
      (r : Rule) (s t u : List ℕ)
      → outcome (parse c r s) ≡ some t
      → length t ≢ length s
      → ((rounds : ℕ) → length t ≤ rounds → (repeat (parse c r) rounds t).1 ≡ u)
      → (rounds : ℕ) → length s ≤ rounds
      → (repeat (parse c r) rounds s).1 ≡ u
  unfolding repeat
  repeat-outcome r [] t u e ne h rounds le =
      absurd (ne (omega (arith, outcome-le [] t (parse c r []) (parse_lem c r []) e)))
  repeat-outcome r (x ∷ s) t u e ne h zero le = absurd (omega arith)
  repeat-outcome r (x ∷ s) t u e ne h (suc rounds) le =
      let l = outcome-le (x ∷ s) t (parse c r (x ∷ s)) (parse_lem c r (x ∷ s)) e in
      let less : length t ≤ rounds = omega arith in
      let b : (length t == length (x ∷ s)) ≡ false = ground arith in
      after-some (λ (q : Nodes × List ℕ). q.1 ≡ u) _ _ t (parse c r (x ∷ s)) e
        (λ n. rw b (h rounds less))

  repeat-fails :
      (r : Rule) (s : List ℕ) (rounds : ℕ)
      → outcome (parse c r s) ≡ none
      → length s ≤ rounds
      → (repeat (parse c r) rounds s).1 ≡ s
  unfolding repeat
  repeat-fails r [] rounds e le = refl
  repeat-fails r (x ∷ s) zero e le = absurd (omega arith)
  repeat-fails r (x ∷ s) (suc rounds) e le =
      after-none (λ (q : Nodes × List ℕ). q.1 ≡ x ∷ s) _ _ (parse c r (x ∷ s)) e (λ t. refl)

  repeat-still :
      (r : Rule) (s : List ℕ) (rounds : ℕ)
      → outcome (parse c r s) ≡ some s
      → length s ≤ rounds
      → (repeat (parse c r) rounds s).1 ≡ s
  unfolding repeat
  repeat-still r [] rounds e le = refl
  repeat-still r (x ∷ s) zero e le = absurd (omega arith)
  repeat-still r (x ∷ s) (suc rounds) e le =
      let b : (length (x ∷ s) == length (x ∷ s)) ≡ true = ground arith in
      after-some (λ (q : Nodes × List ℕ). q.1 ≡ x ∷ s) _ _ (x ∷ s) (parse c r (x ∷ s)) e
        (λ n. rw b refl)

mutual
  unfolding parse

  Peg-Complete :
      (c : Context) (r : Rule) (s : List ℕ) (o : Option (List ℕ))
      → Peg c r s o
      → outcome (parse c r s) ≡ o
  Peg-Complete c (Rule.declared name r) s o (Peg.declared d) =
      outcome-one c (Rule.declared name r) s (parse c r s) ∙ Peg-Complete c r s o d
  Peg-Complete c _ s _ Peg.plain = refl
  Peg-Complete c (Rule.not_ rs) s _ (Peg.not_hit {t = t} d) =
      not-outcome c rs s _ (some t) (Seq-hit c rs (skip_ws c s) (some t) d)
  Peg-Complete c (Rule.not_ rs) s _ (Peg.not_miss d) =
      not-outcome c rs s _ none (Seq-hit c rs (skip_ws c s) none d)
  Peg-Complete c (Rule.and_ rs) s o (Peg.and_ d) =
      outcome-all c (Rule.and_ rs) s (try_all c rs s) ∙ Seq-Complete c rs s o d
  Peg-Complete c (Rule.or_ rs) s o (Peg.or_ d) =
      outcome-one c (Rule.or_ rs) s (try_any c rs s) ∙ Any-Complete c rs s o d
  Peg-Complete c (Rule.one_or_more_ r) s _ (Peg.more_hit {t = t} {u = u} d e) =
      after-some (λ (q : Result). outcome q ≡ some u) _ _ t (parse c r s)
        (Peg-Complete c r s (some t) d)
        (λ n. ap some (Star-Complete c r t u e (length t) (omega arith)))
  Peg-Complete c (Rule.one_or_more_ r) s _ (Peg.more_miss d) =
      after-none (λ (q : Result). outcome q ≡ none) _ _ (parse c r s) (Peg-Complete c r s none d)
        (λ t. refl)
  Peg-Complete c (Rule.zero_or_more_ r) s _ (Peg.star {t = t} d) =
      ap some (Star-Complete c r s t d (length s) (omega arith))
  Peg-Complete c (Rule.zero_or_one_ r) s _ (Peg.one_hit {t = t} d) =
      after-some (λ (q : Result). outcome q ≡ some t) _ _ t (parse c r s)
        (Peg-Complete c r s (some t) d) (λ n. refl)
  Peg-Complete c (Rule.zero_or_one_ r) s _ (Peg.one_miss d) =
      after-none (λ (q : Result). outcome q ≡ some s) _ _ (parse c r s) (Peg-Complete c r s none d)
        (λ t. refl)
  Peg-Complete c (Rule.string w) s _ Peg.string = terminal-outcome c _ s (skip_ws c s) _
  Peg-Complete c (Rule.character ch) s _ Peg.character = terminal-outcome c _ s (skip_ws c s) _
  Peg-Complete c (Rule.characters a b) s _ Peg.characters = terminal-outcome c _ s (skip_ws c s) _
  Peg-Complete c (Rule.regex f) s _ Peg.regex = terminal-outcome c _ s (skip_ws c s) _

  Seq-hit :
      (c : Context) (rs : Rules) (s : List ℕ) (o : Option (List ℕ))
      → Seq c rs s o
      → try_seq c rs s ≡ is_hit o
  Seq-hit c _ s _ Seq.done = refl
  Seq-hit c (Rules.cons r rs) s _ (Seq.stop d) =
      after-none (λ (b : Bool). b ≡ false) _ _ (parse c r s) (Peg-Complete c r s none d) (λ t. refl)
  Seq-hit c (Rules.cons r rs) s o (Seq.next {t = t} d e) =
      after-some (λ (b : Bool). b ≡ is_hit o) _ _ t (parse c r s) (Peg-Complete c r s (some t) d)
        (λ n. Seq-hit c rs t o e)

  Seq-Complete :
      (c : Context) (rs : Rules) (s : List ℕ) (o : Option (List ℕ))
      → Seq c rs s o
      → outcome (try_all c rs s) ≡ o
  Seq-Complete c _ s _ Seq.done = refl
  Seq-Complete c (Rules.cons r rs) s _ (Seq.stop d) =
      after-none (λ (q : Option Nodes × List ℕ). outcome q ≡ none) _ _ (parse c r s)
        (Peg-Complete c r s none d) (λ t. refl)
  Seq-Complete c (Rules.cons r rs) s o (Seq.next {t = t} d e) =
      after-some (λ (q : Option Nodes × List ℕ). outcome q ≡ o) _ _ t (parse c r s)
        (Peg-Complete c r s (some t) d)
        (λ n. outcome-add c n (try_all c rs t) ∙ Seq-Complete c rs t o e)

  Any-Complete :
      (c : Context) (rs : Rules) (s : List ℕ) (o : Option (List ℕ))
      → Any c rs s o
      → outcome (try_any c rs s) ≡ o
  Any-Complete c _ s _ Any.no_more = refl
  Any-Complete c (Rules.cons r rs) s _ (Any.take_it {t = t} d) =
      after-some (λ (q : Result). outcome q ≡ some t) _ _ t (parse c r s)
        (Peg-Complete c r s (some t) d) (λ n. refl)
  Any-Complete c (Rules.cons r rs) s o (Any.or_else d e) =
      after-none (λ (q : Result). outcome q ≡ o) _ _ (parse c r s) (Peg-Complete c r s none d)
        (λ t. Any-Complete c rs s o e)

  Star-Complete :
      (c : Context) (r : Rule) (s t : List ℕ)
      → Star c r s t
      → (rounds : ℕ) → length s ≤ rounds
      → (repeat (parse c r) rounds s).1 ≡ t
  Star-Complete c r s _ (Star.fails d) rounds h =
      repeat-fails c r s rounds (Peg-Complete c r s none d) h
  Star-Complete c r s _ (Star.still d) rounds h =
      repeat-still c r s rounds (Peg-Complete c r s (some s) d) h
  Star-Complete c r s u (Star.again {t = t} d ne e) rounds h =
      repeat-outcome c r s t u (Peg-Complete c r s (some t) d) ne (Star-Complete c r t u e) rounds h

pub Peg-iff :
    (c : Context) (r : Rule) (s : List ℕ) (o : Option (List ℕ))
    → Peg c r s o ↔ (outcome (parse c r s) ≡ o)
Peg-iff c r s o = (Peg-Complete c r s o, λ e. rw e at (parse-Peg c r s))
