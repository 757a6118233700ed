-- ===== src/Parse/Peg/Sound.antt =====
-- The matcher of include/xtd/parse.hpp does what its rules mean.
use xtl.Prelude.{
  ℕ, zero, suc, ◌≤◌, Bool, true, false, Option, none, some, List, [], ◌∷◌, ◌++◌, length, ◌==◌, ◌≡◌,
  refl, sym, ap, ◌∙◌, inl, inr, Bool-cases, arith, length-append,
}
use xtl.Parse.{
  Rule, Rules, Node, Nodes, Result, terminal, repeat, search, parse, try_seq, try_all, try_any,
  after, spanning,
}
use xtl.Parse.Chars.{Context, skip_ws, match_string, match_char, match_range}
use xtl.Parse.Match.{Fit, Fits}
use xtl.Parse.Spelling.{length-zero, parse_lem}
use xtl.Parse.Peg.{Peg, Seq, Any, Star, outcome}

module _ (c : Context) where
  pub Fit-le : {s t : List ℕ} {n : Node} → Fit c s n t → length t ≤ length s
  Fit-le {s} {t} f = omega (arith, length-append f.consumed t, ap length f.split)

  Fit-same : {s t : List ℕ} {n : Node} → Fit c s n t → length t ≡ length s → t ≡ s
  Fit-same {s} {t} f e =
      let h : length f.consumed ≡ 0 =
        omega (arith, length-append f.consumed t, ap length f.split) in
      ap (λ p. p ++ t) (sym (length-zero f.consumed h)) ∙ f.split

  pub after-Peg {ℓ κ} :
      {B : Type ℓ} (P : B → Type κ) {r : Rule} {s : List ℕ} {f : Node → List ℕ → B} {g : List ℕ → B}
      (q : Result)
      → Fits c s q
      → Peg c r s (outcome q)
      → ((n : Node) (t : List ℕ) → Fit c s n t → Peg c r s (some t) → P (f n t))
      → ((t : List ℕ) → t ≡ s → Peg c r s none → P (g t))
      → P (after q f g)
  after-Peg P (some n, t) h d a b = a n t h d
  after-Peg P (none, t) h d a b = b t h d

  Star-end : (r : Rule) (q : Result) → Fits c [] q → Peg c r [] (outcome q) → Star c r [] []
  Star-end r (some n, t) f d =
      let e : t ≡ [] = Fit-same f (omega (arith, Fit-le f)) in Star.still (rw e at d)
  Star-end r (none, t) f d = Star.fails d

  repeat-Star :
      (r : Rule)
      → ((s : List ℕ) → Peg c r s (outcome (parse c r s)))
      → (rounds : ℕ) (s : List ℕ) → length s ≤ rounds
      → Star c r s (repeat (parse c r) rounds s).1
  unfolding repeat
  repeat-Star r h rounds [] le = Star-end r (parse c r []) (parse_lem c r []) (h [])
  repeat-Star r h zero (x ∷ s) le = absurd (omega arith)
  repeat-Star r h (suc rounds) (x ∷ s) le =
      after-Peg (λ (q : Nodes × List ℕ). Star c r (x ∷ s) q.1) (parse c r (x ∷ s))
        (parse_lem c r (x ∷ s)) (h (x ∷ s))
        (λ n t f d. elim (Bool-cases (length t == length (x ∷ s))) [
          | inl e ↦
              let same : t ≡ x ∷ s = Fit-same f (ground arith) in
              rw (e, same) (Star.still (rw same at d))
          | inr e ↦
              let less : suc (length t) ≤ length (x ∷ s) = ground (arith, Fit-le f) in
              rw e (Star.again d (omega arith) (repeat-Star r h rounds t (omega arith)))
        ])
        (λ t e d. Star.fails d)

  pub terminal-outcome :
      (r : Rule) (s from : List ℕ) (o : Option (List ℕ)) → outcome (terminal r s from o) ≡ o
  terminal-outcome r s from (some t) = refl
  terminal-outcome r s from none = refl

  abbrev SeqOf : Rules → List ℕ → Bool → Type 0
  SeqOf rs s true = (t : List ℕ) × Seq c rs s (some t)
  SeqOf rs s false = Seq c rs s none

  not-Peg :
      (rs : Rules) (s : List ℕ) (b : Bool)
      → SeqOf rs (skip_ws c s) b
      → Peg c (Rule.not_ rs) s (
          outcome {A = Node} (elim b [
            | true ↦ (none, s)
            | false ↦ (some (Node.node (Rule.not_ rs) [] Nodes.none_left), s)
          ]))
  not-Peg rs s true (t, d) = Peg.not_hit d
  not-Peg rs s false d = Peg.not_miss d

  SeqOf-next :
      {r : Rule} {s t : List ℕ}
      → Peg c r s (some t)
      → (rs : Rules) (b : Bool) → SeqOf rs t b
      → SeqOf (Rules.cons r rs) s b
  SeqOf-next d rs true (u, e) = (u, Seq.next d e)
  SeqOf-next d rs false e = Seq.next d e

  Seq-add :
      (n : Node) (rs : Rules) (t : List ℕ) (q : Option Nodes × List ℕ)
      → Seq c rs t (outcome q)
      → Seq c rs t
          (outcome {A = Nodes} (after q (λ ns u. (some (Nodes.add n ns), u)) (λ u. (none, u))))
  Seq-add n rs t (some ns, u) d = d
  Seq-add n rs t (none, u) d = d

  Peg-and :
      (rs : Rules) (s : List ℕ) (q : Option Nodes × List ℕ)
      → Seq c rs s (outcome q)
      → Peg c (Rule.and_ rs) s (
          outcome {A = Node} (after q (λ ns t. spanning (Rule.and_ rs) s (ns, t)) (λ t. (none, s))))
  Peg-and rs s (some ns, t) d = Peg.and_ d
  Peg-and rs s (none, t) d = Peg.and_ d

  Peg-or :
      (rs : Rules) (s : List ℕ) (q : Result)
      → Any c rs s (outcome q)
      → Peg c (Rule.or_ rs) s (
          outcome {A = Node} (
            after q
              (λ n t. spanning (Rule.or_ rs) s (Nodes.add n Nodes.none_left, t))
              (λ t. (none, s))))
  Peg-or rs s (some n, t) d = Peg.or_ d
  Peg-or rs s (none, t) d = Peg.or_ d

mutual
  unfolding parse

  parse-Sound : (c : Context) (r : Rule) (s : List ℕ) → Peg c r s (outcome (parse c r s))
  parse-Sound c (Rule.declared name r) s =
      after-Peg c (λ (q : Result). Peg c (Rule.declared name r) s (outcome q)) (parse c r s)
        (parse_lem c r s) (parse-Sound c r s) (λ n t f d. Peg.declared d) (λ t e d. Peg.declared d)
  parse-Sound c (Rule.plain name) s = Peg.plain
  parse-Sound c (Rule.not_ rs) s = not-Peg c rs s _ (try_seq-Sound c rs (skip_ws c s))
  parse-Sound c (Rule.and_ rs) s = Peg-and c rs s _ (try_all-Sound c rs s)
  parse-Sound c (Rule.or_ rs) s = Peg-or c rs s _ (try_any-Sound c rs s)
  parse-Sound c (Rule.one_or_more_ r) s =
      after-Peg c (λ (q : Result). Peg c (Rule.one_or_more_ r) s (outcome q)) (parse c r s)
        (parse_lem c r s) (parse-Sound c r s)
        (λ n t f d. Peg.more_hit d (repeat-Star c r (parse-Sound c r) (length t) t (omega arith)))
        (λ t e d. Peg.more_miss d)
  parse-Sound c (Rule.zero_or_more_ r) s =
      Peg.star (repeat-Star c r (parse-Sound c r) (length s) s (omega arith))
  parse-Sound c (Rule.zero_or_one_ r) s =
      after-Peg c (λ (q : Result). Peg c (Rule.zero_or_one_ r) s (outcome q)) (parse c r s)
        (parse_lem c r s) (parse-Sound c r s) (λ n t f d. Peg.one_hit d) (λ t e d. Peg.one_miss d)
  parse-Sound c (Rule.string w) s =
      rw (terminal-outcome c (Rule.string w) s (skip_ws c s) (match_string c w (skip_ws c s)))
        Peg.string
  parse-Sound c (Rule.character ch) s =
      rw (terminal-outcome c (Rule.character ch) s (skip_ws c s) (match_char c ch (skip_ws c s)))
        Peg.character
  parse-Sound c (Rule.characters a b) s =
      rw
        (terminal-outcome c (Rule.characters a b) s (skip_ws c s) (match_range c a b (skip_ws c s)))
        Peg.characters
  parse-Sound c (Rule.regex f) s =
      rw (terminal-outcome c (Rule.regex f) s (skip_ws c s) (search f (skip_ws c s))) Peg.regex

  try_seq-Sound : (c : Context) (rs : Rules) (s : List ℕ) → SeqOf c rs s (try_seq c rs s)
  try_seq-Sound c Rules.nil s = (s, Seq.done)
  try_seq-Sound c (Rules.cons r rs) s =
      after-Peg c (λ b. SeqOf c (Rules.cons r rs) s b) (parse c r s) (parse_lem c r s)
        (parse-Sound c r s) (λ n t f d. SeqOf-next c d rs (try_seq c rs t) (try_seq-Sound c rs t))
        (λ t e d. Seq.stop d)

  try_all-Sound : (c : Context) (rs : Rules) (s : List ℕ) → Seq c rs s (outcome (try_all c rs s))
  try_all-Sound c Rules.nil s = Seq.done
  try_all-Sound c (Rules.cons r rs) s =
      after-Peg c (λ (q : Option Nodes × List ℕ). Seq c (Rules.cons r rs) s (outcome q))
        (parse c r s) (parse_lem c r s) (parse-Sound c r s)
        (λ n t f d. Seq.next d (Seq-add c n rs t (try_all c rs t) (try_all-Sound c rs t)))
        (λ t e d. Seq.stop d)

  try_any-Sound : (c : Context) (rs : Rules) (s : List ℕ) → Any c rs s (outcome (try_any c rs s))
  try_any-Sound c Rules.nil s = Any.no_more
  try_any-Sound c (Rules.cons r rs) s =
      after-Peg c (λ (q : Result). Any c (Rules.cons r rs) s (outcome q)) (parse c r s)
        (parse_lem c r s) (parse-Sound c r s) (λ n t f d. Any.take_it d)
        (λ t e d. Any.or_else d (try_any-Sound c rs s))

-- Whatever the rule and the text, the matcher ends as the rule's meaning says: it fails where the
-- parsing expression fails, and leaves what a match of it leaves. The rounds of the repetitions are
-- enough.
pub parse-Peg : (c : Context) (r : Rule) (s : List ℕ) → Peg c r s (outcome (parse c r s))
parse-Peg c r s = parse-Sound c r s
