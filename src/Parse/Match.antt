-- ===== src/Parse/Match.antt =====
-- What a match of include/xtd/parse.hpp says of the text: the part that is consumed, the texts of the
-- leaves of the tree in their order, and `get_text`, all up to whitespace.
use xtl.Prelude.{
  ℕ, ◌-◌, Bool, true, false, Option, none, some, List, [], ◌∷◌, ◌++◌, length, take, drop, ◌≡◌, refl,
  sym, ap, ◌∙◌, inl, inr, if◌then◌else◌, Bool-cases, arith, length-append, take-append-drop,
}
use xtl.Parse.{Rule, Node, Nodes, get_text, Result, span, terminal, spanning, search}
use xtl.Parse.Chars.{Context, is_whitespace, skip_ws, match_string, match_char, match_range}
use mathlib.Core.List.{append_assoc, append-nil}

-- the texts of the leaves in their order
unfoldable mutual
  pub spell : Node → List ℕ
  spell (Node.leaf r w) = w
  spell (Node.node r w ns) = spell_all ns

  pub spell_all : Nodes → List ℕ
  spell_all Nodes.none_left = []
  spell_all (Nodes.add n ns) = spell n ++ spell_all ns

-- the text without its whitespace
unfoldable pub strip : Context → List ℕ → List ℕ
strip c [] = []
strip c (x ∷ s) = let rest = strip c s in if is_whitespace c x then rest else x ∷ rest

strip-append : (c : Context) (s t : List ℕ) → strip c (s ++ t) ≡ strip c s ++ strip c t
unfolding strip
strip-append c [] t = refl
strip-append c (x ∷ s) t = elim (Bool-cases (is_whitespace c x)) [
  | inl e ↦ rw e (strip-append c s t)
  | inr e ↦ rw e (ap (λ r. x ∷ r) (strip-append c s t))
]

-- Some text was consumed from `s` up to `t`, and `w` is its spelling.
pub record Took (c : Context) (s t w : List ℕ) : Type 0 where
  pub consumed : List ℕ
  pub split : consumed ++ t ≡ s
  pub spelled : strip c consumed ≡ strip c w

module _ (c : Context) where
  pub Took-here : (s : List ℕ) → Took c s s []
  Took-here s = record { consumed = []; split = refl; spelled = refl }

  pub Took-then : {s t u w v : List ℕ} → Took c s t w → Took c t u v → Took c s u (w ++ v)
  Took-then {s} {t} {u} {w} {v} a b = record {
    consumed = a.consumed ++ b.consumed;
    split = append_assoc a.consumed b.consumed u ∙ ap (λ r. a.consumed ++ r) b.split ∙ a.split;
    spelled =
        strip-append c a.consumed b.consumed
        ∙ ap (λ r. r ++ strip c b.consumed) a.spelled
        ∙ ap (λ r. strip c w ++ r) b.spelled
        ∙ sym (strip-append c w v);
  }

  skip_ws-Took : (s : List ℕ) → Took c s (skip_ws c s) []
  unfolding skip_ws strip
  skip_ws-Took [] = Took-here []
  skip_ws-Took (x ∷ s) = elim (Bool-cases (is_whitespace c x)) [
    | inl e ↦
        let a = skip_ws-Took s in
        rw e (record {
          consumed = x ∷ a.consumed;
          split = ap (λ r. x ∷ r) a.split;
          spelled = rw e a.spelled;
        })
    | inr e ↦ rw e (Took-here (x ∷ s))
  ]

take-append : (p t : List ℕ) → take (length p) (p ++ t) ≡ p
take-append [] t = refl
take-append (x ∷ p) t = ap (λ r. x ∷ r) (take-append p t)

span-append : (p t : List ℕ) → span (p ++ t) t ≡ p
unfolding span
span-append p t =
    let e : length (p ++ t) - length t ≡ length p = omega (arith, length-append p t) in
    rw e (take-append p t)

-- `t` is the end of `s`.
abbrev Ends : List ℕ → List ℕ → Type 0
Ends s t = (p : List ℕ) × (p ++ t ≡ s)

Ends-span : (s t : List ℕ) → Ends s t → span s t ++ t ≡ s
Ends-span s t (p, e) = let q : span s t ≡ p = rw (sym e) (span-append p t) in rw q e

-- A match of a terminal leaves an end of the text.
abbrev Leaves : List ℕ → Option (List ℕ) → Type 0
Leaves s (some t) = Ends s t
Leaves s none = Unit

Leaves-if :
    (s : List ℕ) (b : Bool) (o : Option (List ℕ)) → Leaves s o → Leaves s (if b then o else none)
Leaves-if s true o h = h
Leaves-if s false o h = tt

Leaves-cons : (y : ℕ) (s : List ℕ) (o : Option (List ℕ)) → Leaves s o → Leaves (y ∷ s) o
Leaves-cons y s (some t) (p, e) = (y ∷ p, ap (λ r. y ∷ r) e)
Leaves-cons y s none h = tt

pub match_string-Leaves : (c : Context) (w s : List ℕ) → Leaves s (match_string c w s)
unfolding match_string
match_string-Leaves c [] s = ([], refl)
match_string-Leaves c (x ∷ w) [] = tt
match_string-Leaves c (x ∷ w) (y ∷ s) =
    Leaves-if (y ∷ s) _ _ (Leaves-cons y s _ (match_string-Leaves c w s))

pub match_char-Leaves : (c : Context) (ch : ℕ) (s : List ℕ) → Leaves s (match_char c ch s)
unfolding match_char
match_char-Leaves c ch [] = tt
match_char-Leaves c ch (y ∷ s) = Leaves-if (y ∷ s) _ (some s) (y ∷ [], refl)

pub match_range-Leaves : (c : Context) (a b : ℕ) (s : List ℕ) → Leaves s (match_range c a b s)
unfolding match_range
match_range-Leaves c a b [] = tt
match_range-Leaves c a b (y ∷ s) = Leaves-if (y ∷ s) _ (some s) (y ∷ [], refl)

pub search-Leaves : (f : List ℕ → Option ℕ) (s : List ℕ) → Leaves s (search f s)
search-Leaves f [] = tt
search-Leaves f (y ∷ s) =
    elim (f (y ∷ s))
      as (λ o. Leaves (y ∷ s) (elim o [ some n ↦ some (drop n (y ∷ s)) | none ↦ none ])) [
        | some n ↦ (take n (y ∷ s), take-append-drop n (y ∷ s))
        | none ↦ tt
      ]

-- What a match of `s` with the tree `n` up to `t` shows.
pub record Fit (c : Context) (s : List ℕ) (n : Node) (t : List ℕ) : Type 0 where
  pub consumed : List ℕ
  pub split : consumed ++ t ≡ s
  pub spelled : strip c consumed ≡ strip c (spell n)
  pub text : strip c consumed ≡ strip c (get_text n)

abbrev pub Fits : Context → List ℕ → Result → Type 0
Fits c s (some n, t) = Fit c s n t
Fits c s (none, t) = t ≡ s

module _ (c : Context) where
  pub terminal-Fits :
      (r : Rule) (s : List ℕ) (o : Option (List ℕ))
      → Leaves (skip_ws c s) o
      → Fits c s (terminal r s (skip_ws c s) o)
  unfolding spell
  terminal-Fits r s (some t) h =
      let from = skip_ws c s in
      let a =
        Took-then c (skip_ws-Took c s)
          (record { consumed = span from t; split = Ends-span from t h; spelled = refl }) in
      record { consumed = a.consumed; split = a.split; spelled = a.spelled; text = a.spelled }
  terminal-Fits r s none h = refl

  pub spanning-Fits :
      (r : Rule) (s : List ℕ) (ns : Nodes) (t : List ℕ)
      → Took c s t (spell_all ns)
      → Fits c s (spanning r s (ns, t))
  unfolding spell
  spanning-Fits r s ns t a =
      let q : span s t ≡ a.consumed = rw (sym a.split) (span-append a.consumed t) in
      record {
        consumed = a.consumed;
        split = a.split;
        spelled = a.spelled;
        text = ap (strip c) (sym q);
      }

  pub Fit-Took :
      (s : List ℕ) (n : Node) (t : List ℕ)
      → Fit c s n t
      → Took c s t (spell_all (Nodes.add n Nodes.none_left))
  unfolding spell
  Fit-Took s n t f = record {
    consumed = f.consumed;
    split = f.split;
    spelled = f.spelled ∙ ap (strip c) (sym (append-nil (spell n)));
  }
