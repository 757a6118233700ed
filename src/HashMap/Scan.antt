-- ===== src/HashMap/Scan.antt =====
-- The scans of `hash_map`, slot by slot: what one visit establishes of each slot, the loop
-- establishes of the range. Also the order of the scans, and the nibbles of a key.
use xtl.Prelude.{
  ℕ, zero, suc, ◌+◌, ◌-◌, ◌%◌, ◌/◌, ◌≤◌, ◌<◌, ◌≡◌, ◌⊎◌, refl, none, some, List, [], ◌∷◌, arith,
  dec_lt,
}
use mathlib.Core.Path.{subst}
use native.Mathlib.Numerals.{add-one}
use xtl.HashMap.Cursor.{Found, stop_or, scan_up}

-- The entries of `_Key` for the key `x`, each one more than its nibble.
abbrev pub digits : ℕ → ℕ → List ℕ
digits zero x = (x % 16 + 1) ∷ []
digits (suc n) x = (x % 16 + 1) ∷ digits n (x / 16)

-- The order of the scans: lowest nibble first.
abbrev pub Before : ℕ → ℕ → ℕ → Type 0
Before zero x y = x % 16 < y % 16
Before (suc n) x y = (x % 16 < y % 16) ⊎ ((x % 16 ≡ y % 16) × Before n (x / 16) (y / 16))

-- What a visit established: nothing is there and the nibbles left are fit for the next visit, or
-- something was found.
pub data Seen {V : Type 0} (Ok : List ℕ → Type 0) (Empty : Type 0) (Good : V → List ℕ → Type 0)
    : Found V → Type 0 where
  miss : {rest : List ℕ} → Ok rest → Empty → Seen Ok Empty Good (none, rest)
  hit : {v : V} {rest : List ℕ} → Good v rest → Seen Ok Empty Good (some v, rest)

pub Seen-map :
    {V : Type 0} {Ok Ok' : List ℕ → Type 0} {E E' : Type 0} {G G' : V → List ℕ → Type 0}
    {r : Found V}
    → ((rest : List ℕ) → Ok rest → Ok' rest)
    → (E → E')
    → ((v : V) (rest : List ℕ) → G v rest → G' v rest)
    → Seen Ok E G r
    → Seen Ok' E' G' r
Seen-map f g h (miss o e) = miss (f _ o) (g e)
Seen-map f g h (hit x) = hit (h _ _ x)

module _ {V : Type 0} (Ok : List ℕ → Type 0) (Empty : ℕ → Type 0)
    (Good : ℕ → V → List ℕ → Type 0) where
  -- the first find at or after slot `i`, below slot `hi`
  pub record FirstIn (i hi : ℕ) (v : V) (key : List ℕ) : Type 0 where
    pub slot : ℕ
    pub rest : List ℕ
    pub low : i ≤ slot
    pub high : slot < hi
    pub key_eq : key ≡ (slot + 1) ∷ rest
    pub good : Good slot v rest
    pub none_before : (j : ℕ) → i ≤ j → j < slot → Empty j

  abbrev pub EmptyIn : ℕ → ℕ → Type 0
  EmptyIn i hi = (j : ℕ) → i ≤ j → j < hi → Empty j

  abbrev pub Ended : ℕ → List ℕ → Type 0
  Ended last key = (rest : List ℕ) × (key ≡ last ∷ rest) × Ok rest

  pub stop_or-Seen :
      (last i hi : ℕ) {r : Found V} (go : List ℕ → Found V)
      → i < hi
      → Seen Ok (Empty i) (Good i) r
      → ((rest : List ℕ)
          → Ok rest
          → Seen (Ended last) (EmptyIn (suc i) hi) (FirstIn (suc i) hi) (go rest))
      → Seen (Ended last) (EmptyIn i hi) (FirstIn i hi) (stop_or i r go)
  stop_or-Seen last i hi go h (miss o e) next =
      Seen-map (λ rest x. x)
        (λ es j lo up. elim (dec_lt i j) [ yes p ↦ es j p up | no p ↦ subst Empty (omega arith) e ])
        (λ v key f. record {
          slot = f.slot;
          rest = f.rest;
          low = omega (arith, f.low);
          high = f.high;
          key_eq = f.key_eq;
          good = f.good;
          none_before = λ j lo up. elim (dec_lt i j) [
            | yes p ↦ f.none_before j p up
            | no p ↦ subst Empty (omega arith) e
          ];
        })
        (next _ o)
  stop_or-Seen last i hi go h (hit {rest = rest} g) next = hit (record {
    slot = i;
    rest = rest;
    low = omega arith;
    high = h;
    key_eq = refl;
    good = g;
    none_before = λ j lo up. absurd (omega arith);
  })

  pub scan_up-Seen :
      (visit : ℕ → List ℕ → Found V) (last bound lo : ℕ)
      → ((i : ℕ) (rest : List ℕ)
          → lo ≤ i
          → i < bound
          → Ok rest
          → Seen Ok (Empty i) (Good i) (visit i rest))
      → (rounds i : ℕ) (rest : List ℕ) → rounds + i ≡ bound
      → lo ≤ i
      → Ok rest
      → Seen (Ended last) (EmptyIn i bound) (FirstIn i bound) (scan_up visit last rounds i rest)
  unfolding scan_up
  scan_up-Seen visit last bound lo one zero i rest e h o =
      miss (rest, refl, o) (λ j lo' up. absurd (omega arith))
  scan_up-Seen visit last bound lo one (suc rounds) i rest e h o =
      stop_or-Seen last i bound _ (omega arith) (one i rest h (omega arith) o) (λ rest' o'.
        rw add-one (
          scan_up-Seen visit last bound lo one rounds (suc i) rest' (omega arith) (omega arith) o'))

  -- The scan whose first visit is not like the others: it starts inside its slot.
  pub scan_up-Seen_first :
      (visit : ℕ → List ℕ → Found V) (last bound i : ℕ) (rest : List ℕ)
      → i < bound
      → Seen Ok (Empty i) (Good i) (visit i rest)
      → ((j : ℕ) (rest' : List ℕ)
          → i < j
          → j < bound
          → Ok rest'
          → Seen Ok (Empty j) (Good j) (visit j rest'))
      → Seen
          (Ended last)
          (EmptyIn i bound)
          (FirstIn i bound)
          (scan_up visit last (bound - i) i rest)
  unfolding scan_up
  scan_up-Seen_first visit last bound i rest h one others =
      let e : bound - i ≡ suc (bound - suc i) = omega arith in
      rw e (
        stop_or-Seen last i bound _ h one (λ rest' o'. rw add-one (
          scan_up-Seen visit last bound (suc i) others (bound - suc i) (suc i) rest' (omega arith)
            (omega arith) o')))
