-- ===== src/HashMap/Iteration.antt =====
-- Iteration meets the keys in the order of the scans.
use xtl.Prelude.{
  ℕ, zero, suc, ◌+◌, ◌-◌, ◌*◌, ◌%◌, ◌/◌, ◌≤◌, ◌<◌, ◌≡◌, ◌⊎◌, inl, inr, refl, ap, ◌∙◌, Option, none,
  some, List, [], ◌∷◌, arith, Option-cases, length, length-replicate,
}
use mathlib.Core.Path.{subst}
use xtl.HashMap.{HashMap}
use xtl.HashMap.Lookup.{lookup, keys}
use xtl.HashMap.Cursor.{
  Found, child_visit, leaf_visit, begin_scan, next_scan, no_key, others, on_last, next_start,
  Iterator, at_found, begin, increment,
}
use xtl.HashMap.Scan.{digits, Before, Seen, miss, hit, Seen-map, scan_up-Seen, scan_up-Seen_first}
use xtl.HashMap.Slots.{
  NoneOf, Least, Every, slot_at, SlotEmpty, SlotLeast, NoneOf-slots, Least-slots, LeafEmpty,
  LeafValue, NoneOf-leaf, Least-leaf,
}

-- A scan of the level `n` that starts at its first key.
abbrev pub Fresh :
    (V : Type 0) (n : ℕ) (Ok : List ℕ → Type 0) (f : HashMap V n → List ℕ → Found V) → Type 0
Fresh V n Ok f =
    (c : HashMap V n) (rest : List ℕ)
    → Ok rest
    → Seen Ok (NoneOf n (lookup V n c) Every) (Least n (lookup V n c) Every) (f c rest)

child_visit-Seen :
    (V : Type 0) (n : ℕ) (Ok : List ℕ → Type 0) (f : HashMap V n → List ℕ → Found V)
    → Fresh V n Ok f
    → (m : HashMap V (suc n)) (i : ℕ) (rest : List ℕ) → Ok rest
    → Seen Ok
        (SlotEmpty V n m Every (λ j. Every) i)
        (SlotLeast V n m Every (λ j. Every) i)
        (child_visit f m i rest)
child_visit-Seen V n Ok f fresh m i rest o = elim (Option-cases (m i)) [
  | inl e ↦ rw (e, child_visit) (miss o (λ z h t. refl))
  | inr (c, e) ↦ rw (e, child_visit) (fresh c rest o)
]

leaf_visit-Seen :
    (V : Type 0) (m : HashMap V zero) (i : ℕ) (rest : List ℕ)
    → rest ≡ []
    → Seen (λ r. r ≡ []) (LeafEmpty V m Every i) (LeafValue V m Every i) (leaf_visit m i rest)
leaf_visit-Seen V m i rest o = elim (Option-cases (m i)) [
  | inl e ↦ rw e (miss o refl)
  | inr (c, e) ↦ rw e (hit (e, o))
]

others-length : (n : ℕ) (key : List ℕ) → length key ≡ suc n → length (others key) ≡ n
others-length n [] h = absurd (omega arith)
others-length n (i ∷ rest) h = omega arith

nil_of_length : (r : List ℕ) → length r ≡ 0 → r ≡ []
nil_of_length [] h = refl
nil_of_length (i ∷ r) h = absurd (omega arith)

-- Whatever the nibbles are that it is handed, `_begin` finds the first key.
begin-Fresh : (V : Type 0) (n : ℕ) → Fresh V n (λ r. length r ≡ suc n) (begin_scan V n)
unfolding begin_scan
begin-Fresh V zero m key o =
    Seen-map (λ r x. ap length x.1 ∙ ap (λ t. suc (length t)) x.2)
      (NoneOf-leaf V m Every (λ r. r ≡ []) 0 (λ z f. omega arith) (λ i lo hi. tt))
      (Least-leaf V m Every (λ r. r ≡ []) 0 (λ z f. omega arith) (λ i lo hi. tt))
      (scan_up-Seen (λ r. r ≡ []) (LeafEmpty V m Every) (LeafValue V m Every) (leaf_visit m) 17 16 0
        (λ i rest l h. leaf_visit-Seen V m i rest) 16 0 _ refl (omega arith)
        (nil_of_length _ (others-length 0 key o)))
begin-Fresh V (suc n) m key o =
    Seen-map (λ r x. ap length x.1 ∙ ap suc x.2)
      (NoneOf-slots V n m Every (λ j. Every) (λ r. length r ≡ suc n) (λ z f. tt) (λ i k h f. tt) 0
        (λ z f. omega arith))
      (Least-slots V n m Every (λ j. Every) (λ r. length r ≡ suc n) (λ z f. tt) (λ i k h f. tt) 0
        (λ z f. omega arith))
      (scan_up-Seen (λ r. length r ≡ suc n) (SlotEmpty V n m Every (λ j. Every))
        (SlotLeast V n m Every (λ j. Every)) (child_visit (begin_scan V n) m) 17 16 0
        (λ i rest l h. child_visit-Seen V n _ (begin_scan V n) (begin-Fresh V n) m i rest) 16 0 _
        refl (omega arith) (others-length (suc n) key o))

pub next-Fresh : (V : Type 0) (n : ℕ) → Fresh V n (λ r. r ≡ no_key n) (next_scan V n)
unfolding next_scan
next-Fresh V zero m key o = rw o (
    Seen-map (λ r x. x.1 ∙ ap (λ t. 0 ∷ t) x.2)
      (NoneOf-leaf V m Every (λ r. r ≡ []) 0 (λ z f. omega arith) (λ i lo hi. tt))
      (Least-leaf V m Every (λ r. r ≡ []) 0 (λ z f. omega arith) (λ i lo hi. tt))
      (scan_up-Seen (λ r. r ≡ []) (LeafEmpty V m Every) (LeafValue V m Every) (leaf_visit m) 0 16 0
        (λ i rest l h. leaf_visit-Seen V m i rest) 16 0 [] refl (omega arith) refl))
next-Fresh V (suc n) m key o = rw o (
    Seen-map (λ r x. x.1 ∙ ap (λ t. 0 ∷ t) x.2)
      (NoneOf-slots V n m Every (λ j. Every) (λ r. r ≡ no_key n) (λ z f. tt) (λ i k h f. tt) 0
        (λ z f. omega arith))
      (Least-slots V n m Every (λ j. Every) (λ r. r ≡ no_key n) (λ z f. tt) (λ i k h f. tt) 0
        (λ z f. omega arith))
      (scan_up-Seen (λ r. r ≡ no_key n) (SlotEmpty V n m Every (λ j. Every))
        (SlotLeast V n m Every (λ j. Every)) (child_visit (next_scan V n) m) 0 16 0
        (λ i rest l h. child_visit-Seen V n _ (next_scan V n) (next-Fresh V n) m i rest) 16 0
        (no_key n) refl (omega arith) refl))

-- the nibbles of the position behind `x`, where its last nibble is less than 15
unfoldable pub top_nibble : ℕ → ℕ → ℕ
top_nibble zero x = x % 16
top_nibble (suc n) x = top_nibble n (x / 16)

pub none≢some : {A : Type 0} {a : A} → none ≡ some a → ⊥
none≢some h = cc

pub on_last-digits :
    (f : ℕ → ℕ) (n x : ℕ)
    → on_last f (digits (suc n) x) ≡ (x % 16 + 1) ∷ on_last f (digits n (x / 16))
on_last-digits f zero x = refl
on_last-digits f (suc n) x = refl

pub next_start_lem : (i : ℕ) → i < 16 → next_start (i + 1) ≡ i
next_start_lem i h = ground arith

NoneOf-mono :
    {V : Type 0} (n : ℕ) (at : ℕ → Option V) {F F' : ℕ → Type 0}
    → ((k : ℕ) → F' k → F k)
    → NoneOf n at F
    → NoneOf n at F'
NoneOf-mono n at f h z lt q = h z lt (f z q)

Least-iff :
    {V : Type 0} (n : ℕ) (at : ℕ → Option V) {F F' : ℕ → Type 0}
    → ((k : ℕ) → F k → F' k)
    → ((k : ℕ) → F' k → F k)
    → (v : V) (key : List ℕ) → Least n at F v key
    → Least n at F' v key
Least-iff n at f g v key l = record {
  item = l.item;
  small = l.small;
  fits = f _ l.fits;
  spelled = l.spelled;
  value = l.value;
  none_before = λ z h q. l.none_before z h (g z q.0, q.1);
}

-- the keys of slot `i` behind `x`
abbrev Behind : ℕ → ℕ → ℕ → ℕ → Type 0
Behind n x i k = Before (suc n) x (i + 16 * k)

Behind-same : (n x k : ℕ) → Before n (x / 16) k → Behind n x (x % 16) k
Behind-same n x k b = inr (omega arith, subst (Before n (x / 16)) (omega arith) b)

Behind-same_inv : (n x k : ℕ) → Behind n x (x % 16) k → Before n (x / 16) k
Behind-same_inv n x k (inl l) = absurd (omega arith)
Behind-same_inv n x k (inr q) = subst (Before n (x / 16)) (omega arith) q.1

Before-le : (n x z : ℕ) → Before (suc n) x z → x % 16 ≤ z % 16
Before-le n x z (inl l) = omega arith
Before-le n x z (inr q) = omega arith

-- a slot behind that of `x`
later_visit-Seen :
    (V : Type 0) (n : ℕ) (m : HashMap V (suc n)) (x j : ℕ) (rest : List ℕ)
    → x % 16 < j
    → j < 16
    → rest ≡ no_key n
    → Seen
        (λ r. r ≡ no_key n)
        (SlotEmpty V n m Every (Behind n x) j)
        (SlotLeast V n m Every (Behind n x) j)
        (child_visit (next_scan V n) m j rest)
later_visit-Seen V n m x j rest lt hi o =
    Seen-map (λ r q. q) (NoneOf-mono n (slot_at V n (m j)) (λ k f. tt))
      (Least-iff n (slot_at V n (m j)) (λ k f. inl (omega arith)) (λ k f. tt))
      (child_visit-Seen V n _ (next_scan V n) (next-Fresh V n) m j rest o)

abbrev pub Goes : (V : Type 0) (n : ℕ) (F : ℕ → Type 0) (m : HashMap V n) → List ℕ → Type 0
Goes V n F m key =
    Seen (λ r. r ≡ no_key n) (NoneOf n (lookup V n m) F) (Least n (lookup V n m) F)
      (next_scan V n m key)

-- the slot of `x` itself
first_visit-Seen :
    (V : Type 0) (n : ℕ) (m : HashMap V (suc n)) (x : ℕ) (v : V) (key : List ℕ)
    → lookup V (suc n) m x ≡ some v
    → ((c : HashMap V n) → lookup V n c (x / 16) ≡ some v → Goes V n (Before n (x / 16)) c key)
    → Seen
        (λ r. r ≡ no_key n)
        (SlotEmpty V n m Every (Behind n x) (x % 16))
        (SlotLeast V n m Every (Behind n x) (x % 16))
        (child_visit (next_scan V n) m (x % 16) key)
unfolding lookup
first_visit-Seen V n m x v key e go = elim (Option-cases (m (x % 16))) [
  | inl q ↦ absurd (none≢some (rw (q, lookup) at e))
  | inr (c, q) ↦
      rw (q, child_visit)
        (Seen-map (λ r z. z) (NoneOf-mono n _ (Behind-same_inv n x))
          (Least-iff n _ (Behind-same n x) (Behind-same_inv n x)) (go c (rw (q, lookup) at e)))
]

-- `_next` behind the key `x`
pub next-After :
    (V : Type 0) (n : ℕ) (m : HashMap V n) (x : ℕ) (v : V)
    → x < keys n
    → top_nibble n x < 15
    → lookup V n m x ≡ some v
    → Goes V n (Before n x) m (on_last (λ i. i + 1) (digits n x))
unfolding next_scan top_nibble lookup
next-After V zero m x v h t e =
    let i = x % 16 + 1 in
    rw (next_start_lem i (omega arith)) (
      Seen-map (λ r x. x.1 ∙ ap (λ t. 0 ∷ t) x.2)
        (NoneOf-leaf V m (Before zero x) (λ r. r ≡ []) i (λ z f. omega arith)
          (λ j lo hi. omega arith))
        (Least-leaf V m (Before zero x) (λ r. r ≡ []) i (λ z f. omega arith)
          (λ j lo hi. omega arith))
        (scan_up-Seen (λ r. r ≡ []) (LeafEmpty V m Every) (LeafValue V m Every) (leaf_visit m) 0 16
          0 (λ i rest l h. leaf_visit-Seen V m i rest) (16 - i) i [] (omega arith) (omega arith)
          refl))
next-After V (suc n) m x v h t e =
    let G = Behind n x in
    rw (on_last-digits (λ i. i + 1) n x) (
      rw (next_start_lem (x % 16) (omega arith)) (
        Seen-map (λ r x. x.1 ∙ ap (λ t. 0 ∷ t) x.2)
          (NoneOf-slots V n m (Before (suc n) x) G (λ r. r ≡ no_key n)
            (λ z f. subst (Before (suc n) x) (omega arith) f) (λ i k h f. f) (x % 16)
            (λ z. Before-le n x z))
          (Least-slots V n m (Before (suc n) x) G (λ r. r ≡ no_key n)
            (λ z f. subst (Before (suc n) x) (omega arith) f) (λ i k h f. f) (x % 16)
            (λ z. Before-le n x z))
          (scan_up-Seen_first (λ r. r ≡ no_key n) (SlotEmpty V n m Every G)
            (SlotLeast V n m Every G) (child_visit (next_scan V n) m) 0 16 (x % 16) _ (omega arith)
            (first_visit-Seen V n m x v _ e (λ c q. next-After V n c (x / 16) v (omega arith) t q))
            (λ j rest' lt hi o. later_visit-Seen V n m x j rest' lt hi o))))

-- An iterator stands at the end, and no key of `F` has a value, or at the first key of `F` that has.
abbrev pub Arrives : {V : Type 0} (n : ℕ) (at : ℕ → Option V) (F : ℕ → Type 0) → Iterator V → Type 0
Arrives {V} n at F it =
    ((it.current ≡ none) × NoneOf n at F)
    ⊎ ((v : V) × (it.current ≡ some v) × Least n at F v it.key)

Seen-Arrives :
    {V : Type 0} (n : ℕ) (at : ℕ → Option V) (F : ℕ → Type 0) {Ok : List ℕ → Type 0} {r : Found V}
    → Seen Ok (NoneOf n at F) (Least n at F) r
    → Arrives n at F (at_found r)
unfolding at_found
Seen-Arrives n at F (miss o e) = inl (refl, e)
Seen-Arrives n at F (hit {v = v} l) = inr (v, refl, l)

-- `begin` stands at the first key of all that have a value, and is the end only if there is none.
pub begin_lem :
    (V : Type 0) (n : ℕ) (m : HashMap V n) → Arrives n (lookup V n m) Every (begin V n m)
unfolding begin
begin_lem V n m =
    Seen-Arrives n (lookup V n m) Every (begin-Fresh V n m (no_key n) (length-replicate (suc n) 0))

-- From a key with a value whose top nibble is less than 15, `++` goes to the next key with a
-- value in the order of the scans, and to the end only if there is none.
pub increment_lem :
    (V : Type 0) (n : ℕ) (m : HashMap V n) (x : ℕ) (v : V)
    → x < keys n
    → top_nibble n x < 15
    → lookup V n m x ≡ some v
    → Arrives n
        (lookup V n m)
        (Before n x)
        (increment V n m (record { current = some v; key = digits n x }))
unfolding increment
increment_lem V n m x v h t e =
    Seen-Arrives n (lookup V n m) (Before n x) (next-After V n m x v h t e)
