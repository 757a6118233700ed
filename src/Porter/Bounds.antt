-- ===== src/Porter/Bounds.antt =====
-- The word never gets longer, and never empty.
use Prim.Native.String.{String}
use xtl.Prelude.{
  ℕ, zero, suc, ◌+◌, ◌-◌, ◌≤◌, ◌<◌, ◌≡◌, refl, ap, Bool, true, false, ◌==◌, leb, List, [], ◌∷◌,
  length, codes, arith, Bool-cases, inl, inr,
}
use xtl.Porter.{Stemmer, cons, m_loop, m, vowel_loop, vowelinstem, doublec, ends, setto, r, leading}
use xtl.Porter.Steps.{
  plural, restore, past, step1ab, step1c, SuffixRule, apply_rules, rules2, step2, rules3, step3,
  ends_any, suffixes4, ends_ion_ou, search4, step4, drop_e, drop_l, step5, stem, load, read_from,
  porter, ends_ed_ing,
}

-- The word starts at `lo`, which is an index that `int` has no need to be negative for, and ends at
-- `lo` or later, at `hi` or earlier.
pub record Within (lo hi : ℕ) (s : Stemmer) : Type 0 where
  pub first : s.k0 ≡ lo
  pub index : 1 ≤ lo
  pub low : lo ≤ s.k
  pub high : s.k ≤ hi

-- what `ends` leaves: the word as it was, and `j` before the suffix if it found it
record Ended (w : ℕ) (s : Stemmer) (found : Bool) (t : Stemmer) : Type 0 where
  k : t.k ≡ s.k
  k0 : t.k0 ≡ s.k0
  b : t.b ≡ s.b
  j : found ≡ true → (t.j + w ≡ s.k) × (s.k0 ≤ t.j + 1)
  same : found ≡ false → t ≡ s

ends_lem :
    (w : List ℕ) (s : Stemmer)
    → 1 ≤ s.k0
    → s.k0 ≤ s.k
    → Ended (length w) s (ends w s).0 (ends w s).1
unfolding ends
ends_lem w s h h' = ground arith

m-pos : (s : Stemmer) → 0 < m s → s.k0 < s.j
unfolding m m_loop
m-pos s h = go (s.j + 1 - s.k0) refl h
  where
    go : (d : ℕ) → s.j + 1 - s.k0 ≡ d → 0 < m_loop (cons s) leading 0 s.k0 d → s.k0 < s.j
    go zero e p = absurd (omega arith)
    go (suc zero) e p = absurd (omega arith)
    go (suc (suc d)) e p = omega arith

vowelinstem-true : (s : Stemmer) → vowelinstem s ≡ true → s.k0 ≤ s.j
unfolding vowelinstem vowel_loop
vowelinstem-true s h = go (s.j + 1 - s.k0) refl h
  where
    go : (d : ℕ) → s.j + 1 - s.k0 ≡ d → vowel_loop (cons s) s.k0 d ≡ true → s.k0 ≤ s.j
    go zero e p = cc
    go (suc d) e p = omega arith

setto_lem : (w : List ℕ) (s : Stemmer) → ((setto w s).k ≡ s.j + length w) × ((setto w s).k0 ≡ s.k0)
unfolding setto
setto_lem w s = (refl, refl)

module _ {lo hi : ℕ} where
  after_ends :
      (w : List ℕ) (s : Stemmer) → Within lo hi s → Ended (length w) s (ends w s).0 (ends w s).1
  after_ends w s v = ends_lem w s (omega arith) (omega arith)

  plural-Within : (s : Stemmer) → lo + 1 < s.k → Within lo hi s → Within lo hi (plural s)
  unfolding plural setto
  plural-Within s h v =
      let e1 = after_ends (codes "sses") s v in
      let t = (ends (codes "sses") s).1 in
      let v1 : Within lo hi t = ground (arith, e1) in
      let e2 = after_ends (codes "ies") t v1 in ground (arith, e1, e2)

  restore-Within : (s : Stemmer) → s.j ≡ s.k → s.k < hi → Within lo hi s → Within lo hi (restore s)
  unfolding restore setto doublec
  restore-Within s j h v =
      let e1 = after_ends (codes "at") s v in
      let e2 = after_ends (codes "bl") s v in
      let e3 = after_ends (codes "iz") s v in
      elim (Bool-cases (ends (codes "at") s).0) [
        | inl f1 ↦ rw f1 (ground (arith, e1))
        | inr g1 ↦ rw g1 (
            rw (e1.same g1) (elim (Bool-cases (ends (codes "bl") s).0) [
              | inl f2 ↦ rw f2 (ground (arith, e2))
              | inr g2 ↦ rw g2 (
                  rw (e2.same g2) (elim (Bool-cases (ends (codes "iz") s).0) [
                    | inl f3 ↦ rw f3 (ground (arith, e3))
                    | inr g3 ↦ rw g3 (rw (e3.same g3) (ground arith))
                  ]))
            ]))
      ]

  ends_ed_ing-Ended :
      (s : Stemmer)
      → Within lo hi s
      → Within lo hi (ends_ed_ing s).1 × ((ends_ed_ing s).0 ≡ true → (ends_ed_ing s).1.j + 2 ≤ s.k)
  unfolding ends_ed_ing
  ends_ed_ing-Ended s v =
      let e1 = after_ends (codes "ed") s v in
      elim (Bool-cases (ends (codes "ed") s).0) [
        | inl f ↦ rw f (ground (arith, e1), λ q. ground (arith, e1))
        | inr g ↦ rw g (
            rw (e1.same g) (
              let e2 = after_ends (codes "ing") s v in
              (ground (arith, e2), λ q. ground (arith, e2))))
      ]

  -- `k = j;` and what follows
  cut-Within :
      (t : Stemmer)
      → t.j + 2 ≤ hi
      → vowelinstem t ≡ true
      → Within lo hi t
      → Within lo hi (restore (record t { k = t.j }))
  cut-Within t h q v =
      let low = vowelinstem-true t q in
      restore-Within (record t { k = t.j }) refl (omega arith) (omega arith)

  past-Within : (s : Stemmer) → Within lo hi s → Within lo hi (past s)
  unfolding past
  past-Within s v =
      let e1 = after_ends (codes "eed") s v in
      elim (Bool-cases (ends (codes "eed") s).0) [
        | inl f1 ↦ rw f1 (ground (arith, e1, m-pos (ends (codes "eed") s).1))
        | inr g1 ↦
            rw g1 (
              rw (e1.same g1) (ground (arith, ends_ed_ing-Ended s v, cut-Within (ends_ed_ing s).1)))
      ]

  step1c-Within : (s : Stemmer) → Within lo hi s → Within lo hi (step1c s)
  unfolding step1c
  step1c-Within s v = ground (arith, after_ends (codes "y") s v)

abbrev Shrinks : List SuffixRule → Type 0
Shrinks [] = Unit
Shrinks ((suffix, by) ∷ rules) = (length (codes by) ≤ length (codes suffix)) × Shrinks rules

rules2-Shrinks : (c : ℕ) → Shrinks (rules2 c)
unfolding rules2
rules2-Shrinks c = ground arith

rules3-Shrinks : (c : ℕ) → Shrinks (rules3 c)
unfolding rules3
rules3-Shrinks c = ground arith

-- what the searches of `step4` leave
abbrev Kept : ℕ → ℕ → Bool × Stemmer → Type 0
Kept lo hi (found, t) = Within lo hi t × (found ≡ true → t.j ≤ t.k)

module _ {lo hi : ℕ} where
  apply_rules-Within :
      (rules : List SuffixRule) (s : Stemmer)
      → Shrinks rules
      → Within lo hi s
      → Within lo hi (apply_rules rules s)
  unfolding apply_rules r
  apply_rules-Within [] s h v = v
  apply_rules-Within ((suffix, by) ∷ rules) s h v =
      let e = after_ends (codes suffix) s v in
      elim (Bool-cases (ends (codes suffix) s).0) [
        | inl f ↦ rw f (
            ground (
              arith,
              e,
              m-pos (ends (codes suffix) s).1,
              setto_lem (codes by) (ends (codes suffix) s).1,
            ))
        | inr g ↦ rw g (rw (e.same g) (apply_rules-Within rules s h.1 v))
      ]

  ends_any-Kept : (ws : List String) (s : Stemmer) → Within lo hi s → Kept lo hi (ends_any ws s)
  unfolding ends_any
  ends_any-Kept [] s v = (v, λ q. cc)
  ends_any-Kept (w ∷ ws) s v =
      let e = after_ends (codes w) s v in
      elim (Bool-cases (ends (codes w) s).0) [
        | inl f ↦ rw f (ground (arith, e), λ q. ground (arith, e))
        | inr g ↦ rw g (rw (e.same g) (ends_any-Kept ws s v))
      ]

  ends_ion_ou-Kept : (s : Stemmer) → Within lo hi s → Kept lo hi (ends_ion_ou s)
  unfolding ends_ion_ou
  ends_ion_ou-Kept s v =
      let e = after_ends (codes "ion") s v in
      let t = (ends (codes "ion") s).1 in
      let v1 : Within lo hi t = ground (arith, e) in
      let e2 = after_ends (codes "ou") t v1 in ground (arith, e, e2)

  search4-Kept : (s : Stemmer) → Within lo hi s → Kept lo hi (search4 s)
  unfolding search4
  search4-Kept s v = elim (Bool-cases (s.b (s.k - 1) == b'o')) [
    | inl e ↦ rw e (ends_ion_ou-Kept s v)
    | inr e ↦ rw e (ends_any-Kept (suffixes4 (s.b (s.k - 1))) s v)
  ]

  step4-Within : (s : Stemmer) → Within lo hi s → Within lo hi (step4 s)
  unfolding step4
  step4-Within s v = ground (arith, search4-Kept s v, m-pos (search4 s).1)

  drop_e-Within : (s : Stemmer) → s.j ≡ s.k → Within lo hi s → Within lo hi (drop_e s)
  unfolding drop_e
  drop_e-Within s e v = ground (arith, m-pos s)

  drop_l-Within : (s : Stemmer) → Within lo hi s → Within lo hi (drop_l s)
  unfolding drop_l doublec
  drop_l-Within s v = ground arith

  step5-Within : (s : Stemmer) → Within lo hi s → Within lo hi (step5 s)
  unfolding step5
  step5-Within s v = drop_l-Within _ (drop_e-Within (record s { j = s.k }) refl (omega arith))

  step1ab-Within : (s : Stemmer) → lo + 1 < s.k → Within lo hi s → Within lo hi (step1ab s)
  unfolding step1ab
  step1ab-Within s h v = past-Within (plural s) (plural-Within s h v)

  step2-Within : (s : Stemmer) → Within lo hi s → Within lo hi (step2 s)
  unfolding step2
  step2-Within s v = apply_rules-Within (rules2 (s.b (s.k - 1))) s (rules2-Shrinks _) v

  step3-Within : (s : Stemmer) → Within lo hi s → Within lo hi (step3 s)
  unfolding step3
  step3-Within s v = apply_rules-Within (rules3 (s.b s.k)) s (rules3-Shrinks _) v

-- `stem(p, i, j)` of a word that is not empty returns an index from `i` to `j`: the word does
-- not get longer, and keeps at least one letter.
pub stem_bounds :
    (p : ℕ → ℕ) (i j : ℕ) → 1 ≤ i → i ≤ j → (i ≤ (stem p i j).k) × ((stem p i j).k ≤ j)
unfolding stem
stem_bounds p i j h le = elim (Bool-cases (leb j (i + 1))) [
  | inl e ↦ rw e (omega arith)
  | inr e ↦
      let s : Stemmer = record { b = p; k = j; k0 = i; j = 0 } in
      let v : Within i j s = omega arith in
      let w = step5-Within _ (
        step4-Within _ (
          step3-Within _ (step2-Within _ (step1c-Within _ (step1ab-Within s (ground arith) v))))) in
      rw e (w.low, w.high)
]

length-read_from : (b : ℕ → ℕ) (i n : ℕ) → length (read_from b i n) ≡ n
unfolding read_from
length-read_from b i zero = refl
length-read_from b i (suc n) = ap suc (length-read_from b (i + 1) n)

-- The stem of a word with letters is no longer than the word, and has a letter.
pub length-porter :
    (before c : ℕ) (w : List ℕ)
    → (length (porter before (c ∷ w)) ≤ length (c ∷ w)) × (0 < length (porter before (c ∷ w)))
unfolding porter
length-porter before c w =
    let s = stem (load before (c ∷ w)) 1 (length (c ∷ w)) in
    let b = stem_bounds (load before (c ∷ w)) 1 (length (c ∷ w)) (omega arith) (omega arith) in
    let n = length-read_from s.b 1 s.k in (omega arith, omega arith)
