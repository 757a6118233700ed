-- ===== src/Porter/Measure.antt =====
-- What `m` measures.
use xtl.Prelude.{
  ℕ, zero, suc, ◌+◌, ◌-◌, ◌≡◌, refl, ◌∙◌, Bool, not, ◌&&◌, if◌then◌else◌, arith, Bool-cases, inl,
  inr, dec_lt,
}
use native.Mathlib.Nat.{zero-add}
use xtl.Porter.{Stemmer, cons, leading, vowels, consonants, m_loop, m}

-- The places from `i`, among the next `r`, where a consonant follows a vowel.
abbrev pub vc_count : (ℕ → Bool) → ℕ → ℕ → ℕ
vc_count c i zero = 0
vc_count c i (suc r) = (if not (c i) && c (i + 1) then 1 else 0) + vc_count c (i + 1) r

m_loop_lem :
    (c : ℕ → Bool) (i r n : ℕ)
    → (m_loop c (if c i then consonants else vowels) n (i + 1) r ≡ n + vc_count c i r)
      × (m_loop c (if c i then leading else vowels) n (i + 1) r ≡ n + vc_count c i r)
unfolding m_loop
m_loop_lem c i zero n = (omega arith, omega arith)
m_loop_lem c i (suc r) n =
    let same = m_loop_lem c (i + 1) r n in
    let more = m_loop_lem c (i + 1) r (n + 1) in
    elim (Bool-cases (c i)) [
      | inl e ↦ rw e (ground (arith, same), ground (arith, same))
      | inr e ↦ rw e (ground (arith, same, more), ground (arith, same, more))
    ]

-- `m` counts the places between `k0` and `j` where a consonant follows a vowel.
pub m_lem : (s : Stemmer) → m s ≡ vc_count (cons s) s.k0 (s.j - s.k0)
unfolding m m_loop
m_lem s = elim (dec_lt s.j s.k0) [
  | yes h ↦
      let e : s.j + 1 - s.k0 ≡ 0 = omega arith in
      let e' : s.j - s.k0 ≡ 0 = omega arith in rw (e, e') refl
  | no h ↦
      let e : s.j + 1 - s.k0 ≡ suc (s.j - s.k0) = omega arith in
      rw e ((m_loop_lem (cons s) s.k0 (s.j - s.k0) 0).1 ∙ zero-add _)
]
