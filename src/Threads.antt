-- ===== src/Threads.antt =====
-- Threads that run against shared memory, interleaved one atomic access at a time. The locks and
-- the containers under include/xtd/concurrent give the move of one thread; this file gives the
-- system of `n` threads and the sums over threads that the invariants speak of.
use xtl.Prelude.{
  ℕ, zero, suc, ◌+◌, ◌≤◌, ◌<◌, ◌≡◌, ◌≢◌, refl, update, ◌==◌, arith, dec_lt, ℕ_discrete, Bool-cases,
  inl, inr, sym, ◌∙◌, update_self, update_other,
}
use mathlib.Core.Path.{subst₂}

-- The shared memory, and where each thread stands.
pub record System (Mem Pc : Type 0) : Type 0 where
  pub mem : Mem
  pub pc : ℕ → Pc

module _ {Mem Pc : Type 0} (Move : Mem → Pc → Mem → Pc → Type 0) (n : ℕ) where
  -- One of the threads below `n` makes a move.
  pub data Step (s : System Mem Pc) : System Mem Pc → Type 0 where
    pick :
        (i : ℕ) {m : Mem} {p : Pc}
        → i < n
        → Move s.mem (s.pc i) m p
        → Step s (record { mem = m; pc = update s.pc i p })

  -- Any number of moves.
  pub data Reach (s : System Mem Pc) : System Mem Pc → Type 0 where
    start : Reach s s
    later : {t u : System Mem Pc} → Reach s t → Step t u → Reach s u

  -- What every move of every thread keeps holds in every state reached.
  pub Reach-invariant :
      (Inv : Mem → (ℕ → Pc) → Type 0)
      → ((m : Mem) (pc : ℕ → Pc) (i : ℕ) (m' : Mem) (p' : Pc)
          → i < n
          → Move m (pc i) m' p'
          → Inv m pc
          → Inv m' (update pc i p'))
      → (s t : System Mem Pc) → Reach s t
      → Inv s.mem s.pc
      → Inv t.mem t.pc
  Reach-invariant Inv keep s t start h = h
  Reach-invariant Inv keep s t (later {t = r} r_reach (pick i lt mv)) h =
      keep r.mem r.pc i _ _ lt mv (Reach-invariant Inv keep s r r_reach h)

-- The sum of a weight over the threads below `n`.
module _ {Pc : Type 0} (weight : Pc → ℕ) where
  unfoldable pub weigh : ℕ → (ℕ → Pc) → ℕ
  weigh zero pc = 0
  weigh (suc n) pc = weight (pc n) + weigh n pc

  weigh_past : (n : ℕ) (pc : ℕ → Pc) (i : ℕ) (p : Pc) → n ≤ i → weigh n (update pc i p) ≡ weigh n pc
  unfolding weigh
  weigh_past zero pc i p h = refl
  weigh_past (suc n) pc i p h = ground (arith, weigh_past n pc i p)

  pub weigh-update :
      (n : ℕ) (pc : ℕ → Pc) (i : ℕ) (p : Pc)
      → i < n
      → weigh n (update pc i p) + weight (pc i) ≡ weigh n pc + weight p
  unfolding weigh
  weigh-update zero pc i p h = absurd (omega arith)
  weigh-update (suc n) pc i p h = elim (dec_lt i n) [
    | yes q ↦ ground (arith, weigh-update n pc i p q)
    | no q ↦ ground (arith, weigh_past n pc i p)
  ]

  pub weight-le-weigh : (n : ℕ) (pc : ℕ → Pc) (i : ℕ) → i < n → weight (pc i) ≤ weigh n pc
  unfolding weigh
  weight-le-weigh zero pc i h = absurd (omega arith)
  weight-le-weigh (suc n) pc i h = elim (ℕ_discrete i n) [
    | yes e ↦ rw e (omega arith)
    | no q ↦ omega (arith, weight-le-weigh n pc i (omega arith))
  ]

  -- Two threads weigh no more than all.
  pub two-le-weigh :
      (n : ℕ) (pc : ℕ → Pc) (i j : ℕ)
      → i < n
      → j < n
      → i ≢ j
      → weight (pc i) + weight (pc j) ≤ weigh n pc
  unfolding weigh
  two-le-weigh zero pc i j hi hj ne = absurd (omega arith)
  two-le-weigh (suc n) pc i j hi hj ne = elim (ℕ_discrete i n) [
    | yes e ↦ rw e (omega (arith, weight-le-weigh n pc j (omega arith)))
    | no q ↦ elim (ℕ_discrete j n) [
      | yes e ↦ rw e (omega (arith, weight-le-weigh n pc i (omega arith)))
      | no r ↦ omega (arith, two-le-weigh n pc i j (omega arith) (omega arith) ne)
    ]
  ]

  pub weigh-le : ((p : Pc) → weight p ≤ 1) → (n : ℕ) (pc : ℕ → Pc) → weigh n pc ≤ n
  unfolding weigh
  weigh-le small zero pc = omega arith
  weigh-le small (suc n) pc = omega (arith, small (pc n), weigh-le small n pc)

  pub weigh-eq-zero : (n : ℕ) (pc : ℕ → Pc) → ((i : ℕ) → weight (pc i) ≡ 0) → weigh n pc ≡ 0
  unfolding weigh
  weigh-eq-zero zero pc h = refl
  weigh-eq-zero (suc n) pc h = omega (arith, h n, weigh-eq-zero n pc h)

-- What holds at every thread, and at the new place of the one that moves.
pub update_all :
    {Pc : Type 0} (P : Pc → Type 0) (pc : ℕ → Pc) (i : ℕ) (p : Pc)
    → P p
    → ((j : ℕ) → P (pc j))
    → (j : ℕ) → P (update pc i p j)
update_all P pc i p new old j = elim (Bool-cases (i == j)) [
  | inl e ↦ rw e new
  | inr e ↦ rw e (old j)
]

-- `k` moves of thread `i`, one after the other, with no move of another thread in between.
pub data Solo {Mem Pc : Type 0} (Move : Mem → Pc → Mem → Pc → Type 0) (i : ℕ)
    : ℕ → System Mem Pc → System Mem Pc → Type 0 where
  none_left : {s : System Mem Pc} → Solo Move i 0 s s
  one_more :
      {k : ℕ} {s u : System Mem Pc} {m : Mem} {p : Pc}
      → Move s.mem (s.pc i) m p
      → Solo Move i k (record { mem = m; pc = update s.pc i p }) u
      → Solo Move i (suc k) s u

-- Such moves are moves of the system.
pub Solo-Reach :
    {Mem Pc : Type 0} (Move : Mem → Pc → Mem → Pc → Type 0) (n i k : ℕ) (s t u : System Mem Pc)
    → i < n
    → Solo Move i k t u
    → Reach Move n s t
    → Reach Move n s u
Solo-Reach Move n i zero s t u lt none_left r = r
Solo-Reach Move n i (suc k) s t u lt (one_more mv rest) r =
    Solo-Reach Move n i k s _ u lt rest (later r (pick i lt mv))

-- A number of moves from a place and a memory to another place and memory.
pub data Run {Mem Pc : Type 0} (Move : Mem → Pc → Mem → Pc → Type 0)
    : ℕ → Mem → Pc → Mem → Pc → Type 0 where
  done : {m : Mem} {p : Pc} → Run Move 0 m p m p
  next :
      {k : ℕ} {m m' m'' : Mem} {p p' p'' : Pc}
      → Move m p m' p'
      → Run Move k m' p' m'' p''
      → Run Move (suc k) m p m'' p''

-- In a system one thread may run alone; the others stay where they are.
pub Run-Solo :
    {Mem Pc : Type 0} (Move : Mem → Pc → Mem → Pc → Type 0) (i k : ℕ) (t : System Mem Pc)
    {m m' : Mem} {p p' : Pc}
    → Run Move k m p m' p'
    → t.mem ≡ m
    → t.pc i ≡ p
    → (u : System Mem Pc) × Solo Move i k t u
      × (u.mem ≡ m')
      × (u.pc i ≡ p')
      × ((j : ℕ) → i ≢ j → u.pc j ≡ t.pc j)
Run-Solo Move i zero t done em ep = (t, none_left, em, ep, λ j ne. refl)
Run-Solo Move i (suc k) t (next {m' = m1} {p' = p1} mv rest) em ep =
    let t1 : System _ _ = record { mem = m1; pc = update t.pc i p1 } in
    let first = subst₂ (λ x q. Move x q m1 p1) (sym em) (sym ep) mv in
    let (u, su, um, up, same) = Run-Solo Move i k t1 rest refl (update_self t.pc i p1) in
    (u, one_more first su, um, up, λ j ne. same j ne ∙ update_other t.pc i j p1 ne)
