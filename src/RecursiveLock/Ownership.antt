-- ===== src/RecursiveLock/Ownership.antt =====
-- Who owns the recursive lock, and how often.
use xtl.Prelude.{
  ℕ, ◌+◌, ◌<◌, ◌^◌, ◌≡◌, ◌≢◌, ◌⊎◌, refl, ◌∙◌, update, ◌==◌, arith, Bool, true, false, ◌||◌, ltb,
}
use xtl.Threads.{System, Reach, start, Reach-invariant, done, next, Solo, Solo-Reach, Run-Solo}
use xtl.RecursiveLock.{
  no_owner, Mem, Stage, outside, first_cas, second_cas, counting, releasing, storing, Pc, thread,
  Move,
}

abbrev in_section : Stage → Bool
in_section counting = true
in_section releasing = true
in_section storing = true
in_section st = false

-- The thread has the lock: it has locked more often than unlocked, or is about to count.
abbrev pub owns : Pc → Bool
owns p = ltb 0 p.depth || in_section p.stage

-- what the place in the code says of the depth
abbrev Depth : Pc → Type 0
Depth p =
    (p.stage ≡ storing → p.depth ≡ 0)
    × (p.stage ≡ releasing → 0 < p.depth)
    × (p.depth < 2 ^ 32)
    × ((p.stage ≡ first_cas) ⊎ (p.stage ≡ second_cas) ⊎ (p.stage ≡ counting) → p.depth + 1 < 2 ^ 32)

record Inv (hash : ℕ → ℕ) (n : ℕ) (m : Mem) (pc : ℕ → Pc) : Type 0 where
  id : (i : ℕ) → i < n → (pc i).id ≡ hash i
  depth : (i : ℕ) → i < n → Depth (pc i)
  owner : (i : ℕ) → i < n → owns (pc i) ≡ true → (m.lock ≡ hash i) × (m.lock_count ≡ (pc i).depth)
  owned : (i : ℕ) → i < n → m.lock ≡ hash i → owns (pc i) ≡ true
  free : m.lock ≡ no_owner → m.lock_count ≡ 0

-- No two of the threads have one hash, and none has the hash -1.
pub record IsDistinct (hash : ℕ → ℕ) (n : ℕ) : Type 0 where
  pub apart : (i j : ℕ) → i < n → j < n → hash i ≡ hash j → i ≡ j
  pub proper : (i : ℕ) → i < n → hash i < no_owner

-- what a move does to the mover
record Moved (h : ℕ) (m : Mem) (p : Pc) (m' : Mem) (p' : Pc) : Type 0 where
  same_id : p'.id ≡ p.id
  depth : Depth p'
  owner : owns p' ≡ true → (m'.lock ≡ h) × (m'.lock_count ≡ p'.depth)
  owned : m'.lock ≡ h → owns p' ≡ true
  free : m'.lock ≡ no_owner → m'.lock_count ≡ 0
  -- if it did not own the lock before, the memory changed only if nobody did
  others : (owns p ≡ true) ⊎ (m.lock ≡ no_owner) ⊎ (m' ≡ m)
  taken : (m'.lock ≡ h) ⊎ (m'.lock ≡ no_owner) ⊎ (m' ≡ m)

Move-Moved :
    (h : ℕ) {m m' : Mem} {p p' : Pc}
    → h < no_owner
    → Move m p m' p'
    → p.id ≡ h
    → Depth p
    → (owns p ≡ true → (m.lock ≡ h) × (m.lock_count ≡ p.depth))
    → (m.lock ≡ h → owns p ≡ true)
    → (m.lock ≡ no_owner → m.lock_count ≡ 0)
    → Moved h m p m' p'
Move-Moved h lt (Move.try_lock q) e d o w f = ground arith
Move-Moved h lt (Move.first_won q) e d o w f = ground arith
Move-Moved h lt (Move.first_lost q) e d o w f = ground arith
Move-Moved h lt (Move.second_won q) e d o w f = ground arith
Move-Moved h lt (Move.second_lost q) e d o w f = ground arith
Move-Moved h lt (Move.counted) e d o w f = ground arith
Move-Moved h lt (Move.unlock q) e d o w f = ground arith
Move-Moved h lt (Move.released q) e d o w f = ground arith
Move-Moved h lt (Move.kept q) e d o w f = ground arith
Move-Moved h lt (Move.stored) e d o w f = ground arith

module _ (hash : ℕ → ℕ) (n : ℕ) (distinct : IsDistinct hash n) where
  Inv-keep :
      (m : Mem) (pc : ℕ → Pc) (i : ℕ) (m' : Mem) (p' : Pc)
      → i < n
      → Move m (pc i) m' p'
      → Inv hash n m pc
      → Inv hash n m' (update pc i p')
  Inv-keep m pc i m' p' lt mv inv = record {
    id = λ j hj. ground (arith, moved.same_id, inv.id i lt, inv.id j hj);
    depth = λ j hj. ground (arith, moved.depth, inv.depth j hj);
    owner = λ j hj. ground (
      arith,
      moved.owner,
      moved.others,
      moved.taken,
      inv.owner i lt,
      inv.owner j hj,
      distinct.apart i j lt hj,
      distinct.proper j hj,
    );
    owned = λ j hj. ground (
      arith,
      moved.owned,
      moved.others,
      moved.taken,
      inv.owned i lt,
      inv.owned j hj,
      distinct.apart i j lt hj,
      distinct.proper j hj,
    );
    free = moved.free;
  }
    where
      moved : Moved (hash i) m (pc i) m' p'
      moved =
          Move-Moved (hash i) (distinct.proper i lt) mv (inv.id i lt) (inv.depth i lt)
            (inv.owner i lt) (inv.owned i lt) inv.free

  -- The lock as it is constructed, with every thread outside.
  abbrev pub unlocked : System Mem Pc
  unlocked = record {
    mem = record { lock = no_owner; lock_count = 0 };
    pc = λ i. thread (hash i) 0 outside;
  }

  unlocked-Inv : Inv hash n unlocked.mem unlocked.pc
  unlocked-Inv = record {
    id = λ i h. refl;
    depth = λ i h. ground arith;
    owner = λ i h q. cc;
    owned = λ i h q. absurd (omega (arith, distinct.proper i h));
    free = λ q. refl;
  }

  Reach-Inv : (t : System Mem Pc) → Reach Move n unlocked t → Inv hash n t.mem t.pc
  Reach-Inv t r = Reach-invariant Move n (Inv hash n) Inv-keep unlocked t r unlocked-Inv

  -- However the threads interleave: if thread `i` owns the lock, its hash stands in `_lock`, the
  -- number of its open calls in `_lock_count`, and no other thread owns it.
  pub ownership :
      (t : System Mem Pc) (i j : ℕ)
      → Reach Move n unlocked t
      → i < n
      → j < n
      → owns (t.pc i) ≡ true
      → (t.mem.lock ≡ hash i) × (t.mem.lock_count ≡ (t.pc i).depth) × (owns (t.pc j) ≡ (i == j))
  ownership t i j r hi hj own =
      let inv = Reach-Inv t r in
      (
        (inv.owner i hi own).0,
        (inv.owner i hi own).1,
        ground (arith, inv.owner i hi, inv.owner j hj, distinct.apart i j hi hj),
      )

  -- However the threads interleave: when `_lock` is -1, the count is 0 and nobody owns the lock.
  pub nobody_owns :
      (t : System Mem Pc) (i : ℕ)
      → Reach Move n unlocked t
      → i < n
      → t.mem.lock ≡ no_owner
      → (t.mem.lock_count ≡ 0) × (owns (t.pc i) ≡ false)
  nobody_owns t i r h e =
      let inv = Reach-Inv t r in (inv.free e, ground (arith, inv.owner i h, distinct.proper i h))

  -- However the threads interleave: a thread that owns the lock, stands outside of its operations and
  -- has fewer than 2^32 - 1 calls open gets the lock again in four moves of its own (the call, two
  -- exchanges and the count), with no move of another thread in between. They add 1 to the count and to its depth, and change nothing else.
  pub reentrant :
      (t : System Mem Pc) (i : ℕ)
      → Reach Move n unlocked t
      → i < n
      → (t.pc i).stage ≡ outside
      → owns (t.pc i) ≡ true
      → (t.pc i).depth + 1 < 2 ^ 32
      → (u : System Mem Pc) × Solo Move i 4 t u
        × Reach Move n t u
        × (u.mem ≡ record { lock = hash i; lock_count = t.mem.lock_count + 1 })
        × (u.pc i ≡ thread (hash i) ((t.pc i).depth + 1) outside)
        × ((j : ℕ) → i ≢ j → u.pc j ≡ t.pc j)
  reentrant t i r lt out own small =
      let inv = Reach-Inv t r in
      let h : t.mem.lock ≡ hash i = (inv.owner i lt own).0 in
      let d = (t.pc i).depth in
      let here : t.pc i ≡ thread (hash i) d outside = ground (arith, inv.id i lt) in
      let (u, run, um, up, same) =
        Run-Solo Move i 4 t
          (next (Move.try_lock {h = hash i} {d = d} small) (
            next (Move.first_lost (omega (arith, distinct.proper i lt)))
              (next (Move.second_won h) (next Move.counted done))))
          refl here in
      (
        u,
        run,
        Solo-Reach Move n i 4 t t u lt run start,
        um ∙ ground (arith, inv.owner i lt, inv.depth i lt),
        up,
        same,
      )
