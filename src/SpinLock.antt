-- ===== src/SpinLock.antt =====
-- include/xtd/concurrent/spin_lock.hpp: `spin_lock_base`, one atomic access at a time. The state is
-- the word `_lock`.
use xtl.Prelude.{ℕ, ◌+◌, ◌≤◌, ◌<◌, ◌≡◌, ◌≢◌, ◌⊎◌, inl, refl, update, arith}
use xtl.Threads.{
  System, Reach, Reach-invariant, weigh, weigh-update, weight-le-weigh, two-le-weigh, weigh-eq-zero,
}

-- `LockedValue`
abbrev pub locked_value : ℕ
locked_value = 0x80000000

pub data Pc : Type 0 where
  idle : Pc
  spinning : Pc  -- the head of the loop of `lock`
  locked : Pc

-- One step of one thread: `lock` compares with a fresh 0 in each round.
pub data Move (w : ℕ) : Pc → ℕ → Pc → Type 0 where
  lock : Move w idle w spinning
  lock_won : w ≡ 0 → Move w spinning locked_value locked
  lock_lost : w ≢ 0 → Move w spinning w spinning
  try_lock_won : w ≡ 0 → Move w idle locked_value locked
  try_lock_lost : w ≢ 0 → Move w idle w idle
  unlock : Move w locked 0 idle

abbrev pub holds : Pc → ℕ
holds locked = 1
holds p = 0

abbrev pub unlocked : System ℕ Pc
unlocked = record { mem = 0; pc = λ i. idle }

-- The word says how many threads hold the lock.
abbrev Word : ℕ → ℕ → Type 0
Word w h = ((h ≡ 0) × (w ≡ 0)) ⊎ ((h ≡ 1) × (w ≡ locked_value))

Move-Word :
    {w w' : ℕ} {p p' : Pc} (h h' : ℕ)
    → Move w p w' p'
    → h' + holds p ≡ h + holds p'
    → holds p ≤ h
    → Word w h
    → Word w' h'
Move-Word h h' (lock_won q) e le v = ground arith
Move-Word h h' (lock_lost q) e le v = ground arith
Move-Word h h' (try_lock_won q) e le v = ground arith
Move-Word h h' (try_lock_lost q) e le v = ground arith
Move-Word h h' mv e le v = ground arith

Reach-Word : (n : ℕ) (t : System ℕ Pc) → Reach Move n unlocked t → Word t.mem (weigh holds n t.pc)
Reach-Word n t r =
    Reach-invariant Move n (λ w pc. Word w (weigh holds n pc))
      (λ w pc i w' p' lt mv v.
        Move-Word (weigh holds n pc) (weigh holds n (update pc i p')) mv
          (weigh-update holds n pc i p' lt) (weight-le-weigh holds n pc i lt) v)
      unlocked t r (inl (weigh-eq-zero holds n (λ i. idle) (λ i. refl), refl))

-- However the threads interleave: while a thread holds the lock no other does, and the word is
-- `LockedValue`.
pub exclusion :
    (n : ℕ) (t : System ℕ Pc) (i j : ℕ)
    → Reach Move n unlocked t
    → i < n
    → j < n
    → i ≢ j
    → t.pc i ≡ locked
    → (t.pc j ≢ locked) × (t.mem ≡ locked_value)
exclusion n t i j r hi hj ne h = (
  λ e. ground (arith, Reach-Word n t r, two-le-weigh holds n t.pc i j hi hj ne),
  ground (arith, Reach-Word n t r, weight-le-weigh holds n t.pc i hi),
)

-- However the threads interleave: when no thread holds the lock, the word is 0, so that the next
-- `lock` or `try_lock` succeeds.
pub free_word :
    (n : ℕ) (t : System ℕ Pc) → Reach Move n unlocked t → weigh holds n t.pc ≡ 0 → t.mem ≡ 0
free_word n t r h = ground (arith, Reach-Word n t r)
