-- ===== src/RecursiveLock.antt =====
-- include/xtd/concurrent/recursive_spin_lock.hpp: `recursive_spin_lock_base`, one access at a time.
-- `_lock` holds the hash of the owner's thread id, or `size_t(-1)`; the hash is a parameter. The
-- step `++_lock_count` and the test `0 == --_lock_count` each count as one access: the theorems show
-- that only the owner comes to them.
pub mod Ownership
use xtl.Prelude.{ℕ, ◌+◌, ◌-◌, ◌%◌, ◌<◌, ◌^◌, ◌≡◌, ◌≢◌}

-- `size_t(-1)`
abbrev pub no_owner : ℕ
no_owner = 2 ^ 64 - 1

pub record Mem : Type 0 where
  pub lock : ℕ
  pub lock_count : ℕ

pub data Stage : Type 0 where
  outside : Stage  -- between the calls
  first_cas : Stage  -- `try_lock`, before the exchange with -1
  second_cas : Stage  -- `try_lock`, before the exchange with the thread's own id
  counting : Stage  -- before `++_lock_count`
  releasing : Stage  -- `unlock`, before `--_lock_count`
  storing : Stage  -- `unlock`, before the store of -1

-- A thread: the hash of its id, how often it has locked and not unlocked, and its place in the code.
pub record Pc : Type 0 where
  pub id : ℕ
  pub depth : ℕ
  pub stage : Stage

abbrev pub thread : ℕ → ℕ → Stage → Pc
thread id d st = record { id = id; depth = d; stage = st }

-- One step of one thread. A thread calls `unlock` only while it holds the lock, and does not nest
-- 2^32 calls. `lock` is `try_lock` until it returns true.
pub data Move (m : Mem) : Pc → Mem → Pc → Type 0 where
  try_lock :
      {h d : ℕ} → d + 1 < 2 ^ 32 → Move m (thread h d Stage.outside) m (thread h d Stage.first_cas)
  first_won :
      {h d : ℕ}
      → m.lock ≡ no_owner
      → Move m (thread h d Stage.first_cas) (record m { lock = h }) (thread h d Stage.counting)
  first_lost :
      {h d : ℕ}
      → m.lock ≢ no_owner
      → Move m (thread h d Stage.first_cas) m (thread h d Stage.second_cas)
  second_won :
      {h d : ℕ} → m.lock ≡ h → Move m (thread h d Stage.second_cas) m (thread h d Stage.counting)
  second_lost :
      {h d : ℕ} → m.lock ≢ h → Move m (thread h d Stage.second_cas) m (thread h d Stage.outside)
  counted :
      {h d : ℕ}
      → Move m
          (thread h d Stage.counting)
          (record m { lock_count = (m.lock_count + 1) % 2 ^ 32 })
          (thread h (d + 1) Stage.outside)
  unlock : {h d : ℕ} → 0 < d → Move m (thread h d Stage.outside) m (thread h d Stage.releasing)
  released :
      {h d : ℕ}
      → (m.lock_count + 2 ^ 32 - 1) % 2 ^ 32 ≡ 0
      → Move m
          (thread h d Stage.releasing)
          (record m { lock_count = (m.lock_count + 2 ^ 32 - 1) % 2 ^ 32 })
          (thread h (d - 1) Stage.storing)
  kept :
      {h d : ℕ}
      → (m.lock_count + 2 ^ 32 - 1) % 2 ^ 32 ≢ 0
      → Move m
          (thread h d Stage.releasing)
          (record m { lock_count = (m.lock_count + 2 ^ 32 - 1) % 2 ^ 32 })
          (thread h (d - 1) Stage.outside)
  stored :
      {h d : ℕ}
      → Move m (thread h d Stage.storing) (record m { lock = no_owner }) (thread h d Stage.outside)
