-- ===== src/RwLock.antt =====
-- include/xtd/concurrent/rw_lock.hpp: `rw_lock_base`, one atomic access at a time. The state is
-- the word `_lock`, a `uint32_t`; a thread stands at a `Pc` that holds its local `iOriginal`.
pub mod Exclusion
use xtl.Prelude.{ℕ, ◌+◌, ◌-◌, ◌%◌, ◌^◌, ◌≡◌, ◌≢◌}

abbrev pub write_lock_bit : ℕ
write_lock_bit = 2 ^ 31

-- `w & read_bits_mask`
unfoldable pub readers : ℕ → ℕ
readers w = w % 2 ^ 31

-- A thread holds nothing, reads or writes between the calls, or is inside one.
pub data Pc : Type 0 where
  idle : Pc
  read_load : Pc  -- the head of the loop of `lock_read`
  read_cas : (original : ℕ) → Pc  -- before its compare-exchange
  try_read_load : Pc  -- the start of `try_lock_read`
  try_read_cas : (original : ℕ) → Pc
  reading : Pc
  write_cas : (original : ℕ) → Pc  -- the test of the loop of `lock_write`
  writing : Pc
  read_unlock : Pc  -- the head of the loop of `unlock`, in a thread that reads
  read_unlock_seen : (original : ℕ) → Pc
  write_unlock : Pc  -- the same in a thread that writes
  write_unlock_seen : (original : ℕ) → Pc

-- One step of one thread. A compare-exchange that fails stores the word that it saw in its
-- first argument: `lock_write` goes on with that value.
pub data Move (w : ℕ) : Pc → ℕ → Pc → Type 0 where
  lock_read : Move w idle w read_load
  read_loaded : Move w read_load w (read_cas (readers w))
  read_won : {o : ℕ} → w ≡ o → Move w (read_cas o) ((1 + o) % 2 ^ 32) reading
  read_lost : {o : ℕ} → w ≢ o → Move w (read_cas o) w read_load
  try_lock_read : Move w idle w try_read_load
  try_read_loaded : Move w try_read_load w (try_read_cas (readers w))
  try_read_won : {o : ℕ} → w ≡ o → Move w (try_read_cas o) ((1 + o) % 2 ^ 32) reading
  try_read_lost : {o : ℕ} → w ≢ o → Move w (try_read_cas o) w idle
  lock_write : Move w idle w (write_cas 0)
  write_won : {o : ℕ} → w ≡ o → Move w (write_cas o) write_lock_bit writing
  write_lost : {o : ℕ} → w ≢ o → Move w (write_cas o) w (write_cas w)
  try_write_won : w ≡ 0 → Move w idle write_lock_bit writing
  try_write_lost : w ≢ 0 → Move w idle w idle
  unlock_read : Move w reading w read_unlock
  unlock_write : Move w writing w write_unlock
  read_unlock_loaded : Move w read_unlock w (read_unlock_seen w)
  write_unlock_loaded : Move w write_unlock w (write_unlock_seen w)
  read_unlock_stored : {o : ℕ} → o ≡ write_lock_bit → Move w (read_unlock_seen o) 0 idle
  write_unlock_stored : {o : ℕ} → o ≡ write_lock_bit → Move w (write_unlock_seen o) 0 idle
  read_unlock_won :
      {o : ℕ}
      → o ≢ write_lock_bit
      → w ≡ o
      → Move w (read_unlock_seen o) ((o + 2 ^ 32 - 1) % 2 ^ 32) idle
  write_unlock_won :
      {o : ℕ}
      → o ≢ write_lock_bit
      → w ≡ o
      → Move w (write_unlock_seen o) ((o + 2 ^ 32 - 1) % 2 ^ 32) idle
  read_unlock_lost :
      {o : ℕ} → o ≢ write_lock_bit → w ≢ o → Move w (read_unlock_seen o) w read_unlock
  write_unlock_lost :
      {o : ℕ} → o ≢ write_lock_bit → w ≢ o → Move w (write_unlock_seen o) w write_unlock
