-- ===== src/Tests/LockRuns.antt =====
-- Two threads at each of the locks.
use xtl.Prelude.{ℕ, ◌+◌, ◌≡◌, ◌≢◌, refl, false, arith, update, ◌==◌}
use xtl.Threads.{System, Reach, start, later, pick, Solo, weigh}
use xtl.RwLock.{write_lock_bit, readers, Pc, Move}
use xtl.RwLock.Exclusion.{
  reads, writes, FirstTryMove, unlocked, mutual_exclusion, readers_count, lock_write_retry,
}
use xtl.SpinLock
use xtl.SpinLock.{locked_value, exclusion, free_word}
use xtl.RecursiveLock
use xtl.RecursiveLock.{no_owner, thread, Stage}
use xtl.RecursiveLock.Ownership
use xtl.RecursiveLock.Ownership.{owns, IsDistinct, ownership, nobody_owns, reentrant}

-- thread 0 has taken the lock for writing
abbrev written : System ℕ Pc
written = record { mem = write_lock_bit; pc = update (λ i. Pc.idle) 0 Pc.writing }

written-Reach : Reach FirstTryMove 2 unlocked written
written-Reach = later start (pick 0 (omega arith) (Move.try_write_won refl, tt))

mutual_exclusion_example : (reads (written.pc 1) ≡ 0) × (writes (written.pc 1) ≡ 0)
mutual_exclusion_example =
    mutual_exclusion 2 written 0 1 (omega arith) written-Reach (omega arith) (omega arith)
      (omega arith) refl

-- thread 0 has taken it for reading
abbrev read_once : System ℕ Pc
read_once = record {
  mem = 1;
  pc =
      update (update (update (λ i. Pc.idle) 0 Pc.try_read_load) 0 (Pc.try_read_cas 0)) 0 Pc.reading;
}

read_once-Reach : Reach FirstTryMove 2 unlocked read_once
unfolding readers
read_once-Reach =
    later
      (later (later start (pick 0 (omega arith) (Move.try_lock_read, tt)))
        (pick 0 (omega arith) (Move.try_read_loaded, tt)))
      (pick 0 (omega arith) (Move.try_read_won refl, tt))

readers_count_example : readers read_once.mem ≡ weigh reads 2 read_once.pc
readers_count_example = readers_count 2 read_once (omega arith) read_once-Reach

-- thread 1 calls `lock_write` while thread 0 reads, and thread 0 is still reading at the end
lock_write_retry_example :
    (t : System ℕ Pc) × Solo Move 1 3 read_once t
    × Reach Move 2 read_once t
    × (t.mem ≡ write_lock_bit)
    × (t.pc 1 ≡ Pc.writing)
    × ((j : ℕ) → 1 ≢ j → t.pc j ≡ read_once.pc j)
lock_write_retry_example = lock_write_retry 2 read_once 1 (omega arith) refl (omega arith)

abbrev spun : System ℕ SpinLock.Pc
spun = record { mem = locked_value; pc = update (λ i. SpinLock.idle) 0 SpinLock.locked }

spun-Reach : Reach SpinLock.Move 2 SpinLock.unlocked spun
spun-Reach = later start (pick 0 (omega arith) (SpinLock.try_lock_won refl))

exclusion_example : (spun.pc 1 ≢ SpinLock.locked) × (spun.mem ≡ locked_value)
exclusion_example = exclusion 2 spun 0 1 spun-Reach (omega arith) (omega arith) (omega arith) refl

abbrev refused : System ℕ SpinLock.Pc
refused = record { mem = 0; pc = update (λ i. SpinLock.idle) 1 SpinLock.spinning }

free_word_example : refused.mem ≡ 0
unfolding weigh
free_word_example = free_word 2 refused (later start (pick 1 (omega arith) SpinLock.lock)) refl

abbrev hash : ℕ → ℕ
hash i = i + 100

distinct : IsDistinct hash 2
distinct = record { apart = λ i j hi hj e. omega arith; proper = λ i hi. omega arith }

-- thread 0 has locked once
abbrev owned_once : System RecursiveLock.Mem RecursiveLock.Pc
owned_once = record {
  mem = record { lock = 100; lock_count = 1 };
  pc =
      update
        (update (update (λ i. thread (hash i) 0 Stage.outside) 0 (thread 100 0 Stage.first_cas)) 0
          (thread 100 0 Stage.counting))
        0 (thread 100 1 Stage.outside);
}

owned_once-Reach : Reach RecursiveLock.Move 2 (Ownership.unlocked hash 2 distinct) owned_once
owned_once-Reach =
    later
      (later (later start (pick 0 (omega arith) (RecursiveLock.try_lock (omega arith))))
        (pick 0 (omega arith) (RecursiveLock.first_won refl)))
      (pick 0 (omega arith) RecursiveLock.counted)

ownership_example :
    (owned_once.mem.lock ≡ hash 0)
    × (owned_once.mem.lock_count ≡ (owned_once.pc 0).depth)
    × (owns (owned_once.pc 1) ≡ (0 == 1))
ownership_example =
    ownership hash 2 distinct owned_once 0 1 owned_once-Reach (omega arith) (omega arith) refl

nobody_owns_example :
    ((Ownership.unlocked hash 2 distinct).mem.lock_count ≡ 0)
    × (owns ((Ownership.unlocked hash 2 distinct).pc 1) ≡ false)
nobody_owns_example =
    nobody_owns hash 2 distinct (Ownership.unlocked hash 2 distinct) 1 start (omega arith) refl

reentrant_example :
    (u : System RecursiveLock.Mem RecursiveLock.Pc) × Solo RecursiveLock.Move 0 4 owned_once u
    × Reach RecursiveLock.Move 2 owned_once u
    × (u.mem ≡ record { lock = hash 0; lock_count = 2 })
    × (u.pc 0 ≡ thread (hash 0) 2 Stage.outside)
    × ((j : ℕ) → 0 ≢ j → u.pc j ≡ owned_once.pc j)
reentrant_example =
    reentrant hash 2 distinct owned_once 0 owned_once-Reach (omega arith) refl refl (omega arith)
