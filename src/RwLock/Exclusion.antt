-- ===== src/RwLock/Exclusion.antt =====
-- Readers and writers exclude one another, as long as no thread retries inside `lock_write`.
use xtl.Prelude.{ℕ, ◌+◌, ◌^◌, ◌≤◌, ◌<◌, ◌≡◌, ◌≢◌, ◌⊎◌, inl, refl, update, sym, arith}
use xtl.Threads.{
  System, Reach, start, Reach-invariant, weigh, weigh-update, weight-le-weigh, two-le-weigh,
  weigh-le, weigh-eq-zero, update_all, done, next, Solo, Solo-Reach, Run-Solo,
}
use xtl.RwLock.{
  write_lock_bit, readers, Pc, idle, read_cas, try_read_cas, reading, write_cas, writing,
  read_unlock, read_unlock_seen, write_unlock, write_unlock_seen, Move,
}

-- threads that hold the lock for reading
abbrev pub reads : Pc → ℕ
reads reading = 1
reads read_unlock = 1
reads (read_unlock_seen o) = 1
reads p = 0

-- threads that hold it for writing
abbrev pub writes : Pc → ℕ
writes writing = 1
writes write_unlock = 1
writes (write_unlock_seen o) = 1
writes p = 0

-- what a thread's local says
abbrev Local : Pc → Type 0
Local (read_cas o) = o < 2 ^ 31
Local (try_read_cas o) = o < 2 ^ 31
Local (write_cas o) = o ≡ 0
Local (read_unlock_seen o) = o < 2 ^ 31
Local (write_unlock_seen o) = o ≡ write_lock_bit
Local p = Unit

-- The compare-exchange of `lock_write` is at its first try.
abbrev pub IsFirstTry : Pc → Type 0
IsFirstTry (write_cas o) = o ≡ 0
IsFirstTry p = Unit

-- A move after which no thread has failed in `lock_write`.
abbrev pub FirstTryMove : ℕ → Pc → ℕ → Pc → Type 0
FirstTryMove w p w' p' = Move w p w' p' × IsFirstTry p'

abbrev pub Word : ℕ → ℕ → ℕ → Type 0
Word w r x = ((x ≡ 0) × (w ≡ r)) ⊎ ((x ≡ 1) × (r ≡ 0) × (w ≡ write_lock_bit))

record Inv (n : ℕ) (w : ℕ) (pc : ℕ → Pc) : Type 0 where
  word : Word w (weigh reads n pc) (weigh writes n pc)
  local : (i : ℕ) → Local (pc i)

Move-Word :
    {w w' : ℕ} {p p' : Pc} (r x r' x' : ℕ)
    → Move w p w' p'
    → IsFirstTry p'
    → Local p
    → r' + reads p ≡ r + reads p'
    → x' + writes p ≡ x + writes p'
    → reads p ≤ r
    → writes p ≤ x
    → r' < 2 ^ 31
    → Word w r x
    → Word w' r' x' × Local p'
unfolding readers
Move-Word r x r' x' (Move.read_won q) t l a b c d e h = ground arith
Move-Word r x r' x' (Move.read_lost q) t l a b c d e h = ground arith
Move-Word r x r' x' (Move.try_read_won q) t l a b c d e h = ground arith
Move-Word r x r' x' (Move.try_read_lost q) t l a b c d e h = ground arith
Move-Word r x r' x' (Move.write_won q) t l a b c d e h = ground arith
Move-Word r x r' x' (Move.write_lost q) t l a b c d e h = ground arith
Move-Word r x r' x' (Move.try_write_won q) t l a b c d e h = ground arith
Move-Word r x r' x' (Move.try_write_lost q) t l a b c d e h = ground arith
Move-Word r x r' x' (Move.read_unlock_stored q) t l a b c d e h = ground arith
Move-Word r x r' x' (Move.write_unlock_stored q) t l a b c d e h = ground arith
Move-Word r x r' x' (Move.read_unlock_won ne q) t l a b c d e h = ground arith
Move-Word r x r' x' (Move.write_unlock_won ne q) t l a b c d e h = ground arith
Move-Word r x r' x' (Move.read_unlock_lost ne q) t l a b c d e h = ground arith
Move-Word r x r' x' (Move.write_unlock_lost ne q) t l a b c d e h = ground arith
Move-Word r x r' x' mv t l a b c d e h = ground arith

Inv-keep :
    (n : ℕ)
    → n < 2 ^ 31
    → (w : ℕ) (pc : ℕ → Pc) (i : ℕ) (w' : ℕ) (p' : Pc) → i < n
    → FirstTryMove w (pc i) w' p'
    → Inv n w pc
    → Inv n w' (update pc i p')
Inv-keep n small w pc i w' p' lt (mv, first) inv = record {
  word = moved.0;
  local = update_all Local pc i p' moved.1 inv.local;
}
  where
    moved : Word w' (weigh reads n (update pc i p')) (weigh writes n (update pc i p')) × Local p'
    moved =
        Move-Word (weigh reads n pc) (weigh writes n pc) (weigh reads n (update pc i p'))
          (weigh writes n (update pc i p')) mv first (inv.local i) (weigh-update reads n pc i p' lt)
          (weigh-update writes n pc i p' lt) (weight-le-weigh reads n pc i lt)
          (weight-le-weigh writes n pc i lt)
          (omega (arith, weigh-le reads (λ p. ground arith) n (update pc i p'))) inv.word

-- `_lock` is 0, and no thread holds it or is inside a call.
abbrev pub unlocked : System ℕ Pc
unlocked = record { mem = 0; pc = λ i. idle }

Reach-Inv :
    (n : ℕ) → n < 2 ^ 31 → (t : System ℕ Pc) → Reach FirstTryMove n unlocked t → Inv n t.mem t.pc
Reach-Inv n small t r =
    Reach-invariant FirstTryMove n (Inv n)
      (λ w pc i w' p' lt mv inv. Inv-keep n small w pc i w' p' lt mv inv) unlocked t r
      (record {
        word = inl (
          weigh-eq-zero writes n (λ i. idle) (λ i. refl),
          sym (weigh-eq-zero reads n (λ i. idle) (λ i. refl)),
        );
        local = λ i. tt;
      })

-- With fewer than 2^31 threads, of which none has failed inside `lock_write`, a thread that holds
-- the lock for writing holds it alone: no other reads or writes.
pub mutual_exclusion :
    (n : ℕ) (t : System ℕ Pc) (i j : ℕ)
    → n < 2 ^ 31
    → Reach FirstTryMove n unlocked t
    → i < n
    → j < n
    → i ≢ j
    → writes (t.pc i) ≡ 1
    → (reads (t.pc j) ≡ 0) × (writes (t.pc j) ≡ 0)
mutual_exclusion n t i j small r hi hj ne h =
    let inv = Reach-Inv n small t r in
    ground (
      arith,
      inv.word,
      two-le-weigh writes n t.pc i j hi hj ne,
      weight-le-weigh writes n t.pc i hi,
      weight-le-weigh reads n t.pc j hj,
    )

-- Under the same conditions `readers` counts the threads that hold the lock for reading.
pub readers_count :
    (n : ℕ) (t : System ℕ Pc)
    → n < 2 ^ 31
    → Reach FirstTryMove n unlocked t
    → readers t.mem ≡ weigh reads n t.pc
unfolding readers
readers_count n t small r =
    let inv = Reach-Inv n small t r in
    ground (arith, inv.word, weigh-le reads (λ p. ground arith) n t.pc)

-- In any state of the lock whose word is not 0, whoever holds it: a thread that calls `lock_write` has it
-- for writing after three moves of its own, with no move of another thread in between. The call is the
-- first; then the compare-exchange fails and leaves the word in `iOriginal`, and the next one compares
-- the word with itself. The other threads stand where they stood.
pub lock_write_retry :
    (n : ℕ) (s : System ℕ Pc) (i : ℕ)
    → i < n
    → s.pc i ≡ idle
    → s.mem ≢ 0
    → (t : System ℕ Pc) × Solo Move i 3 s t
      × Reach Move n s t
      × (t.mem ≡ write_lock_bit)
      × (t.pc i ≡ writing)
      × ((j : ℕ) → i ≢ j → t.pc j ≡ s.pc j)
lock_write_retry n s i lt here held =
    let (t, run, tm, tp, same) =
      Run-Solo Move i 3 s
        (next Move.lock_write (next (Move.write_lost held) (next (Move.write_won refl) done))) refl
        here in
    (t, run, Solo-Reach Move n i 3 s s t lt run start, tm, tp, same)
