-- ===== src/RwLock.antt =====
-- The class RW_LOCK_SEM of include/ACM/INTERNAL/ACM_THREAD_SUPPORT.h: readers take one unit of a
-- semaphore, a writer takes them all, one after the other, while it holds the writers' token.
pub mod Shared
pub mod Exclusion
pub mod Free
use arinc653emulator.Prelude.{
  ℕ, zero, suc, ◌+◌, ℤ, pos, pos_part, ◌+ℤ◌, String, Option, none, some, List,
}
use arinc653emulator.Types.{ReturnCode, no_error, timed_out}
use arinc653emulator.Time.{TimeSpec, add_time_nano}
use arinc653emulator.Blocking.{Wake, Place, Outcome, returns, blocks, terminates}
use arinc653emulator.Semaphore.{Semaphore, new_semaphore, post, wait, wait_until}

pub record RwLock : Type 0 where
  pub lock_name : String
  pub max_readers : ℤ
  pub rw_sem : Semaphore
  pub writer_semaphore : Semaphore

-- The constructor
unfoldable pub new_rw_lock : String → ℤ → RwLock
new_rw_lock name readers = record {
  lock_name = name;
  max_readers = readers;
  rw_sem = new_semaphore "NO_NAME" readers readers;
  writer_semaphore = new_semaphore "NO_NAME" (pos 1) (pos 1);
}

-- readunlock
unfoldable pub readunlock : RwLock → RwLock
readunlock l = record l { rw_sem = (post l.rw_sem).1 }

-- writelock after a time-out: the units collected go back.
unfoldable pub give_back : ℕ → RwLock → RwLock
give_back k l = record l { rw_sem = record l.rw_sem { counter = l.rw_sem.counter +ℤ pos k } }

-- writelock at its end
unfoldable pub release_token : RwLock → RwLock
release_token l = record l { writer_semaphore = (post l.writer_semaphore).1 }

-- writeunlock
unfoldable pub writeunlock : RwLock → RwLock
writeunlock l = record l { rw_sem = record l.rw_sem { counter = l.max_readers } }

-- The locks on an object that stands at `p`. A writer is given the wake-ups of each of its waits,
-- and what other threads do before it.
module _ {S : Type 0} (p : Place S RwLock) where
  open p use {read, write}

  abbrev pub readers_side : Place S Semaphore
  readers_side = record {
    read = λ s. (read s).rw_sem;
    write = λ s x. write s (record (read s) { rw_sem = x });
  }

  abbrev pub writers_side : Place S Semaphore
  writers_side = record {
    read = λ s. (read s).writer_semaphore;
    write = λ s x. write s (record (read s) { writer_semaphore = x });
  }

  -- readlock
  unfoldable pub readlock : TimeSpec → ℤ → List (Wake S) → S → Outcome (ReturnCode × S)
  readlock now timeout ws s = wait readers_side now timeout ws s

  abbrev pub next_round :
      (ℕ → S → Outcome (ReturnCode × ℕ × S))
      → ℕ
      → Outcome (ReturnCode × S)
      → Outcome (ReturnCode × ℕ × S)
  next_round rest k (returns (timed_out, s)) = returns (timed_out, k, s)
  next_round rest k (returns (_, s)) = rest (suc k) s
  next_round rest k blocks = blocks
  next_round rest k terminates = terminates

  -- The loop of writelock, from the round `k` on: the code and successcount.
  unfoldable pub collect :
      (ℕ → List (Wake S)) → (ℕ → S → S) → ℕ → ℕ → S → Outcome (ReturnCode × ℕ × S)
  collect ws meanwhile zero k s = returns (no_error, k, s)
  collect ws meanwhile (suc rounds) k s =
      next_round (collect ws meanwhile rounds) k (wait_until readers_side (ws k) (meanwhile k s))

  abbrev pub end_of_writelock : Outcome (ReturnCode × ℕ × S) → Outcome (ReturnCode × S)
  end_of_writelock (returns (timed_out, k, s)) =
      returns (timed_out, write s (release_token (give_back k (read s))))
  end_of_writelock (returns (code, k, s)) = returns (code, write s (release_token (read s)))
  end_of_writelock blocks = blocks
  end_of_writelock terminates = terminates

  abbrev pub with_token :
      (ℕ → List (Wake S)) → (ℕ → S → S) → Outcome (ReturnCode × S) → Outcome (ReturnCode × S)
  with_token ws meanwhile (returns (timed_out, s)) = returns (timed_out, s)
  with_token ws meanwhile (returns (_, s)) =
      end_of_writelock (collect ws meanwhile (pos_part (read s).max_readers) 0 s)
  with_token ws meanwhile blocks = blocks
  with_token ws meanwhile terminates = terminates

  -- writelock
  unfoldable pub writelock :
      TimeSpec
      → ℤ
      → List (Wake S)
      → (ℕ → List (Wake S))
      → (ℕ → S → S)
      → S
      → Outcome (ReturnCode × S)
  writelock now timeout token_wakes ws meanwhile s = elim (add_time_nano now timeout) [
    | none ↦ terminates
    | some _ ↦ with_token ws meanwhile (wait_until writers_side token_wakes s)
  ]
