-- ===== src/RwLock/Shared.antt =====
-- A readers-writer lock shared by any number of threads, each of which unlocks only what it holds.
use arinc653emulator.Prelude.{ℕ, ◌+◌, ◌-◌, ◌<◌, pos, ◌≤ℤ◌, String, ◌≡◌, ◌≢◌}
use arinc653emulator.Semaphore.{Semaphore, enter, leave, grant}
use arinc653emulator.RwLock.{RwLock, new_rw_lock, readunlock, give_back, release_token, writeunlock}

-- `readers` and `writers` hold the lock; `collecting` hold the writers' token, with `units` units of
-- the readers' semaphore.
pub record System : Type 0 where
  pub lock : RwLock
  pub readers : ℕ
  pub writers : ℕ
  pub collecting : ℕ
  pub units : ℕ

abbrev pub on_rw : (Semaphore → Semaphore) → RwLock → RwLock
on_rw f l = record l { rw_sem = f l.rw_sem }

abbrev pub on_token : (Semaphore → Semaphore) → RwLock → RwLock
on_token f l = record l { writer_semaphore = f l.writer_semaphore }

-- The waits on the two semaphores, and what follows them in readlock, readunlock, writelock and
-- writeunlock; a wait may time out at any time.
pub data Step (s : System) : System → Type 0 where
  begin_wait : Step s (record s { lock = on_rw enter s.lock })
  give_up_wait : Step s (record s { lock = on_rw leave s.lock })
  begin_token : Step s (record s { lock = on_token enter s.lock })
  give_up_token : Step s (record s { lock = on_token leave s.lock })
  read_lock :
      s.lock.rw_sem.counter ≢ pos 0
      → Step s (record s { lock = on_rw grant s.lock; readers = s.readers + 1 })
  read_unlock :
      0 < s.readers → Step s (record s { lock = readunlock s.lock; readers = s.readers - 1 })
  take_token :
      s.lock.writer_semaphore.counter ≢ pos 0
      → Step s (record s { lock = on_token grant s.lock; collecting = s.collecting + 1 })
  take_unit :
      0 < s.collecting
      → s.lock.rw_sem.counter ≢ pos 0
      → pos (s.units + 1) ≤ℤ s.lock.max_readers
      → Step s (record s { lock = on_rw grant s.lock; units = s.units + 1 })
  time_out :
      0 < s.collecting
      → Step s (record s {
        lock = release_token (give_back s.units (on_rw leave s.lock));
        collecting = s.collecting - 1;
        units = 0;
      })
  write_lock :
      0 < s.collecting
      → pos s.units ≡ s.lock.max_readers
      → Step s (record s {
        lock = release_token s.lock;
        collecting = s.collecting - 1;
        units = 0;
        writers = s.writers + 1;
      })
  write_unlock :
      0 < s.writers → Step s (record s { lock = writeunlock s.lock; writers = s.writers - 1 })

abbrev pub init : String → ℕ → System
init name max = record {
  lock = new_rw_lock name (pos max);
  readers = 0;
  writers = 0;
  collecting = 0;
  units = 0;
}

pub data Reach (name : String) (max : ℕ) : System → Type 0 where
  start : Reach name max (init name max)
  later : {s t : System} → Reach name max s → Step s t → Reach name max t
