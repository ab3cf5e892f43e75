-- ===== src/Semaphore/Counting.antt =====
-- A semaphore shared by any number of threads: every interleaving of calls of wait and post.
use arinc653emulator.Prelude.{
  ℕ, ◌+◌, ◌-◌, ◌%◌, ◌≤◌, ◌<◌, pos, pos_part, neg_part, ◌+ℤ◌, ◌-ℤ◌, ◌≤ℤ◌, String, ◌≡◌, ◌≢◌, arith,
  eq_of_parts,
}
use arinc653emulator.Types.{no_error, unsigned_mod}
use arinc653emulator.Semaphore.{Semaphore, new_semaphore, enter, leave, grant, post}

-- `inside` counts the threads in wait between their two updates of the waiting counter, `grants`
-- the waits that took a unit, and `posts` the posts that returned NO_ERROR.
pub record System : Type 0 where
  pub sem : Semaphore
  pub inside : ℕ
  pub grants : ℕ
  pub posts : ℕ

-- A thread in wait takes a unit when it finds the counter different from zero; a time-out may end
-- its wait at any time.
pub data Step (s : System) : System → Type 0 where
  begin : Step s (record s { sem = enter s.sem; inside = s.inside + 1 })
  acquire :
      0 < s.inside
      → s.sem.counter ≢ pos 0
      → Step s (record s { sem = grant s.sem; inside = s.inside - 1; grants = s.grants + 1 })
  expire : 0 < s.inside → Step s (record s { sem = leave s.sem; inside = s.inside - 1 })
  signal :
      (post s.sem).0 ≡ no_error → Step s (record s { sem = (post s.sem).1; posts = s.posts + 1 })
  refuse : (post s.sem).0 ≢ no_error → Step s (record s { sem = (post s.sem).1 })

abbrev pub init : String → ℕ → ℕ → System
init name value maximum = record {
  sem = new_semaphore name (pos value) (pos maximum);
  inside = 0;
  grants = 0;
  posts = 0;
}

pub data Reach (name : String) (value maximum : ℕ) : System → Type 0 where
  start : Reach name value maximum (init name value maximum)
  later : {s t : System} → Reach name value maximum s → Step s t → Reach name value maximum t

-- The counter is what was there and posted, less what was granted, and stays within its bounds; the
-- waiting counter is the number of threads inside, as an unsigned long.
pub record Counts (value maximum : ℕ) (s : System) : Type 0 where
  pub balance : pos_part s.sem.counter + s.grants ≡ value + s.posts
  pub nonneg : neg_part s.sem.counter ≡ 0
  pub bounded : pos_part s.sem.counter ≤ maximum
  pub limit : s.sem.maximum_value ≡ pos maximum
  pub waiters : s.sem.waiting ≡ s.inside % unsigned_mod

Step-Counts : {v m : ℕ} {s t : System} → Step s t → Counts v m s → Counts v m t
unfolding enter grant leave post ◌+ℤ◌ ◌-ℤ◌
Step-Counts begin c = ground arith
Step-Counts {s = s} (acquire i n) c = ground (arith, eq_of_parts s.sem.counter (pos 0))
Step-Counts (expire i) c = ground arith
Step-Counts (signal e) c = ground arith
Step-Counts (refuse e) c = ground arith

Reach-Counts : {name : String} {v m : ℕ} {s : System} → v ≤ m → Reach name v m s → Counts v m s
unfolding new_semaphore
Reach-Counts h start = ground arith
Reach-Counts h (later r st) = Step-Counts st (Reach-Counts h r)

-- A semaphore created with a value from 0 to its maximum, and used by any threads in any order: the
-- waits that took a unit are never more than the initial value and the successful posts, the
-- counter is what remains, it is never above the maximum, and the waiting counter is the number of
-- threads in wait (modulo 2^64).
pub never_overdrawn :
    {name : String} {v m : ℕ} {s : System}
    → v ≤ m
    → Reach name v m s
    → (s.grants ≤ v + s.posts)
      × (s.sem.counter ≡ pos (v + s.posts - s.grants))
      × (s.sem.counter ≤ℤ pos m)
      × (s.sem.waiting ≡ s.inside % unsigned_mod)
never_overdrawn h r =
    let c = Reach-Counts h r in (omega arith, eq_of_parts _ _ (omega arith), omega arith, c.waiters)
