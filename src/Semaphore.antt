-- ===== src/Semaphore.antt =====
-- The class SEMAPHORE of src/ACM_THREAD_SUPPORT.cc and include/ACM/INTERNAL/ACM_THREAD_SUPPORT.h.
-- A section under a mutex is one step. The names of mutexes and condition variables are left out.
pub mod Waiting
pub mod Units
pub mod Counting
use arinc653emulator.Prelude.{
  ℕ, suc, ◌+◌, ◌-◌, ◌%◌, ℤ, pos, ◌+ℤ◌, ◌-ℤ◌, ltb_ℤ, leb_ℤ, eqb_ℤ, String, Bool, true, false, not,
  Option, none, some, List, [], ◌∷◌, if◌then◌else◌,
}
use arinc653emulator.Types.{
  ReturnCode, no_error, not_available, timed_out, unsigned_mod, infinite_time_value,
}
use arinc653emulator.Time.{TimeSpec, add_time_nano}
use arinc653emulator.Blocking.{Wake, Place, by_reason, Outcome, returns, blocks, terminates}

pub record Semaphore : Type 0 where
  pub counter : ℤ
  pub name : String
  pub maximum_value : ℤ
  pub waiting : ℕ

-- The constructor
unfoldable pub new_semaphore : String → ℤ → ℤ → Semaphore
new_semaphore name value maximum = record {
  counter = value;
  name = name;
  maximum_value = maximum;
  waiting = 0;
}

-- APEX_UNSIGNED_WAITING_COUNTER++
unfoldable pub enter : Semaphore → Semaphore
enter s = record s { waiting = (s.waiting + 1) % unsigned_mod }

-- APEX_UNSIGNED_WAITING_COUNTER--
unfoldable pub leave : Semaphore → Semaphore
leave s = record s { waiting = (s.waiting + unsigned_mod - 1) % unsigned_mod }

-- The test of the waiting loops
abbrev pub is_zero : Semaphore → Bool
is_zero s = eqb_ℤ s.counter (pos 0)

-- What a waiter does once the loop ends: counter--, and the waiting counter.
unfoldable pub grant : Semaphore → Semaphore
unfolding leave
grant s = leave (record s { counter = s.counter -ℤ pos 1 })

-- The waits on a semaphore that stands at `p` in a state `S`, which other threads change meanwhile.
module _ {S : Type 0} (p : Place S Semaphore) where
  open p use {read, write}

  abbrev pub granted : S → S
  granted s = write s (grant (read s))

  abbrev pub left : S → S
  left s = write s (leave (read s))

  abbrev pub entered : S → S
  entered s = write s (enter (read s))

  -- The loop of wait()
  unfoldable pub wait_loop : List (Wake S) → S → Outcome (ReturnCode × S)
  wait_loop [] s = if is_zero (read s) then blocks else returns (no_error, granted s)
  wait_loop (w ∷ ws) s =
      let rest = wait_loop ws w.state in
      if is_zero (read s) then rest else returns (no_error, granted s)

  -- The loop of wait(timeout): a time-out ends it without another look at the counter.
  unfoldable pub timed_wait_loop : List (Wake S) → S → Outcome (ReturnCode × S)
  timed_wait_loop [] s = if is_zero (read s) then blocks else returns (no_error, granted s)
  timed_wait_loop (w ∷ ws) s =
      let rest =
        by_reason w.reason (returns (timed_out, left w.state)) (timed_wait_loop ws w.state) in
      if is_zero (read s) then rest else returns (no_error, granted s)

  -- wait()
  unfoldable pub wait_forever : List (Wake S) → S → Outcome (ReturnCode × S)
  wait_forever ws s = wait_loop ws (entered s)

  -- wait(SYSTEM_TIMESPEC)
  unfoldable pub wait_until : List (Wake S) → S → Outcome (ReturnCode × S)
  wait_until ws s = timed_wait_loop ws (entered s)

  -- wait(SYSTEM_TIME_TYPE); the time stamp is the clock's.
  unfoldable pub wait : TimeSpec → ℤ → List (Wake S) → S → Outcome (ReturnCode × S)
  wait now timeout ws s = elim (add_time_nano now timeout) [
    | none ↦ terminates
    | some _ ↦ if eqb_ℤ timeout infinite_time_value then wait_forever ws s else wait_until ws s
  ]

-- try_lock
unfoldable pub try_lock : Semaphore → ReturnCode
try_lock s = if is_zero s then not_available else no_error

-- post
unfoldable pub post : Semaphore → ReturnCode × Semaphore
post s =
    if leb_ℤ s.maximum_value s.counter
    then (not_available, s)
    else (no_error, record s { counter = s.counter +ℤ pos 1 })
