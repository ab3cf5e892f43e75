-- ===== src/Event.antt =====
-- The class APEX_EVENT_TYPE of src/EVENT.cc. A section under a mutex is one step.
pub mod Waiting
use arinc653emulator.Prelude.{
  ℕ, ◌+◌, ◌-◌, ◌%◌, ℤ, String, Bool, true, false, Option, none, some, List, [], ◌∷◌, if◌then◌else◌,
}
use arinc653emulator.Types.{ReturnCode, no_error, timed_out, unsigned_mod}
use arinc653emulator.Time.{TimeSpec, add_time_nano}
use arinc653emulator.Blocking.{Wake, Place, by_reason, Outcome, returns, blocks, terminates}

-- EVENT_STATE_TYPE
pub data EventState : Type 0 where
  down up : EventState

pub record Event : Type 0 where
  pub state : EventState
  pub name : String
  pub count : ℕ

-- The constructor, by CREATE_EVENT
unfoldable pub new_event : String → Event
new_event name = record { state = down; name = name; count = 0 }

abbrev pub is_down : EventState → Bool
is_down down = true
is_down up = false

-- SET_EVENT
unfoldable pub set_event : Event → ReturnCode × Event
set_event e = if is_down e.state then (no_error, record e { state = up }) else (no_error, e)

-- RESET_EVENT
unfoldable pub reset_event : Event → ReturnCode × Event
reset_event e = (no_error, record e { state = down })

-- APEX_UNSIGNED_COUNTER++
unfoldable pub enter : Event → Event
enter e = record e { count = (e.count + 1) % unsigned_mod }

-- APEX_UNSIGNED_COUNTER--
unfoldable pub leave : Event → Event
leave e = record e { count = (e.count + unsigned_mod - 1) % unsigned_mod }

-- The waits on an event that stands at `p` in a state `S`, which other threads change meanwhile.
module _ {S : Type 0} (p : Place S Event) where
  open p use {read, write}

  abbrev pub left : S → S
  left s = write s (leave (read s))

  abbrev pub entered : S → S
  entered s = write s (enter (read s))

  wait_loop : List (Wake S) → S → Outcome (ReturnCode × S)
  wait_loop [] s = if is_down (read s).state then blocks else returns (no_error, left s)
  wait_loop (w ∷ ws) s =
      let rest = wait_loop ws w.state in
      if is_down (read s).state then rest else returns (no_error, left s)

  -- WAIT_EVENT with no time-out
  unfoldable pub wait_event : List (Wake S) → S → Outcome (ReturnCode × S)
  unfolding wait_loop
  wait_event ws s = wait_loop ws (entered s)

  timed_wait_loop : List (Wake S) → S → Outcome (ReturnCode × S)
  timed_wait_loop [] s = if is_down (read s).state then blocks else returns (no_error, left s)
  timed_wait_loop (w ∷ ws) s =
      let rest =
        by_reason w.reason (returns (timed_out, left w.state)) (timed_wait_loop ws w.state) in
      if is_down (read s).state then rest else returns (no_error, left s)

  -- WAIT_EVENT(SYSTEM_TIMESPEC); WAIT_AND_LOCK_EVENT has the same effect on the event.
  unfoldable pub wait_event_until : List (Wake S) → S → Outcome (ReturnCode × S)
  unfolding timed_wait_loop
  wait_event_until ws s = timed_wait_loop ws s

  -- WAIT_EVENT(SYSTEM_TIME_TYPE); the time stamp is the clock's.
  unfoldable pub wait_event_for : TimeSpec → ℤ → List (Wake S) → S → Outcome (ReturnCode × S)
  unfolding wait_event_until
  wait_event_for now timeout ws s = elim (add_time_nano now timeout) [
    | none ↦ terminates
    | some _ ↦ wait_event_until ws s
  ]
