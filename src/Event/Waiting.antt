-- ===== src/Event/Waiting.antt =====
-- What a wait on an event can return, and what becomes of the count of waiting processes.
use arinc653emulator.Prelude.{◌+◌, ◌-◌, ◌%◌, ◌<◌, ℤ, pos, ◌≤ℤ◌, ◌≡◌, ◌⊎◌, List, [], ◌∷◌, arith}
use arinc653emulator.Types.{ReturnCode, no_error, timed_out, max_time_out, unsigned_mod}
use arinc653emulator.Time.{TimeSpec, add_time_nano}
use arinc653emulator.Blocking.{Wake, Place, etimedout, returns, SomeWake}
use arinc653emulator.Event.{
  Event, up, enter, leave, left, entered, wait_loop, wait_event, timed_wait_loop, wait_event_for,
}

module _ {S : Type 0} (p : Place S Event) where
  open p use {read}

  -- The waiter found the event up in the state `found`.
  abbrev pub FoundUp : S → ReturnCode → S → Type 0
  FoundUp t code found = ((read found).state ≡ up) × (code ≡ no_error) × (t ≡ left p found)

  -- The waiter gave up at the wake-up `w`.
  abbrev pub GaveUpAt : S → ReturnCode → Wake S → Type 0
  GaveUpAt t code w = (w.reason ≡ etimedout) × (code ≡ timed_out) × (t ≡ left p w.state)

  wait_loop_lem :
      (ws : List (Wake S)) (s t : S) (code : ReturnCode)
      → wait_loop p ws s ≡ returns (code, t)
      → FoundUp t code s ⊎ SomeWake (λ w. FoundUp t code w.state) ws
  unfolding wait_loop
  wait_loop_lem [] s t code e = ground arith
  wait_loop_lem (w ∷ ws) s t code e = ground (arith, wait_loop_lem ws w.state t code)

  -- WAIT_EVENT without a time-out returns only from a state in which the event is up (found at its
  -- start or at a wake-up), with NO_ERROR, and takes itself off the count.
  pub wait_event_lem :
      (ws : List (Wake S)) (s t : S) (code : ReturnCode)
      → wait_event p ws s ≡ returns (code, t)
      → FoundUp t code (entered p s) ⊎ SomeWake (λ w. FoundUp t code w.state) ws
  unfolding wait_event
  wait_event_lem ws s t code e = wait_loop_lem ws (entered p s) t code e

  timed_wait_loop_lem :
      (ws : List (Wake S)) (s t : S) (code : ReturnCode)
      → timed_wait_loop p ws s ≡ returns (code, t)
      → FoundUp t code s ⊎ SomeWake (λ w. GaveUpAt t code w ⊎ FoundUp t code w.state) ws
  unfolding timed_wait_loop
  timed_wait_loop_lem [] s t code e = ground arith
  timed_wait_loop_lem (w ∷ ws) s t code e = ground (arith, timed_wait_loop_lem ws w.state t code)

  -- WAIT_EVENT with a time-out returns NO_ERROR only from a state in which the event is up, and
  -- TIMED_OUT only at a wake-up by time-out. In both cases it takes one off the count, which it has
  -- not added to: the first state is the one of the call, not the one after an increment.
  pub wait_event_for_lem :
      (now : TimeSpec) (timeout : ℤ) (ws : List (Wake S)) (s t : S) (code : ReturnCode)
      → wait_event_for p now timeout ws s ≡ returns (code, t)
      → FoundUp t code s ⊎ SomeWake (λ w. GaveUpAt t code w ⊎ FoundUp t code w.state) ws
  unfolding wait_event_for
  wait_event_for_lem now timeout ws s t code e = timed_wait_loop_lem ws s t code (ground arith)

-- An event by itself.
abbrev pub alone : Place Event Event
alone = record { read = λ e. e; write = λ e f. f }

-- On an event that is up, the wait without a time-out returns at once and leaves the event as it
-- was; the wait with a time-out returns at once too, and leaves a count that is one too low, and
-- 2^64 - 1 where no process was waiting.
pub count_after_waits :
    (now : TimeSpec) (timeout : ℤ) (e : Event)
    → e.state ≡ up
    → e.count < unsigned_mod
    → timeout ≤ℤ pos max_time_out
    → (wait_event alone [] e ≡ returns (no_error, e))
      × (wait_event_for alone now timeout [] e
          ≡ returns (no_error, record e { count = (e.count + (unsigned_mod - 1)) % unsigned_mod }))
      × (e.count ≡ 0 → (leave e).count ≡ unsigned_mod - 1)
unfolding wait_event wait_event_for add_time_nano enter leave
count_after_waits now timeout e h c t = (ground arith, ground arith, λ z. omega arith)
