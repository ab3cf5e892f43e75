-- ===== src/Tests/Events.antt =====
-- An event by itself.
use arinc653emulator.Prelude.{pos, quot, rem, ◌+ℤ◌, ◌⊎◌, refl, List, [], ◌∷◌}
use arinc653emulator.Types.{timed_out}
use arinc653emulator.Time.{TimeSpec, add_time_nano}
use arinc653emulator.Blocking.{Wake, signalled, etimedout, SomeWake}
use arinc653emulator.Event.{Event, up, down, leave, left, wait_event_for, wait_event_until}
use arinc653emulator.Event.Waiting.{FoundUp, GaveUpAt, alone, wait_event_for_lem}

abbrev now : TimeSpec
now = record { tv_sec = pos 5; tv_nsec = pos 0 }

abbrev raised : Event
raised = record { state = up; name = "e"; count = 1 }

abbrev lowered : Event
lowered = record { state = down; name = "e"; count = 1 }

abbrev wakes : List (Wake Event)
wakes = record { reason = signalled; state = raised } ∷ []

abbrev late : List (Wake Event)
late = record { reason = etimedout; state = lowered } ∷ []

wait_event_for_example :
    FoundUp alone (left alone lowered) timed_out lowered
    ⊎ SomeWake
        (λ w.
          GaveUpAt alone (left alone lowered) timed_out w
          ⊎ FoundUp alone (left alone lowered) timed_out w.state)
        late
unfolding wait_event_for wait_event_until add_time_nano quot rem ◌+ℤ◌ leave
wait_event_for_example =
    wait_event_for_lem alone now (pos 10) late lowered (left alone lowered) timed_out refl

abbrev unwaited : Event
unwaited = record { state = up; name = "e"; count = 0 }
