-- ===== src/Tests/Rounds.antt =====
-- Two rounds of the scheduler: it wakes by time-out, and then by its event.
use arinc653emulator.Prelude.{ℕ, refl, List, [], ◌∷◌, none}
use arinc653emulator.Types.{normal}
use arinc653emulator.Time.{compare_time}
use arinc653emulator.Blocking.{signalled, etimedout}
use arinc653emulator.Partition.{Descriptor, Partition}
use arinc653emulator.EventServices.{new_partition}
use arinc653emulator.BlackboardServices.Integrity.{Ends}
use arinc653emulator.Scheduling.Kept.{Kept}
use arinc653emulator.Scheduling.Rounds.{Turn, rounds}
use arinc653emulator.Scheduling.Punctual.{EndsIn, rounds_lem}
use arinc653emulator.Tests.Processes.{now}
use arinc653emulator.Tests.Schedules.{soon, reports, holder, two_processes}

abbrev running : Partition
running = record two_processes { mode = normal }

abbrev by_time_out : Turn
by_time_out = record {
  before = now;
  wakes = record { reason = etimedout; state = running } ∷ [];
  now = soon;
  threads = λ i. none;
  clock = λ i. soon;
}

abbrev by_event : Turn
by_event = record by_time_out { wakes = record { reason = signalled; state = running } ∷ [] }

abbrev unsorted : List Descriptor → List ℕ → List ℕ
unsorted ds ids = ids

rounds_example :
    EndsIn (Ends (Kept 1 holder)) (rounds unsorted reports (by_time_out ∷ by_event ∷ []) running)
unfolding new_partition compare_time
rounds_example =
    rounds_lem unsorted reports (by_time_out ∷ by_event ∷ []) 1 holder running refl (
      refl,
      ((holder, refl, refl), record {}),
      (refl, ((holder, refl, refl), record {}), record {}),
    )
