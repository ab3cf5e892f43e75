-- ===== src/Tests/SemaphoreCalls.antt =====
-- A semaphore that is created, signalled and waited for.
use arinc653emulator.Prelude.{pos, ◌≡◌, refl, arith, none, some, [], ◌∷◌}
use arinc653emulator.Types.{no_error}
use arinc653emulator.Blocking.{returns}
use arinc653emulator.Semaphore.{Semaphore}
use arinc653emulator.Partition.{Partition}
use arinc653emulator.EventServices.{new_partition}
use arinc653emulator.SemaphoreServices.{signal_semaphore, wait_semaphore, get_semaphore_status}
use arinc653emulator.SemaphoreServices.Creation.{
  CreatedOrRefused, create_semaphore-get_semaphore_id,
}
use arinc653emulator.SemaphoreServices.Signals.{signal_semaphore-wait_semaphore}
use arinc653emulator.Tests.Processes.{now}

semaphore_creation_example : CreatedOrRefused "s" (pos 1) (pos 3) none
semaphore_creation_example = create_semaphore-get_semaphore_id "s" (pos 1) (pos 3) none

abbrev one_of_three : Semaphore
one_of_three = record { counter = pos 1; name = "s"; maximum_value = pos 3; waiting = 2 }

abbrev with_semaphore : Partition
with_semaphore = record new_partition { semaphores = one_of_three ∷ [] }

signal_wait_example :
    (q : Partition) × (signal_semaphore 0 (some with_semaphore) ≡ (no_error, some q))
    × (get_semaphore_status 0 (some q) ≡ (
      no_error,
      some (record { waiting_processes = 2; current_value = pos 2; maximum_value = pos 3 }),
    ))
    × (wait_semaphore 0 now (pos 10) [] (some q) ≡ returns (no_error, some with_semaphore))
unfolding new_partition
signal_wait_example =
    signal_semaphore-wait_semaphore with_semaphore 0 1 3 one_of_three now (pos 10) [] refl refl refl
      (omega arith) (omega arith) (omega arith)
