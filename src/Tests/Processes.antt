-- ===== src/Tests/Processes.antt =====
-- A partition with one periodic process.
use arinc653emulator.Semaphore.{new_semaphore}
use arinc653emulator.Partition.{process_entity}
use arinc653emulator.Prelude.{ℕ, pos, ◌≡◌, ◌↔◌, refl, arith, true, false, [], ◌∷◌, none, some}
use arinc653emulator.Types.{ReturnCode, no_error}
use arinc653emulator.Time.{TimeSpec}
use arinc653emulator.Event.{new_event}
use arinc653emulator.Partition.{
  Attributes, hard, Descriptor, dormant, release_process, Blackboard, Partition, Apex, find_index,
}
use arinc653emulator.EventServices.{obtain, new_partition, create_event}
use arinc653emulator.BlackboardServices.{done, create_blackboard}
use arinc653emulator.ProcessServices.{
  refuses, Platform, create_process, new_descriptor, get_process_id, get_process_status,
  dormant_status,
}
use arinc653emulator.ProcessServices.Start.{delayed_start}
use arinc653emulator.ProcessServices.Admission.{Acceptable, refuses_lem}
use arinc653emulator.ProcessServices.Table.{Table}
use arinc653emulator.PartitionModes.Reachable.{start, creates, prepares, Reach-Table}
use arinc653emulator.PartitionModes.{transition}
use arinc653emulator.Scheduling.Steps.{prepare, prepare_all}
use arinc653emulator.Types.{normal}
use arinc653emulator.Partition.{release_process}
use arinc653emulator.ProcessServices.Behaviour.{
  create_process-get_process_id, StartedOrRefused, delayed_start_lem,
}

abbrev pub now : TimeSpec
now = record { tv_sec = pos 5; tv_nsec = pos 0 }

abbrev pub attributes : Attributes
attributes = record {
  process_name = "P";
  period = pos 2000;
  time_capacity = pos 1000;
  has_entry_point = true;
  base_priority = pos 90;
  deadline = hard;
}

abbrev pub blank : Descriptor
blank = record {
  attributes = attributes;
  process_state = dormant;
  priority = pos 90;
  current_priority = pos 0;
  suspension_event = new_event "";
  response_board_id = none;
  hm_descriptor_id = none;
  is_health_manager = false;
  hm_response_board_id = 1000;
  thread = 7;
  sem_state = new_semaphore "NO_NAME" (pos 0) (pos 512);
  process_response = record {
    success = true;
    responding_entity = process_entity;
    hm_message_length = 0;
  };
  readlocks = [];
  writelocks = [];
  prev_start_time = record { tv_sec = pos 0; tv_nsec = pos 0 };
  initial_delay_time = pos 0;
  next_scheduled_time = now;
  critical_time = now;
  deadline_time = now;
  next_instance = release_process;
}

abbrev platform : Platform
platform = record {
  response_name = λ i. "RESPONSE_0";
  response_size = pos 4;
  blank = blank;
  fresh = 0 ∷ 0 ∷ 0 ∷ 0 ∷ [];
  thread_created = true;
}

refuses_example : (refuses attributes ≡ false) ↔ Acceptable attributes
refuses_example = refuses_lem attributes

abbrev board : Blackboard
board = record {
  event_id = 0;
  board_name = "RESPONSE_0";
  max_message_size = pos 4;
  current_message_size = pos 0;
  payload = 0 ∷ 0 ∷ 0 ∷ 0 ∷ [];
}

abbrev with_board : Partition
with_board = record new_partition { events = new_event "RESPONSE_0" ∷ []; blackboards = board ∷ [] }

abbrev with_process : Partition
with_process = record with_board {
  processes = new_descriptor blank attributes (some 0) ∷ [];
  sorted = 0 ∷ [];
}

board_created :
    create_blackboard (0 ∷ 0 ∷ 0 ∷ 0 ∷ []) "RESPONSE_0" (pos 4) (some (obtain none))
    ≡ done (no_error, some 0, some with_board)
unfolding create_blackboard create_event obtain new_partition new_event find_index
board_created = refl

accepted : refuses attributes ≡ false
unfolding refuses
accepted = refl

process_creation_example :
    (id : ℕ) × (b : Apex) × (create_process platform attributes none ≡ done (no_error, some id, b))
    × (get_process_id "P" b ≡ (no_error, some id))
    × (get_process_status id b ≡ (no_error, some (dormant_status, pos 90, attributes)))
unfolding obtain new_partition find_index
process_creation_example =
    create_process-get_process_id platform attributes none no_error (some 0) with_board refl
      (omega arith) accepted refl refl board_created

process_created :
    create_process platform attributes none ≡ done (no_error, some 0, some with_process)
unfolding create_process create_blackboard create_event obtain new_partition new_event find_index
    refuses
process_created = refl

abbrev prepared : Descriptor
prepared = record (new_descriptor blank attributes (some 0)) { next_instance = release_process }

Table-example : Table (record with_process { mode = normal; processes = prepared ∷ [] })
unfolding transition prepare prepare_all obtain new_partition new_descriptor
Table-example = Reach-Table (
    prepares
      (creates start platform attributes (no_error, some 0, some with_process) process_created)
      (λ i. now) (prepared ∷ []) refl refl)

started : (r : ReturnCode × Apex) × (delayed_start now 0 (pos 10) (some with_process) ≡ done r)
unfolding delayed_start new_partition new_descriptor
started = (_, refl)

start_example :
    StartedOrRefused with_process 0 (pos 10) (new_descriptor blank attributes (some 0)) started.0
start_example =
    delayed_start_lem now 0 (pos 10) with_process (new_descriptor blank attributes (some 0))
      started.0 refl started.1
