-- ===== src/Tests/Locks.antt =====
-- A readers-writer lock for one reader, which a writer takes, and the scheduler's order.
use arinc653emulator.Partition.{process_entity}
use arinc653emulator.Prelude.{
  ◌+◌, ◌-◌, ◌≤◌, pos, ◌≤ℤ◌, ◌≡◌, ◌↔◌, ◌⊎◌, refl, arith, true, false, none, [],
}
use arinc653emulator.Semaphore.{new_semaphore, grant, leave}
use arinc653emulator.Time.{convert_time_spec_to_nano}
use arinc653emulator.Event.{new_event}
use arinc653emulator.Partition.{soft, Descriptor, ready, check_deadline}
use arinc653emulator.ProcessServices.{is_dormant}
use arinc653emulator.RwLock.{new_rw_lock, release_token}
use arinc653emulator.RwLock.Shared.{
  System, Reach, init, start, later, on_rw, on_token, take_token, take_unit, write_lock,
}
use arinc653emulator.RwLock.Exclusion.{mutual_exclusion}
use arinc653emulator.Scheduling.{process_descriptor_comp, process_descriptor_comp_lem}

abbrev s0 : System
s0 = init "l" 1

abbrev s1 : System
s1 = record s0 { lock = on_token grant s0.lock; collecting = 0 + 1 }

abbrev s2 : System
s2 = record s1 { lock = on_rw grant s1.lock; units = 0 + 1 }

abbrev s3 : System
s3 = record s2 { lock = release_token s2.lock; collecting = 0 + 1 - 1; units = 0; writers = 0 + 1 }

held : Reach "l" 1 s3
unfolding new_rw_lock new_semaphore grant leave
held =
    later
      (later (later start (take_token (λ e. ground arith)))
        (take_unit (omega arith) (λ e. ground arith) (omega arith)))
      (write_lock (omega arith) refl)

exclusion_example :
    (s3.writers ≤ 1)
    × ((s3.writers ≡ 0) ⊎ (s3.readers ≡ 0))
    × (s3.readers ≤ 1)
    × (s3.collecting ≤ 1)
    × (pos 0 ≤ℤ s3.lock.rw_sem.counter)
exclusion_example = mutual_exclusion (omega arith) held

abbrev at_five : Descriptor
at_five = record {
  attributes = record {
    process_name = "P";
    period = pos 2000;
    time_capacity = pos 1000;
    has_entry_point = true;
    base_priority = pos 90;
    deadline = soft;
  };
  process_state = ready;
  priority = pos 90;
  current_priority = pos 90;
  suspension_event = new_event "";
  response_board_id = none;
  hm_descriptor_id = none;
  is_health_manager = false;
  hm_response_board_id = 1000;
  thread = 7;
  sem_state = new_semaphore "NO_NAME" (pos 0) (pos 512);
  process_response = record {
    success = true;
    responding_entity = process_entity;
    hm_message_length = 0;
  };
  readlocks = [];
  writelocks = [];
  prev_start_time = record { tv_sec = pos 0; tv_nsec = pos 0 };
  initial_delay_time = pos 0;
  next_scheduled_time = record { tv_sec = pos 5; tv_nsec = pos 0 };
  critical_time = record { tv_sec = pos 5; tv_nsec = pos 0 };
  deadline_time = record { tv_sec = pos 5; tv_nsec = pos 0 };
  next_instance = check_deadline;
}

-- A process is before itself.
order_example : (process_descriptor_comp at_five at_five ≡ true) ↔ (
    (is_dormant at_five.process_state ≡ false)
    × ((is_dormant at_five.process_state ≡ true)
        ⊎ (convert_time_spec_to_nano at_five.critical_time
            ≤ℤ convert_time_spec_to_nano at_five.critical_time)))
order_example =
    process_descriptor_comp_lem at_five at_five (omega arith, omega arith)
      (omega arith, omega arith)
