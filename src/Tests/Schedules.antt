-- ===== src/Tests/Schedules.antt =====
-- A partition with a periodic process, one that is not and one that is due later.
use arinc653emulator.Prelude.{
  scale, ◌*◌, pos, ◌+ℤ◌, ◌≡◌, refl, arith, List, [], ◌∷◌, ◌++◌, none, some, length, get_elem?,
}
use arinc653emulator.Types.{no_error, infinite_time_value}
use arinc653emulator.Time.{TimeSpec, convert_time_spec_to_nano, compare_time}
use arinc653emulator.Blocking.{returns}
use arinc653emulator.Event.{new_event}
use arinc653emulator.RwLock.{RwLock, readunlock, writeunlock}
use arinc653emulator.Partition.{
  soft, Descriptor, dormant, running, waiting_on_period, check_deadline, Partition,
}
use arinc653emulator.EventServices.{new_partition}
use arinc653emulator.BlackboardServices.{done}
use arinc653emulator.BlackboardServices.Integrity.{Ends}
use arinc653emulator.SemaphoreServices.{my_id}
use arinc653emulator.ProcessServices.{resume}
use arinc653emulator.ProcessServices.Threads.{stop}
use arinc653emulator.ProcessServices.Unlocking.{release_all}
use arinc653emulator.ProcessServices.Stopping.{stop_lem}
use arinc653emulator.ProcessServices.Suspension.{suspend_self}
use arinc653emulator.ProcessServices.Suspending.{
  resuming, at, asleep, resumed_at, suspend_self-resume,
}
use arinc653emulator.Scheduling.Steps.{Reports, catch_up, catch_up_fuel, dispatch}
use arinc653emulator.Scheduling.CatchUp.{FirstAfter, catch_up_lem}
use arinc653emulator.Scheduling.Phase.{InPhase, cycles, cycles_lem}
use arinc653emulator.Scheduling.Kept.{Kept}
use arinc653emulator.Scheduling.Dispatch.{dispatch_lem}
use arinc653emulator.Scheduling.Reporting.{services}
use arinc653emulator.Tests.Processes.{now, attributes, blank}

abbrev pub soon : TimeSpec
soon = record { tv_sec = pos 5; tv_nsec = pos 900 }

abbrev late : TimeSpec
late = record { tv_sec = pos 9; tv_nsec = pos 0 }

abbrev pub reports : Reports
reports =
    services (record { bytes = λ t r. 0 ∷ 0 ∷ 0 ∷ 0 ∷ []; size = pos 4 })
      (record { bytes = λ e. 0 ∷ 0 ∷ []; size = pos 2 }) [] now

abbrev periodic_process : Descriptor
periodic_process = record blank { process_state = waiting_on_period }

-- It holds the lock 0 twice as a reader, and the lock 1 as the writer.
abbrev pub holder : Descriptor
holder = record blank {
  attributes = record attributes {
    process_name = "Q";
    period = infinite_time_value;
    deadline = soft;
  };
  thread = 8;
  process_state = running;
  readlocks = 0 ∷ 0 ∷ [];
  writelocks = 1 ∷ [];
  critical_time = late;
  next_instance = check_deadline;
}

-- Two of three readers inside, and a writer inside
abbrev read_twice : RwLock
read_twice = record {
  lock_name = "A";
  max_readers = pos 3;
  rw_sem = record { counter = pos 1; name = "NO_NAME"; maximum_value = pos 3; waiting = 0 };
  writer_semaphore = record {
    counter = pos 1;
    name = "NO_NAME";
    maximum_value = pos 1;
    waiting = 0;
  };
}

abbrev written : RwLock
written = record {
  lock_name = "B";
  max_readers = pos 1;
  rw_sem = record { counter = pos 0; name = "NO_NAME"; maximum_value = pos 1; waiting = 0 };
  writer_semaphore = record {
    counter = pos 0;
    name = "NO_NAME";
    maximum_value = pos 1;
    waiting = 0;
  };
}

abbrev pub two_processes : Partition
two_processes = record new_partition {
  rw_locks = read_twice ∷ written ∷ [];
  processes = periodic_process ∷ holder ∷ [];
  sorted = 0 ∷ 1 ∷ [];
}

stop_example :
    (q : Partition) × (e : Descriptor) × (stop (some 9) 1 (some two_processes)
      ≡ done (no_error, some q))
    × (get_elem? q.processes 1 ≡ some e)
    × (e.process_state ≡ dormant)
    × (e.attributes ≡ holder.attributes)
    × (e.priority ≡ holder.attributes.base_priority)
    × (e.readlocks ≡ [])
    × (e.writelocks ≡ [])
    × (q.rw_locks
        ≡ release_all writeunlock
            (1 ∷ [])
            (release_all readunlock (0 ∷ 0 ∷ []) (read_twice ∷ written ∷ [])))
unfolding my_id new_partition
stop_example =
    stop_lem (some 9) 1 holder two_processes refl refl refl (omega arith, (omega arith, record {}))
      (omega arith, record {})

catch_up_example :
    (r : TimeSpec) × (catch_up (catch_up_fuel late now) (pos 700) late now ≡ some r)
    × FirstAfter 700 late now r
catch_up_example =
    catch_up_lem 700 late now (omega arith, omega arith) (omega arith, omega arith) (omega arith)
      (omega arith)

abbrev visits : List (TimeSpec × TimeSpec)
visits = (now, soon) ∷ (soon, late) ∷ []

cycles_example :
    (q : Partition) × (e : Descriptor) × (cycles reports 0 visits two_processes ≡ done q)
    × (get_elem? q.processes 0 ≡ some e)
    × InPhase attributes (pos 5000000000 +ℤ pos (length visits * 2000)) e
unfolding new_partition convert_time_spec_to_nano ◌+ℤ◌ scale
cycles_example =
    cycles_lem reports 0 2000 visits two_processes periodic_process attributes (pos 5000000000) refl
      (record {
        same = refl;
        normal = (omega arith, omega arith);
        due = refl;
        waits = refl;
        released_next = refl;
      })
      refl (omega arith) (omega arith, omega arith)

dispatch_example :
    (dispatch reports (λ i. none) (λ i. now) soon ((0 ∷ []) ++ (1 ∷ [])) two_processes
      ≡ dispatch reports (λ i. none) (λ i. now) soon (0 ∷ []) two_processes)
    × Ends (Kept 1 holder) (dispatch reports (λ i. none) (λ i. now) soon (0 ∷ []) two_processes)
unfolding new_partition compare_time
dispatch_example =
    dispatch_lem reports (λ i. none) (λ i. now) soon (0 ∷ []) [] 1 holder two_processes refl refl

suspend_example :
    (s : Partition) × (resume 1 (some (at two_processes 1 (asleep holder))) ≡ (no_error, some s))
    × (suspend_self 8 now (pos 500) (resuming 1 []) (some two_processes)
        ≡ returns (no_error, some (at two_processes 1 (resumed_at holder))))
unfolding my_id new_partition new_event
suspend_example =
    suspend_self-resume two_processes 1 8 holder now (pos 500) [] refl refl refl refl refl
      (omega arith)
