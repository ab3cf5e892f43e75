-- ===== src/ProcessServices/Threads.antt =====
-- The threads of the processes, of src/PROCESS.cc (start, restart, stop, waiting_on_period and the
-- clean-up handler), and STOP of src/APEX_PROCESS_SERVICES.cc.
use arinc653emulator.Prelude.{
  ℕ, String, Option, none, some, List, [], ◌∷◌, get_elem?, set, if◌then◌else◌, Bool, true, false,
}
use arinc653emulator.Types.{
  ReturnCode, no_error, no_action, invalid_param, invalid_config, worker_thread_restart_priority,
}
use arinc653emulator.Semaphore.{post}
use arinc653emulator.Partition.{
  Descriptor, ProcessState, dormant, ready, running, restarting, Partition, Apex,
}
use arinc653emulator.EventServices.{get_event_id, reset_event_service}
use arinc653emulator.BlackboardServices.{Run, done, aborts, faults}
use arinc653emulator.SemaphoreServices.{readunlock_rw_semaphore, writeunlock_rw_semaphore}
use arinc653emulator.ProcessServices.{is_dormant}

-- A change of one process
abbrev pub modify : (Descriptor → Descriptor) → ℕ → Partition → Partition
modify f id p = elim (get_elem? p.processes id) [
  | none ↦ p
  | some d ↦ record p { processes = set p.processes id (f d) }
]

-- APEX_HELPER_RESET_EVENT, called on the partition: the event of a name is reset, if there is one.
unfoldable pub helper_reset_event : String → Partition → Partition
helper_reset_event name p = elim (get_event_id name (some p)).1 [
  | none ↦ p
  | some id ↦ elim (reset_event_service id (some p)).1 [ none ↦ p | some q ↦ q ]
]

abbrev pub is_ready : ProcessState → Bool
is_ready ready = true
is_ready _ = false

-- PROCESS::start on the process `d` at `id`
unfoldable pub start_thread : ℕ → Descriptor → Partition → Partition
start_thread id d p =
    if is_ready d.process_state
    then modify (λ x. record x { sem_state = (post x.sem_state).1 }) id
        (helper_reset_event d.attributes.process_name
          (modify (λ x. record x { process_state = running }) id p))
    else p

abbrev pub is_no_error : ReturnCode → Bool
is_no_error no_error = true
is_no_error _ = false

-- A loop of Thread_cleanup_Handler, with its assertion
unfoldable pub unlock_each : (ℕ → Apex → ReturnCode × Apex) → List ℕ → Apex → Run Apex
unlock_each unlock [] a = done a
unlock_each unlock (i ∷ is) a =
    let r = unlock i a in
    let rest = unlock_each unlock is r.1 in if is_no_error r.0 then rest else aborts

abbrev pub then_unlock : (ℕ → Apex → ReturnCode × Apex) → List ℕ → Run Apex → Run Apex
then_unlock unlock is (done a) = unlock_each unlock is a
then_unlock unlock is aborts = aborts
then_unlock unlock is faults = faults

-- Thread_cleanup_Handler, run by the thread of the process `d` when it is cancelled
unfoldable pub cleanup : Descriptor → Partition → Run Apex
cleanup d p =
    then_unlock (writeunlock_rw_semaphore d.thread) d.writelocks
      (unlock_each (readunlock_rw_semaphore d.thread) d.readlocks (some p))

-- The process `d` once its thread has ended: restart makes the thread `new`, if it can, and the caller
-- of stop sets the priority.
abbrev pub stopped : Option ℕ → Descriptor → Descriptor
stopped none d = record d { process_state = dormant; priority = d.attributes.base_priority }
stopped (some new) d = record d {
  process_state = dormant;
  priority = d.attributes.base_priority;
  thread = new;
}

abbrev pub after_cleanup : Option ℕ → ℕ → Run Apex → Run Partition
after_cleanup new id (done (some p)) = done (modify (stopped new) id p)
after_cleanup new id (done none) = faults
after_cleanup new id aborts = aborts
after_cleanup new id faults = faults

-- set_priority, stop(true) with restart, and set_priority, on the process `d` at `id`, as STOP and the
-- scheduler call them: the thread is cancelled and joined, and a new one created.
unfoldable pub stop_process : Option ℕ → ℕ → Descriptor → Partition → Run Partition
unfolding cleanup unlock_each
stop_process new id d p = after_cleanup new id (
    cleanup d (
      modify
        (λ x. record x { priority = worker_thread_restart_priority; process_state = restarting }) id
        p))

abbrev pub stop_end : Run Partition → Run (ReturnCode × Apex)
stop_end (done p) = done (no_error, some p)
stop_end aborts = aborts
stop_end faults = faults

-- STOP, of another process than the caller's
unfoldable pub stop : Option ℕ → ℕ → Apex → Run (ReturnCode × Apex)
stop new id none = done (invalid_config, none)
stop new id (some p) = elim (get_elem? p.processes id) [
  | none ↦ done (invalid_param, some p)
  | some d ↦
      if is_dormant d.process_state
      then done (no_action, some p)
      else stop_end (stop_process new id d p)
]
