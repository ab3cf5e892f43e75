-- ===== src/Interface.antt =====
-- src/APEX_INTERFACE_IMPL.cc: the helpers that take a process or an event by its name. The other
-- functions of that file pass their arguments on to the class APEX.
use arinc653emulator.Prelude.{
  ℕ, ltb, ℤ, pos, eqb_ℤ, not, String, Bool, false, Option, none, some, List, if◌then◌else◌,
}
use arinc653emulator.Types.{ReturnCode, no_error, not_available, invalid_param, infinite_time_value}
use arinc653emulator.Time.{TimeSpec}
use arinc653emulator.Blocking.{Wake, Outcome, returns, Run, done, aborts, faults}
use arinc653emulator.Partition.{Attributes, Partition, Apex}
use arinc653emulator.EventServices.{get_event_id, set_event_service, wait_event_service}
use arinc653emulator.BlackboardServices.{Read}
use arinc653emulator.ProcessServices.{
  Platform, create_process, get_process_id, get_process_status, StatusState, resume,
}
use arinc653emulator.ProcessServices.Start.{start, delayed_start}
use arinc653emulator.ProcessServices.Threads.{stop}
use arinc653emulator.ProcessServices.Suspension.{suspend}
use arinc653emulator.ProcessServices.Notifications.{ResponseLayout, get_process_finished_status}

-- A call on what a name stands for, where it stands for something
abbrev pub by_name {ℓ} : {A : Type ℓ} → ReturnCode × Option ℕ → (ReturnCode → A) → (ℕ → A) → A
by_name (code, none) refused call = refused code
by_name (code, some id) refused call = call id

-- MAX_NAME_LENGTH
abbrev pub max_name_length : ℕ
max_name_length = 100

-- APEX_HELPER_CREATE_PROCESS; `size` is the size of the name.
unfoldable pub helper_create_process :
    Platform → ℕ → Attributes → Apex → Run (ReturnCode × Option ℕ × Apex)
helper_create_process platform size attributes a =
    if ltb max_name_length size
    then done (invalid_param, none, a)
    else create_process platform attributes a

-- APEX_HELPER_START_PROCESS
unfoldable pub helper_start_process : TimeSpec → String → Apex → Run (ReturnCode × Apex)
helper_start_process now name a =
    by_name (get_process_id name a) (λ code. done (code, a)) (λ id. start now id a)

-- APEX_HELPER_DELAYED_START_PROCESS
unfoldable pub helper_delayed_start_process : TimeSpec → String → ℤ → Apex → Run (ReturnCode × Apex)
helper_delayed_start_process now name delay a =
    by_name (get_process_id name a) (λ code. done (code, a)) (λ id. delayed_start now id delay a)

-- APEX_HELPER_STOP_PROCESS
unfoldable pub helper_stop_process : (ℕ → Option ℕ) → String → Apex → Run (ReturnCode × Apex)
helper_stop_process threads name a =
    by_name (get_process_id name a) (λ code. done (code, a)) (λ id. stop (threads id) id a)

-- APEX_HELPER_SUSPEND_PROCESS
unfoldable pub helper_suspend_process : String → Apex → ReturnCode × Bool
helper_suspend_process name a =
    by_name (get_process_id name a) (λ code. (code, false)) (λ id. suspend id a)

-- APEX_HELPER_RESUME_PROCESS
unfoldable pub helper_resume_process : String → Apex → ReturnCode × Apex
helper_resume_process name a =
    by_name (get_process_id name a) (λ code. (code, a)) (λ id. resume id a)

-- APEX_HELPER_SET_EVENT
unfoldable pub helper_set_event : String → Apex → ReturnCode × Apex
helper_set_event name a =
    by_name (get_event_id name a) (λ code. (code, a)) (λ id. set_event_service id a)

-- APEX_HELPER_WAIT_EVENT
unfoldable pub helper_wait_event :
    String → TimeSpec → ℤ → List (Wake Partition) → Apex → Outcome (ReturnCode × Apex)
helper_wait_event name now timeout ws a =
    by_name (get_event_id name a) (λ code. returns (code, a))
      (λ id. wait_event_service id now timeout ws a)

-- The result with the length 0, and the block as it was
abbrev pub nothing_read : List ℕ → ReturnCode → Apex → Outcome (Run Read)
nothing_read out code a = returns (done (code, some (pos 0, out), a))

-- What follows START: only the response of a process that is not periodic is waited for.
abbrev pub after_start :
    List ℕ → Bool → (Apex → Outcome (Run Read)) → Run (ReturnCode × Apex) → Outcome (Run Read)
after_start out aperiodic wait (done (no_error, a)) =
    if not aperiodic then nothing_read out not_available a else wait a
after_start out aperiodic wait (done (code, a)) = nothing_read out code a
after_start out aperiodic wait aborts = returns aborts
after_start out aperiodic wait faults = returns faults

abbrev pub after_status :
    List ℕ
    → Apex
    → (Bool → Outcome (Run Read))
    → ReturnCode × Option (StatusState × ℤ × Attributes)
    → Outcome (Run Read)
after_status out a go (code, none) = nothing_read out code a
after_status out a go (code, some status) = go (eqb_ℤ status.2.period infinite_time_value)

-- APEX_HELPER_START_PROCESS_AND_WAIT_FOR_RESPONSE
unfoldable pub helper_start_process_and_wait_for_response :
    ResponseLayout
    → TimeSpec
    → String
    → List ℕ
    → ℤ
    → List (Wake Partition)
    → Apex
    → Outcome (Run Read)
helper_start_process_and_wait_for_response layout now name out capacity ws a =
    by_name (get_process_id name a) (λ code. nothing_read out code a)
      (λ id.
        after_status out a
          (λ aperiodic.
            after_start out aperiodic
              (λ b. get_process_finished_status layout out id now infinite_time_value capacity ws b)
              (start now id a))
          (get_process_status id a))
