-- ===== src/HealthServices.antt =====
-- src/APEX_HM_SERVICES.cc, with the types of include/ACM/USER/ACM_HM_TYPES.h: a process raises an error
-- with its health manager, which reads it and answers on the process's board.
pub mod Managers
use mathlib.Core.Option
use arinc653emulator.Prelude.{
  ℕ, suc, ℤ, pos, negsuc, leb, ltb, ◌%◌, ◌^◌, String, Bool, false, not, ◌||◌, ◌==◌, Option, none,
  some, List, [], ◌∷◌, ◌++◌, length, get_elem?, set, if◌then◌else◌,
}
use arinc653emulator.Types.{
  ReturnCode, no_error, not_available, invalid_param, invalid_config, invalid_mode,
  infinite_time_value, max_number_of_processes,
}
use arinc653emulator.Time.{TimeSpec}
use arinc653emulator.Blocking.{Wake, Outcome, returns, blocks, terminates}
use arinc653emulator.Buffer.{memcpy}
use arinc653emulator.Partition.{HmDescriptor, Partition, Apex, is_idle, is_normal}
use arinc653emulator.BlackboardServices.{
  Run, done, aborts, faults, create_blackboard, display_blackboard,
}
use arinc653emulator.BufferServices.{send_buffer}
use arinc653emulator.SemaphoreServices.{get_my_id}
use arinc653emulator.ProcessServices.Start.{delayed_start}

-- ERROR_CODE_TYPE
pub data ErrorCode : Type 0 where
  deadline_missed application_error numeric_error illegal_request : ErrorCode
  stack_overflow memory_violation hardware_fault power_fail : ErrorCode

-- ERROR_STATUS_TYPE, less FAILED_ADDRESS, which is not set
pub record ErrorStatus : Type 0 where
  pub error_code : ErrorCode
  pub message_length : ℤ
  pub failed_process_id : ℕ
  pub message : List ℕ

-- The bytes of an ERROR_STATUS_TYPE, as the compiler lays it out, and its size
pub record ErrorLayout : Type 0 where
  pub bytes : ErrorStatus → List ℕ
  pub size : ℤ

-- The error that a caller raises: `stack` is the MESSAGE array before the copy.
pub record Raised : Type 0 where
  pub code : ErrorCode
  pub stack : List ℕ
  pub text : List ℕ
  pub text_length : ℤ

abbrev pub raise_end : Outcome (Option (ReturnCode × Apex)) → Outcome (Run (ReturnCode × Apex))
raise_end (returns (some r)) = returns (done r)
raise_end (returns none) = returns faults
raise_end blocks = blocks
raise_end terminates = terminates

-- RAISE_APPLICATION_ERROR with a FAULTY_PROCESS_ID
unfoldable pub raise_error_of :
    ErrorLayout
    → ℕ
    → Raised
    → TimeSpec
    → List (Wake Partition)
    → (Partition → Partition)
    → Apex
    → Outcome (Run (ReturnCode × Apex))
raise_error_of layout id e now ws meanwhile none = returns (done (invalid_config, none))
raise_error_of layout id e now ws meanwhile (some p) = elim (get_elem? p.processes id) [
  | none ↦ returns faults
  | some d ↦ elim d.hm_descriptor_id [
    | none ↦ returns (done (not_available, some p))
    | some h ↦ elim (memcpy e.stack e.text e.text_length) [
      | none ↦ returns faults
      | some message ↦ elim (get_elem? p.hm_vector h) [
        | none ↦ returns faults
        | some x ↦ raise_end (
            send_buffer x.hm_buffer_id
              (layout.bytes (record {
                error_code = e.code;
                message_length = e.text_length;
                failed_process_id = id;
                message = message;
              }))
              layout.size now infinite_time_value ws meanwhile (some p))
      ]
    ]
  ]
]

-- RAISE_APPLICATION_ERROR of the caller, the thread `self`
unfoldable pub raise_application_error :
    ErrorLayout
    → ℕ
    → Raised
    → TimeSpec
    → List (Wake Partition)
    → (Partition → Partition)
    → Apex
    → Outcome (Run (ReturnCode × Apex))
raise_application_error layout self e now ws meanwhile none = returns (done (invalid_config, none))
raise_application_error layout self e now ws meanwhile (some p) = elim (get_my_id self (some p)).1 [
  | none ↦ returns (done ((get_my_id self (some p)).0, some p))
  | some id ↦ raise_error_of layout id e now ws meanwhile (some p)
]

-- GET_PROCESS_HM_BOARD_ID
unfoldable pub get_process_hm_board_id : ℕ → Apex → ReturnCode × Option ℕ
get_process_hm_board_id id none = (invalid_config, none)
get_process_hm_board_id id (some p) = elim (get_elem? p.processes id) [
  | none ↦ (invalid_param, none)
  | some d ↦ elim d.hm_descriptor_id [
    | none ↦ (not_available, none)
    | some _ ↦ (no_error, some d.hm_response_board_id)
  ]
]

-- The loops that look for the health manager's descriptor: the first of the process `id`
unfoldable pub find_manager : ℕ → List HmDescriptor → Option ℕ
find_manager id [] = none
find_manager id (x ∷ xs) =
    let rest = Option.map suc (find_manager id xs) in if x.hm_process_id == id then some 0 else rest

-- HM_GET_MY_DESCRIPTOR_ID, called by the thread `self`
unfoldable pub hm_get_my_descriptor_id : ℕ → Apex → Run (ReturnCode × Option ℕ)
hm_get_my_descriptor_id self none = done (invalid_config, none)
hm_get_my_descriptor_id self (some p) = elim (get_my_id self (some p)).1 [
  | none ↦ done ((get_my_id self (some p)).0, none)
  | some id ↦ elim (get_elem? p.processes id) [
    | none ↦ faults
    | some d ↦
        if not d.is_health_manager
        then done (not_available, none)
        else elim (find_manager id p.hm_vector) [
          | none ↦ done (invalid_config, none)
          | some h ↦ done (no_error, some h)
        ]
  ]
]

abbrev pub manager_buffer :
    List HmDescriptor → Run (ReturnCode × Option ℕ) → Run (ReturnCode × Option ℕ)
manager_buffer managers (done (code, some h)) = elim (get_elem? managers h) [
  | none ↦ faults
  | some x ↦ done (code, some x.hm_buffer_id)
]
manager_buffer managers r = r

-- HM_GET_MY_BUFFER_ID, called by the thread `self`
unfoldable pub hm_get_my_buffer_id : ℕ → Apex → Run (ReturnCode × Option ℕ)
hm_get_my_buffer_id self none = done (invalid_config, none)
hm_get_my_buffer_id self (some p) =
    manager_buffer p.hm_vector (hm_get_my_descriptor_id self (some p))

abbrev pub answers : Option ℕ → ℕ → Bool
answers none h = false
answers (some k) h = k == h

abbrev pub notified :
    ℕ → List ℕ → ℤ → Partition → Run (ReturnCode × Option ℕ) → Run (ReturnCode × Apex)
notified id response size p (done (code, none)) = done (code, some p)
notified id response size p (done (code, some h)) = elim (get_elem? p.processes id) [
  | none ↦ faults
  | some d ↦
      if not (answers d.hm_descriptor_id h)
      then done (not_available, some p)
      else display_blackboard d.hm_response_board_id response size (some p)
]
notified id response size p aborts = aborts
notified id response size p faults = faults

-- HM_NOTIFY_PROCESS, called by the thread `self` with the bytes of an HM_RESPONSE_TYPE
unfoldable pub hm_notify_process : ℕ → ℕ → List ℕ → ℤ → Apex → Run (ReturnCode × Apex)
hm_notify_process self id response size none = done (invalid_config, none)
hm_notify_process self id response size (some p) =
    notified id response size p (hm_get_my_descriptor_id self (some p))

-- What REGISTER_PROCESS_WITH_HEALTH_MANAGER does with the board it made: a negative descriptor, one
-- association too many and a health manager that is no process are accesses out of bounds.
unfoldable pub associate : ℕ → ℤ → ℕ → Partition → Run Partition
associate id (negsuc h) board p = faults
associate id (pos h) board p = elim (get_elem? p.processes id) [
  | none ↦ faults
  | some d ↦ elim (get_elem? p.hm_vector h) [
    | none ↦ faults
    | some x ↦ elim (get_elem? p.processes x.hm_process_id) [
      | none ↦ faults
      | some _ ↦
          if ltb (length x.associations) max_number_of_processes
          then done (record p {
            processes =
                set p.processes id
                  (record d { hm_descriptor_id = some h; hm_response_board_id = board });
            hm_vector =
                set p.hm_vector h
                  (record x { associations = x.associations ++ ((id, board) ∷ []) });
          })
          else faults
    ]
  ]
]

abbrev pub associated :
    ℕ → ℤ → Run (ReturnCode × Option ℕ × Apex) → Run (ReturnCode × Option ℕ × Apex)
associated id h (done (no_error, some board, some p)) = elim (associate id h board p) [
  | done q ↦ done (no_error, some board, some q)
  | aborts ↦ aborts
  | faults ↦ faults
]
associated id h r = r

-- The test of an HM_DESCRIPTOR_ID against the number of the health managers
abbrev pub too_large : ℤ → ℕ → Bool
too_large (pos h) n = leb n h
too_large (negsuc h) n = false

-- REGISTER_PROCESS_WITH_HEALTH_MANAGER: `name` is what snprintf writes, `fresh` what malloc returned,
-- and `size` is MAX_HM_RESPONSE_MESSAGE_SIZE.
unfoldable pub register_process_with_health_manager :
    String → List ℕ → ℤ → ℕ → ℤ → Apex → Run (ReturnCode × Option ℕ × Apex)
register_process_with_health_manager name fresh size id h none = done (invalid_config, none, none)
register_process_with_health_manager name fresh size id h (some p) =
    if is_idle p.mode || is_normal p.mode
    then done (invalid_mode, none, some p)
    else if leb (length p.processes) (id % 2 ^ 32)
    then done (invalid_param, none, some p)
    else if too_large h (length p.hm_vector)
    then done (invalid_param, none, some p)
    else associated id h (create_blackboard fresh name size (some p))

-- START_HM
unfoldable pub start_hm : TimeSpec → ℤ → Apex → Run (ReturnCode × Apex)
start_hm now h none = done (invalid_config, none)
start_hm now (negsuc h) (some p) = done (invalid_param, some p)
start_hm now (pos h) (some p) = elim (get_elem? p.hm_vector h) [
  | none ↦ done (invalid_param, some p)
  | some x ↦ delayed_start now x.hm_process_id (pos 0) (some p)
]
