-- ===== src/HealthServices/Managers.antt =====
-- Of src/APEX_HM_SERVICES.cc, the creation of a health manager, the errors that it gets, and the call
-- that raises an error and waits for the response.
use arinc653emulator.Prelude.{
  ℕ, ◌==◌, ℤ, pos, String, str_append, Bool, true, not, ◌||◌, Option, none, some, List, [], ◌∷◌,
  ◌++◌, length, get_elem?, set, if◌then◌else◌,
}
use arinc653emulator.Types.{
  ReturnCode, no_error, not_available, invalid_param, invalid_config, invalid_mode,
  infinite_time_value, partition_process_high_priority,
}
use arinc653emulator.Time.{TimeSpec}
use arinc653emulator.Blocking.{
  Wake, Outcome, returns, blocks, terminates, Run, done, aborts, faults,
}
use arinc653emulator.Buffer.{Slot}
use arinc653emulator.Partition.{Attributes, hard, Partition, Apex, is_idle, is_normal}
use arinc653emulator.EventServices.{obtain}
use arinc653emulator.BlackboardServices.{Read, clear_blackboard, read_blackboard}
use arinc653emulator.BufferServices.{fifo, create_buffer, ReceivedBuffer, receive_buffer}
use arinc653emulator.SemaphoreServices.{get_my_id}
use arinc653emulator.ProcessServices.{Platform}
use arinc653emulator.Interface.{helper_create_process}
use arinc653emulator.HealthServices.{
  ErrorLayout, Raised, raise_application_error, hm_get_my_descriptor_id, answers,
}

-- MAX_HM_BUFFER_MESSGAES
abbrev pub max_hm_buffer_messages : ℤ
max_hm_buffer_messages = pos 20

-- The attributes of a health manager's process
abbrev pub manager_attributes : String → Bool → Attributes
manager_attributes name has_entry_point = record {
  process_name = name;
  period = infinite_time_value;
  time_capacity = infinite_time_value;
  has_entry_point = has_entry_point;
  base_priority = partition_process_high_priority;
  deadline = hard;
}

abbrev pub marked : ℕ → Partition → Partition
marked id p = elim (get_elem? p.processes id) [
  | none ↦ p
  | some d ↦ record p { processes = set p.processes id (record d { is_health_manager = true }) }
]

-- The health manager's descriptor is added where its buffer was created; HM_ID is its index.
abbrev pub manager_added : ℕ → ReturnCode × Option ℕ × Apex → Run (ReturnCode × Option ℕ × Apex)
manager_added id (no_error, some buffer, some p) = done (
  no_error,
  some (length p.hm_vector),
  some (record p {
    hm_vector =
        p.hm_vector
        ++ (record { hm_process_id = id; hm_buffer_id = buffer; associations = [] } ∷ []);
  }),
)
manager_added id (no_error, _, a) = faults
manager_added id (code, _, a) = done (code, none, a)

abbrev pub with_buffer :
    (ℕ → Slot)
    → String
    → ℤ
    → Run (ReturnCode × Option ℕ × Apex)
    → Run (ReturnCode × Option ℕ × Apex)
with_buffer fresh name size (done (no_error, some id, some p)) =
    manager_added id
      (create_buffer fresh name size max_hm_buffer_messages fifo (some (marked id p)))
with_buffer fresh name size (done (no_error, _, a)) = faults
with_buffer fresh name size (done (code, _, a)) = done (code, none, a)
with_buffer fresh name size aborts = aborts
with_buffer fresh name size faults = faults

-- CREATE_HEALTH_MANAGER_PROCESS: `name_size` is the size of the name, and `size` that of an
-- ERROR_STATUS_TYPE. The name with its suffix fits the array.
unfoldable pub create_health_manager_process :
    Platform → (ℕ → Slot) → Bool → String → ℕ → ℤ → Apex → Run (ReturnCode × Option ℕ × Apex)
create_health_manager_process platform fresh has_entry_point name name_size size a =
    if is_idle (obtain a).mode || is_normal (obtain a).mode
    then done (invalid_mode, none, some (obtain a))
    else with_buffer fresh (str_append name "_HMB") size (
        helper_create_process platform name_size (manager_attributes name has_entry_point)
          (some (obtain a)))

-- The board of the first association of the process `id`
unfoldable pub board_of : ℕ → List (ℕ × ℕ) → Option ℕ
board_of id [] = none
board_of id (a ∷ as_) = let rest = board_of id as_ in if a.0 == id then some a.1 else rest

-- What HM_GET_PROCESS_ERROR_MESSAGE gives: the bytes of the error where it is set, and the board.
abbrev pub ErrorMessage : Type 0
ErrorMessage = ReturnCode × Option (List ℕ) × Option ℕ × Apex

-- After the receipt of an error: `failed_of` reads FAILED_PROCESS_ID from its bytes.
abbrev pub answered :
    (List ℕ → ℕ) → ℕ → Outcome (Option ReceivedBuffer) → Outcome (Run ErrorMessage)
answered failed_of h (returns (some (no_error, some (len, bytes), some p))) =
    returns (elim (get_elem? p.processes (failed_of bytes)) [
      | none ↦ faults
      | some d ↦
          if not (answers d.hm_descriptor_id h)
          then done (not_available, some bytes, none, some p)
          else elim (get_elem? p.hm_vector h) [
            | none ↦ faults
            | some x ↦ elim (board_of (failed_of bytes) x.associations) [
              | none ↦ done (not_available, some bytes, none, some p)
              | some board ↦ done (no_error, some bytes, some board, some p)
            ]
          ]
    ])
answered failed_of h (returns (some (no_error, _, a))) = returns faults
answered failed_of h (returns (some (code, _, a))) = returns (done (code, none, none, a))
answered failed_of h (returns none) = returns faults
answered failed_of h blocks = blocks
answered failed_of h terminates = terminates

-- HM_GET_PROCESS_ERROR_MESSAGE, called by the thread `self`.
unfoldable pub hm_get_process_error_message :
    (List ℕ → ℕ)
    → ℕ
    → List ℕ
    → TimeSpec
    → List (Wake Partition)
    → (Partition → Partition)
    → Apex
    → Outcome (Run ErrorMessage)
hm_get_process_error_message failed_of self out now ws meanwhile none =
    returns (done (invalid_config, none, none, none))
hm_get_process_error_message failed_of self out now ws meanwhile (some p) =
    elim (hm_get_my_descriptor_id self (some p)) [
      | aborts ↦ returns aborts
      | faults ↦ returns faults
      | done r ↦ elim r.1 [
        | none ↦ returns (done (r.0, none, none, some p))
        | some h ↦ elim (get_elem? p.hm_vector h) [
          | none ↦ returns faults
          | some x ↦
              answered failed_of h
                (receive_buffer x.hm_buffer_id out now infinite_time_value ws meanwhile (some p))
        ]
      ]
    ]

abbrev pub after_raise :
    List ℕ
    → ℕ
    → TimeSpec
    → ℤ
    → Bool
    → List (Wake Partition)
    → Outcome (Run (ReturnCode × Apex))
    → Outcome (Run Read)
after_raise out board now timeout too_long ws (returns (done (code, a))) =
    if too_long
    then returns (done (invalid_param, none, a))
    else read_blackboard out board now timeout ws a
after_raise out board now timeout too_long ws (returns aborts) = returns aborts
after_raise out board now timeout too_long ws (returns faults) = returns faults
after_raise out board now timeout too_long ws blocks = blocks
after_raise out board now timeout too_long ws terminates = terminates

-- RAISE_APPLICATION_ERROR_AND_GET_RESPONSE, called by the thread `self`: `too_long` is the test of the
-- capacity, `ws` and `meanwhile` are for the wait to send, and `rs` for the wait for the response.
unfoldable pub raise_application_error_and_get_response :
    ErrorLayout
    → ℕ
    → Raised
    → List ℕ
    → TimeSpec
    → ℤ
    → Bool
    → List (Wake Partition)
    → (Partition → Partition)
    → List (Wake Partition)
    → Apex
    → Outcome (Run Read)
raise_application_error_and_get_response layout self e out now timeout too_long ws meanwhile rs
      none =
    returns (done (invalid_config, none, none))
raise_application_error_and_get_response layout self e out now timeout too_long ws meanwhile rs
      (some p) =
    elim (get_my_id self (some p)).1 [
      | none ↦ returns faults
      | some id ↦ elim (get_elem? p.processes id) [
        | none ↦ returns faults
        | some d ↦ elim d.hm_descriptor_id [
          | none ↦ returns (done (not_available, none, some p))
          | some _ ↦ elim (clear_blackboard d.hm_response_board_id (some p)) [
            | aborts ↦ returns aborts
            | faults ↦ returns faults
            | done c ↦
                after_raise out d.hm_response_board_id now timeout too_long rs
                  (raise_application_error layout self e now ws meanwhile c.1)
          ]
        ]
      ]
    ]
