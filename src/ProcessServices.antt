-- ===== src/ProcessServices.antt =====
-- src/APEX_PROCESS_SERVICES.cc, and of src/PROCESS.cc the constructor, the state and the priority.

pub mod Start
pub mod Admission
pub mod Table
pub mod Stops
pub mod Creation
pub mod Starting
pub mod Behaviour
pub mod Threads
pub mod Notifications
pub mod Suspension
pub mod Suspending
pub mod Unlocking
pub mod Stopping
use arinc653emulator.Prelude.{
  str_append, ℕ, ◌+◌, ltb, leb, ℤ, pos, negsuc, ltb_ℤ, leb_ℤ, eqb_ℤ, String, Bool, true, false, not,
  ◌&&◌, ◌||◌, Option, none, some, List, [], ◌∷◌, ◌++◌, length, get_elem?, set, if◌then◌else◌,
}
use arinc653emulator.Types.{
  ReturnCode, no_error, no_action, invalid_param, invalid_config, invalid_mode, max_time_out,
  infinite_time_value, max_number_of_processes, max_semaphore_value,
  partition_process_high_priority, partition_process_low_priority, minimum_time_capacity,
}
use arinc653emulator.Time.{TimeSpec, add_time_nano}
use arinc653emulator.Semaphore.{new_semaphore}
use arinc653emulator.Event.{new_event, set_event}
use arinc653emulator.Partition.{
  Attributes, Descriptor, ProcessState, dormant, ready, running, waiting_on_resource,
  waiting_on_period, waiting_partition_not_normal, waiting_suspended_other, waiting_suspended_self,
  release_process, Partition, Apex, is_idle, is_normal, find_index,
}
use arinc653emulator.EventServices.{obtain}
use arinc653emulator.BlackboardServices.{
  Run, done, aborts, faults, create_blackboard, clear_blackboard,
}

abbrev pub finite : ℤ → Bool
finite t = not (eqb_ℤ t infinite_time_value)

-- The priorities that a process may have
abbrev pub out_of_range : ℤ → Bool
out_of_range priority =
    ltb_ℤ priority partition_process_low_priority || ltb_ℤ partition_process_high_priority priority

-- The tests of CREATE_PROCESS on the attributes that answer INVALID_PARAM, in their order
unfoldable pub refuses : Attributes → Bool
refuses a =
    out_of_range a.base_priority
    || (not a.has_entry_point
        || ((finite a.time_capacity && ltb_ℤ a.time_capacity minimum_time_capacity)
            || ((finite a.period && leb_ℤ a.period (pos 0))
                || ((finite a.time_capacity && leb_ℤ a.time_capacity (pos 0))
                    || ((not (finite a.time_capacity) && finite a.period)
                        || ((finite a.period && ltb_ℤ a.period a.time_capacity)
                            || ((finite a.period && ltb_ℤ (pos max_time_out) a.period)
                                || (finite a.time_capacity
                                    && ltb_ℤ (pos max_time_out) a.time_capacity))))))))

abbrev pub process_name_of : Descriptor → String
process_name_of d = d.attributes.process_name

-- The constructors of PROCESS and PROCESS_DESCRIPTOR: `blank` holds the members that they do not set.
unfoldable pub new_descriptor : Descriptor → Attributes → Option ℕ → Descriptor
new_descriptor blank a board = record blank {
  attributes = a;
  process_state = dormant;
  suspension_event = new_event (str_append a.process_name "SuspensionEvent");
  response_board_id = board;
  hm_descriptor_id = none;
  is_health_manager = false;
  hm_response_board_id = 1000;
  sem_state = new_semaphore "NO_NAME" (pos 0) (pos max_semaphore_value);
  readlocks = [];
  writelocks = [];
  initial_delay_time = pos 0;
  next_instance = release_process;
}

-- CREATE_PROCESS past its tests: the code is CREATE_BLACKBOARD's, the descriptor is added whatever it is.
abbrev pub admitted :
    Descriptor
    → Attributes
    → Run (ReturnCode × Option ℕ × Apex)
    → Run (ReturnCode × Option ℕ × Apex)
admitted blank a (done (code, board, some p)) = done (
  code,
  some (length p.processes),
  some (record p {
    processes = p.processes ++ (new_descriptor blank a board ∷ []);
    sorted = p.sorted ++ (length p.processes ∷ []);
  }),
)
admitted blank a (done (code, board, none)) = faults
admitted blank a aborts = aborts
admitted blank a faults = faults

-- What the platform gives to CREATE_PROCESS: the name that snprintf prints for "RESPONSE_%d", the size
-- of PROCESS_RESPONSE_TYPE, the blocks that new and malloc return, and whether the thread can be
-- created (an exception leaves CREATE_PROCESS otherwise, which `aborts`).
pub record Platform : Type 0 where
  pub response_name : ℕ → String
  pub response_size : ℤ
  pub blank : Descriptor
  pub fresh : List ℕ
  pub thread_created : Bool

-- CREATE_PROCESS: the return code, PROCESS_ID where it is set, and the partition.
unfoldable pub create_process : Platform → Attributes → Apex → Run (ReturnCode × Option ℕ × Apex)
create_process platform a apex =
    let p = obtain apex in
    let board =
      create_blackboard platform.fresh (platform.response_name (length p.processes))
        platform.response_size (some p) in
    if is_idle p.mode || is_normal p.mode
    then done (invalid_mode, none, some p)
    else if leb max_number_of_processes (length p.processes)
    then done (invalid_config, none, some p)
    else if refuses a
    then done (invalid_param, none, some p)
    else elim (find_index process_name_of a.process_name p.processes) [
      | some _ ↦ done (invalid_param, none, some p)
      | none ↦ if platform.thread_created then admitted platform.blank a board else aborts
    ]

-- GET_PROCESS_ID
unfoldable pub get_process_id : String → Apex → ReturnCode × Option ℕ
get_process_id name none = (invalid_config, none)
get_process_id name (some p) = elim (find_index process_name_of name p.processes) [
  | none ↦ (invalid_config, none)
  | some i ↦ (no_error, some i)
]

abbrev pub is_dormant : ProcessState → Bool
is_dormant dormant = true
is_dormant _ = false

abbrev pub is_periodic : Descriptor → Bool
is_periodic d = finite d.attributes.period

abbrev pub put_process : Partition → ℕ → Descriptor → Apex
put_process p id d = some (record p { processes = set p.processes id d })

-- SET_PRIORITY
unfoldable pub set_priority : ℕ → ℤ → Apex → ReturnCode × Apex
set_priority id priority none = (invalid_config, none)
set_priority id priority (some p) = elim (get_elem? p.processes id) [
  | none ↦ (invalid_param, some p)
  | some d ↦
      if out_of_range priority
      then (invalid_param, some p)
      else if is_dormant d.process_state
      then (invalid_mode, some p)
      else (
        no_error,
        put_process p id (record d { priority = priority; current_priority = priority }),
      )
]

-- RESUME on a process that is neither dormant nor periodic
abbrev pub resumed : Partition → ℕ → Descriptor → ProcessState → ReturnCode × Apex
resumed p id d waiting_suspended_other = (
  no_error,
  put_process p id (record d { priority = d.current_priority; process_state = running }),
)
resumed p id d waiting_suspended_self =
    let r = set_event d.suspension_event in
    (r.0, put_process p id (record d { suspension_event = r.1 }))
resumed p id d _ = (no_action, some p)

-- RESUME
unfoldable pub resume : ℕ → Apex → ReturnCode × Apex
resume id none = (invalid_config, none)
resume id (some p) = elim (get_elem? p.processes id) [
  | none ↦ (invalid_param, some p)
  | some d ↦
      if is_dormant d.process_state
      then (invalid_mode, some p)
      else if is_periodic d
      then (invalid_mode, some p)
      else resumed p id d d.process_state
]

-- PROCESS_STATE_TYPE
pub data StatusState : Type 0 where
  dormant_status ready_status running_status waiting_status : StatusState

-- The state that GET_PROCESS_STATUS gives
unfoldable pub status_state : ProcessState → StatusState
status_state dormant = dormant_status
status_state ready = ready_status
status_state running = running_status
status_state waiting_on_resource = waiting_status
status_state waiting_on_period = waiting_status
status_state waiting_suspended_other = waiting_status
status_state waiting_suspended_self = waiting_status
status_state waiting_partition_not_normal = waiting_status
status_state _ = dormant_status

-- GET_PROCESS_STATUS: PROCESS_STATE, CURRENT_PRIORITY and ATTRIBUTES
unfoldable pub get_process_status : ℕ → Apex → ReturnCode × Option (StatusState × ℤ × Attributes)
get_process_status id none = (invalid_config, none)
get_process_status id (some p) = elim (get_elem? p.processes id) [
  | none ↦ (invalid_param, none)
  | some d ↦ (no_error, some (status_state d.process_state, d.priority, d.attributes))
]
