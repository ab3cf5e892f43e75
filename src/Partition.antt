-- ===== src/Partition.antt =====
-- The state of a partition, the class APEX of include/ACM/INTERNAL/APEX.h: its vectors of objects,
-- and the singleton that the services look up. Identifiers are indexes: one that is negative or too
-- large in C converts to an index out of bounds. A service is one step, but for the places where it
-- waits. Log messages are left out.
pub mod Names
use mathlib.Core.Option
use arinc653emulator.Prelude.{
  ℕ, zero, suc, ℤ, String, str_eq, Bool, true, false, Option, none, some, List, [], ◌∷◌,
  if◌then◌else◌,
}
use arinc653emulator.Types.{
  ReturnCode, invalid_config, OperatingMode, idle, cold_start, warm_start, normal,
  infinite_time_value,
}
use arinc653emulator.Time.{TimeSpec}
use arinc653emulator.Semaphore.{Semaphore}
use arinc653emulator.RwLock.{RwLock}
use arinc653emulator.SamplingPort.{SamplingPort}
use arinc653emulator.Event.{Event}
use arinc653emulator.Buffer.{Buffer}

-- APEX_BLACKBOARD_TYPE: the mutex and the readers-writer lock are left out.
pub record Blackboard : Type 0 where
  pub event_id : ℕ
  pub board_name : String
  pub max_message_size : ℤ
  pub current_message_size : ℤ
  pub payload : List ℕ

-- DEADLINE_TYPE
pub data Deadline : Type 0 where
  soft hard : Deadline

-- PROCESS_ATTRIBUTE_TYPE, less the stack size, which is not used; has_entry_point is false for a NULL
-- ENTRY_POINT.
pub record Attributes : Type 0 where
  pub process_name : String
  pub period : ℤ
  pub time_capacity : ℤ
  pub has_entry_point : Bool
  pub base_priority : ℤ
  pub deadline : Deadline

-- PROCESS::PROCESS_state
pub data ProcessState : Type 0 where
  dormant ready running waiting_on_resource waiting_on_period waiting_partition_not_normal :
      ProcessState
  restarting waiting_suspended_other waiting_suspended_self suspended_for_health_reasons :
      ProcessState

-- PROCESS_DESCRIPTOR::NEXT_SCHEDULING_INSTANCE_TYPE
pub data SchedulingInstance : Type 0 where
  release_process check_deadline : SchedulingInstance

-- RESPONDING_ENTITY_TYPE
pub data RespondingEntity : Type 0 where
  process_entity hm_entity partition_scheduler_entity : RespondingEntity

-- PROCESS_RESPONSE_TYPE, less the time and the contents of the error response
pub record ProcessResponse : Type 0 where
  pub success : Bool
  pub responding_entity : RespondingEntity
  pub hm_message_length : ℕ

-- PROCESS_DESCRIPTOR with THE_PROCESS: `thread` is the identifier of its thread and `priority` the
-- thread's, of set_priority. An HM_DESCRIPTOR_ID of -1 is `none`.
pub record Descriptor : Type 0 where
  pub attributes : Attributes
  pub process_state : ProcessState
  pub priority : ℤ
  pub current_priority : ℤ
  pub suspension_event : Event
  pub response_board_id : Option ℕ
  pub hm_descriptor_id : Option ℕ
  pub is_health_manager : Bool
  pub hm_response_board_id : ℕ
  pub thread : ℕ
  pub sem_state : Semaphore
  pub process_response : ProcessResponse
  pub readlocks : List ℕ
  pub writelocks : List ℕ
  pub initial_delay_time : ℤ
  pub prev_start_time : TimeSpec
  pub next_scheduled_time : TimeSpec
  pub critical_time : TimeSpec
  pub deadline_time : TimeSpec
  pub next_instance : SchedulingInstance

-- HM_DESCRIPTOR_TYPE: PROC_HM_ASSOCIATION up to the index CURRENTLY_REGISTERED_PROCS, which is the
-- number of the associations less 1. Each is a process and its board.
pub record HmDescriptor : Type 0 where
  pub hm_process_id : ℕ
  pub hm_buffer_id : ℕ
  pub associations : List (ℕ × ℕ)

-- PROCESS_SCHEDULING_SORTED_VECTOR is `sorted`: it holds pointers to the descriptors, here their
-- indexes. PROCESS_ID_TO_PTHREAD_ID_MAP maps each index to its descriptor's `thread`.
pub record Partition : Type 0 where
  pub mode : OperatingMode
  pub events : List Event
  pub blackboards : List Blackboard
  pub buffers : List Buffer
  pub semaphores : List Semaphore
  pub rw_locks : List RwLock
  pub sampling_ports : List SamplingPort
  pub processes : List Descriptor
  pub sorted : List ℕ
  pub hm_vector : List HmDescriptor
  pub scheduling_event : Event
  pub flag_to_terminate : Bool

-- APEX::_pinstance
abbrev pub Apex : Type 0
Apex = Option Partition

abbrev pub is_idle : OperatingMode → Bool
is_idle idle = true
is_idle _ = false

abbrev pub is_normal : OperatingMode → Bool
is_normal normal = true
is_normal _ = false

-- The loops that look for a name in a vector: the first index that has it.
unfoldable pub find_index {ℓ} : {A : Type ℓ} → (A → String) → String → List A → Option ℕ
find_index name wanted [] = none
find_index name wanted (x ∷ xs) =
    let rest = Option.map suc (find_index name wanted xs) in
    if str_eq (name x) wanted then some 0 else rest
