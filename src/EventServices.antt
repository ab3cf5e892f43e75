-- ===== src/EventServices.antt =====
-- src/APEX_EVENT_SERVICES.cc, and the singleton's look-up of include/ACM/INTERNAL/APEX.h.
pub mod Identity
use arinc653emulator.Prelude.{
  ℕ, ◌+◌, ℤ, eqb_ℤ, String, Bool, false, ◌||◌, Option, none, some, List, [], ◌∷◌, ◌++◌, length,
  get_elem?, get_or, set, if◌then◌else◌,
}
use arinc653emulator.Types.{
  ReturnCode, no_error, invalid_param, invalid_config, invalid_mode, cold_start,
  infinite_time_value,
}
use arinc653emulator.Time.{TimeSpec}
use arinc653emulator.Blocking.{Wake, Place, Outcome, returns, blocks, terminates}
use arinc653emulator.Event.{
  Event, EventState, new_event, set_event, reset_event, wait_event, wait_event_for,
}
use arinc653emulator.Partition.{Partition, Apex, is_idle, is_normal, find_index}

-- getInstance: a new partition is in COLD_START.
unfoldable pub new_partition : Partition
new_partition = record {
  mode = cold_start;
  events = [];
  blackboards = [];
  buffers = [];
  semaphores = [];
  rw_locks = [];
  sampling_ports = [];
  processes = [];
  sorted = [];
  hm_vector = [];
  scheduling_event = new_event "APEX_SCHEDULING_EVENT";
  flag_to_terminate = false;
}

-- __GET_SINGLETON_INSTANCE_AND_CREATE_IF_DOES_NOT_EXIST
unfoldable pub obtain : Apex → Partition
obtain none = new_partition
obtain (some p) = p

abbrev pub event_name : Event → String
event_name e = e.name

-- CREATE_EVENT: the return code, EVENT_ID where it is set, and the partition.
unfoldable pub create_event : String → Apex → ReturnCode × Option ℕ × Apex
create_event name apex =
    let p = obtain apex in
    if is_idle p.mode || is_normal p.mode
    then (invalid_mode, none, some p)
    else elim (find_index event_name name p.events) [
      | some _ ↦ (invalid_param, none, some p)
      | none ↦ (
        no_error,
        some (length p.events),
        some (record p { events = p.events ++ (new_event name ∷ []) }),
      )
    ]

-- A call of `f` on the event EVENT_ID, past the look-ups.
unfoldable pub on_event : (Event → ReturnCode × Event) → ℕ → Apex → ReturnCode × Apex
on_event f id none = (invalid_config, none)
on_event f id (some p) = elim (get_elem? p.events id) [
  | none ↦ (invalid_param, some p)
  | some e ↦ let r = f e in (r.0, some (record p { events = set p.events id r.1 }))
]

-- APEX::SET_EVENT
unfoldable pub set_event_service : ℕ → Apex → ReturnCode × Apex
unfolding on_event
set_event_service = on_event set_event

-- APEX::RESET_EVENT
unfoldable pub reset_event_service : ℕ → Apex → ReturnCode × Apex
unfolding on_event
reset_event_service = on_event reset_event

-- The event at an index in bounds
abbrev pub event_at : ℕ → Place Partition Event
event_at id = record {
  read = λ p. get_or p.events id (new_event "");
  write = λ p e. record p { events = set p.events id e };
}

-- A call that left its code and the partition
abbrev pub service_end : Outcome (ReturnCode × Partition) → Outcome (ReturnCode × Apex)
service_end (returns r) = returns (r.0, some r.1)
service_end blocks = blocks
service_end terminates = terminates

-- APEX::WAIT_EVENT
unfoldable pub wait_event_service :
    ℕ → TimeSpec → ℤ → List (Wake Partition) → Apex → Outcome (ReturnCode × Apex)
wait_event_service id now timeout ws none = returns (invalid_config, none)
wait_event_service id now timeout ws (some p) = elim (get_elem? p.events id) [
  | none ↦ returns (invalid_param, some p)
  | some e ↦ service_end (
      if eqb_ℤ timeout infinite_time_value
      then wait_event (event_at id) ws p
      else wait_event_for (event_at id) now timeout ws p)
]

-- GET_EVENT_ID
unfoldable pub get_event_id : String → Apex → ReturnCode × Option ℕ
get_event_id name none = (invalid_config, none)
get_event_id name (some p) = elim (find_index event_name name p.events) [
  | none ↦ (invalid_param, none)
  | some i ↦ (no_error, some i)
]

-- GET_EVENT_STATUS: EVENT_STATE and WAITING_PROCESSES
unfoldable pub get_event_status : ℕ → Apex → ReturnCode × Option (EventState × ℕ)
get_event_status id none = (invalid_config, none)
get_event_status id (some p) = elim (get_elem? p.events id) [
  | none ↦ (invalid_param, none)
  | some e ↦ (no_error, some (e.state, e.count))
]
