-- ===== src/BlackboardServices.antt =====
-- The class APEX_BLACKBOARD_TYPE of src/BLACKBOARD.cc and src/APEX_BLACKBOARD_SERVICES.cc. A copy out
-- of bounds is undefined in C: it is `faults`. A failed assertion `aborts`.
pub mod Links
pub mod Integrity
pub mod Waits
pub mod Reachable
pub mod Transfer
pub mod Creation
pub mod Status
use arinc653emulator.Prelude.{
  ℕ, ◌+◌, ℤ, pos, negsuc, ltb_ℤ, leb_ℤ, eqb_ℤ, String, Bool, ◌||◌, Option, none, some, List, [],
  ◌∷◌, ◌++◌, length, get_elem?, set, if◌then◌else◌,
}
use arinc653emulator.Types.{
  ReturnCode, no_error, no_action, not_available, invalid_param, invalid_config, invalid_mode,
  timed_out, max_time_out,
}
use arinc653emulator.Time.{TimeSpec}
use arinc653emulator.Blocking.{Wake, Outcome, returns, blocks, terminates}
pub use arinc653emulator.Blocking.{Run, done, aborts, faults}
use arinc653emulator.Event.{EventState}
use arinc653emulator.Buffer.{memcpy, memset}
use arinc653emulator.Partition.{Blackboard, Partition, Apex, is_normal, find_index}
use arinc653emulator.EventServices.{
  obtain, create_event, set_event_service, reset_event_service, wait_event_service,
  get_event_status,
}

abbrev pub board_name_of : Blackboard → String
board_name_of b = b.board_name

abbrev pub created :
    String → ℤ → List ℕ → ReturnCode × Option ℕ × Apex → Run (ReturnCode × Option ℕ × Apex)
created name size fresh (no_error, some event, some p) = done (
  no_error,
  some (length p.blackboards),
  some (record p {
    blackboards =
        p.blackboards
        ++ (record {
          event_id = event;
          board_name = name;
          max_message_size = size;
          current_message_size = pos 0;
          payload = fresh;
        }
            ∷ []);
  }),
)
created name size fresh _ = aborts

-- CREATE_BLACKBOARD with the constructor, whose assertion is on the code of CREATE_EVENT: the return
-- code, BLACKBOARD_ID where it is set, and the partition. `fresh` is the block that malloc returned.
unfoldable pub create_blackboard : List ℕ → String → ℤ → Apex → Run (ReturnCode × Option ℕ × Apex)
create_blackboard fresh name size apex =
    let p = obtain apex in
    let event = create_event name (some p) in
    if is_normal p.mode
    then done (invalid_mode, none, some p)
    else if leb_ℤ size (pos 0)
    then done (invalid_param, none, some p)
    else elim (find_index board_name_of name p.blackboards) [
      | some _ ↦ done (no_action, none, some p)
      | none ↦ created name size fresh event
    ]

abbrev pub set_board : ℕ → Blackboard → ReturnCode × Apex → ReturnCode × Apex
set_board id b (code, none) = (code, none)
set_board id b (code, some p) = (code, some (record p { blackboards = set p.blackboards id b }))

-- ERASE_BLACKBOARD on the blackboard `b` at `id`
unfoldable pub erase_blackboard : ℕ → Blackboard → Partition → Run (ReturnCode × Apex)
erase_blackboard id b p = elim (memset b.payload b.max_message_size) [
  | none ↦ faults
  | some bytes ↦ done (
      set_board id (record b { payload = bytes; current_message_size = pos 0 })
        (reset_event_service b.event_id (some p)))
]

-- CLEAR_BLACKBOARD
unfoldable pub clear_blackboard : ℕ → Apex → Run (ReturnCode × Apex)
clear_blackboard id none = done (invalid_config, none)
clear_blackboard id (some p) = elim (get_elem? p.blackboards id) [
  | none ↦ done (invalid_param, some p)
  | some b ↦ erase_blackboard id b p
]

-- WRITE_ON_BLACKBOARD on the blackboard `b` at `id`
unfoldable pub write_on_blackboard :
    ℕ → List ℕ → ℤ → Blackboard → Partition → Run (ReturnCode × Apex)
write_on_blackboard id message len b p =
    if leb_ℤ len b.max_message_size
    then elim (memcpy b.payload message len) [
      | none ↦ faults
      | some bytes ↦ done (
          set_board id (record b { payload = bytes; current_message_size = len })
            (set_event_service b.event_id (some p)))
    ]
    else aborts

abbrev pub cleared : ℕ → List ℕ → ℤ → Run (ReturnCode × Apex) → Run (ReturnCode × Apex)
cleared id message len (done (no_error, some p)) = elim (get_elem? p.blackboards id) [
  | none ↦ faults
  | some b ↦ write_on_blackboard id message len b p
]
cleared id message len r = r

-- DISPLAY_BLACKBOARD
unfoldable pub display_blackboard : ℕ → List ℕ → ℤ → Apex → Run (ReturnCode × Apex)
display_blackboard id message len none = done (invalid_config, none)
display_blackboard id message len (some p) = elim (get_elem? p.blackboards id) [
  | none ↦ done (invalid_param, some p)
  | some b ↦
      let r = cleared id message len (clear_blackboard id (some p)) in
      if ltb_ℤ b.max_message_size len then done (invalid_param, some p) else r
]

-- What READ_BLACKBOARD gives back: RETURN_CODE, and LENGTH and the bytes where they are set.
abbrev pub Read : Type 0
Read = ReturnCode × Option (ℤ × List ℕ) × Apex

-- READ_FROM_BLACKBOARD, and the code that READ_BLACKBOARD sets after it
unfoldable pub read_from_blackboard : List ℕ → ℕ → Partition → Run Read
read_from_blackboard out id p = elim (get_elem? p.blackboards id) [
  | none ↦ faults
  | some b ↦ elim (memcpy out b.payload b.current_message_size) [
    | none ↦ faults
    | some bytes ↦ done (no_error, some (b.current_message_size, bytes), some p)
  ]
]

abbrev pub after_wait : List ℕ → ℕ → Outcome (ReturnCode × Apex) → Outcome (Run Read)
after_wait out id (returns (timed_out, a)) = returns (done (timed_out, none, a))
after_wait out id (returns (_, none)) = returns faults
after_wait out id (returns (_, some p)) = returns (read_from_blackboard out id p)
after_wait out id blocks = blocks
after_wait out id terminates = terminates

-- READ_BLACKBOARD; an empty blackboard is waited for on its event.
unfoldable pub read_blackboard :
    List ℕ → ℕ → TimeSpec → ℤ → List (Wake Partition) → Apex → Outcome (Run Read)
read_blackboard out id now timeout ws none = returns (done (invalid_config, none, none))
read_blackboard out id now timeout ws (some p) = elim (get_elem? p.blackboards id) [
  | none ↦ returns (done (invalid_param, none, some p))
  | some b ↦
      if ltb_ℤ (pos max_time_out) timeout
      then returns (done (invalid_param, none, some p))
      else if eqb_ℤ b.current_message_size (pos 0)
      then if eqb_ℤ timeout (pos 0)
        then returns (done (not_available, none, some p))
        else after_wait out id (wait_event_service b.event_id now timeout ws (some p))
      else returns (read_from_blackboard out id p)
]

-- GET_BLACKBOARD_ID
unfoldable pub get_blackboard_id : String → Apex → ReturnCode × Option ℕ
get_blackboard_id name none = (invalid_config, none)
get_blackboard_id name (some p) = elim (find_index board_name_of name p.blackboards) [
  | none ↦ (invalid_config, none)
  | some i ↦ (no_error, some i)
]

-- EMPTY_INDICATOR_TYPE
pub data EmptyIndicator : Type 0 where
  empty occupied : EmptyIndicator

-- BLACKBOARD_STATUS_TYPE; WAITING_PROCESSES is not set where GET_EVENT_STATUS fails.
pub record BlackboardStatus : Type 0 where
  pub empty_indicator : EmptyIndicator
  pub max_message_size : ℤ
  pub waiting_processes : Option ℕ

abbrev pub waiting_of : Option (EventState × ℕ) → Option ℕ
waiting_of none = none
waiting_of (some e) = some e.1

abbrev pub status_of : Blackboard → ReturnCode × Option (EventState × ℕ) → BlackboardStatus
status_of b event = record {
  empty_indicator = if eqb_ℤ b.current_message_size (pos 0) then empty else occupied;
  max_message_size = b.max_message_size;
  waiting_processes = waiting_of event.1;
}

-- GET_BLACKBOARD_STATUS, with the code of GET_EVENT_STATUS
unfoldable pub get_blackboard_status : ℕ → Apex → ReturnCode × Option BlackboardStatus
get_blackboard_status id none = (invalid_config, none)
get_blackboard_status id (some p) = elim (get_elem? p.blackboards id) [
  | none ↦ (invalid_param, none)
  | some b ↦ let event = get_event_status b.event_id (some p) in (event.0, some (status_of b event))
]
