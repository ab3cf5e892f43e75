-- ===== src/ProcessServices/Notifications.antt =====
-- NOTIFY_PROCESS_FINISHED_STATUS, GET_PROCESS_NOTIFICATION_BOARD_ID and GET_PROCESS_FINISHED_STATUS of
-- src/APEX_PROCESS_SERVICES.cc: how a process ended is told on its blackboard.
use arinc653emulator.Prelude.{ℕ, ℤ, pos, ltb_ℤ, Option, none, some, List, get_elem?, if◌then◌else◌}
use arinc653emulator.Types.{ReturnCode, invalid_param, invalid_config, timed_out}
use arinc653emulator.Time.{TimeSpec}
use arinc653emulator.Blocking.{Wake, Outcome, returns}
use arinc653emulator.Partition.{ProcessResponse, Partition, Apex}
use arinc653emulator.BlackboardServices.{
  Run, done, faults, display_blackboard, Read, read_blackboard,
}

-- The bytes of a PROCESS_RESPONSE_TYPE with its TIMEOFMESSAGE, as the compiler lays it out, and its size
pub record ResponseLayout : Type 0 where
  pub bytes : TimeSpec → ProcessResponse → List ℕ
  pub size : ℤ

-- The board is the number that CREATE_BLACKBOARD gave; where it gave none, the field is not set.
unfoldable pub notify_process_finished_status :
    ResponseLayout → ℕ → ProcessResponse → TimeSpec → Apex → Run (ReturnCode × Apex)
notify_process_finished_status layout id response now none = done (invalid_config, none)
notify_process_finished_status layout id response now (some p) = elim (get_elem? p.processes id) [
  | none ↦ done (invalid_param, some p)
  | some d ↦ elim d.response_board_id [
    | none ↦ faults
    | some board ↦ display_blackboard board (layout.bytes now response) layout.size (some p)
  ]
]

-- GET_PROCESS_NOTIFICATION_BOARD_ID: it sets RETURN_CODE only where it fails.
unfoldable pub get_process_notification_board_id : ℕ → Apex → Option ReturnCode × Option ℕ
get_process_notification_board_id id none = (some invalid_config, none)
get_process_notification_board_id id (some p) = elim (get_elem? p.processes id) [
  | none ↦ (some invalid_param, none)
  | some d ↦ (none, d.response_board_id)
]

-- The length is 0 where the read timed out.
abbrev pub emptied : List ℕ → Read → Read
emptied out (timed_out, _, a) = (timed_out, some (pos 0, out), a)
emptied out r = r

abbrev pub finished : List ℕ → Outcome (Run Read) → Outcome (Run Read)
finished out (returns (done r)) = returns (done (emptied out r))
finished out o = o

-- GET_PROCESS_FINISHED_STATUS, into the bytes `out` of which `capacity` are the caller's
unfoldable pub get_process_finished_status :
    ResponseLayout
    → List ℕ
    → ℕ
    → TimeSpec
    → ℤ
    → ℤ
    → List (Wake Partition)
    → Apex
    → Outcome (Run Read)
get_process_finished_status layout out id now timeout capacity ws none =
    returns (done (invalid_config, none, none))
get_process_finished_status layout out id now timeout capacity ws (some p) =
    elim (get_elem? p.processes id) [
      | none ↦ returns (done (invalid_param, none, some p))
      | some d ↦
          if ltb_ℤ layout.size capacity
          then returns (done (invalid_param, none, some p))
          else elim d.response_board_id [
            | none ↦ returns faults
            | some board ↦ finished out (read_blackboard out board now timeout ws (some p))
          ]
    ]
