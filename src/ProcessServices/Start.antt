-- ===== src/ProcessServices/Start.antt =====
-- START and DELAYED_START of src/APEX_PROCESS_SERVICES.cc.
use arinc653emulator.Prelude.{ℕ, ℤ, pos, ltb_ℤ, not, Option, none, some, get_elem?, if◌then◌else◌}
use arinc653emulator.Types.{ReturnCode, no_error, no_action, invalid_param, invalid_config}
use arinc653emulator.Time.{TimeSpec, add_time_nano}
use arinc653emulator.Event.{set_event}
use arinc653emulator.Partition.{
  Descriptor, ready, waiting_on_period, waiting_partition_not_normal, release_process, Partition,
  Apex, is_normal,
}
use arinc653emulator.BlackboardServices.{Run, done, aborts, faults, clear_blackboard}
use arinc653emulator.ProcessServices.{is_dormant, is_periodic, put_process}

-- The process gets its base priority.
abbrev pub at_base : Descriptor → Descriptor
at_base d = record d {
  priority = d.attributes.base_priority;
  current_priority = d.attributes.base_priority;
}

-- The next release and the deadline; `none` is the failed assertion of addTimeNano.
unfoldable pub released : TimeSpec → ℤ → Descriptor → Option Descriptor
released now delay d = elim (add_time_nano now delay) [
  | none ↦ none
  | some release ↦ elim (add_time_nano release d.attributes.time_capacity) [
    | none ↦ none
    | some deadline ↦ some (record d {
      next_scheduled_time = release;
      deadline_time = deadline;
      critical_time = release;
      next_instance = release_process;
    })
  ]
]

-- The rest of DELAYED_START in the mode NORMAL: the scheduler is woken.
unfoldable pub schedule : TimeSpec → ℤ → ℕ → Descriptor → Apex → Run (ReturnCode × Apex)
schedule now delay id d none = faults
schedule now delay id d (some p) = elim (released now delay d) [
  | none ↦ aborts
  | some e ↦ done (
    no_error,
    put_process (record p { scheduling_event = (set_event p.scheduling_event).1 }) id e,
  )
]

-- An aperiodic process: CLEAR_BLACKBOARD on its response board, whose code is not kept. The identifier
-- of a board that was not created is not initialised.
abbrev pub clear_response : Option ℕ → Partition → Run (ReturnCode × Apex)
clear_response none p = faults
clear_response (some board) p = clear_blackboard board (some p)

abbrev pub after_clear :
    TimeSpec → ℤ → ℕ → Descriptor → Run (ReturnCode × Apex) → Run (ReturnCode × Apex)
after_clear now delay id d (done (code, a)) =
    schedule now delay id (record d { process_state = ready }) a
after_clear now delay id d aborts = aborts
after_clear now delay id d faults = faults

-- DELAYED_START; `now` is the clock's.
unfoldable pub delayed_start : TimeSpec → ℕ → ℤ → Apex → Run (ReturnCode × Apex)
delayed_start now id delay none = done (invalid_config, none)
delayed_start now id delay (some p) =
    if ltb_ℤ delay (pos 0) then done (invalid_param, some p) else elim (get_elem? p.processes id) [
      | none ↦ done (invalid_param, some p)
      | some d ↦
          if not (is_dormant d.process_state)
          then done (no_action, some p)
          else if is_normal p.mode
          then if is_periodic d
            then schedule now delay id (record (at_base d) { process_state = waiting_on_period })
                (some p)
            else after_clear now delay id (at_base d) (clear_response d.response_board_id p)
          else done (
            no_error,
            put_process p id (record (at_base d) {
              process_state = waiting_partition_not_normal;
              initial_delay_time = delay;
            }),
          )
    ]

-- START
unfoldable pub start : TimeSpec → ℕ → Apex → Run (ReturnCode × Apex)
unfolding delayed_start
start now id = delayed_start now id (pos 0)
