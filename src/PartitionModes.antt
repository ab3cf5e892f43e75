-- ===== src/PartitionModes.antt =====
-- The modes of the partition: SET_PARTITION_MODE and GET_PARTITION_STATUS of src/APEX.cc, with
-- InitPartitionScheduler of src/APEX_SCHEDULING.cc less the signals of the module manager, the handlers
-- of the user and the wait before the start.
pub mod Preparing
pub mod Reachable
use arinc653emulator.Prelude.{ℕ, Option, none, some, List, if◌then◌else◌}
use arinc653emulator.Types.{
  ReturnCode, no_error, no_action, invalid_mode, OperatingMode, idle, cold_start, warm_start,
  normal,
}
use arinc653emulator.Time.{TimeSpec}
use arinc653emulator.Blocking.{Outcome, returns, blocks, terminates, Run, done, aborts, faults}
use arinc653emulator.Partition.{Descriptor, Partition, Apex, is_normal}
use arinc653emulator.EventServices.{obtain}
use arinc653emulator.Scheduling.Steps.{Reports, prepare_all}
use arinc653emulator.Scheduling.Rounds.{Turn, rounds}

-- GET_PARTITION_STATUS
unfoldable pub get_partition_status : Apex → ReturnCode × OperatingMode × Apex
get_partition_status a = (no_error, (obtain a).mode, some (obtain a))

-- A transition that is refused: the code, where RETURN_CODE is set
pub data Transition : Type 0 where
  refused : Option ReturnCode → Transition
  allowed : Transition

-- The switch on the current mode
unfoldable pub transition : OperatingMode → OperatingMode → Transition
transition cold_start warm_start = refused (some invalid_mode)
transition cold_start _ = allowed
transition idle _ = refused none
transition normal normal = refused (some no_action)
transition normal _ = allowed
transition warm_start _ = allowed

-- What the loop leaves is deleted by TERMINATE, and then the mode is written into it.
abbrev pub after_scheduler : Outcome (Run Partition) → Outcome (Run (Option ReturnCode × Apex))
after_scheduler (returns (done p)) = returns faults
after_scheduler (returns aborts) = returns aborts
after_scheduler (returns faults) = returns faults
after_scheduler blocks = blocks
after_scheduler terminates = terminates

module _ (sort : List Descriptor → List ℕ → List ℕ) (reports : Reports) where
  -- InitPartitionScheduler with RunPartitionScheduler, over the rounds that are looked at; `clock` gives
  -- the times that the preparation reads.
  unfoldable pub init_partition_scheduler :
      (ℕ → TimeSpec) → List Turn → Partition → Outcome (Run Partition)
  init_partition_scheduler clock turns p = elim (prepare_all clock p.processes) [
    | none ↦ returns aborts
    | some ds ↦ rounds sort reports turns (record p { mode = normal; processes = ds })
  ]

  abbrev pub by_transition :
      Transition
      → OperatingMode
      → (ℕ → TimeSpec)
      → List Turn
      → Partition
      → Outcome (Run (Option ReturnCode × Apex))
  by_transition (refused code) mode clock turns p = returns (done (code, some p))
  by_transition allowed mode clock turns p =
      if is_normal mode
      then after_scheduler (init_partition_scheduler clock turns p)
      else if is_normal p.mode
      then returns faults
      else returns (done (some no_error, some (record p { mode = mode })))

  -- SET_PARTITION_MODE
  unfoldable pub set_partition_mode :
      OperatingMode → (ℕ → TimeSpec) → List Turn → Apex → Outcome (Run (Option ReturnCode × Apex))
  set_partition_mode mode clock turns a =
      by_transition (transition (obtain a).mode mode) mode clock turns (obtain a)
