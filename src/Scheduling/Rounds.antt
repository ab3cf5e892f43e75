-- ===== src/Scheduling/Rounds.antt =====
-- The outer loop of RunPartitionScheduler of src/APEX_SCHEDULING.cc, and the wait of
-- include/ACM/INTERNAL/APEX.h. std::sort is an argument: it gives the sorted descriptors' indexes.
use arinc653emulator.Prelude.{
  ℕ, pos, eqb_ℤ, Bool, true, false, not, ◌&&◌, ◌||◌, Option, none, some, List, [], ◌∷◌, get_elem?,
  if◌then◌else◌,
}
use arinc653emulator.Types.{ReturnCode, timed_out, nano, infinite_time_value}
use arinc653emulator.Time.{TimeSpec, add_time_nano}
use arinc653emulator.Blocking.{
  Wake, Place, Outcome, returns, blocks, terminates, Run, done, aborts, faults,
}
use arinc653emulator.Event.{Event, reset_event, wait_event_until}
use arinc653emulator.Partition.{
  Descriptor, SchedulingInstance, release_process, check_deadline, Partition, is_normal,
}
use arinc653emulator.ProcessServices.{is_dormant}
use arinc653emulator.Scheduling.Steps.{Reports, dispatch}

-- The scheduling event of the partition
abbrev pub scheduling_event_at : Place Partition Event
scheduling_event_at = record {
  read = λ p. p.scheduling_event;
  write = λ p e. record p { scheduling_event = e };
}

abbrev pub after_wait : Outcome (ReturnCode × Partition) → Outcome (Bool × Partition)
after_wait (returns (timed_out, p)) = returns (true, p)
after_wait (returns (_, p)) =
    returns (false, record p { scheduling_event = (reset_event p.scheduling_event).1 })
after_wait blocks = blocks
after_wait terminates = terminates

-- APEX_SCHEDULER_WAIT_ABSOLUTE_TIME
unfoldable pub scheduler_wait : List (Wake Partition) → Partition → Outcome (Bool × Partition)
scheduler_wait ws p = after_wait (wait_event_until scheduling_event_at ws p)

abbrev pub is_check : SchedulingInstance → Bool
is_check check_deadline = true
is_check release_process = false

-- The test of "Nothing to do", on the sorted vector
unfoldable pub nothing_to_do : Partition → Run Bool
nothing_to_do p = elim p.sorted [
  | [] ↦ done true
  | id ∷ _ ↦ elim (get_elem? p.processes id) [
    | none ↦ faults
    | some d ↦ done (
        is_dormant d.process_state
        || (eqb_ℤ d.attributes.time_capacity infinite_time_value && is_check d.next_instance))
  ]
]

-- What happens in one round: the clock's time at its start, the wake-ups of the wait, and the time after
-- it; the rest is for the loop over the processes.
pub record Turn : Type 0 where
  pub before : TimeSpec
  pub wakes : List (Wake Partition)
  pub now : TimeSpec
  pub threads : ℕ → Option ℕ
  pub clock : ℕ → TimeSpec

module _ (sort : List Descriptor → List ℕ → List ℕ) (reports : Reports) where
  abbrev pub idle_end : Outcome (Bool × Partition) → Outcome (Run Partition)
  idle_end (returns (_, p)) = returns (done p)
  idle_end blocks = blocks
  idle_end terminates = terminates

  abbrev pub busy_end : Turn → Outcome (Bool × Partition) → Outcome (Run Partition)
  busy_end t (returns (true, p)) = returns (dispatch reports t.threads t.clock t.now p.sorted p)
  busy_end t (returns (false, p)) = returns (done p)
  busy_end t blocks = blocks
  busy_end t terminates = terminates

  abbrev pub by_work : Turn → Partition → Run Bool → Outcome (Run Partition)
  by_work t p (done true) = idle_end (scheduler_wait t.wakes p)
  by_work t p (done false) = busy_end t (scheduler_wait t.wakes p)
  by_work t p aborts = returns aborts
  by_work t p faults = returns faults

  -- The body of the outer loop
  unfoldable pub round : Turn → Partition → Outcome (Run Partition)
  round t p =
      let q : Partition = record p { sorted = sort p.processes p.sorted } in
      elim (add_time_nano t.before (pos nano)) [
        | none ↦ returns aborts
        | some _ ↦ by_work t q (nothing_to_do q)
      ]

  abbrev pub then_rounds :
      Outcome (Run Partition) → (Partition → Outcome (Run Partition)) → Outcome (Run Partition)
  then_rounds (returns (done p)) f = f p
  then_rounds (returns aborts) f = returns aborts
  then_rounds (returns faults) f = returns faults
  then_rounds blocks f = blocks
  then_rounds terminates f = terminates

  -- The outer loop, over the rounds that are looked at
  unfoldable pub rounds : List Turn → Partition → Outcome (Run Partition)
  rounds [] p = returns (done p)
  rounds (t ∷ ts) p =
      let more = then_rounds (round t p) (λ q. rounds ts q) in
      if is_normal p.mode && not p.flag_to_terminate then more else returns (done p)
