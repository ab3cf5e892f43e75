-- ===== src/Scheduling/Steps.antt =====
-- What RunPartitionScheduler of src/APEX_SCHEDULING.cc does to one process: at the start of the
-- scheduler, at a release and at a deadline.
use arinc653emulator.Prelude.{
  ℕ, zero, suc, ◌+◌, ℤ, pos, pos_part, ◌-ℤ◌, eqb_ℤ, Option, none, some, List, [], ◌∷◌, get_elem?,
  set, if◌then◌else◌, Bool, true, false, ◌≡◌,
}
use arinc653emulator.Types.{nano}
use arinc653emulator.Time.{
  TimeSpec, convert_time_spec_to_nano, add_time_nano, compute_deadline_time_specs, compare_time,
}
use arinc653emulator.Partition.{
  Descriptor, ProcessState, dormant, ready, waiting_on_period, waiting_partition_not_normal,
  SchedulingInstance, release_process, check_deadline, Deadline, soft, hard, process_entity,
  Partition,
}
use arinc653emulator.BlackboardServices.{Run, done, aborts, faults}
use arinc653emulator.BlackboardServices.Integrity.{Ends}
use arinc653emulator.ProcessServices.{is_periodic}
use arinc653emulator.ProcessServices.Start.{at_base}
use arinc653emulator.ProcessServices.Threads.{modify, start_thread, stop_process}

abbrev pub is_unstarted : ProcessState → Bool
is_unstarted waiting_partition_not_normal = true
is_unstarted _ = false

abbrev pub is_waiting_on_period : ProcessState → Bool
is_waiting_on_period waiting_on_period = true
is_waiting_on_period _ = false

-- The first release of a process that was started before the mode NORMAL
abbrev pub first_released : Descriptor → TimeSpec → Descriptor
first_released d first = record d {
  next_instance = release_process;
  next_scheduled_time = first;
  critical_time = first;
  process_state = if is_periodic d then waiting_on_period else ready;
}

-- The body of the loop that prepares the processes, at the time `now`; `none` is the failed assertion of
-- addTimeNano.
unfoldable pub prepare : TimeSpec → Descriptor → Option Descriptor
prepare now d =
    if is_unstarted d.process_state
    then if eqb_ℤ d.initial_delay_time (pos 0)
      then some (first_released d now)
      else elim (add_time_nano now d.initial_delay_time) [
        | none ↦ none
        | some first ↦ some (first_released d first)
      ]
    else some (record d { next_instance = release_process })

-- The loop, with the clock's time at each index
unfoldable pub prepare_all : (ℕ → TimeSpec) → List Descriptor → Option (List Descriptor)
prepare_all clock [] = some []
prepare_all clock (d ∷ ds) = elim (prepare (clock 0) d) [
  | none ↦ none
  | some e ↦ elim (prepare_all (λ i. clock (suc i)) ds) [ none ↦ none | some es ↦ some (e ∷ es) ]
]

-- A process released at `now`: the times and the next step that follow the thread's start.
unfoldable pub release_times : TimeSpec → Descriptor → Option Descriptor
release_times now d =
    elim (if is_periodic d
      then add_time_nano d.critical_time d.attributes.period
      else some d.next_scheduled_time) [
        | none ↦ none
        | some next ↦
            elim (compute_deadline_time_specs d.critical_time d.attributes.time_capacity) [
              | none ↦ none
              | some deadline ↦ some (record d {
                prev_start_time = now;
                next_scheduled_time = next;
                deadline_time = deadline;
                critical_time = deadline;
                next_instance = check_deadline;
              })
            ]
      ]

-- A change of one process that may fail
abbrev pub try_modify : (Descriptor → Option Descriptor) → ℕ → Partition → Run Partition
try_modify f id p = elim (get_elem? p.processes id) [
  | none ↦ faults
  | some d ↦ elim (f d) [
    | none ↦ aborts
    | some e ↦ done (record p { processes = set p.processes id e })
  ]
]

-- The process as it is when its thread is started
abbrev pub readied : Descriptor → Descriptor
readied d = record (at_base d) {
  process_response = record {
    success = true;
    responding_entity = process_entity;
    hm_message_length = 0;
  };
  process_state = ready;
}

abbrev pub is_releasable : ProcessState → Bool
is_releasable waiting_on_period = true
is_releasable ready = true
is_releasable _ = false

-- The case RELEASE_PROCESS, on the process `d` at `id`
unfoldable pub release_step : TimeSpec → ℕ → Descriptor → Partition → Run Partition
release_step now id d p =
    if is_releasable d.process_state
    then try_modify (release_times now) id
        (start_thread id (readied d) (record p { processes = set p.processes id (readied d) }))
    else done p

-- The loop that moves the next release past `critical` by whole periods; the fuel bounds its rounds,
-- and `none` is the failed assertion of addTimeNano (or too little fuel).
unfoldable pub catch_up : ℕ → ℤ → TimeSpec → TimeSpec → Option TimeSpec
catch_up zero period critical next = none
catch_up (suc fuel) period critical next = elim (compare_time next critical) [
  | false ↦ some next
  | true ↦ elim (add_time_nano next period) [
    | none ↦ none
    | some later ↦ catch_up fuel period critical later
  ]
]

-- One round more than the nanoseconds from the next release to `critical`
abbrev pub catch_up_fuel : TimeSpec → TimeSpec → ℕ
catch_up_fuel critical next =
    pos_part (convert_time_spec_to_nano critical -ℤ convert_time_spec_to_nano next) + 2

-- A soft deadline that was missed, found at the time `now`: it is looked at again after a second.
unfoldable pub postpone : TimeSpec → Descriptor → Option Descriptor
postpone now d = elim (add_time_nano now (pos nano)) [
  | none ↦ none
  | some critical ↦
      if is_periodic d
      then elim (catch_up (catch_up_fuel critical d.next_scheduled_time) d.attributes.period
          critical d.next_scheduled_time) [
            | none ↦ none
            | some next ↦ some (record d { critical_time = critical; next_scheduled_time = next })
          ]
      else some (record d { critical_time = critical })
]

-- What the scheduler calls of the services: NOTIFY_PROCESS_FINISHED_STATUS with the response for a hard
-- deadline, and RAISE_APPLICATION_ERROR with DEADLINE_MISSED, of a process. Their codes are not used.
-- A call that does not return is `aborts`. They leave the processes as they are.
pub record Reports : Type 0 where
  pub notify : ℕ → Partition → Run Partition
  pub raise : ℕ → Partition → Run Partition
  pub notify-processes :
      (id : ℕ) (p : Partition) → Ends (λ (q : Partition). q.processes ≡ p.processes) (notify id p)
  pub raise-processes :
      (id : ℕ) (p : Partition) → Ends (λ (q : Partition). q.processes ≡ p.processes) (raise id p)

infixl 5 ◌>>=◌
abbrev pub ◌>>=◌ : {A B : Type 0} → Run A → (A → Run B) → Run B
done a >>= f = f a
aborts >>= f = aborts
faults >>= f = faults

module _ (reports : Reports) where
  open reports use {notify, raise}

  -- A hard deadline missed: the process is stopped; `new` is its next thread.
  unfoldable pub hard_miss : Option ℕ → ℕ → Descriptor → Partition → Run Partition
  hard_miss new id d p = stop_process new id d p >>= λ q.
      notify id (modify (λ x. record x { next_instance = release_process }) id q) >>= λ r.
      raise id r

  -- A soft deadline missed
  unfoldable pub soft_miss : TimeSpec → ℕ → Partition → Run Partition
  soft_miss now id p = try_modify (postpone now) id p >>= λ q. raise id q

  abbrev pub missed : Deadline → Option ℕ → TimeSpec → ℕ → Descriptor → Partition → Run Partition
  missed hard new now id d p = hard_miss new id d p
  missed soft new now id d p = soft_miss now id p

  -- By the state of the process `d`
  abbrev pub checked :
      ProcessState → Option ℕ → TimeSpec → ℕ → Descriptor → Partition → Run Partition
  checked dormant new now id d p =
      done (modify (λ x. record x { next_instance = release_process }) id p)
  checked waiting_on_period new now id d p = done (
      modify
        (λ x. record x { critical_time = x.next_scheduled_time; next_instance = release_process })
        id p)
  checked _ new now id d p = missed d.attributes.deadline new now id d p

  -- The case CHECK_DEADLINE, on the process `d` at `id`
  unfoldable pub deadline_step : Option ℕ → TimeSpec → ℕ → Descriptor → Partition → Run Partition
  deadline_step new now id d p = checked d.process_state new now id d p

  abbrev pub by_instance :
      SchedulingInstance
      → Option ℕ
      → TimeSpec
      → TimeSpec
      → ℕ
      → Descriptor
      → Partition
      → Run Partition
  by_instance release_process new now later id d p = release_step now id d p
  by_instance check_deadline new now later id d p = deadline_step new later id d p

  -- The switch on NEXT_SCHEDULING_INSTANCE
  unfoldable pub process_step :
      Option ℕ → TimeSpec → TimeSpec → ℕ → Descriptor → Partition → Run Partition
  process_step new now later id d p = by_instance d.next_instance new now later id d p

  -- The loop over the sorted descriptors at the time `now`: it stops at the first that is not due.
  -- `threads` gives the thread that takes the place of one that is stopped, and `clock` the time that
  -- is read where a soft deadline was missed, by process.
  unfoldable pub dispatch :
      (ℕ → Option ℕ) → (ℕ → TimeSpec) → TimeSpec → List ℕ → Partition → Run Partition
  dispatch threads clock now [] p = done p
  dispatch threads clock now (id ∷ ids) p = elim (get_elem? p.processes id) [
    | none ↦ faults
    | some d ↦
        let rest = process_step (threads id) now (clock id) id d p >>= λ q.
        dispatch threads clock now ids q in
        if compare_time d.critical_time now then rest else done p
  ]
