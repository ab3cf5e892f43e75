-- ===== src/TimeServices.antt =====
-- src/APEX_TIME_MANAGEMENT_SERVICES.cc. The clock's times are arguments.
use arinc653emulator.Prelude.{
  ℕ, ℤ, pos, ltb_ℤ, not, ◌&&◌, ◌==◌, none, some, List, [], ◌∷◌, get_elem?, if◌then◌else◌,
}
use arinc653emulator.Types.{
  ReturnCode, no_error, no_action, invalid_param, invalid_config, invalid_mode, max_time_out,
}
use arinc653emulator.Time.{
  TimeSpec, convert_time_spec_to_nano, add_time_nano, compute_deadline_time_specs, compare_time,
}
use arinc653emulator.Blocking.{Wake, Place, Outcome, returns, blocks, terminates}
use arinc653emulator.Semaphore.{Semaphore, new_semaphore, wait_forever}
use arinc653emulator.Event.{set_event}
use arinc653emulator.Partition.{waiting_on_period, Partition, Apex, is_normal}
use arinc653emulator.BlackboardServices.{Run, done, aborts}
use arinc653emulator.SemaphoreServices.{get_my_id}
use arinc653emulator.ProcessServices.{finite, is_dormant, is_periodic}
use arinc653emulator.ProcessServices.Threads.{modify}

-- GET_TIME
unfoldable pub get_time : TimeSpec → ReturnCode × ℤ
get_time now = (no_error, convert_time_spec_to_nano now)

-- The loop of TIMED_WAIT on what clock_nanosleep returns
unfoldable pub sleep_loop : List ℕ → Outcome ReturnCode
sleep_loop [] = blocks
sleep_loop (result ∷ results) =
    let rest = sleep_loop results in if result == 0 then returns no_error else rest

-- TIMED_WAIT
unfoldable pub timed_wait : TimeSpec → ℤ → List ℕ → Outcome ReturnCode
unfolding sleep_loop
timed_wait now delay results = elim (add_time_nano now delay) [
  | none ↦ terminates
  | some _ ↦ sleep_loop results
]

-- The semaphore sem_state of the process at `id`
abbrev pub sem_state_at : ℕ → Place Partition Semaphore
sem_state_at id = record {
  read = λ p. elim (get_elem? p.processes id) [
    | none ↦ new_semaphore "" (pos 0) (pos 0)
    | some d ↦ d.sem_state
  ];
  write = λ p s. modify (λ d. record d { sem_state = s }) id p;
}

-- The code is that of GET_MY_ID; sem_state.wait's is not used.
abbrev pub released_caller : Outcome (ReturnCode × Partition) → Outcome (ReturnCode × Apex)
released_caller (returns (code, p)) = returns (no_error, some p)
released_caller blocks = blocks
released_caller terminates = terminates

-- PERIODIC_WAIT, with PROCESS::waiting_on_period, called by the thread `self`
unfoldable pub periodic_wait : ℕ → List (Wake Partition) → Apex → Outcome (ReturnCode × Apex)
periodic_wait self ws none = returns (invalid_config, none)
periodic_wait self ws (some p) = elim (get_my_id self (some p)).1 [
  | none ↦ returns (invalid_mode, some p)
  | some id ↦ elim (get_elem? p.processes id) [
    | none ↦ returns (invalid_mode, some p)
    | some d ↦
        if not (is_periodic d)
        then returns (invalid_mode, some p)
        else released_caller (
            wait_forever (sem_state_at id) ws
              (modify (λ x. record x { process_state = waiting_on_period }) id p))
  ]
]

-- REPLENISH past its first tests: the deadline moves, and the scheduler is woken.
abbrev pub replenished : TimeSpec → ℕ → Partition → ReturnCode × Apex
replenished deadline id p =
    let r = set_event p.scheduling_event in
    (
      r.0,
      some (
          modify (λ d. record d { deadline_time = deadline; critical_time = deadline }) id
            (record p { scheduling_event = r.1 })),
    )

-- REPLENISH, called by the thread `self` at the time `now`; `aborts` is the failed assertion of
-- computeDeadlineTimeSpecs.
unfoldable pub replenish : ℕ → TimeSpec → ℤ → Apex → Run (ReturnCode × Apex)
replenish self now budget none = done (invalid_config, none)
replenish self now budget (some p) =
    if not (is_normal p.mode)
    then done (no_action, some p)
    else if finite budget && ltb_ℤ (pos max_time_out) budget
    then done (invalid_param, some p)
    else elim (get_my_id self (some p)).1 [
      | none ↦ done (invalid_mode, some p)
      | some id ↦ elim (get_elem? p.processes id) [
        | none ↦ done (invalid_mode, some p)
        | some d ↦
            if is_dormant d.process_state
            then done (no_action, some p)
            else elim (compute_deadline_time_specs now budget) [
              | none ↦ aborts
              | some deadline ↦
                  if is_periodic d && compare_time d.next_scheduled_time deadline
                  then done (invalid_mode, some p)
                  else done (replenished deadline id p)
            ]
      ]
    ]
