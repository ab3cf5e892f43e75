-- ===== src/ProcessServices/Suspension.antt =====
-- SUSPEND, SUSPEND_SELF, GET_MY_NAME and GET_PROCESS_NAME of src/APEX_PROCESS_SERVICES.cc.
use arinc653emulator.Prelude.{
  ℕ, ℤ, pos, ltb_ℤ, String, Bool, true, false, ◌&&◌, Option, none, some, List, get_elem?,
  if◌then◌else◌,
}
use arinc653emulator.Types.{
  ReturnCode, no_error, no_action, invalid_param, invalid_config, invalid_mode, max_time_out,
}
use arinc653emulator.Time.{TimeSpec}
use arinc653emulator.Blocking.{Wake, Place, Outcome, returns, blocks, terminates}
use arinc653emulator.Event.{Event, new_event, reset_event, wait_event_for}
use arinc653emulator.Partition.{
  Descriptor, ProcessState, waiting_suspended_other, waiting_suspended_self, Partition, Apex,
}
use arinc653emulator.SemaphoreServices.{get_my_id}
use arinc653emulator.ProcessServices.{finite, is_dormant, is_periodic}
use arinc653emulator.ProcessServices.Threads.{modify}

abbrev pub is_suspended : ProcessState → Bool
is_suspended waiting_suspended_other = true
is_suspended waiting_suspended_self = true
is_suspended _ = false

-- SUSPEND: the code, and whether SIGUSR2 is sent to the process. The handler handle_sigusr2_suspend of
-- that process calls SUSPEND_SELF with no time-out.
unfoldable pub suspend : ℕ → Apex → ReturnCode × Bool
suspend id none = (invalid_config, false)
suspend id (some p) = elim (get_elem? p.processes id) [
  | none ↦ (invalid_param, false)
  | some d ↦
      if is_dormant d.process_state
      then (invalid_mode, false)
      else if is_periodic d
      then (invalid_mode, false)
      else if is_suspended d.process_state
      then (no_action, false)
      else (no_error, true)
]

-- The suspension event of the process at `id`
abbrev pub suspension_event_at : ℕ → Place Partition Event
suspension_event_at id = record {
  read = λ p. elim (get_elem? p.processes id) [ none ↦ new_event "" | some d ↦ d.suspension_event ];
  write = λ p e. modify (λ d. record d { suspension_event = e }) id p;
}

-- SUSPEND_SELF after its wait: the state is set back, and the event reset.
abbrev pub woken : ProcessState → ℕ → Outcome (ReturnCode × Partition) → Outcome (ReturnCode × Apex)
woken state id (returns (code, p)) = returns (
  code,
  some (
      modify
        (λ d. record d {
          process_state = state;
          suspension_event = (reset_event d.suspension_event).1;
        })
        id p),
)
woken state id blocks = blocks
woken state id terminates = terminates

-- The wake-ups that a process gets depend on the partition in which it falls asleep, since the other
-- threads go on from there.
abbrev pub Others : Type 0
Others = Partition → List (Wake Partition)

abbrev pub asleep_in :
    TimeSpec → ℤ → Others → ℕ → ProcessState → Partition → Outcome (ReturnCode × Apex)
asleep_in now timeout others id state q =
    woken state id (wait_event_for (suspension_event_at id) now timeout (others q) q)

abbrev pub self_suspended :
    TimeSpec → ℤ → Others → ℕ → Partition → Descriptor → Outcome (ReturnCode × Apex)
self_suspended now timeout others id p d =
    if is_periodic d
    then returns (invalid_mode, some p)
    else if is_suspended d.process_state
    then returns (no_action, some p)
    else asleep_in now timeout others id d.process_state
        (modify (λ x. record x { process_state = waiting_suspended_self }) id p)

-- SUSPEND_SELF, called by the thread `self`
unfoldable pub suspend_self : ℕ → TimeSpec → ℤ → Others → Apex → Outcome (ReturnCode × Apex)
suspend_self self now timeout others none = returns (invalid_config, none)
suspend_self self now timeout others (some p) =
    if finite timeout && ltb_ℤ (pos max_time_out) timeout
    then returns (invalid_param, some p)
    else elim (get_my_id self (some p)).1 [
      | none ↦ returns (invalid_mode, some p)
      | some id ↦ elim (get_elem? p.processes id) [
        | none ↦ returns (invalid_mode, some p)
        | some d ↦ self_suspended now timeout others id p d
      ]
    ]

-- GET_PROCESS_NAME
unfoldable pub get_process_name : ℕ → Apex → ReturnCode × Option String
get_process_name id none = (invalid_config, none)
get_process_name id (some p) = elim (get_elem? p.processes id) [
  | none ↦ (invalid_param, none)
  | some d ↦ (no_error, some d.attributes.process_name)
]

-- GET_MY_NAME, called by the thread `self`
unfoldable pub get_my_name : ℕ → Apex → ReturnCode × Option String
get_my_name self a = elim (get_my_id self a).1 [
  | none ↦ ((get_my_id self a).0, none)
  | some id ↦ get_process_name id a
]
