-- ===== src/PartitionModes/Reachable.antt =====
-- The process tables that the services on processes and the changes of the mode lead to.
use mathlib.Core.Path.{subst}
use arinc653emulator.Prelude.{inl, inr, Bool-cases, ℕ, ℤ, ◌≡◌, refl, Option, none, some, List}
use arinc653emulator.Types.{ReturnCode, OperatingMode, normal}
use arinc653emulator.Time.{TimeSpec}
use arinc653emulator.Blocking.{Outcome, returns, blocks, terminates, Run, done, aborts, faults}
use arinc653emulator.Partition.{Attributes, Descriptor, Apex, Partition, is_normal}
use arinc653emulator.EventServices.{obtain}
use arinc653emulator.BlackboardServices.Integrity.{Ends}
use arinc653emulator.BlackboardServices.Waits.{Returns}
use arinc653emulator.ProcessServices.{Platform, create_process, set_priority, resume}
use arinc653emulator.ProcessServices.Start.{delayed_start}
use arinc653emulator.ProcessServices.Threads.{stop}
use arinc653emulator.ProcessServices.Table.{
  Table, TableApex, set_priority-Table, resume-Table, same-Table,
}
use arinc653emulator.ProcessServices.Creation.{obtain-Table, create_process-Table}
use arinc653emulator.ProcessServices.Starting.{delayed_start-Table}
use arinc653emulator.ProcessServices.Stops.{stop-Table}
use arinc653emulator.Scheduling.Steps.{Reports, prepare_all}
use arinc653emulator.Scheduling.Rounds.{Turn}
use arinc653emulator.PartitionModes.{
  Transition, refused, allowed, transition, after_scheduler, init_partition_scheduler,
  by_transition, set_partition_mode,
}
use arinc653emulator.PartitionModes.Preparing.{prepared-Table}

-- From no partition, any sequence of CREATE_PROCESS, DELAYED_START, SET_PRIORITY, RESUME, STOP and changes
-- of the mode. A change that returns is one that is refused, or to another mode than NORMAL; the mode
-- NORMAL begins with the preparation of all processes.
pub data Reach : Apex → Type 0 where
  start : Reach none
  creates :
      {a : Apex}
      → Reach a
      → (platform : Platform) (attributes : Attributes) (r : ReturnCode × Option ℕ × Apex)
      → create_process platform attributes a ≡ done r
      → Reach r.2
  starts :
      {a : Apex}
      → Reach a
      → (now : TimeSpec) (id : ℕ) (delay : ℤ) (r : ReturnCode × Apex)
      → delayed_start now id delay a ≡ done r
      → Reach r.1
  prioritises :
      {a : Apex} → Reach a → (id : ℕ) (priority : ℤ) → Reach (set_priority id priority a).1
  resumes : {a : Apex} → Reach a → (id : ℕ) → Reach (resume id a).1
  stops :
      {a : Apex}
      → Reach a
      → (new : Option ℕ) (id : ℕ) (r : ReturnCode × Apex) → stop new id a ≡ done r
      → Reach r.1
  sets_mode :
      {a : Apex}
      → Reach a
      → (sort : List Descriptor → List ℕ → List ℕ) (reports : Reports) (mode : OperatingMode)
        (clock : ℕ → TimeSpec) (turns : List Turn) (r : Option ReturnCode × Apex)
      → set_partition_mode sort reports mode clock turns a ≡ returns (done r)
      → Reach r.1
  prepares :
      {a : Apex}
      → Reach a
      → (clock : ℕ → TimeSpec) (es : List Descriptor) → transition (obtain a).mode normal ≡ allowed
      → prepare_all clock (obtain a).processes ≡ some es
      → Reach (some (record (obtain a) { mode = normal; processes = es }))

-- What holds after SET_PARTITION_MODE
abbrev AfterMode : Run (Option ReturnCode × Apex) → Type 0
AfterMode r = Ends (λ x. TableApex x.1) r

after_scheduler-Returns : (o : Outcome (Run Partition)) → Returns AfterMode (after_scheduler o)
after_scheduler-Returns (returns (done p)) = record {}
after_scheduler-Returns (returns aborts) = record {}
after_scheduler-Returns (returns faults) = record {}
after_scheduler-Returns blocks = record {}
after_scheduler-Returns terminates = record {}

by_transition-Returns :
    (sort : List Descriptor → List ℕ → List ℕ) (reports : Reports) (t : Transition)
    (mode : OperatingMode) (clock : ℕ → TimeSpec) (turns : List Turn) (p : Partition)
    → Table p
    → Returns AfterMode (by_transition sort reports t mode clock turns p)
by_transition-Returns sort reports (refused code) mode clock turns p t = t
by_transition-Returns sort reports allowed mode clock turns p t =
    elim (Bool-cases (is_normal mode)) [
      | inl n ↦ rw n (after_scheduler-Returns (init_partition_scheduler sort reports clock turns p))
      | inr f ↦ elim (Bool-cases (is_normal p.mode)) [
        | inl m ↦ rw (f, m) record {}
        | inr m ↦ rw (f, m) (same-Table p (record p { mode = mode }) refl t)
      ]
    ]

-- From no partition, any sequence of CREATE_PROCESS, DELAYED_START, SET_PRIORITY, RESUME and STOP that run
-- to their end, of changes of the mode that return, and of the preparation of the processes for the mode
-- NORMAL leads to a process table, if any, of at most 128 processes, no two of the same name, whose
-- attributes pass the tests of CREATE_PROCESS; each that is not dormant has a current priority from 83 to
-- 96. The steps of the scheduler after the preparation, and SUSPEND_SELF, are not among them.
pub Reach-Table : {a : Apex} → Reach a → TableApex a
unfolding set_partition_mode
Reach-Table start = record {}
Reach-Table (creates {a = a} h platform attributes r e) =
    subst (Ends (λ r. TableApex r.2)) e (create_process-Table platform attributes a (Reach-Table h))
Reach-Table (starts {a = a} h now id delay r e) =
    subst (Ends (λ r. TableApex r.1)) e (delayed_start-Table now id delay a (Reach-Table h))
Reach-Table (prioritises {a = a} h id priority) = set_priority-Table id priority a (Reach-Table h)
Reach-Table (resumes {a = a} h id) = resume-Table id a (Reach-Table h)
Reach-Table (stops {a = a} h new id r e) =
    subst (Ends (λ r. TableApex r.1)) e (stop-Table new id a (Reach-Table h))
Reach-Table (sets_mode {a = a} h sort reports mode clock turns r e) = subst (Returns AfterMode) e (
    by_transition-Returns sort reports (transition (obtain a).mode mode) mode clock turns (obtain a)
      (obtain-Table a (Reach-Table h)))
Reach-Table (prepares {a = a} h clock es t e) =
    prepared-Table clock (obtain a) normal es e (obtain-Table a (Reach-Table h))
