-- ===== src/SemaphoreServices.antt =====
-- src/APEX_SEMAPHORE_SERVICES.cc: the services over the classes SEMAPHORE and RW_LOCK_SEM. GET_MY_ID,
-- of src/APEX_PROCESS_SERVICES.cc, looks the calling thread up among the processes.
pub mod Creation
pub mod Signals
use mathlib.Core.Option
use arinc653emulator.Prelude.{
  ℕ, zero, suc, ◌==◌, ℤ, String, Bool, ◌||◌, Option, none, some, List, [], ◌∷◌, ◌++◌, length,
  get_elem?, get_or, set, if◌then◌else◌, pos,
}
use arinc653emulator.Types.{
  ReturnCode, no_error, timed_out, invalid_param, invalid_config, invalid_mode,
}
use arinc653emulator.Time.{TimeSpec}
use arinc653emulator.Blocking.{Wake, Place, Outcome, returns, blocks, terminates}
use arinc653emulator.Semaphore.{Semaphore, new_semaphore, wait, post}
use arinc653emulator.RwLock.{RwLock, new_rw_lock, readlock, readunlock, writelock, writeunlock}
use arinc653emulator.Partition.{Descriptor, Partition, Apex, is_idle, is_normal, find_index}
use arinc653emulator.EventServices.{obtain, service_end}

abbrev pub semaphore_name : Semaphore → String
semaphore_name s = s.name

abbrev pub rw_lock_name : RwLock → String
rw_lock_name l = l.lock_name

-- CREATE_SEMAPHORE, which does not use the queuing discipline: the return code, SEMAPHORE_ID where it
-- is set, and the partition.
unfoldable pub create_semaphore : String → ℤ → ℤ → Apex → ReturnCode × Option ℕ × Apex
create_semaphore name value maximum apex =
    let p = obtain apex in
    if is_idle p.mode || is_normal p.mode
    then (invalid_mode, none, some p)
    else elim (find_index semaphore_name name p.semaphores) [
      | some _ ↦ (invalid_param, none, some p)
      | none ↦ (
        no_error,
        some (length p.semaphores),
        some (record p { semaphores = p.semaphores ++ (new_semaphore name value maximum ∷ []) }),
      )
    ]

-- The semaphore at an index in bounds
abbrev pub semaphore_at : ℕ → Place Partition Semaphore
semaphore_at id = record {
  read = λ p. get_or p.semaphores id (new_semaphore "" (pos 0) (pos 0));
  write = λ p s. record p { semaphores = set p.semaphores id s };
}

-- WAIT_SEMAPHORE
unfoldable pub wait_semaphore :
    ℕ → TimeSpec → ℤ → List (Wake Partition) → Apex → Outcome (ReturnCode × Apex)
wait_semaphore id now timeout ws none = returns (invalid_config, none)
wait_semaphore id now timeout ws (some p) = elim (get_elem? p.semaphores id) [
  | none ↦ returns (invalid_param, some p)
  | some _ ↦ service_end (wait (semaphore_at id) now timeout ws p)
]

-- SIGNAL_SEMAPHORE
unfoldable pub signal_semaphore : ℕ → Apex → ReturnCode × Apex
signal_semaphore id none = (invalid_config, none)
signal_semaphore id (some p) = elim (get_elem? p.semaphores id) [
  | none ↦ (invalid_param, some p)
  | some s ↦ let r = post s in (r.0, some (record p { semaphores = set p.semaphores id r.1 }))
]

-- GET_SEMAPHORE_ID
unfoldable pub get_semaphore_id : String → Apex → ReturnCode × Option ℕ
get_semaphore_id name none = (invalid_config, none)
get_semaphore_id name (some p) = elim (find_index semaphore_name name p.semaphores) [
  | none ↦ (invalid_param, none)
  | some i ↦ (no_error, some i)
]

-- SEMAPHORE_STATUS_TYPE
pub record SemaphoreStatus : Type 0 where
  pub waiting_processes : ℕ
  pub current_value : ℤ
  pub maximum_value : ℤ

-- GET_SEMAPHORE_STATUS
unfoldable pub get_semaphore_status : ℕ → Apex → ReturnCode × Option SemaphoreStatus
get_semaphore_status id none = (invalid_config, none)
get_semaphore_status id (some p) = elim (get_elem? p.semaphores id) [
  | none ↦ (invalid_param, none)
  | some s ↦ (
    no_error,
    some (record {
      waiting_processes = s.waiting;
      current_value = s.counter;
      maximum_value = s.maximum_value;
    }),
  )
]

-- CREATE_RW_SEMAPHORE
unfoldable pub create_rw_semaphore : String → ℤ → Apex → ReturnCode × Option ℕ × Apex
create_rw_semaphore name readers apex =
    let p = obtain apex in
    if is_idle p.mode || is_normal p.mode
    then (invalid_mode, none, some p)
    else elim (find_index rw_lock_name name p.rw_locks) [
      | some _ ↦ (invalid_param, none, some p)
      | none ↦ (
        no_error,
        some (length p.rw_locks),
        some (record p { rw_locks = p.rw_locks ++ (new_rw_lock name readers ∷ []) }),
      )
    ]

-- GET_RW_SEMAPHORE_ID
unfoldable pub get_rw_semaphore_id : String → Apex → ReturnCode × Option ℕ
get_rw_semaphore_id name none = (invalid_config, none)
get_rw_semaphore_id name (some p) = elim (find_index rw_lock_name name p.rw_locks) [
  | none ↦ (invalid_param, none)
  | some i ↦ (no_error, some i)
]

-- The loop of GET_MY_ID: the first process whose thread is `self`.
unfoldable pub my_id : ℕ → List Descriptor → Option ℕ
my_id self [] = none
my_id self (d ∷ ds) =
    let rest = Option.map suc (my_id self ds) in if d.thread == self then some 0 else rest

-- GET_MY_ID, called by the thread `self`
unfoldable pub get_my_id : ℕ → Apex → ReturnCode × Option ℕ
get_my_id self none = (invalid_config, none)
get_my_id self (some p) = elim (my_id self p.processes) [
  | none ↦ (invalid_mode, none)
  | some i ↦ (no_error, some i)
]

-- A change of the descriptor of the caller, where the caller is a process.
abbrev pub of_caller : (Descriptor → Descriptor) → ℕ → Partition → Partition
of_caller f self p = elim (my_id self p.processes) [
  | none ↦ p
  | some i ↦ elim (get_elem? p.processes i) [
    | none ↦ p
    | some d ↦ record p { processes = set p.processes i (f d) }
  ]
]

-- The loops that erase the first entry that is `x`
unfoldable pub erase_first : ℕ → List ℕ → List ℕ
erase_first x [] = []
erase_first x (y ∷ ys) = let rest = y ∷ erase_first x ys in if y == x then ys else rest

-- The readers-writer lock at an index in bounds
abbrev pub rw_lock_at : ℕ → Place Partition RwLock
rw_lock_at id = record {
  read = λ p. get_or p.rw_locks id (new_rw_lock "" (pos 0));
  write = λ p l. record p { rw_locks = set p.rw_locks id l };
}

-- The end of the two lock services: the lock is noted at the caller.
abbrev pub noted :
    (Descriptor → Descriptor) → ℕ → Outcome (ReturnCode × Partition) → Outcome (ReturnCode × Apex)
noted f self (returns (no_error, p)) = returns (no_error, some (of_caller f self p))
noted f self (returns (code, p)) = returns (code, some p)
noted f self blocks = blocks
noted f self terminates = terminates

-- READLOCK_RW_SEMAPHORE
unfoldable pub readlock_rw_semaphore :
    ℕ → ℕ → TimeSpec → ℤ → List (Wake Partition) → Apex → Outcome (ReturnCode × Apex)
readlock_rw_semaphore self id now timeout ws none = returns (invalid_config, none)
readlock_rw_semaphore self id now timeout ws (some p) = elim (get_elem? p.rw_locks id) [
  | none ↦ returns (invalid_param, some p)
  | some _ ↦
      noted (λ d. record d { readlocks = d.readlocks ++ (id ∷ []) }) self
        (readlock (rw_lock_at id) now timeout ws p)
]

-- WRITELOCK_RW_SEMAPHORE; the wake-ups and what other threads do in between are writelock's.
unfoldable pub writelock_rw_semaphore :
    ℕ
    → ℕ
    → TimeSpec
    → ℤ
    → List (Wake Partition)
    → (ℕ → List (Wake Partition))
    → (ℕ → Partition → Partition)
    → Apex
    → Outcome (ReturnCode × Apex)
writelock_rw_semaphore self id now timeout token_wakes ws meanwhile none =
    returns (invalid_config, none)
writelock_rw_semaphore self id now timeout token_wakes ws meanwhile (some p) =
    elim (get_elem? p.rw_locks id) [
      | none ↦ returns (invalid_param, some p)
      | some _ ↦
          noted (λ d. record d { writelocks = d.writelocks ++ (id ∷ []) }) self
            (writelock (rw_lock_at id) now timeout token_wakes ws meanwhile p)
    ]

-- The two unlock services, past the look-up of the lock `l`
abbrev pub unlocked :
    (RwLock → RwLock) → (Descriptor → Descriptor) → ℕ → ℕ → RwLock → Partition → Partition
unlocked unlock f self id l p =
    of_caller f self (record p { rw_locks = set p.rw_locks id (unlock l) })

-- READUNLOCK_RW_SEMAPHORE
unfoldable pub readunlock_rw_semaphore : ℕ → ℕ → Apex → ReturnCode × Apex
readunlock_rw_semaphore self id none = (invalid_config, none)
readunlock_rw_semaphore self id (some p) = elim (get_elem? p.rw_locks id) [
  | none ↦ (invalid_param, some p)
  | some l ↦ (
    no_error,
    some (
        unlocked readunlock (λ d. record d { readlocks = erase_first id d.readlocks }) self id l p),
  )
]

-- WRITEUNLOCK_RW_SEMAPHORE
unfoldable pub writeunlock_rw_semaphore : ℕ → ℕ → Apex → ReturnCode × Apex
writeunlock_rw_semaphore self id none = (invalid_config, none)
writeunlock_rw_semaphore self id (some p) = elim (get_elem? p.rw_locks id) [
  | none ↦ (invalid_param, some p)
  | some l ↦ (
    no_error,
    some (
        unlocked writeunlock (λ d. record d { writelocks = erase_first id d.writelocks }) self id l
          p),
  )
]
