-- ===== src/ProcessServices/Stops.antt =====
-- STOP keeps the process table.
use arinc653emulator.Prelude.{
  ℕ, ◌≡◌, refl, inl, inr, arith, Bool-cases, Option, none, some, Option-cases, List, [], ◌∷◌, false,
  get_elem?,
}
use arinc653emulator.Types.{ReturnCode, worker_thread_restart_priority}
use arinc653emulator.Partition.{Descriptor, restarting, Partition, Apex}
use arinc653emulator.BlackboardServices.{Run, done, aborts, faults}
use arinc653emulator.BlackboardServices.Integrity.{Ends}
use arinc653emulator.SemaphoreServices.{
  my_id, of_caller, erase_first, readunlock_rw_semaphore, writeunlock_rw_semaphore,
}
use arinc653emulator.ProcessServices.{is_dormant}
use arinc653emulator.ProcessServices.Threads.{
  modify, is_no_error, unlock_each, then_unlock, cleanup, stopped, after_cleanup, stop_process,
  stop_end, stop,
}
use arinc653emulator.ProcessServices.Table.{
  Admitted, Table, TableApex, put_process-Table, same-Table,
}

-- A change that keeps the attributes of each process and its admission keeps the table.
modify-Table :
    (f : Descriptor → Descriptor) (id : ℕ) (p : Partition)
    → ((d : Descriptor) → (f d).attributes ≡ d.attributes)
    → ((d : Descriptor) → get_elem? p.processes id ≡ some d → Admitted d → Admitted (f d))
    → Table p
    → Table (modify f id p)
modify-Table f id p same keeps t = elim (Option-cases (get_elem? p.processes id)) [
  | inl n ↦ rw (modify, n) t
  | inr (d, g) ↦ rw (modify, g) (put_process-Table p id d (f d) g (rw (same d) refl) (keeps d g) t)
]

of_caller-Table :
    (f : Descriptor → Descriptor) (self : ℕ) (p : Partition)
    → ((d : Descriptor) → (f d).attributes ≡ d.attributes)
    → ((d : Descriptor) → Admitted d → Admitted (f d))
    → Table p
    → Table (of_caller f self p)
of_caller-Table f self p same keeps t = elim (Option-cases (my_id self p.processes)) [
  | inl n ↦ rw (of_caller, n) t
  | inr (i, e) ↦ rw (of_caller, e) (modify-Table f i p same (λ d _. keeps d) t)
]

readunlock-Table :
    (self id : ℕ) (a : Apex) → TableApex a → TableApex (readunlock_rw_semaphore self id a).1
unfolding readunlock_rw_semaphore
readunlock-Table self id none t = t
readunlock-Table self id (some p) t = elim (Option-cases (get_elem? p.rw_locks id)) [
  | inl n ↦ rw (readunlock_rw_semaphore, n) t
  | inr (l, e) ↦
      rw (readunlock_rw_semaphore, e)
        (of_caller-Table (λ d. record d { readlocks = erase_first id d.readlocks }) self _
          (λ d. refl) (λ d h. record { accepted = h.accepted; in_range = h.in_range })
          (same-Table p _ refl t))
]

writeunlock-Table :
    (self id : ℕ) (a : Apex) → TableApex a → TableApex (writeunlock_rw_semaphore self id a).1
unfolding writeunlock_rw_semaphore
writeunlock-Table self id none t = t
writeunlock-Table self id (some p) t = elim (Option-cases (get_elem? p.rw_locks id)) [
  | inl n ↦ rw (writeunlock_rw_semaphore, n) t
  | inr (l, e) ↦
      rw (writeunlock_rw_semaphore, e)
        (of_caller-Table (λ d. record d { writelocks = erase_first id d.writelocks }) self _
          (λ d. refl) (λ d h. record { accepted = h.accepted; in_range = h.in_range })
          (same-Table p _ refl t))
]

unlock_each-Table :
    (unlock : ℕ → Apex → ReturnCode × Apex)
    → ((i : ℕ) (a : Apex) → TableApex a → TableApex (unlock i a).1)
    → (is : List ℕ) (a : Apex) → TableApex a
    → Ends TableApex (unlock_each unlock is a)
unfolding unlock_each
unlock_each-Table unlock keeps [] a t = t
unlock_each-Table unlock keeps (i ∷ is) a t = elim (Bool-cases (is_no_error (unlock i a).0)) [
  | inl y ↦ rw y (unlock_each-Table unlock keeps is (unlock i a).1 (keeps i a t))
  | inr n ↦ rw n record {}
]

then_unlock-Table :
    (unlock : ℕ → Apex → ReturnCode × Apex)
    → ((i : ℕ) (a : Apex) → TableApex a → TableApex (unlock i a).1)
    → (is : List ℕ) (r : Run Apex) → Ends TableApex r
    → Ends TableApex (then_unlock unlock is r)
then_unlock-Table unlock keeps is (done a) t = unlock_each-Table unlock keeps is a t
then_unlock-Table unlock keeps is aborts t = t
then_unlock-Table unlock keeps is faults t = t

cleanup-Table : (d : Descriptor) (p : Partition) → Table p → Ends TableApex (cleanup d p)
unfolding cleanup
cleanup-Table d p t =
    then_unlock-Table (writeunlock_rw_semaphore d.thread) (writeunlock-Table d.thread) d.writelocks
      _
      (unlock_each-Table (readunlock_rw_semaphore d.thread) (readunlock-Table d.thread) d.readlocks
        (some p) t)

stopped-Admitted : (new : Option ℕ) (d : Descriptor) → Admitted d → Admitted (stopped new d)
stopped-Admitted none d h = record {
  accepted = h.accepted;
  in_range = λ e. absurd (ground (arith, e));
}
stopped-Admitted (some x) d h = record {
  accepted = h.accepted;
  in_range = λ e. absurd (ground (arith, e));
}

stopped-attributes : (new : Option ℕ) (d : Descriptor) → (stopped new d).attributes ≡ d.attributes
stopped-attributes none d = refl
stopped-attributes (some x) d = refl

after_cleanup-Table :
    (new : Option ℕ) (id : ℕ) (r : Run Apex)
    → Ends TableApex r
    → Ends (λ r. TableApex r.1) (stop_end (after_cleanup new id r))
after_cleanup-Table new id (done (some p)) t =
    modify-Table (stopped new) id p (stopped-attributes new) (λ d _. stopped-Admitted new d) t
after_cleanup-Table new id (done none) t = record {}
after_cleanup-Table new id aborts t = record {}
after_cleanup-Table new id faults t = record {}

pub stop-Table :
    (new : Option ℕ) (id : ℕ) (a : Apex) → TableApex a → Ends (λ r. TableApex r.1) (stop new id a)
unfolding stop stop_process
stop-Table new id none t = t
stop-Table new id (some p) t = elim (Option-cases (get_elem? p.processes id)) [
  | inl n ↦ rw (stop, n) t
  | inr (d, g) ↦ elim (Bool-cases (is_dormant d.process_state)) [
    | inl o ↦ rw (stop, g, o) t
    | inr f ↦
        rw (stop, g, f)
          (after_cleanup-Table new id _ (
            cleanup-Table d _ (
              modify-Table
                (λ x. record x {
                  priority = worker_thread_restart_priority;
                  process_state = restarting;
                })
                id p (λ x. refl)
                (λ x e h.
                  let awake : is_dormant x.process_state ≡ false = ground (arith, e, g, f) in
                  record { accepted = h.accepted; in_range = λ _. h.in_range awake })
                t)))
  ]
]
