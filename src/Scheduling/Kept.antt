-- ===== src/Scheduling/Kept.antt =====
-- The processes that the scheduler does not look at stay as they are, but for the lists of locks they
-- hold.
use arinc653emulator.Prelude.{
  ℕ, ◌==◌, ==_iff, ◌≡◌, ◌≢◌, refl, sym, ap, ◌∙◌, arith, none, some, Option-cases, Option, inl, inr,
  Bool-cases, List, [], ◌∷◌, get_elem?, set, get_elem?-set_self, get_elem?-set_ne,
}
use arinc653emulator.Types.{ReturnCode}
use arinc653emulator.RwLock.{readunlock, writeunlock}
use arinc653emulator.Partition.{Descriptor, Partition, Apex}
use arinc653emulator.Partition.Names.{get_elem?-some_lt}
use arinc653emulator.BlackboardServices.{Run, done, aborts, faults}
use arinc653emulator.BlackboardServices.Integrity.{Ends}
use arinc653emulator.SemaphoreServices.{
  my_id, of_caller, erase_first, readunlock_rw_semaphore, writeunlock_rw_semaphore,
}
use arinc653emulator.ProcessServices.Unlocking.{less_locks}
use arinc653emulator.ProcessServices.Threads.{
  modify, unlock_each, then_unlock, cleanup, after_cleanup, stopped, stop_process, is_no_error,
}

-- The process at `j` is `d`, but for its locks.
abbrev pub Kept : ℕ → Descriptor → Partition → Type 0
Kept j d p = (e : Descriptor) × (get_elem? p.processes j ≡ some e) × (less_locks e ≡ less_locks d)

abbrev pub KeptApex : ℕ → Descriptor → Apex → Type 0
KeptApex j d none = Unit
KeptApex j d (some p) = Kept j d p

pub modify-Kept :
    (f : Descriptor → Descriptor) (id j : ℕ) (d : Descriptor) (p : Partition)
    → id ≢ j
    → Kept j d p
    → Kept j d (modify f id p)
modify-Kept f id j d p n k = elim (Option-cases (get_elem? p.processes id)) [
  | inl o ↦ rw (modify, o) k
  | inr x ↦ rw (modify, x.1) (k.0, get_elem?-set_ne p.processes (f x.0) n ∙ k.1, k.2)
]

one_elem :
    (l : List Descriptor) (i j : ℕ) (x y : Descriptor)
    → get_elem? l i ≡ some x
    → get_elem? l j ≡ some y
    → i ≡ j
    → x ≡ y
one_elem l i j x y g h e = cc

module _ (f : Descriptor → Descriptor)
    (lock_only : (x : Descriptor) → less_locks (f x) ≡ less_locks x) where
  set-Kept :
      (i j : ℕ) (d x : Descriptor) (p : Partition)
      → get_elem? p.processes i ≡ some x
      → Kept j d p
      → Kept j d (record p { processes = set p.processes i (f x) })
  set-Kept i j d x p g k = elim (Bool-cases (i == j)) [
    | inr n ↦ (k.0, get_elem?-set_ne p.processes (f x) (λ e. ground (arith, n, e)) ∙ k.1, k.2)
    | inl t ↦
        let same : i ≡ j = (==_iff i j).0 t in
        let lt = get_elem?-some_lt p.processes x i g in
        (
          f x,
          ap (λ m. get_elem? (set p.processes i (f x)) m) (sym same)
              ∙ get_elem?-set_self p.processes i (f x) lt,
          lock_only x ∙ ap less_locks (one_elem p.processes i j x k.0 g k.1 same) ∙ k.2,
        )
  ]

  of_caller-Kept :
      (self j : ℕ) (d : Descriptor) (p : Partition) → Kept j d p → Kept j d (of_caller f self p)
  of_caller-Kept self j d p k = elim (Option-cases (my_id self p.processes)) [
    | inl o ↦ rw (of_caller, o) k
    | inr i ↦ elim (Option-cases (get_elem? p.processes i.0)) [
      | inl o ↦ rw (of_caller, i.1, o) k
      | inr x ↦ rw (of_caller, i.1, x.1) (set-Kept i.0 j d x.0 p x.1 k)
    ]
  ]

readunlock-Kept :
    (self id j : ℕ) (d : Descriptor) (a : Apex)
    → KeptApex j d a
    → KeptApex j d (readunlock_rw_semaphore self id a).1
unfolding readunlock_rw_semaphore
readunlock-Kept self id j d none k = k
readunlock-Kept self id j d (some p) k = elim (Option-cases (get_elem? p.rw_locks id)) [
  | inl o ↦ rw (readunlock_rw_semaphore, o) k
  | inr x ↦
      rw (readunlock_rw_semaphore, x.1)
        (of_caller-Kept (λ y. record y { readlocks = erase_first id y.readlocks }) (λ y. refl) self
          j d (record p { rw_locks = set p.rw_locks id (readunlock x.0) }) k)
]

writeunlock-Kept :
    (self id j : ℕ) (d : Descriptor) (a : Apex)
    → KeptApex j d a
    → KeptApex j d (writeunlock_rw_semaphore self id a).1
unfolding writeunlock_rw_semaphore
writeunlock-Kept self id j d none k = k
writeunlock-Kept self id j d (some p) k = elim (Option-cases (get_elem? p.rw_locks id)) [
  | inl o ↦ rw (writeunlock_rw_semaphore, o) k
  | inr x ↦
      rw (writeunlock_rw_semaphore, x.1)
        (of_caller-Kept (λ y. record y { writelocks = erase_first id y.writelocks }) (λ y. refl)
          self j d (record p { rw_locks = set p.rw_locks id (writeunlock x.0) }) k)
]

unlock_each-Kept :
    (unlock : ℕ → Apex → ReturnCode × Apex) (j : ℕ) (d : Descriptor)
    → ((i : ℕ) (a : Apex) → KeptApex j d a → KeptApex j d (unlock i a).1)
    → (is : List ℕ) (a : Apex) → KeptApex j d a
    → Ends (KeptApex j d) (unlock_each unlock is a)
unfolding unlock_each
unlock_each-Kept unlock j d h [] a k = k
unlock_each-Kept unlock j d h (i ∷ is) a k = elim (Bool-cases (is_no_error (unlock i a).0)) [
  | inl t ↦ rw (unlock_each, t) (unlock_each-Kept unlock j d h is (unlock i a).1 (h i a k))
  | inr f ↦ rw (unlock_each, f) record {}
]

then_unlock-Kept :
    (unlock : ℕ → Apex → ReturnCode × Apex) (j : ℕ) (d : Descriptor)
    → ((i : ℕ) (a : Apex) → KeptApex j d a → KeptApex j d (unlock i a).1)
    → (is : List ℕ) (r : Run Apex) → Ends (KeptApex j d) r
    → Ends (KeptApex j d) (then_unlock unlock is r)
then_unlock-Kept unlock j d h is (done a) k = unlock_each-Kept unlock j d h is a k
then_unlock-Kept unlock j d h is aborts k = record {}
then_unlock-Kept unlock j d h is faults k = record {}

pub cleanup-Kept :
    (x : Descriptor) (j : ℕ) (d : Descriptor) (p : Partition)
    → Kept j d p
    → Ends (KeptApex j d) (cleanup x p)
unfolding cleanup
cleanup-Kept x j d p k =
    then_unlock-Kept (writeunlock_rw_semaphore x.thread) j d
      (λ i a. writeunlock-Kept x.thread i j d a) x.writelocks
      (unlock_each (readunlock_rw_semaphore x.thread) x.readlocks (some p))
      (unlock_each-Kept (readunlock_rw_semaphore x.thread) j d
        (λ i a. readunlock-Kept x.thread i j d a) x.readlocks (some p) k)

after_cleanup-Kept :
    (new : Option ℕ) (id j : ℕ) (d : Descriptor) (r : Run Apex)
    → id ≢ j
    → Ends (KeptApex j d) r
    → Ends (Kept j d) (after_cleanup new id r)
after_cleanup-Kept new id j d (done (some p)) n k = modify-Kept (stopped new) id j d p n k
after_cleanup-Kept new id j d (done none) n k = record {}
after_cleanup-Kept new id j d aborts n k = record {}
after_cleanup-Kept new id j d faults n k = record {}

pub stop_process-Kept :
    (new : Option ℕ) (id j : ℕ) (x d : Descriptor) (p : Partition)
    → id ≢ j
    → Kept j d p
    → Ends (Kept j d) (stop_process new id x p)
unfolding stop_process
stop_process-Kept new id j x d p n k =
    after_cleanup-Kept new id j d _ n (cleanup-Kept x j d _ (modify-Kept _ id j d p n k))
