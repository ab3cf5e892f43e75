-- ===== src/ProcessServices/Table.antt =====
-- What the process table keeps; SET_PRIORITY and RESUME.
use arinc653emulator.Prelude.{List}
use mathlib.Core.Path.{subst}
use arinc653emulator.Prelude.{
  ℕ, ◌≤◌, ◌<◌, ℤ, ◌≡◌, refl, inl, inr, arith, false, Bool-cases, none, some, Option-cases, [], ◌∷◌,
  ◌++◌, length, length-append, length-set, get_elem?,
}
use arinc653emulator.Types.{max_number_of_processes}
use arinc653emulator.Event.{set_event}
use arinc653emulator.Partition.{
  Descriptor, ProcessState, running, waiting_suspended_other, waiting_suspended_self, Partition,
  Apex, find_index,
}
use arinc653emulator.Partition.Names.{
  Distinct, Distinct-snoc, Distinct-set, get_elem?-snoc, get_elem?-set,
}
use arinc653emulator.ProcessServices.{
  refuses, out_of_range, process_name_of, is_dormant, is_periodic, put_process, set_priority,
  resumed, resume,
}

-- A process passed the tests of CREATE_PROCESS and, once started, has a priority within the bounds.
pub record Admitted (d : Descriptor) : Type 0 where
  pub accepted : refuses d.attributes ≡ false
  pub in_range : is_dormant d.process_state ≡ false → out_of_range d.current_priority ≡ false

pub record Table (p : Partition) : Type 0 where
  pub names : Distinct process_name_of p.processes
  pub number : length p.processes ≤ max_number_of_processes
  pub each : (i : ℕ) (d : Descriptor) → get_elem? p.processes i ≡ some d → Admitted d

abbrev pub TableApex : Apex → Type 0
TableApex none = Unit
TableApex (some p) = Table p

-- Tables of the same processes.
abbrev pub SameProcesses : Partition → Apex → Type 0
SameProcesses p none = Unit
SameProcesses p (some q) = q.processes ≡ p.processes

pub put_process-Table :
    (p : Partition) (id : ℕ) (old new : Descriptor)
    → get_elem? p.processes id ≡ some old
    → process_name_of new ≡ process_name_of old
    → (Admitted old → Admitted new)
    → Table p
    → TableApex (put_process p id new)
put_process-Table p id old new g n k t = record {
  names = Distinct-set process_name_of p.processes id new old g n t.names;
  number = omega (arith, length-set p.processes id new, t.number);
  each = λ i d e. elim (get_elem?-set p.processes id new d i e) [
    | inl h ↦ subst Admitted h.1 (k (t.each id old g))
    | inr h ↦ t.each i d h
  ];
}

pub set_priority-Table :
    (id : ℕ) (priority : ℤ) (a : Apex) → TableApex a → TableApex (set_priority id priority a).1
unfolding set_priority
set_priority-Table id priority none t = t
set_priority-Table id priority (some p) t = elim (Option-cases (get_elem? p.processes id)) [
  | inl n ↦ rw (set_priority, n) t
  | inr s ↦ elim (Bool-cases (out_of_range priority)) [
    | inl o ↦ rw (set_priority, s.1, o) t
    | inr r ↦ elim (Bool-cases (is_dormant s.0.process_state)) [
      | inl o ↦ rw (set_priority, s.1, r, o) t
      | inr f ↦
          rw (set_priority, s.1, r, f)
            (put_process-Table p id s.0
              (record s.0 { priority = priority; current_priority = priority }) s.1 refl
              (λ h. record { accepted = h.accepted; in_range = λ e. r }) t)
    ]
  ]
]

resumed-Table :
    (p : Partition) (id : ℕ) (d : Descriptor) (state : ProcessState)
    → is_dormant d.process_state ≡ false
    → get_elem? p.processes id ≡ some d
    → Table p
    → TableApex (resumed p id d state).1
resumed-Table p id d waiting_suspended_other f g t =
    put_process-Table p id d (record d { priority = d.current_priority; process_state = running }) g
      refl (λ h. record { accepted = h.accepted; in_range = λ e. h.in_range f }) t
resumed-Table p id d waiting_suspended_self f g t =
    put_process-Table p id d (record d { suspension_event = (set_event d.suspension_event).1 }) g
      refl (λ h. record { accepted = h.accepted; in_range = h.in_range }) t
resumed-Table p id d _ f g t = t

pub resume-Table : (id : ℕ) (a : Apex) → TableApex a → TableApex (resume id a).1
unfolding resume
resume-Table id none t = t
resume-Table id (some p) t = elim (Option-cases (get_elem? p.processes id)) [
  | inl n ↦ rw (resume, n) t
  | inr s ↦ elim (Bool-cases (is_dormant s.0.process_state)) [
    | inl o ↦ rw (resume, s.1, o) t
    | inr f ↦ elim (Bool-cases (is_periodic s.0)) [
      | inl o ↦ rw (resume, s.1, f, o) t
      | inr r ↦ rw (resume, s.1, f, r) (resumed-Table p id s.0 s.0.process_state f s.1 t)
    ]
  ]
]

pub new_process-Table :
    (p q : Partition) (d : Descriptor) (s : List ℕ)
    → q.processes ≡ p.processes
    → Table p
    → length p.processes < max_number_of_processes
    → find_index process_name_of (process_name_of d) p.processes ≡ none
    → Admitted d
    → Table (record q { processes = q.processes ++ (d ∷ []); sorted = s })
new_process-Table p q d s e t l n a = rw e (record {
  names = Distinct-snoc process_name_of p.processes d n t.names;
  number = omega (arith, l, length-append p.processes (d ∷ []));
  each = λ i x g. elim (get_elem?-snoc p.processes d x i g) [
    | inl h ↦ t.each i x h
    | inr h ↦ subst Admitted h.1 a
  ];
})

pub same-Table : (p q : Partition) → q.processes ≡ p.processes → Table p → Table q
same-Table p q e t = record { names = rw e t.names; number = rw e t.number; each = rw e t.each }
