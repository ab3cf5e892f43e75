-- ===== src/ProcessServices/Creation.antt =====
-- CREATE_PROCESS keeps the process table.

use arinc653emulator.Prelude.{[], ◌∷◌, ◌++◌}
use arinc653emulator.Prelude.{
  ℕ, ◌<◌, leb, ℤ, String, ◌≡◌, inl, inr, arith, false, ◌||◌, Bool-cases, Option, none, some,
  Option-cases, List, length,
}
use arinc653emulator.Types.{ReturnCode, max_number_of_processes}
use arinc653emulator.Partition.{
  Attributes, Descriptor, Partition, Apex, is_idle, is_normal, find_index,
}
use arinc653emulator.EventServices.{obtain, new_partition, create_event}
use arinc653emulator.BlackboardServices.{Run, done, aborts, faults, create_blackboard}
use arinc653emulator.BlackboardServices.Integrity.{Ends}
use arinc653emulator.ProcessServices.{
  refuses, process_name_of, new_descriptor, admitted, Platform, create_process,
}
use arinc653emulator.ProcessServices.Table.{Table, TableApex, SameProcesses, new_process-Table}

pub create_blackboard-processes :
    (fresh : List ℕ) (name : String) (size : ℤ) (p : Partition)
    → Ends (λ r. SameProcesses p r.2) (create_blackboard fresh name size (some p))
unfolding create_blackboard create_event obtain
create_blackboard-processes fresh name size p = ground arith

admitted-Table :
    (p : Partition) (blank : Descriptor) (a : Attributes) (r : Run (ReturnCode × Option ℕ × Apex))
    → Table p
    → length p.processes < max_number_of_processes
    → find_index process_name_of a.process_name p.processes ≡ none
    → refuses a ≡ false
    → Ends (λ r. SameProcesses p r.2) r
    → Ends (λ r. TableApex r.2) (admitted blank a r)
unfolding new_descriptor
admitted-Table p blank a (done (code, board, some q)) t l n v e =
    new_process-Table p q (new_descriptor blank a board) (q.sorted ++ (length q.processes ∷ [])) e t
      l n (record { accepted = v; in_range = λ f. ground arith })
admitted-Table p blank a (done (code, board, none)) t l n v e = record {}
admitted-Table p blank a aborts t l n v e = record {}
admitted-Table p blank a faults t l n v e = record {}

pub obtain-Table : (a : Apex) → TableApex a → Table (obtain a)
unfolding obtain new_partition
obtain-Table none t = record {
  names = λ i j x y a b e. ground arith;
  number = omega arith;
  each = λ i d e. absurd (ground arith);
}
obtain-Table (some p) t = t

pub create_process-Table :
    (platform : Platform) (a : Attributes) (apex : Apex)
    → TableApex apex
    → Ends (λ r. TableApex r.2) (create_process platform a apex)
unfolding create_process
create_process-Table platform a apex t =
    let p = obtain apex in
    let ok = obtain-Table apex t in
    elim (Bool-cases (is_idle p.mode || is_normal p.mode)) [
      | inl o ↦ rw (create_process, o) ok
      | inr f ↦ elim (Bool-cases (leb max_number_of_processes (length p.processes))) [
        | inl o ↦ rw (create_process, f, o) ok
        | inr l ↦ elim (Bool-cases (refuses a)) [
          | inl o ↦ rw (create_process, f, l, o) ok
          | inr v ↦ elim (Option-cases (find_index process_name_of a.process_name p.processes)) [
            | inr x ↦ rw (create_process, f, l, v, x.1) ok
            | inl n ↦ elim (Bool-cases platform.thread_created) [
              | inr o ↦ rw (create_process, f, l, v, n, o) record {}
              | inl c ↦
                  rw (create_process, f, l, v, n, c)
                    (admitted-Table p platform.blank a _ ok (ground (arith, l)) n v (
                      create_blackboard-processes platform.fresh
                        (platform.response_name (length p.processes)) platform.response_size p))
            ]
          ]
        ]
      ]
    ]
