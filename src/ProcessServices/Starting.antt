-- ===== src/ProcessServices/Starting.antt =====
-- DELAYED_START keeps the process table.

use arinc653emulator.Prelude.{
  ℕ, ℤ, pos, ltb_ℤ, ◌≡◌, refl, sym, ap, ◌∙◌, inl, inr, arith, not, Bool-cases, Option, none, some,
  Option-cases, get_elem?,
}
use arinc653emulator.Types.{ReturnCode}
use arinc653emulator.Time.{TimeSpec}
use arinc653emulator.Event.{set_event, reset_event}
use arinc653emulator.Partition.{
  Blackboard, Descriptor, ProcessState, ready, waiting_on_period, waiting_partition_not_normal,
  Partition, Apex, is_normal,
}
use arinc653emulator.EventServices.{on_event, reset_event_service}
use arinc653emulator.BlackboardServices.{
  Run, done, aborts, faults, erase_blackboard, clear_blackboard,
}
use arinc653emulator.BlackboardServices.Integrity.{Ends}
use arinc653emulator.ProcessServices.{
  refuses, out_of_range, process_name_of, is_dormant, is_periodic,
}
use arinc653emulator.ProcessServices.Start.{
  at_base, released, schedule, clear_response, after_clear, delayed_start,
}
use arinc653emulator.ProcessServices.Table.{
  Admitted, Table, TableApex, SameProcesses, put_process-Table, same-Table,
}

-- A process that passed the tests, at its base priority.
pub at_base-Admitted :
    (d : Descriptor) (state : ProcessState)
    → Admitted d
    → Admitted (record (at_base d) { process_state = state })
unfolding refuses
at_base-Admitted d state h = record {
  accepted = h.accepted;
  in_range = λ e. ground (arith, h.accepted);
}

erase_blackboard-processes :
    (id : ℕ) (b : Blackboard) (p : Partition)
    → Ends (λ r. SameProcesses p r.1) (erase_blackboard id b p)
unfolding erase_blackboard reset_event_service reset_event on_event
erase_blackboard-processes id b p = ground arith

pub clear_blackboard-processes :
    (id : ℕ) (p : Partition) → Ends (λ r. SameProcesses p r.1) (clear_blackboard id (some p))
unfolding clear_blackboard
clear_blackboard-processes id p = elim (Option-cases (get_elem? p.blackboards id)) [
  | inl n ↦ rw (clear_blackboard, n) refl
  | inr s ↦ rw (clear_blackboard, s.1) (erase_blackboard-processes id s.0 p)
]

released-keeps :
    (now : TimeSpec) (delay : ℤ) (d e : Descriptor)
    → released now delay d ≡ some e
    → (e.attributes ≡ d.attributes)
      × (e.process_state ≡ d.process_state)
      × (e.current_priority ≡ d.current_priority)
unfolding released
released-keeps now delay d e h = ground arith

released-Admitted :
    (now : TimeSpec) (delay : ℤ) (d e : Descriptor)
    → released now delay d ≡ some e
    → (process_name_of e ≡ process_name_of d) × (Admitted d → Admitted e)
released-Admitted now delay d e h =
    let r = released-keeps now delay d e h in
    (
      ap (λ a. a.process_name) r.0,
      λ k. record {
        accepted = ap refuses r.0 ∙ k.accepted;
        in_range = λ s. ap out_of_range r.2 ∙ k.in_range (ap is_dormant (sym r.1) ∙ s);
      },
    )

schedule-Table :
    (now : TimeSpec) (delay : ℤ) (id : ℕ) (old d : Descriptor) (p : Partition)
    → get_elem? p.processes id ≡ some old
    → process_name_of d ≡ process_name_of old
    → (Admitted old → Admitted d)
    → Table p
    → Ends (λ r. TableApex r.1) (schedule now delay id d (some p))
unfolding schedule
schedule-Table now delay id old d p g n k t = elim (Option-cases (released now delay d)) [
  | inl x ↦ rw (schedule, x) record {}
  | inr x ↦
      let r = released-Admitted now delay d x.0 x.1 in
      let q = record p { scheduling_event = (set_event p.scheduling_event).1 } in
      rw (schedule, x.1)
        (put_process-Table q id old x.0 g (r.0 ∙ n) (λ h. r.1 (k h)) (same-Table p q refl t))
]

after_clear-Table :
    (now : TimeSpec) (delay : ℤ) (id : ℕ) (old d : Descriptor) (p : Partition)
    (r : Run (ReturnCode × Apex))
    → get_elem? p.processes id ≡ some old
    → process_name_of d ≡ process_name_of old
    → (Admitted old → Admitted (record d { process_state = ready }))
    → Table p
    → Ends (λ r. SameProcesses p r.1) r
    → Ends (λ r. TableApex r.1) (after_clear now delay id d r)
unfolding schedule
after_clear-Table now delay id old d p (done (code, none)) g n k t e = record {}
after_clear-Table now delay id old d p (done (code, some q)) g n k t e =
    schedule-Table now delay id old (record d { process_state = ready }) q (rw e g) n k
      (same-Table p q e t)
after_clear-Table now delay id old d p aborts g n k t e = record {}
after_clear-Table now delay id old d p faults g n k t e = record {}

pub clear_response-processes :
    (board : Option ℕ) (p : Partition) → Ends (λ r. SameProcesses p r.1) (clear_response board p)
clear_response-processes none p = record {}
clear_response-processes (some id) p = clear_blackboard-processes id p

pub delayed_start-Table :
    (now : TimeSpec) (id : ℕ) (delay : ℤ) (a : Apex)
    → TableApex a
    → Ends (λ r. TableApex r.1) (delayed_start now id delay a)
unfolding delayed_start
delayed_start-Table now id delay none t = t
delayed_start-Table now id delay (some p) t = elim (Bool-cases (ltb_ℤ delay (pos 0))) [
  | inl o ↦ rw (delayed_start, o) t
  | inr f ↦ elim (Option-cases (get_elem? p.processes id)) [
    | inl o ↦ rw (delayed_start, f, o) t
    | inr s ↦ elim (Bool-cases (not (is_dormant s.0.process_state))) [
      | inl o ↦ rw (delayed_start, f, s.1, o) t
      | inr d ↦ elim (Bool-cases (is_normal p.mode)) [
        | inr m ↦
            rw (delayed_start, f, s.1, d, m)
              (put_process-Table p id s.0
                (record (at_base s.0) {
                  process_state = waiting_partition_not_normal;
                  initial_delay_time = delay;
                })
                s.1 refl
                (λ h.
                  let b = at_base-Admitted s.0 waiting_partition_not_normal h in
                  record { accepted = b.accepted; in_range = b.in_range })
                t)
        | inl m ↦ elim (Bool-cases (is_periodic s.0)) [
          | inl o ↦
              rw (delayed_start, f, s.1, d, m, o)
                (schedule-Table now delay id s.0
                  (record (at_base s.0) { process_state = waiting_on_period }) p s.1 refl
                  (at_base-Admitted s.0 waiting_on_period) t)
          | inr o ↦
              rw (delayed_start, f, s.1, d, m, o)
                (after_clear-Table now delay id s.0 (at_base s.0) p
                  (clear_response s.0.response_board_id p) s.1 refl (at_base-Admitted s.0 ready) t
                  (clear_response-processes s.0.response_board_id p))
        ]
      ]
    ]
  ]
]
