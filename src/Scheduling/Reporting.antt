-- ===== src/Scheduling/Reporting.antt =====
-- The services that the scheduler calls on a missed deadline, as it calls them: they do not change the
-- processes.
use arinc653emulator.Prelude.{
  ℕ, ℤ, pos, ltb_ℤ, ◌≡◌, refl, ◌∙◌, inl, inr, arith, Bool-cases, Option, none, some, Option-cases,
  List, [], false, get_elem?,
}
use arinc653emulator.Types.{
  ReturnCode, no_error, no_action, not_available, invalid_param, invalid_config, invalid_mode,
  timed_out, infinite_time_value,
}
use arinc653emulator.Time.{TimeSpec}
use arinc653emulator.Blocking.{Outcome, returns, blocks, terminates}
use arinc653emulator.Semaphore.{wait, wait_loop, wait_forever}
use arinc653emulator.Buffer.{Buffer, memcpy, send_message}
use arinc653emulator.Event.{set_event}
use arinc653emulator.Partition.{
  Blackboard, ProcessResponse, partition_scheduler_entity, Partition, Apex,
}
use arinc653emulator.EventServices.{set_event_service, on_event}
use arinc653emulator.BlackboardServices.{
  Run, done, aborts, faults, cleared, write_on_blackboard, clear_blackboard, display_blackboard,
}
use arinc653emulator.BlackboardServices.Integrity.{Ends}
use arinc653emulator.BufferServices.{buffer_at, send_buffer, sent}
use arinc653emulator.ProcessServices.Notifications.{ResponseLayout, notify_process_finished_status}
use arinc653emulator.ProcessServices.Starting.{clear_blackboard-processes}
use arinc653emulator.ProcessServices.Table.{SameProcesses}
use arinc653emulator.HealthServices.{
  ErrorLayout, deadline_missed, Raised, raise_end, raise_error_of,
}
use arinc653emulator.Scheduling.Steps.{Reports}

-- The partition after a call whose code is not used
abbrev pub partition_of : Run (ReturnCode × Apex) → Run Partition
partition_of (done (code, some p)) = done p
partition_of (done (code, none)) = faults
partition_of aborts = aborts
partition_of faults = faults

abbrev pub returned : Outcome (Run (ReturnCode × Apex)) → Run Partition
returned (returns r) = partition_of r
returned blocks = aborts
returned terminates = aborts

-- HARD_DEADLINE_PROCESS_RESPONSE
abbrev pub hard_deadline_process_response : ProcessResponse
hard_deadline_process_response = record {
  success = false;
  responding_entity = partition_scheduler_entity;
  hm_message_length = 0;
}

abbrev SameRun : Partition → Run (ReturnCode × Apex) → Type 0
SameRun p r = Ends (λ x. SameProcesses p x.1) r

write_on_blackboard-processes :
    (id : ℕ) (message : List ℕ) (len : ℤ) (b : Blackboard) (p : Partition)
    → SameRun p (write_on_blackboard id message len b p)
unfolding write_on_blackboard set_event_service set_event on_event
write_on_blackboard-processes id message len b p = ground arith

same_trans :
    (p q : Partition) (r : Run (ReturnCode × Apex))
    → q.processes ≡ p.processes
    → SameRun q r
    → SameRun p r
same_trans p q (done (code, none)) e h = h
same_trans p q (done (code, some s)) e h = h ∙ e
same_trans p q aborts e h = h
same_trans p q faults e h = h

cleared-processes :
    (id : ℕ) (message : List ℕ) (len : ℤ) (p : Partition) (r : Run (ReturnCode × Apex))
    → SameRun p r
    → SameRun p (cleared id message len r)
cleared-processes id message len p (done (no_error, none)) h = h
cleared-processes id message len p (done (no_error, some q)) h =
    elim (Option-cases (get_elem? q.blackboards id)) [
      | inl o ↦ rw (cleared, o) record {}
      | inr b ↦
          rw (cleared, b.1)
            (same_trans p q (write_on_blackboard id message len b.0 q) h
              (write_on_blackboard-processes id message len b.0 q))
    ]
cleared-processes id message len p (done (no_action, a)) h = h
cleared-processes id message len p (done (not_available, a)) h = h
cleared-processes id message len p (done (invalid_param, a)) h = h
cleared-processes id message len p (done (invalid_config, a)) h = h
cleared-processes id message len p (done (invalid_mode, a)) h = h
cleared-processes id message len p (done (timed_out, a)) h = h
cleared-processes id message len p aborts h = h
cleared-processes id message len p faults h = h

display_blackboard-processes :
    (id : ℕ) (message : List ℕ) (len : ℤ) (p : Partition)
    → SameRun p (display_blackboard id message len (some p))
unfolding display_blackboard
display_blackboard-processes id message len p = elim (Option-cases (get_elem? p.blackboards id)) [
  | inl o ↦ rw (display_blackboard, o) refl
  | inr b ↦ elim (Bool-cases (ltb_ℤ b.0.max_message_size len)) [
    | inl t ↦ rw (display_blackboard, b.1, t) refl
    | inr f ↦
        rw (display_blackboard, b.1, f)
          (cleared-processes id message len p (clear_blackboard id (some p))
            (clear_blackboard-processes id p))
  ]
]

pub notify-SameRun :
    (layout : ResponseLayout) (id : ℕ) (response : ProcessResponse) (now : TimeSpec) (p : Partition)
    → SameRun p (notify_process_finished_status layout id response now (some p))
unfolding notify_process_finished_status
notify-SameRun layout id response now p = elim (Option-cases (get_elem? p.processes id)) [
  | inl o ↦ rw (notify_process_finished_status, o) refl
  | inr d ↦ elim (Option-cases d.0.response_board_id) [
    | inl o ↦ rw (notify_process_finished_status, d.1, o) record {}
    | inr b ↦
        rw (notify_process_finished_status, d.1, b.1)
          (display_blackboard-processes b.0 (layout.bytes now response) layout.size p)
  ]
]

abbrev SameSent : Partition → Outcome (Option (ReturnCode × Partition)) → Type 0
SameSent p (returns (some r)) = r.1.processes ≡ p.processes
SameSent p (returns none) = Unit
SameSent p blocks = Unit
SameSent p terminates = Unit

send_message-processes :
    (b : Buffer) (id : ℕ) (message : List ℕ) (len : ℤ) (now : TimeSpec) (p : Partition)
    → SameSent p (send_message (buffer_at b id) message len now infinite_time_value [] (λ q. q) p)
unfolding send_message wait wait_forever wait_loop
send_message-processes b id message len now p = ground arith

sent-SameRun :
    (p : Partition) (o : Outcome (Option (ReturnCode × Partition)))
    → SameSent p o
    → Ends (λ q. q.processes ≡ p.processes) (returned (raise_end (sent o)))
sent-SameRun p (returns (some r)) h = h
sent-SameRun p (returns none) h = record {}
sent-SameRun p blocks h = record {}
sent-SameRun p terminates h = record {}

send_buffer-processes :
    (id : ℕ) (message : List ℕ) (len : ℤ) (now : TimeSpec) (p : Partition)
    → Ends
        (λ q. q.processes ≡ p.processes)
        (returned
          (raise_end (send_buffer id message len now infinite_time_value [] (λ q. q) (some p))))
unfolding send_buffer
send_buffer-processes id message len now p = elim (Option-cases (get_elem? p.buffers id)) [
  | inl o ↦ rw (send_buffer, o) refl
  | inr b ↦
      rw (send_buffer, b.1)
        (sent-SameRun p
          (send_message (buffer_at b.0 id) message len now infinite_time_value [] (λ q. q) p)
          (send_message-processes b.0 id message len now p))
]

pub raise-processes :
    (layout : ErrorLayout) (id : ℕ) (e : Raised) (now : TimeSpec) (p : Partition)
    → Ends
        (λ q. q.processes ≡ p.processes)
        (returned (raise_error_of layout id e now [] (λ q. q) (some p)))
unfolding raise_error_of
raise-processes layout id e now p = elim (Option-cases (get_elem? p.processes id)) [
  | inl o ↦ rw (raise_error_of, o) record {}
  | inr d ↦ elim (Option-cases d.0.hm_descriptor_id) [
    | inl o ↦ rw (raise_error_of, d.1, o) refl
    | inr h ↦ elim (Option-cases (memcpy e.stack e.text e.text_length)) [
      | inl o ↦ rw (raise_error_of, d.1, h.1, o) record {}
      | inr m ↦ elim (Option-cases (get_elem? p.hm_vector h.0)) [
        | inl o ↦ rw (raise_error_of, d.1, h.1, m.1, o) record {}
        | inr x ↦
            rw (raise_error_of, d.1, h.1, m.1, x.1)
              (send_buffer-processes x.0.hm_buffer_id _ layout.size now p)
      ]
    ]
  ]
]

pub same_of_run :
    (p : Partition) (r : Run (ReturnCode × Apex))
    → SameRun p r
    → Ends (λ q. q.processes ≡ p.processes) (partition_of r)
same_of_run p (done (code, none)) h = record {}
same_of_run p (done (code, some q)) h = h
same_of_run p aborts h = h
same_of_run p faults h = h

-- The error of a missed deadline: it has no message.
abbrev pub deadline_error : List ℕ → Raised
deadline_error stack = record {
  code = deadline_missed;
  stack = stack;
  text = [];
  text_length = pos 0;
}

-- The services as the scheduler calls them, at the time `now`, where no other thread acts during a call:
-- a health manager whose buffer is full stops the scheduler for good, which is `aborts`.
abbrev pub services : ResponseLayout → ErrorLayout → List ℕ → TimeSpec → Reports
services responses errors stack now = record {
  notify = λ id p.
      partition_of
        (notify_process_finished_status responses id hard_deadline_process_response now (some p));
  raise =
      λ id p. returned (raise_error_of errors id (deadline_error stack) now [] (λ q. q) (some p));
  notify-processes = λ id p.
      same_of_run p
        (notify_process_finished_status responses id hard_deadline_process_response now (some p))
        (notify-SameRun responses id hard_deadline_process_response now p);
  raise-processes = λ id p. raise-processes errors id (deadline_error stack) now p;
}
