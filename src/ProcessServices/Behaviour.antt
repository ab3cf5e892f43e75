-- ===== src/ProcessServices/Behaviour.antt =====
-- What CREATE_PROCESS and DELAYED_START do to one process.
use mathlib.Core.Path.{subst}
use arinc653emulator.Prelude.{
  ℕ, ◌<◌, leb, ℤ, pos, ◌≤ℤ◌, ◌<ℤ◌, ltb_ℤ, ◌≡◌, refl, ap, ◌∙◌, ◌⊎◌, inl, inr, arith, true, false,
  ◌||◌, Bool-cases, Option, none, some, Option-cases, [], ◌∷◌, ◌++◌, length, get_elem?,
  get_elem?-set_self, if◌then◌else◌,
}
use arinc653emulator.Types.{ReturnCode, no_error, no_action, invalid_param, max_number_of_processes}
use arinc653emulator.Time.{TimeSpec}
use arinc653emulator.Partition.{
  Attributes, Descriptor, ProcessState, ready, waiting_on_period, waiting_partition_not_normal,
  Partition, Apex, is_idle, is_normal, find_index,
}
use arinc653emulator.Partition.Names.{
  find_index-append_new, get_elem?-append_last, get_elem?-some_lt,
}
use arinc653emulator.EventServices.{obtain}
use arinc653emulator.BlackboardServices.{Run, done, aborts, faults, create_blackboard}
use arinc653emulator.BlackboardServices.Integrity.{Ends}
use arinc653emulator.ProcessServices.{
  refuses, process_name_of, new_descriptor, admitted, Platform, create_process, get_process_id,
  get_process_status, dormant_status, status_state, is_dormant, is_periodic,
}
use arinc653emulator.ProcessServices.Start.{
  at_base, released, schedule, clear_response, after_clear, delayed_start,
}
use arinc653emulator.ProcessServices.Table.{SameProcesses}
use arinc653emulator.ProcessServices.Creation.{create_blackboard-processes}
use arinc653emulator.ProcessServices.Starting.{clear_response-processes}

-- CREATE_PROCESS with attributes that pass its tests, in a start mode, below the limit and with a new
-- name: once CREATE_BLACKBOARD returns, whatever its code, the process is in the table, and dormant,
-- under the identifier that CREATE_PROCESS gives and that GET_PROCESS_ID gives for the name; the code
-- of CREATE_PROCESS is that of CREATE_BLACKBOARD.
pub create_process-get_process_id :
    (platform : Platform) (a : Attributes) (apex : Apex) (code : ReturnCode) (board : Option ℕ)
    (q : Partition)
    → (is_idle (obtain apex).mode || is_normal (obtain apex).mode) ≡ false
    → length (obtain apex).processes < max_number_of_processes
    → refuses a ≡ false
    → find_index process_name_of a.process_name (obtain apex).processes ≡ none
    → platform.thread_created ≡ true
    → create_blackboard platform.fresh
        (platform.response_name (length (obtain apex).processes))
        platform.response_size
        (some (obtain apex))
      ≡ done (code, board, some q)
    → (id : ℕ) × (b : Apex) × (create_process platform a apex ≡ done (code, some id, b))
      × (get_process_id a.process_name b ≡ (no_error, some id))
      × (get_process_status id b ≡ (no_error, some (dormant_status, platform.blank.priority, a)))
unfolding create_process get_process_id get_process_status new_descriptor status_state
create_process-get_process_id platform a apex code board q f l v n c e =
    let same = subst (Ends (λ r. SameProcesses (obtain apex) r.2)) e (
      create_blackboard-processes platform.fresh
        (platform.response_name (length (obtain apex).processes)) platform.response_size
        (obtain apex)) in
    let d = new_descriptor platform.blank a board in
    let room : leb max_number_of_processes (length (obtain apex).processes) ≡ false =
      ground arith in
    let new : find_index process_name_of (process_name_of d) q.processes ≡ none = rw same n in
    (
      length q.processes,
      some (record q {
        processes = q.processes ++ (d ∷ []);
        sorted = q.sorted ++ (length q.processes ∷ []);
      }),
      rw (create_process, f, room, v, n, c) (ap (admitted platform.blank a) e),
      rw (get_process_id, find_index-append_new process_name_of q.processes d new) refl,
      rw (get_process_status, get_elem?-append_last q.processes d) refl,
    )

-- The state of a process that DELAYED_START starts.
abbrev pub started_state : Partition → Descriptor → ProcessState
started_state p d =
    if is_normal p.mode
    then if is_periodic d then waiting_on_period else ready
    else waiting_partition_not_normal

-- DELAYED_START left the code and the partition: it started the process `d`, or did nothing.
abbrev pub StartedOrRefused : Partition → ℕ → ℤ → Descriptor → ReturnCode × Apex → Type 0
StartedOrRefused p id delay d (code, none) = ⊥
StartedOrRefused p id delay d (code, some q) =
    ((code ≡ no_error)
      × (is_dormant d.process_state ≡ true)
      × (pos 0 ≤ℤ delay)
      × ((e : Descriptor) × (get_elem? q.processes id ≡ some e)
          × (e.attributes ≡ d.attributes)
          × (e.process_state ≡ started_state p d)
          × (e.priority ≡ d.attributes.base_priority)
          × (e.current_priority ≡ d.attributes.base_priority)))
    ⊎ ((((code ≡ invalid_param) × (delay <ℤ pos 0))
          ⊎ ((code ≡ no_action) × (is_dormant d.process_state ≡ false)))
        × (q ≡ p))

released-same :
    (now : TimeSpec) (delay : ℤ) (d e : Descriptor)
    → released now delay d ≡ some e
    → (e.attributes ≡ d.attributes)
      × (e.process_state ≡ d.process_state)
      × (e.priority ≡ d.priority)
      × (e.current_priority ≡ d.current_priority)
unfolding released
released-same now delay d e h = ground arith

schedule-starts :
    (now : TimeSpec) (delay : ℤ) (id : ℕ) (d e : Descriptor) (p q : Partition)
    → is_dormant d.process_state ≡ true
    → pos 0 ≤ℤ delay
    → id < length q.processes
    → e.attributes ≡ d.attributes
    → e.process_state ≡ started_state p d
    → e.priority ≡ d.attributes.base_priority
    → e.current_priority ≡ d.attributes.base_priority
    → Ends (StartedOrRefused p id delay d) (schedule now delay id e (some q))
unfolding schedule
schedule-starts now delay id d e p q dormant late lt a s k c =
    elim (Option-cases (released now delay e)) [
      | inl x ↦ rw (schedule, x) record {}
      | inr x ↦
          let r = released-same now delay e x.0 x.1 in
          rw (schedule, x.1)
            (inl (
              refl,
              dormant,
              late,
              (x.0, get_elem?-set_self q.processes id x.0 lt, r.0 ∙ a, r.1 ∙ s, r.2 ∙ k, r.3 ∙ c),
            ))
    ]

after_clear-starts :
    (now : TimeSpec) (delay : ℤ) (id : ℕ) (d : Descriptor) (p : Partition)
    (r : Run (ReturnCode × Apex))
    → is_dormant d.process_state ≡ true
    → pos 0 ≤ℤ delay
    → id < length p.processes
    → ready ≡ started_state p d
    → Ends (λ r. SameProcesses p r.1) r
    → Ends (StartedOrRefused p id delay d) (after_clear now delay id (at_base d) r)
unfolding schedule
after_clear-starts now delay id d p (done (code, none)) dormant late lt s e = record {}
after_clear-starts now delay id d p (done (code, some q)) dormant late lt s e =
    schedule-starts now delay id d (record (at_base d) { process_state = ready }) p q dormant late
      (rw e lt) refl s refl refl
after_clear-starts now delay id d p aborts dormant late lt s e = record {}
after_clear-starts now delay id d p faults dormant late lt s e = record {}

delayed_start-Ends :
    (now : TimeSpec) (id : ℕ) (delay : ℤ) (p : Partition) (d : Descriptor)
    → get_elem? p.processes id ≡ some d
    → Ends (StartedOrRefused p id delay d) (delayed_start now id delay (some p))
unfolding delayed_start
delayed_start-Ends now id delay p d g = elim (Bool-cases (ltb_ℤ delay (pos 0))) [
  | inl o ↦ rw (delayed_start, o) (inr (inl (refl, ground arith), refl))
  | inr f ↦ elim (Bool-cases (is_dormant d.process_state)) [
    | inr o ↦ rw (delayed_start, f, g, o) (inr (inr (refl, o), refl))
    | inl o ↦
        let late : pos 0 ≤ℤ delay = ground arith in
        let lt = get_elem?-some_lt p.processes d id g in
        elim (Bool-cases (is_normal p.mode)) [
          | inr m ↦
              let e = record (at_base d) {
                process_state = waiting_partition_not_normal;
                initial_delay_time = delay;
              } in
              rw (delayed_start, f, g, o, m)
                (inl (
                  refl,
                  o,
                  late,
                  (e, get_elem?-set_self p.processes id e lt, refl, rw m refl, refl, refl),
                ))
          | inl m ↦ elim (Bool-cases (is_periodic d)) [
            | inl t ↦
                rw (delayed_start, f, g, o, m, t)
                  (schedule-starts now delay id d
                    (record (at_base d) { process_state = waiting_on_period }) p p o late lt refl
                    (rw (m, t) refl) refl refl)
            | inr t ↦
                rw (delayed_start, f, g, o, m, t)
                  (after_clear-starts now delay id d p (clear_response d.response_board_id p) o late
                    lt (rw (m, t) refl) (clear_response-processes d.response_board_id p))
          ]
        ]
  ]
]

-- DELAYED_START on a process that exists, when it runs to its end: either it returns NO_ERROR, the
-- process was dormant and the delay not negative, and the process now has its base priority and is
-- waiting on its period (periodic, in the mode NORMAL), ready (aperiodic, in the mode NORMAL) or
-- waiting for that mode (in another mode); or it changes nothing and returns INVALID_PARAM, the delay
-- being negative, or NO_ACTION, the process not being dormant. The period is not looked at.
pub delayed_start_lem :
    (now : TimeSpec) (id : ℕ) (delay : ℤ) (p : Partition) (d : Descriptor) (r : ReturnCode × Apex)
    → get_elem? p.processes id ≡ some d
    → delayed_start now id delay (some p) ≡ done r
    → StartedOrRefused p id delay d r
delayed_start_lem now id delay p d r g e =
    subst (Ends (StartedOrRefused p id delay d)) e (delayed_start-Ends now id delay p d g)
