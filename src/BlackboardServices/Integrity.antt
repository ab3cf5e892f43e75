-- ===== src/BlackboardServices/Integrity.antt =====
-- Every service on events and blackboards keeps the two vectors consistent.
use arinc653emulator.Prelude.{
  ℕ, ℤ, pos, leb_ℤ, ltb_ℤ, String, ◌≡◌, refl, inl, inr, arith, none, some, Option-cases, List, [],
  ◌∷◌, ◌++◌, length, get_elem?, set, Bool-cases, ◌||◌,
}
use arinc653emulator.Buffer.{memset, memcpy}
use arinc653emulator.Types.{ReturnCode, no_error}
use arinc653emulator.Event.{Event, set_event, reset_event, new_event}
use arinc653emulator.Partition.{Blackboard, Partition, Apex, is_idle, is_normal, find_index}
use arinc653emulator.Partition.Names.{get_elem?-append_last}
use arinc653emulator.EventServices.{
  obtain, event_name, create_event, on_event, set_event_service, reset_event_service,
}
use arinc653emulator.BlackboardServices.{
  Run, created, set_board, cleared, done, aborts, faults, board_name_of, create_blackboard,
  erase_blackboard, clear_blackboard, write_on_blackboard, display_blackboard,
}
use arinc653emulator.BlackboardServices.Links.{
  WellFormed, WellFormedApex, obtain-WellFormed, events-WellFormed, set_event-WellFormed,
  memset-length, new_board-WellFormed, set_board-WellFormed, Linked-emptied, Linked-written,
}

pub create_event-WellFormed :
    (name : String) (a : Apex) → WellFormedApex a → WellFormedApex (create_event name a).2
unfolding create_event
create_event-WellFormed name a w =
    elim (Bool-cases (is_idle (obtain a).mode || is_normal (obtain a).mode)) [
      | inl t ↦ rw (t, WellFormedApex) (obtain-WellFormed a w)
      | inr f ↦ elim (Option-cases (find_index event_name name (obtain a).events)) [
        | inl n ↦
            rw (f, n, WellFormedApex) (events-WellFormed (obtain a) name n (obtain-WellFormed a w))
        | inr s ↦ rw (f, s.1, WellFormedApex) (obtain-WellFormed a w)
      ]
    ]

pub on_event-WellFormed :
    (f : Event → ReturnCode × Event) (id : ℕ) (a : Apex)
    → ((e : Event) → (f e).1.name ≡ e.name)
    → WellFormedApex a
    → WellFormedApex (on_event f id a).1
unfolding on_event
on_event-WellFormed f id none h w = w
on_event-WellFormed f id (some p) h w = elim (Option-cases (get_elem? p.events id)) [
  | inl n ↦ rw (n, WellFormedApex) w
  | inr s ↦ rw (s.1, WellFormedApex) (set_event-WellFormed p id s.0 (f s.0).1 s.1 (h s.0) w)
]

-- What holds of the result of a call that neither aborts nor faults.
abbrev pub Ends : {A : Type 0} → (A → Type 0) → Run A → Type 0
Ends P (done a) = P a
Ends P aborts = Unit
Ends P faults = Unit

created-WellFormed :
    (fresh : List ℕ) (name : String) (size : ℤ) (p : Partition)
    → size ≡ pos (length fresh)
    → find_index board_name_of name p.blackboards ≡ none
    → WellFormed p
    → Ends (λ r. WellFormedApex r.2) (created name size fresh (create_event name (some p)))
unfolding create_event new_event obtain
created-WellFormed fresh name size p s n w =
    elim (Bool-cases (is_idle p.mode || is_normal p.mode)) [
      | inl t ↦ rw (t, created, Ends) record {}
      | inr f ↦ elim (Option-cases (find_index event_name name p.events)) [
        | inr x ↦ rw (f, x.1, created, Ends) record {}
        | inl m ↦
            rw (f, m, created, Ends)
              (new_board-WellFormed (record p { events = p.events ++ (new_event name ∷ []) })
                (record {
                  event_id = length p.events;
                  board_name = name;
                  max_message_size = size;
                  current_message_size = pos 0;
                  payload = fresh;
                })
                n
                (record {
                  event = new_event name;
                  there = get_elem?-append_last p.events (new_event name);
                  named = refl;
                  size = s;
                  current = 0;
                  message = refl;
                  fits = omega arith;
                })
                (events-WellFormed p name m w))
      ]
    ]

pub create_blackboard-WellFormed :
    (fresh : List ℕ) (name : String) (size : ℤ) (a : Apex)
    → size ≡ pos (length fresh)
    → WellFormedApex a
    → Ends (λ r. WellFormedApex r.2) (create_blackboard fresh name size a)
unfolding create_blackboard
create_blackboard-WellFormed fresh name size a s w =
    let p = obtain a in
    let ok = obtain-WellFormed a w in
    elim (Bool-cases (is_normal p.mode)) [
      | inl t ↦ rw (t, Ends) ok
      | inr f ↦ elim (Bool-cases (leb_ℤ size (pos 0))) [
        | inl t ↦ rw (f, t, Ends) ok
        | inr g ↦ elim (Option-cases (find_index board_name_of name p.blackboards)) [
          | inr x ↦ rw (f, g, x.1, Ends) ok
          | inl n ↦ rw (f, g, n) (created-WellFormed fresh name size p s n ok)
        ]
      ]
    ]

-- The order of the writes to the two vectors does not matter.
set_board-on_event :
    (f : Event → ReturnCode × Event) (event id : ℕ) (b : Blackboard) (p : Partition)
    → set_board id b (on_event f event (some p))
      ≡ on_event f event (some (record p { blackboards = set p.blackboards id b }))
unfolding on_event
set_board-on_event f event id b p = ground arith

erase_blackboard-WellFormed :
    (id : ℕ) (b : Blackboard) (p : Partition)
    → get_elem? p.blackboards id ≡ some b
    → WellFormed p
    → Ends (λ r. WellFormedApex r.1) (erase_blackboard id b p)
unfolding erase_blackboard reset_event_service reset_event
erase_blackboard-WellFormed id b p g w = elim (Option-cases (memset b.payload b.max_message_size)) [
  | inl n ↦ rw (n, Ends) record {}
  | inr s ↦
      let same = memset-length b.payload s.0 b.max_message_size s.1 in
      let c : Blackboard = record b { payload = s.0; current_message_size = pos 0 } in
      rw (s.1, Ends, set_board-on_event reset_event b.event_id id c p)
        (on_event-WellFormed reset_event b.event_id
          (some (record p { blackboards = set p.blackboards id c })) (λ e. refl)
          (set_board-WellFormed p id b c g refl (Linked-emptied s.0 same) w))
]

write_on_blackboard-WellFormed :
    (id : ℕ) (message : List ℕ) (len : ℤ) (b : Blackboard) (p : Partition)
    → get_elem? p.blackboards id ≡ some b
    → WellFormed p
    → Ends (λ r. WellFormedApex r.1) (write_on_blackboard id message len b p)
unfolding write_on_blackboard set_event_service set_event
write_on_blackboard-WellFormed id message len b p g w =
    elim (Bool-cases (leb_ℤ len b.max_message_size)) [
      | inr f ↦ rw (f, Ends) record {}
      | inl t ↦ elim (Option-cases (memcpy b.payload message len)) [
        | inl n ↦ rw (t, n, Ends) record {}
        | inr s ↦
            let c : Blackboard = record b { payload = s.0; current_message_size = len } in
            rw (t, s.1, Ends, set_board-on_event set_event b.event_id id c p)
              (on_event-WellFormed set_event b.event_id
                (some (record p { blackboards = set p.blackboards id c })) (λ e. ground arith)
                (set_board-WellFormed p id b c g refl (Linked-written message s.0 len s.1) w))
      ]
    ]

pub clear_blackboard-WellFormed :
    (id : ℕ) (a : Apex) → WellFormedApex a → Ends (λ r. WellFormedApex r.1) (clear_blackboard id a)
unfolding clear_blackboard
clear_blackboard-WellFormed id none w = w
clear_blackboard-WellFormed id (some p) w = elim (Option-cases (get_elem? p.blackboards id)) [
  | inl n ↦ rw (n, Ends) w
  | inr s ↦ rw (s.1, Ends) (erase_blackboard-WellFormed id s.0 p s.1 w)
]

-- What follows CLEAR_BLACKBOARD in DISPLAY_BLACKBOARD, when it found the partition.
cleared-WellFormed :
    (id : ℕ) (message : List ℕ) (len : ℤ) (p : Partition)
    → WellFormed p
    → Ends (λ r. WellFormedApex r.1) (cleared id message len (done (no_error, some p)))
cleared-WellFormed id message len p w = elim (Option-cases (get_elem? p.blackboards id)) [
  | inl n ↦ rw (n, Ends) record {}
  | inr s ↦ rw (s.1, Ends) (write_on_blackboard-WellFormed id message len s.0 p s.1 w)
]

cleared-Ends :
    (id : ℕ) (message : List ℕ) (len : ℤ) (r : Run (ReturnCode × Apex))
    → Ends (λ r. WellFormedApex r.1) r
    → Ends (λ r. WellFormedApex r.1) (cleared id message len r)
cleared-Ends id message len aborts w = w
cleared-Ends id message len faults w = w
cleared-Ends id message len (done (no_error, none)) w = w
cleared-Ends id message len (done (no_error, some p)) w = cleared-WellFormed id message len p w
cleared-Ends id message len (done (c, a)) w = w

pub display_blackboard-WellFormed :
    (id : ℕ) (message : List ℕ) (len : ℤ) (a : Apex)
    → WellFormedApex a
    → Ends (λ r. WellFormedApex r.1) (display_blackboard id message len a)
unfolding display_blackboard
display_blackboard-WellFormed id message len none w = w
display_blackboard-WellFormed id message len (some p) w =
    elim (Option-cases (get_elem? p.blackboards id)) [
      | inl n ↦ rw (n, Ends) w
      | inr s ↦ elim (Bool-cases (ltb_ℤ s.0.max_message_size len)) [
        | inl t ↦ rw (s.1, t, Ends) w
        | inr f ↦
            rw (s.1, f, Ends)
              (cleared-Ends id message len (clear_blackboard id (some p))
                (clear_blackboard-WellFormed id (some p) w))
      ]
    ]
