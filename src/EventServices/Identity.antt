-- ===== src/EventServices/Identity.antt =====
-- The identifier of a new event.
use arinc653emulator.Prelude.{
  ℕ, String, ◌≡◌, refl, sym, ◌≢◌, inl, inr, arith, none, some, Option-cases, [], ◌∷◌, ◌++◌, length,
  get_elem?, Bool-cases, ◌⊎◌, true, false, ◌||◌,
}
use arinc653emulator.Types.{no_error, invalid_mode, invalid_param}
use arinc653emulator.Event.{Event, EventState, down, new_event}
use arinc653emulator.Partition.{Partition, Apex, is_idle, is_normal, find_index}
use arinc653emulator.Partition.Names.{
  find_index-append_new, find_index-append_other, get_elem?-append_last, get_elem?-append_left,
}
use arinc653emulator.EventServices.{
  obtain, event_name, create_event, get_event_id, get_event_status,
}

status_kept :
    (p : Partition) (e : Event) (k : ℕ) (r : EventState × ℕ)
    → get_event_status k (some p) ≡ (no_error, some r)
    → get_event_status k (some (record p { events = p.events ++ (e ∷ []) })) ≡ (no_error, some r)
unfolding get_event_status
status_kept p e k r h = elim (Option-cases (get_elem? p.events k)) [
  | inl n ↦ absurd (ground (arith, n, h))
  | inr s ↦
      rw (get_event_status, get_elem?-append_left p.events (e ∷ []) s.0 k s.1)
        (ground (arith, s.1, h))
]

-- A name that no event has
pub get_event_id-absent :
    (name : String) (p : Partition)
    → find_index event_name name p.events ≡ none
    → (i : ℕ) → get_event_id name (some p) ≢ (no_error, some i)
unfolding get_event_id
get_event_id-absent name p n i e = ground (arith, n, e)

-- What CREATE_EVENT does, by case
abbrev pub CreatedOrRefused : String → Apex → Type 0
CreatedOrRefused name a =
    (((is_idle (obtain a).mode || is_normal (obtain a).mode) ≡ true)
      × (create_event name a ≡ (invalid_mode, none, some (obtain a))))
    ⊎ (((is_idle (obtain a).mode || is_normal (obtain a).mode) ≡ false)
        × ((((i : ℕ) × (get_event_id name (some (obtain a)) ≡ (no_error, some i)))
              × (create_event name a ≡ (invalid_param, none, some (obtain a))))
            ⊎ (((i : ℕ) → get_event_id name (some (obtain a)) ≢ (no_error, some i))
                × (id : ℕ) × (b : Apex) × (create_event name a ≡ (no_error, some id, b))
                × (get_event_id name b ≡ (no_error, some id))
                × (get_event_status id b ≡ (no_error, some (down, 0)))
                × ((other : String)
                    → other ≢ name
                    → get_event_id other b ≡ get_event_id other (some (obtain a)))
                × ((k : ℕ) (r : EventState × ℕ)
                    → get_event_status k (some (obtain a)) ≡ (no_error, some r)
                    → get_event_status k b ≡ (no_error, some r)))))

-- CREATE_EVENT either refuses and leaves the partition (a new one, if there was none) as it was: with
-- INVALID_MODE in the modes IDLE and NORMAL, or, in the other modes, with INVALID_PARAM if an event has
-- the name. Or the mode is another and no event has the name, and it returns NO_ERROR and an identifier by which GET_EVENT_STATUS finds the event, down and with no
-- process waiting, and which GET_EVENT_ID gives for the name; the other names keep their identifiers,
-- and the other identifiers their events.
pub create_event-get_event_id : (name : String) (a : Apex) → CreatedOrRefused name a
unfolding create_event get_event_id get_event_status new_event
create_event-get_event_id name a =
    let p = obtain a in
    elim (Bool-cases (is_idle p.mode || is_normal p.mode)) [
      | inl t ↦ inl (t, rw (create_event, t) refl)
      | inr f ↦ elim (Option-cases (find_index event_name name p.events)) [
        | inr s ↦ inr (f, inl ((s.0, rw (get_event_id, s.1) refl), rw (create_event, f, s.1) refl))
        | inl n ↦ inr (
          f,
          inr (
            get_event_id-absent name p n,
            length p.events,
            some (record p { events = p.events ++ (new_event name ∷ []) }),
            rw (create_event, f, n) refl,
            rw (get_event_id, find_index-append_new event_name p.events (new_event name) n) refl,
            rw (get_event_status, get_elem?-append_last p.events (new_event name)) refl,
            λ other d.
                rw
                  (
                    get_event_id,
                    find_index-append_other event_name other p.events (new_event name)
                        (λ e. d (sym e)),
                  )
                  refl,
            λ k r e. status_kept p (new_event name) k r e,
          ),
        )
      ]
    ]
