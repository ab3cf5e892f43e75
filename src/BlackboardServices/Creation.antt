-- ===== src/BlackboardServices/Creation.antt =====
-- When CREATE_BLACKBOARD ends the program, and what it gives otherwise.
use arinc653emulator.Prelude.{
  ℕ, suc, pos, leb_ℤ, String, ◌≡◌, ◌≢◌, ◌∙◌, refl, ◌⊎◌, inl, inr, arith, true, false, Bool-cases,
  none, some, Option-cases, List, [], ◌∷◌, ◌++◌, length,
}
use arinc653emulator.Types.{no_error}
use arinc653emulator.Event.{new_event}
use arinc653emulator.Partition.{Blackboard, Apex, is_idle, is_normal, find_index}
use arinc653emulator.Partition.Names.{find_index-append_new}
use arinc653emulator.EventServices.{obtain, event_name, create_event, get_event_id}
use arinc653emulator.EventServices.Identity.{get_event_id-absent}
use arinc653emulator.BlackboardServices.{
  done, aborts, created, board_name_of, create_blackboard, get_blackboard_id,
}

past_tests :
    (fresh : List ℕ) (name : String) (n : ℕ) (a : Apex)
    → is_normal (obtain a).mode ≡ false
    → find_index board_name_of name (obtain a).blackboards ≡ none
    → create_blackboard fresh name (pos (suc n)) a
      ≡ created name (pos (suc n)) fresh (create_event name (some (obtain a)))
unfolding create_blackboard
past_tests fresh name n a f g =
    let positive : leb_ℤ (pos (suc n)) (pos 0) ≡ false = ground arith in
    rw (create_blackboard, f, positive, g) refl

-- What CREATE_BLACKBOARD does past its tests, by case
abbrev pub CreatedOrAborts : List ℕ → String → ℕ → Apex → Type 0
CreatedOrAborts fresh name n a =
    (((is_idle (obtain a).mode ≡ true)
        ⊎ ((i : ℕ) × (get_event_id name (some (obtain a)) ≡ (no_error, some i))))
      × (create_blackboard fresh name (pos (suc n)) a ≡ aborts))
    ⊎ ((is_idle (obtain a).mode ≡ false)
        × ((i : ℕ) → get_event_id name (some (obtain a)) ≢ (no_error, some i))
        × (id event : ℕ) × (b : Apex) × (create_blackboard fresh name (pos (suc n)) a
            ≡ done (no_error, some id, b))
        × (get_blackboard_id name b ≡ (no_error, some id))
        × (get_event_id name b ≡ (no_error, some event)))

-- CREATE_BLACKBOARD with a positive size and a name that no blackboard has, in a mode other than
-- NORMAL: the assertion in the constructor ends the program where the mode is IDLE or an event has the
-- name. Where the mode is not IDLE and no event has the name, it returns NO_ERROR and the identifier that
-- GET_BLACKBOARD_ID then gives for the name, and GET_EVENT_ID finds the event of that name.
pub create_blackboard_lem :
    (fresh : List ℕ) (name : String) (n : ℕ) (a : Apex)
    → is_normal (obtain a).mode ≡ false
    → find_index board_name_of name (obtain a).blackboards ≡ none
    → CreatedOrAborts fresh name n a
unfolding create_event obtain get_blackboard_id get_event_id new_event
create_blackboard_lem fresh name n a f g =
    let p = obtain a in
    let past = past_tests fresh name n a f g in
    elim (Bool-cases (is_idle p.mode)) [
      | inl t ↦ inl (inl t, past ∙ rw (create_event, t) refl)
      | inr s ↦ elim (Option-cases (find_index event_name name p.events)) [
        | inr x ↦
            inl (inr (x.0, rw (get_event_id, x.1) refl), past ∙ rw (create_event, s, f, x.1) refl)
        | inl m ↦
            let b : Blackboard = record {
              event_id = length p.events;
              board_name = name;
              max_message_size = pos (suc n);
              current_message_size = pos 0;
              payload = fresh;
            } in
            inr (
              s,
              get_event_id-absent name p m,
              length p.blackboards,
              length p.events,
              some (record p {
                events = p.events ++ (new_event name ∷ []);
                blackboards = p.blackboards ++ (b ∷ []);
              }),
              past ∙ rw (create_event, s, f, m) refl,
              rw (get_blackboard_id, find_index-append_new board_name_of p.blackboards b g) refl,
              rw (get_event_id, find_index-append_new event_name p.events (new_event name) m) refl,
            )
      ]
    ]
