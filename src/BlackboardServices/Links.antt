-- ===== src/BlackboardServices/Links.antt =====
-- Events and blackboards that agree with each other, and the writes that keep it so.
use arinc653emulator.Prelude.{
  ℕ, ◌≤◌, ℤ, pos, negsuc, String, ◌≡◌, refl, sym, ap, ◌∙◌, inl, inr, arith, none, some, List, [],
  ◌∷◌, ◌++◌, length, take, drop, replicate, length-append, length-take, length-drop,
  length-replicate, get_elem?, set,
}
use mathlib.Core.Path.{subst}
use arinc653emulator.Buffer.{memset, memcpy}
use arinc653emulator.Buffer.Ring.{memcpy-bounds}
use arinc653emulator.Event.{Event, new_event}
use arinc653emulator.Partition.{Blackboard, Partition, Apex, find_index}
use arinc653emulator.Partition.Names.{
  Distinct, Distinct-snoc, Distinct-set, get_elem?-snoc, get_elem?-append_left, get_elem?-set,
  set-kept_name,
}
use arinc653emulator.EventServices.{obtain, new_partition, event_name}
use arinc653emulator.BlackboardServices.{board_name_of}

-- A blackboard among the events: its event exists and bears its name; its block has the maximum
-- message size, and the message in it fits.
pub record Linked (events : List Event) (b : Blackboard) : Type 0 where
  pub event : Event
  pub there : get_elem? events b.event_id ≡ some event
  pub named : event.name ≡ b.board_name
  pub size : b.max_message_size ≡ pos (length b.payload)
  pub current : ℕ
  pub message : b.current_message_size ≡ pos current
  pub fits : current ≤ length b.payload

pub record WellFormed (p : Partition) : Type 0 where
  pub event_names : Distinct event_name p.events
  pub board_names : Distinct board_name_of p.blackboards
  pub linked : (i : ℕ) (b : Blackboard) → get_elem? p.blackboards i ≡ some b → Linked p.events b

abbrev pub WellFormedApex : Apex → Type 0
WellFormedApex none = Unit
WellFormedApex (some p) = WellFormed p

pub obtain-WellFormed : (a : Apex) → WellFormedApex a → WellFormed (obtain a)
unfolding obtain new_partition
obtain-WellFormed none w = record {
  event_names = λ i j x y a b e. ground arith;
  board_names = λ i j x y a b e. ground arith;
  linked = λ i b e. absurd (ground arith);
}
obtain-WellFormed (some p) w = w

-- The blackboard's event may move to another vector and change, but for its name.
pub Linked-moved :
    {events later : List Event} {b : Blackboard} (l : Linked events b) (e : Event)
    → get_elem? later b.event_id ≡ some e
    → e.name ≡ l.event.name
    → Linked later b
Linked-moved l e g n = record {
  event = e;
  there = g;
  named = n ∙ l.named;
  size = l.size;
  current = l.current;
  message = l.message;
  fits = l.fits;
}

-- A new event leaves everything consistent.
pub events-WellFormed :
    (p : Partition) (name : String)
    → find_index event_name name p.events ≡ none
    → WellFormed p
    → WellFormed (record p { events = p.events ++ (new_event name ∷ []) })
unfolding new_event
events-WellFormed p name n w = record {
  event_names = Distinct-snoc event_name p.events (new_event name) n w.event_names;
  board_names = w.board_names;
  linked = λ i b e.
      let l = w.linked i b e in
      Linked-moved l l.event
        (get_elem?-append_left p.events (new_event name ∷ []) l.event b.event_id l.there) refl;
}

-- An event that is overwritten by one of the same name.
pub set_event-WellFormed :
    (p : Partition) (id : ℕ) (old new : Event)
    → get_elem? p.events id ≡ some old
    → new.name ≡ old.name
    → WellFormed p
    → WellFormed (record p { events = set p.events id new })
set_event-WellFormed p id old new g n w = record {
  event_names = Distinct-set event_name p.events id new old g n w.event_names;
  board_names = w.board_names;
  linked = λ i b e.
      let l = w.linked i b e in
      let k = set-kept_name event_name p.events id new old l.event b.event_id g n l.there in
      Linked-moved l k.0 k.1 k.2;
}

pub memset-length : (dst r : List ℕ) (n : ℤ) → memset dst n ≡ some r → length r ≡ length dst
unfolding memset
memset-length dst r (pos n) e =
    let fill : List ℕ = replicate n 48 in
    ground
      (arith, length-append fill (drop n dst), length-replicate {A = ℕ} n 48, length-drop n dst)
memset-length dst r (negsuc n) e = ground arith

pub memcpy-length : (dst src r : List ℕ) (n : ℤ) → memcpy dst src n ≡ some r → length r ≡ length dst
memcpy-length dst src r n e =
    let b = memcpy-bounds dst src n e in
    omega (
      arith,
      ap length b.4,
      b.2,
      b.3,
      length-append (take b.0 src) (drop b.0 dst),
      length-take b.0 src,
      length-drop b.0 dst,
    )

pub new_board-WellFormed :
    (p : Partition) (b : Blackboard)
    → find_index board_name_of b.board_name p.blackboards ≡ none
    → Linked p.events b
    → WellFormed p
    → WellFormed (record p { blackboards = p.blackboards ++ (b ∷ []) })
new_board-WellFormed p b n l w = record {
  event_names = w.event_names;
  board_names = Distinct-snoc board_name_of p.blackboards b n w.board_names;
  linked = λ i c e. elim (get_elem?-snoc p.blackboards b c i e) [
    | inl h ↦ w.linked i c h
    | inr h ↦ subst (Linked p.events) h.1 l
  ];
}

-- A blackboard that is overwritten by one of its name, event and size.
pub set_board-WellFormed :
    (p : Partition) (id : ℕ) (old new : Blackboard)
    → get_elem? p.blackboards id ≡ some old
    → new.board_name ≡ old.board_name
    → (Linked p.events old → Linked p.events new)
    → WellFormed p
    → WellFormed (record p { blackboards = set p.blackboards id new })
set_board-WellFormed p id old new g n k w = record {
  event_names = w.event_names;
  board_names = Distinct-set board_name_of p.blackboards id new old g n w.board_names;
  linked = λ i b e. elim (get_elem?-set p.blackboards id new b i e) [
    | inl h ↦ subst (Linked p.events) h.1 (k (w.linked id old g))
    | inr h ↦ w.linked i b h
  ];
}

pub Linked-emptied :
    {events : List Event} {b : Blackboard} (bytes : List ℕ)
    → length bytes ≡ length b.payload
    → Linked events b
    → Linked events (record b { payload = bytes; current_message_size = pos 0 })
Linked-emptied bytes e l = record {
  event = l.event;
  there = l.there;
  named = l.named;
  size = l.size ∙ ap pos (sym e);
  current = 0;
  message = refl;
  fits = omega arith;
}

pub Linked-written :
    {events : List Event} {b : Blackboard} (message bytes : List ℕ) (len : ℤ)
    → memcpy b.payload message len ≡ some bytes
    → Linked events b
    → Linked events (record b { payload = bytes; current_message_size = len })
Linked-written {b = b} message bytes len e l =
    let same = memcpy-length b.payload message bytes len e in
    let k = memcpy-bounds b.payload message len e in
    record {
      event = l.event;
      there = l.there;
      named = l.named;
      size = l.size ∙ ap pos (sym same);
      current = k.0;
      message = k.1;
      fits = omega (arith, same, k.2);
    }
