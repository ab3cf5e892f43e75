-- ===== src/BlackboardServices/Transfer.antt =====
-- What is displayed on a blackboard is what is read from it.

use arinc653emulator.Prelude.{
  ℕ, ◌≤◌, ◌<◌, ℤ, pos, leb_ℤ, ltb_ℤ, eqb_ℤ, ◌≤ℤ◌, ◌≡◌, refl, sym, ap, ◌∙◌, arith, false, true, none,
  some, List, ◌++◌, length, take, drop, replicate, get_elem?, get_elem?-set_self, length-append,
  length-drop, length-replicate, length-take, length-set, set,
}
use arinc653emulator.Types.{ReturnCode, no_error, not_available, max_time_out}
use arinc653emulator.Time.{TimeSpec}
use arinc653emulator.Blocking.{Wake, returns}
use arinc653emulator.Event.{Event, up, down, set_event, reset_event}
use arinc653emulator.Buffer.{memset, memcpy}
use arinc653emulator.Buffer.Ring.{memcpy_lem, take-append_exact}
use arinc653emulator.Partition.{Blackboard, Partition}
use arinc653emulator.Partition.Names.{get_elem?-some_lt}
use arinc653emulator.EventServices.{
  on_event, set_event_service, reset_event_service, get_event_status,
}
use arinc653emulator.BlackboardServices.{
  cleared, done, erase_blackboard, clear_blackboard, write_on_blackboard, display_blackboard,
  read_from_blackboard, read_blackboard,
}
use arinc653emulator.BlackboardServices.Links.{WellFormed, Linked}

-- The partition with the blackboard at `id` and its event overwritten.
abbrev pub updated : Partition → ℕ → Blackboard → Event → Partition
updated p id b e = record p {
  events = set p.events b.event_id e;
  blackboards = set p.blackboards id b;
}

memset_lem :
    (dst : List ℕ)
    → memset dst (pos (length dst)) ≡ some (replicate (length dst) 48 ++ drop (length dst) dst)
unfolding memset
memset_lem dst = ground arith

abbrev zeros : List ℕ → List ℕ
zeros l = replicate (length l) 48 ++ drop (length l) l

length-zeros : (l : List ℕ) → length (zeros l) ≡ length l
length-zeros l =
    let fill : List ℕ = replicate (length l) 48 in
    omega (
      arith,
      length-append fill (drop (length l) l),
      length-replicate {A = ℕ} (length l) 48,
      length-drop (length l) l,
    )

abbrev emptied : Blackboard → Blackboard
emptied b = record b { payload = zeros b.payload; current_message_size = pos 0 }

abbrev written : List ℕ → ℕ → Blackboard → Blackboard
written message n b = record b {
  payload = take n message ++ drop n b.payload;
  current_message_size = pos n;
}

on_event_lem :
    (f : Event → ReturnCode × Event) (id : ℕ) (p : Partition) (e : Event)
    → get_elem? p.events id ≡ some e
    → on_event f id (some p) ≡ ((f e).0, some (record p { events = set p.events id (f e).1 }))
unfolding on_event
on_event_lem f id p e g = rw (on_event, g) refl

set_event-down : (e : Event) → e.state ≡ down → set_event e ≡ (no_error, record e { state = up })
unfolding set_event
set_event-down e d = ground arith

erase_blackboard_lem :
    (id : ℕ) (b : Blackboard) (p : Partition) (l : Linked p.events b)
    → erase_blackboard id b p
      ≡ done (no_error, some (updated p id (emptied b) (record l.event { state = down })))
unfolding erase_blackboard reset_event_service reset_event
erase_blackboard_lem id b p l =
    let m : memset b.payload b.max_message_size ≡ some (zeros b.payload) =
      rw l.size (memset_lem b.payload) in
    let r = on_event_lem reset_event b.event_id p l.event l.there in
    rw (erase_blackboard, m, reset_event_service, r) refl

write_on_blackboard_lem :
    (id : ℕ) (message : List ℕ) (n : ℕ) (b : Blackboard) (p : Partition) (e : Event)
    → get_elem? p.events b.event_id ≡ some e
    → e.state ≡ down
    → b.max_message_size ≡ pos (length b.payload)
    → n ≤ length b.payload
    → n ≤ length message
    → write_on_blackboard id message (pos n) b p
      ≡ done (no_error, some (updated p id (written message n b) (record e { state = up })))
unfolding write_on_blackboard set_event_service
write_on_blackboard_lem id message n b p e g d z a k =
    let c : leb_ℤ (pos n) b.max_message_size ≡ true = ground (arith, z) in
    let m = memcpy_lem b.payload message n a k in
    let r = on_event_lem set_event b.event_id p e g in
    let u = set_event-down e d in rw (write_on_blackboard, c, m, set_event_service, r, u) refl

clear_blackboard_lem :
    (id : ℕ) (b : Blackboard) (p : Partition) (l : Linked p.events b)
    → get_elem? p.blackboards id ≡ some b
    → clear_blackboard id (some p)
      ≡ done (no_error, some (updated p id (emptied b) (record l.event { state = down })))
unfolding clear_blackboard
clear_blackboard_lem id b p l g = rw (clear_blackboard, g) (erase_blackboard_lem id b p l)

-- CLEAR_BLACKBOARD leaves the blackboard empty and its event down: until something is displayed,
-- READ_BLACKBOARD with a time-out of 0 returns NOT_AVAILABLE.
pub clear-read :
    (p : Partition) (id : ℕ) (b : Blackboard) (out : List ℕ) (now : TimeSpec)
    (ws : List (Wake Partition))
    → WellFormed p
    → get_elem? p.blackboards id ≡ some b
    → (q : Partition) × (clear_blackboard id (some p) ≡ done (no_error, some q))
      × (read_blackboard out id now (pos 0) ws (some q)
          ≡ returns (done (not_available, none, some q)))
      × ((n : ℕ) × (get_event_status b.event_id (some q) ≡ (no_error, some (down, n))))
unfolding read_blackboard get_event_status
clear-read p id b out now ws w g =
    let l = w.linked id b g in
    let e : Event = record l.event { state = down } in
    let here : get_elem? (set p.blackboards id (emptied b)) id ≡ some (emptied b) =
      get_elem?-set_self p.blackboards id (emptied b) (get_elem?-some_lt p.blackboards b id g) in
    let there : get_elem? (set p.events b.event_id e) b.event_id ≡ some e =
      get_elem?-set_self p.events b.event_id e
        (get_elem?-some_lt p.events l.event b.event_id l.there) in
    (
      updated p id (emptied b) e,
      clear_blackboard_lem id b p l g,
      rw (read_blackboard, here) refl,
      (e.count, rw (get_event_status, there) refl),
    )

read_from_blackboard_lem :
    (q : Partition) (id : ℕ) (c : Blackboard) (out : List ℕ) (n : ℕ)
    → get_elem? q.blackboards id ≡ some c
    → c.current_message_size ≡ pos n
    → n ≤ length c.payload
    → n ≤ length out
    → read_from_blackboard out id q
      ≡ done (no_error, some (pos n, take n c.payload ++ drop n out), some q)
unfolding read_from_blackboard
read_from_blackboard_lem q id c out n g z a o =
    let copied : memcpy out c.payload c.current_message_size
        ≡ some (take n c.payload ++ drop n out) =
      rw z (memcpy_lem out c.payload n o a) in
    rw (read_from_blackboard, g, copied)
      (ap (λ x. done (no_error, some (x, take n c.payload ++ drop n out), some q)) z)

pub read_blackboard_lem :
    (q : Partition) (id : ℕ) (c : Blackboard) (out : List ℕ) (n : ℕ) (now : TimeSpec) (timeout : ℤ)
    (ws : List (Wake Partition))
    → get_elem? q.blackboards id ≡ some c
    → c.current_message_size ≡ pos n
    → 0 < n
    → n ≤ length c.payload
    → n ≤ length out
    → timeout ≤ℤ pos max_time_out
    → read_blackboard out id now timeout ws (some q)
      ≡ returns (done (no_error, some (pos n, take n c.payload ++ drop n out), some q))
unfolding read_blackboard
read_blackboard_lem q id c out n now timeout ws g z s a o t =
    let some_left : eqb_ℤ c.current_message_size (pos 0) ≡ false = rw z (ground arith) in
    let in_time : ltb_ℤ (pos max_time_out) timeout ≡ false = ground arith in
    rw (read_blackboard, g, in_time, some_left)
      (ap returns (read_from_blackboard_lem q id c out n g z a o))

-- The two steps of DISPLAY_BLACKBOARD leave one blackboard and one event changed.
display_blackboard_lem :
    (p : Partition) (id : ℕ) (b : Blackboard) (message : List ℕ) (n : ℕ)
    → WellFormed p
    → get_elem? p.blackboards id ≡ some b
    → n ≤ length b.payload
    → n ≤ length message
    → (q : Partition) × (c : Blackboard) × (display_blackboard id message (pos n) (some p)
        ≡ done (no_error, some q))
      × (get_elem? q.blackboards id ≡ some c)
      × (c.current_message_size ≡ pos n)
      × (c.payload ≡ take n message ++ drop n (zeros b.payload))
      × ((k : ℕ) × (get_event_status b.event_id (some q) ≡ (no_error, some (up, k))))
unfolding display_blackboard get_event_status
display_blackboard_lem p id b message n w g a k =
    let l = w.linked id b g in
    let e : Event = record l.event { state = down } in
    let p1 = updated p id (emptied b) e in
    let lt = get_elem?-some_lt p.blackboards b id g in
    let here : get_elem? (set p.blackboards id (emptied b)) id ≡ some (emptied b) =
      get_elem?-set_self p.blackboards id (emptied b) lt in
    let elt = get_elem?-some_lt p.events l.event b.event_id l.there in
    let there : get_elem? (set p.events b.event_id e) b.event_id ≡ some e =
      get_elem?-set_self p.events b.event_id e elt in
    let f : Event = record e { state = up } in
    let c = written message n (emptied b) in
    let small : ltb_ℤ b.max_message_size (pos n) ≡ false = ground (arith, l.size) in
    let cl = clear_blackboard_lem id b p l g in
    let wrote =
      write_on_blackboard_lem id message n (emptied b) p1 e there refl
        (l.size ∙ ap pos (sym (length-zeros b.payload))) (omega (arith, length-zeros b.payload))
        k in
    (
      updated p1 id c f,
      c,
      rw (display_blackboard, g, small, cl, cleared, here) wrote,
      get_elem?-set_self (set p.blackboards id (emptied b)) id c
          (omega (arith, lt, length-set p.blackboards id (emptied b))),
      refl,
      refl,
      (
        f.count,
        rw
            (
              get_event_status,
              get_elem?-set_self (set p.events b.event_id e) b.event_id f
                  (omega (arith, elt, length-set p.events b.event_id e)),
            )
            refl,
      ),
    )

-- A message displayed on a blackboard, of at least one byte and at most the blackboard's block, is
-- what READ_BLACKBOARD then gives, with its length, for any time-out up to MAX_TIME_OUT and without
-- a wait; the rest of the reader's block is as before. The blackboard's event is up.
pub display-read :
    (p : Partition) (id : ℕ) (b : Blackboard) (message out : List ℕ) (n : ℕ) (now : TimeSpec)
    (timeout : ℤ) (ws : List (Wake Partition))
    → WellFormed p
    → get_elem? p.blackboards id ≡ some b
    → 0 < n
    → n ≤ length b.payload
    → n ≤ length message
    → n ≤ length out
    → timeout ≤ℤ pos max_time_out
    → (q : Partition) × (display_blackboard id message (pos n) (some p) ≡ done (no_error, some q))
      × (read_blackboard out id now timeout ws (some q)
          ≡ returns (done (no_error, some (pos n, take n message ++ drop n out), some q)))
      × ((k : ℕ) × (get_event_status b.event_id (some q) ≡ (no_error, some (up, k))))
display-read p id b message out n now timeout ws w g s a k o t =
    let d = display_blackboard_lem p id b message n w g a k in
    let m : length (take n message) ≡ n = omega (arith, length-take n message) in
    let size : length d.1.payload ≡ length b.payload = omega (
      arith,
      ap length d.5,
      m,
      length-append (take n message) (drop n (zeros b.payload)),
      length-drop n (zeros b.payload),
      length-zeros b.payload,
    ) in
    let back : take n d.1.payload ≡ take n message =
      ap (take n) d.5 ∙ take-append_exact (take n message) (drop n (zeros b.payload)) n m in
    let r =
      read_blackboard_lem d.0 id d.1 out n now timeout ws d.3 d.4 s (omega (arith, size)) o t in
    (
      d.0,
      d.2,
      r ∙ ap (λ x. returns (done (no_error, some (pos n, x ++ drop n out), some d.0))) back,
      d.6,
    )
