-- ===== src/BlackboardServices/Waits.antt =====
-- The services that wait keep the vectors of events and blackboards consistent, if the threads that run
-- meanwhile do.
use arinc653emulator.Prelude.{
  ℕ, zero, suc, ℤ, pos, eqb_ℤ, ltb_ℤ, ◌≡◌, refl, ap, ◌⊎◌, inl, inr, arith, Bool-cases, none, some,
  Option-cases, List, [], ◌∷◌, get_elem?, set, get_or,
}
use arinc653emulator.Types.{ReturnCode, timed_out, max_time_out, infinite_time_value}
use arinc653emulator.Time.{TimeSpec}
use arinc653emulator.Blocking.{Wake, Outcome, returns, blocks, terminates, SomeWake}
use arinc653emulator.Buffer.{memcpy}
use arinc653emulator.Event.{
  Event, new_event, enter, leave, left, entered, wait_event, wait_event_for,
}
use arinc653emulator.Event.Waiting.{FoundUp, GaveUpAt, wait_event_lem, wait_event_for_lem}
use arinc653emulator.Partition.{Partition, Apex}
use arinc653emulator.EventServices.{event_at, service_end, wait_event_service}
use arinc653emulator.BlackboardServices.{
  Run, Read, read_from_blackboard, after_wait, read_blackboard,
}
use arinc653emulator.BlackboardServices.Links.{WellFormed, WellFormedApex, set_event-WellFormed}
use arinc653emulator.BlackboardServices.Integrity.{Ends}

-- What holds of the result of a call that returns.
abbrev pub Returns : {A : Type 0} → (A → Type 0) → Outcome A → Type 0
Returns P (returns a) = P a
Returns P blocks = Unit
Returns P terminates = Unit

-- What holds in the states of all wake-ups.
abbrev pub InWakes : {S : Type 0} → (S → Type 0) → List (Wake S) → Type 0
InWakes P [] = Unit
InWakes P (w ∷ ws) = P w.state × InWakes P ws

set_out : (l : List Event) (i : ℕ) (x : Event) → get_elem? l i ≡ none → set l i x ≡ l
set_out [] i x h = refl
set_out (y ∷ ys) zero x h = absurd (ground arith)
set_out (y ∷ ys) (suc i) x h = ap (λ l. y ∷ l) (set_out ys i x h)

get_or-some : (l : List Event) (i : ℕ) (d x : Event) → get_elem? l i ≡ some x → get_or l i d ≡ x
get_or-some [] i d x h = absurd (ground arith)
get_or-some (y ∷ ys) zero d x h = ground (arith, h)
get_or-some (y ∷ ys) (suc i) d x h = get_or-some ys i d x h

-- A change of the count of an event, or of nothing where there is no such event
change-WellFormed :
    (f : Event → Event) (id : ℕ) (p : Partition)
    → ((e : Event) → (f e).name ≡ e.name)
    → WellFormed p
    → WellFormed ((event_at id).write p (f ((event_at id).read p)))
change-WellFormed f id p same w = elim (Option-cases (get_elem? p.events id)) [
  | inl n ↦ rw (set_out p.events id (f ((event_at id).read p)) n) w
  | inr (e, g) ↦
      rw (get_or-some p.events id (new_event "") e g)
        (set_event-WellFormed p id e (f e) g (same e) w)
]

left-WellFormed : (id : ℕ) (p : Partition) → WellFormed p → WellFormed (left (event_at id) p)
unfolding leave
left-WellFormed id p w = change-WellFormed leave id p (λ e. refl) w

entered-WellFormed : (id : ℕ) (p : Partition) → WellFormed p → WellFormed (entered (event_at id) p)
unfolding enter
entered-WellFormed id p w = change-WellFormed enter id p (λ e. refl) w

-- The state that a wait leaves is the one it found, less itself.
some_left :
    (id : ℕ) (P : Wake Partition → Type 0) (ws : List (Wake Partition)) (t : Partition)
    → ((w : Wake Partition) → P w → t ≡ left (event_at id) w.state)
    → InWakes WellFormed ws
    → SomeWake P ws
    → WellFormed t
some_left id P (w ∷ ws) t f h (inl x) = rw (f w x) (left-WellFormed id w.state h.0)
some_left id P (w ∷ ws) t f h (inr x) = some_left id P ws t f h.1 x
some_left id P [] t f h x = elim x [ ]

wait_event-WellFormed :
    (id : ℕ) (ws : List (Wake Partition)) (p : Partition) (r : ReturnCode × Partition)
    → InWakes WellFormed ws
    → WellFormed p
    → wait_event (event_at id) ws p ≡ returns r
    → WellFormed r.1
wait_event-WellFormed id ws p (code, t) h w e = elim (wait_event_lem (event_at id) ws p t code e) [
  | inl x ↦ rw x.2 (left-WellFormed id (entered (event_at id) p) (entered-WellFormed id p w))
  | inr x ↦ some_left id (λ v. FoundUp (event_at id) t code v.state) ws t (λ v y. y.2) h x
]

wait_event_for-WellFormed :
    (id : ℕ) (now : TimeSpec) (timeout : ℤ) (ws : List (Wake Partition)) (p : Partition)
    (r : ReturnCode × Partition)
    → InWakes WellFormed ws
    → WellFormed p
    → wait_event_for (event_at id) now timeout ws p ≡ returns r
    → WellFormed r.1
wait_event_for-WellFormed id now timeout ws p (code, t) h w e =
    elim (wait_event_for_lem (event_at id) now timeout ws p t code e) [
      | inl x ↦ rw x.2 (left-WellFormed id p w)
      | inr x ↦
          some_left id (λ v. GaveUpAt (event_at id) t code v ⊎ FoundUp (event_at id) t code v.state)
            ws t (λ v y. elim y [ inl g ↦ g.2 | inr f ↦ f.2 ]) h x
    ]

service_end-Returns :
    (o : Outcome (ReturnCode × Partition))
    → ((r : ReturnCode × Partition) → o ≡ returns r → WellFormed r.1)
    → Returns (λ r. WellFormedApex r.1) (service_end o)
service_end-Returns (returns r) h = h r refl
service_end-Returns blocks h = record {}
service_end-Returns terminates h = record {}

pub wait_event_service-Returns :
    (id : ℕ) (now : TimeSpec) (timeout : ℤ) (ws : List (Wake Partition)) (a : Apex)
    → InWakes WellFormed ws
    → WellFormedApex a
    → Returns (λ r. WellFormedApex r.1) (wait_event_service id now timeout ws a)
unfolding wait_event_service
wait_event_service-Returns id now timeout ws none h w = w
wait_event_service-Returns id now timeout ws (some p) h w =
    elim (Option-cases (get_elem? p.events id)) [
      | inl n ↦ rw (wait_event_service, n) w
      | inr (e, g) ↦ elim (Bool-cases (eqb_ℤ timeout infinite_time_value)) [
        | inl t ↦
            rw (wait_event_service, g, t)
              (service_end-Returns (wait_event (event_at id) ws p)
                (λ r. wait_event-WellFormed id ws p r h w))
        | inr f ↦
            rw (wait_event_service, g, f)
              (service_end-Returns (wait_event_for (event_at id) now timeout ws p)
                (λ r. wait_event_for-WellFormed id now timeout ws p r h w))
      ]
    ]

-- The partition after READ_BLACKBOARD
abbrev pub AfterRead : Run Read → Type 0
AfterRead r = Ends (λ x. WellFormedApex x.2) r

read_from_blackboard-Ends :
    (out : List ℕ) (id : ℕ) (p : Partition)
    → WellFormed p
    → AfterRead (read_from_blackboard out id p)
unfolding read_from_blackboard
read_from_blackboard-Ends out id p w = elim (Option-cases (get_elem? p.blackboards id)) [
  | inl n ↦ rw (read_from_blackboard, n) record {}
  | inr (b, g) ↦ elim (Option-cases (memcpy out b.payload b.current_message_size)) [
    | inl n ↦ rw (read_from_blackboard, g, n) record {}
    | inr (bytes, k) ↦ rw (read_from_blackboard, g, k) w
  ]
]

after_wait-Returns :
    (out : List ℕ) (id : ℕ) (o : Outcome (ReturnCode × Apex))
    → Returns (λ r. WellFormedApex r.1) o
    → Returns AfterRead (after_wait out id o)
after_wait-Returns out id (returns (timed_out, a)) h = h
after_wait-Returns out id (returns (c, none)) h = record {}
after_wait-Returns out id (returns (c, some p)) h = read_from_blackboard-Ends out id p h
after_wait-Returns out id blocks h = record {}
after_wait-Returns out id terminates h = record {}

pub read_blackboard-Returns :
    (out : List ℕ) (id : ℕ) (now : TimeSpec) (timeout : ℤ) (ws : List (Wake Partition)) (a : Apex)
    → InWakes WellFormed ws
    → WellFormedApex a
    → Returns AfterRead (read_blackboard out id now timeout ws a)
unfolding read_blackboard
read_blackboard-Returns out id now timeout ws none h w = w
read_blackboard-Returns out id now timeout ws (some p) h w =
    elim (Option-cases (get_elem? p.blackboards id)) [
      | inl n ↦ rw (read_blackboard, n) w
      | inr (b, g) ↦ elim (Bool-cases (ltb_ℤ (pos max_time_out) timeout)) [
        | inl t ↦ rw (read_blackboard, g, t) w
        | inr f ↦ elim (Bool-cases (eqb_ℤ b.current_message_size (pos 0))) [
          | inr k ↦ rw (read_blackboard, g, f, k) (read_from_blackboard-Ends out id p w)
          | inl k ↦ elim (Bool-cases (eqb_ℤ timeout (pos 0))) [
            | inl z ↦ rw (read_blackboard, g, f, k, z) w
            | inr z ↦
                rw (read_blackboard, g, f, k, z)
                  (after_wait-Returns out id (wait_event_service b.event_id now timeout ws (some p))
                    (wait_event_service-Returns b.event_id now timeout ws (some p) h w))
          ]
        ]
      ]
    ]
