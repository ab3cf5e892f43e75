-- ===== src/BlackboardServices/Status.antt =====
-- GET_BLACKBOARD_STATUS and READ_BLACKBOARD.
use arinc653emulator.Prelude.{
  ℕ, ◌≤◌, ◌<◌, pos, eqb_ℤ, ◌≡◌, ◌⊎◌, inl, inr, refl, ap, ◌∙◌, arith, false, true, none, some, List,
  ◌++◌, length, take, drop, get_elem?, zero, suc, if◌then◌else◌,
}
use arinc653emulator.Types.{no_error, not_available}
use arinc653emulator.Time.{TimeSpec}
use arinc653emulator.Blocking.{Wake, returns}
use arinc653emulator.Partition.{Blackboard, Partition}
use arinc653emulator.EventServices.{get_event_status}
use arinc653emulator.BlackboardServices.{
  done, read_blackboard, EmptyIndicator, empty, occupied, BlackboardStatus, get_blackboard_status,
}
use arinc653emulator.BlackboardServices.Links.{WellFormed, Linked}
use arinc653emulator.BlackboardServices.Transfer.{read_blackboard_lem}

abbrev pub status : EmptyIndicator → Blackboard → ℕ → BlackboardStatus
status indicator b k = record {
  empty_indicator = indicator;
  max_message_size = b.max_message_size;
  waiting_processes = some k;
}

abbrev pub Agree :
    Partition → ℕ → Blackboard → List ℕ → TimeSpec → List (Wake Partition) → ℕ → Type 0
Agree p id b out now ws k =
    ((get_blackboard_status id (some p) ≡ (no_error, some (status empty b k)))
      × (read_blackboard out id now (pos 0) ws (some p)
          ≡ returns (done (not_available, none, some p))))
    ⊎ ((get_blackboard_status id (some p) ≡ (no_error, some (status occupied b k)))
        × ((n : ℕ) × (0 < n)
            × (read_blackboard out id now (pos 0) ws (some p)
                ≡ returns (done (no_error, some (pos n, take n b.payload ++ drop n out), some p)))))

get_blackboard_status_lem :
    (p : Partition) (id : ℕ) (b : Blackboard) (l : Linked p.events b)
    → get_elem? p.blackboards id ≡ some b
    → get_blackboard_status id (some p) ≡ (
      no_error,
      some (
          status
            (if eqb_ℤ b.current_message_size (pos 0) then empty else occupied)
            b
            l.event.count),
    )
unfolding get_blackboard_status get_event_status
get_blackboard_status_lem p id b l g = rw (get_blackboard_status, g, get_event_status, l.there) refl

by_size :
    (p : Partition) (id : ℕ) (b : Blackboard) (out : List ℕ) (now : TimeSpec)
    (ws : List (Wake Partition)) (l : Linked p.events b)
    → get_elem? p.blackboards id ≡ some b
    → length b.payload ≤ length out
    → (n : ℕ) → b.current_message_size ≡ pos n
    → n ≤ length b.payload
    → Agree p id b out now ws l.event.count
unfolding read_blackboard
by_size p id b out now ws l g o zero z f =
    let nothing : eqb_ℤ b.current_message_size (pos 0) ≡ true = rw z refl in
    inl (
      get_blackboard_status_lem p id b l g
          ∙ ap (λ t. (no_error, some (status (if t then empty else occupied) b l.event.count)))
              nothing,
      rw (read_blackboard, g, nothing) refl,
    )
by_size p id b out now ws l g o (suc n) z f =
    let left : eqb_ℤ b.current_message_size (pos 0) ≡ false = rw z (ground arith) in
    inr (
      get_blackboard_status_lem p id b l g
          ∙ ap (λ t. (no_error, some (status (if t then empty else occupied) b l.event.count)))
              left,
      (
        suc n,
        omega arith,
        read_blackboard_lem p id b out (suc n) now (pos 0) ws g z (omega arith) f (omega arith)
            (omega arith),
      ),
    )

-- In a well-formed partition GET_BLACKBOARD_STATUS and READ_BLACKBOARD with a time-out of 0 agree on
-- a blackboard, for a reader's block at least as large as the blackboard's: either the status is
-- EMPTY and the read is NOT_AVAILABLE, or it is OCCUPIED and the read gives the message.
pub get_blackboard_status-read_blackboard :
    (p : Partition) (id : ℕ) (b : Blackboard) (out : List ℕ) (now : TimeSpec)
    (ws : List (Wake Partition))
    → WellFormed p
    → get_elem? p.blackboards id ≡ some b
    → length b.payload ≤ length out
    → (k : ℕ) × Agree p id b out now ws k
get_blackboard_status-read_blackboard p id b out now ws w g o =
    let l = w.linked id b g in
    (l.event.count, by_size p id b out now ws l g o l.current l.message l.fits)
