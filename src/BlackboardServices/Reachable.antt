-- ===== src/BlackboardServices/Reachable.antt =====
-- The partitions that the services on events and blackboards lead to.
use mathlib.Core.Path.{subst}
use arinc653emulator.Prelude.{
  ℕ, ℤ, pos, String, ◌≡◌, refl, inl, inr, arith, Option, none, some, List, [], ◌∷◌, length,
}
use arinc653emulator.Types.{ReturnCode}
use arinc653emulator.Time.{TimeSpec}
use arinc653emulator.Blocking.{Wake, returns, SomeWake}
use arinc653emulator.Event.{set_event, reset_event}
use arinc653emulator.Partition.{Partition, Apex}
use arinc653emulator.EventServices.{
  create_event, set_event_service, reset_event_service, wait_event_service,
}
use arinc653emulator.BlackboardServices.{
  done, Read, create_blackboard, clear_blackboard, display_blackboard, read_blackboard,
}
use arinc653emulator.BlackboardServices.Links.{WellFormed, WellFormedApex}
use arinc653emulator.BlackboardServices.Integrity.{
  Ends, create_event-WellFormed, on_event-WellFormed, create_blackboard-WellFormed,
  clear_blackboard-WellFormed, display_blackboard-WellFormed,
}
use arinc653emulator.BlackboardServices.Waits.{
  Returns, InWakes, AfterRead, wait_event_service-Returns, read_blackboard-Returns,
}

-- From no partition, any sequence of the services on events and blackboards that change it and run to
-- their end: CREATE_EVENT, SET_EVENT, RESET_EVENT, WAIT_EVENT, CREATE_BLACKBOARD, CLEAR_BLACKBOARD,
-- DISPLAY_BLACKBOARD and READ_BLACKBOARD. What a waiting thread finds at a wake-up is such a partition
-- too. A new block has the size that it was asked for.
pub data Reach : Apex → Type 0 where
  start : Reach none
  creates_event : {a : Apex} → Reach a → (name : String) → Reach (create_event name a).2
  sets_event : {a : Apex} → Reach a → (id : ℕ) → Reach (set_event_service id a).1
  resets_event : {a : Apex} → Reach a → (id : ℕ) → Reach (reset_event_service id a).1
  waits :
      {a : Apex}
      → Reach a
      → (id : ℕ) (now : TimeSpec) (timeout : ℤ) (ws : List (Wake Partition)) (r : ReturnCode × Apex)
      → ((w : Wake Partition) → SomeWake (λ v. v ≡ w) ws → Reach (some w.state))
      → wait_event_service id now timeout ws a ≡ returns r
      → Reach r.1
  creates_blackboard :
      {a : Apex}
      → Reach a
      → (fresh : List ℕ) (name : String) (r : ReturnCode × Option ℕ × Apex)
      → create_blackboard fresh name (pos (length fresh)) a ≡ done r
      → Reach r.2
  clears :
      {a : Apex}
      → Reach a
      → (id : ℕ) (r : ReturnCode × Apex) → clear_blackboard id a ≡ done r
      → Reach r.1
  displays :
      {a : Apex}
      → Reach a
      → (id : ℕ) (message : List ℕ) (len : ℤ) (r : ReturnCode × Apex)
      → display_blackboard id message len a ≡ done r
      → Reach r.1
  reads :
      {a : Apex}
      → Reach a
      → (out : List ℕ) (id : ℕ) (now : TimeSpec) (timeout : ℤ) (ws : List (Wake Partition))
        (r : Read)
      → ((w : Wake Partition) → SomeWake (λ v. v ≡ w) ws → Reach (some w.state))
      → read_blackboard out id now timeout ws a ≡ returns (done r)
      → Reach r.2

in_wakes :
    (ws : List (Wake Partition))
    → ((w : Wake Partition) → SomeWake (λ v. v ≡ w) ws → WellFormed w.state)
    → InWakes WellFormed ws
in_wakes [] h = record {}
in_wakes (w ∷ ws) h = (h w (inl refl), in_wakes ws (λ v k. h v (inr k)))

-- In each partition that the services on events and blackboards lead to, from none and in any order, no
-- two events and no two blackboards have the same name, the event of each blackboard exists and bears its
-- name, the blackboard's block has its maximum message size, and the message in it is no longer.
pub Reach-WellFormed : {a : Apex} → Reach a → WellFormedApex a
unfolding set_event_service reset_event_service set_event reset_event
Reach-WellFormed start = record {}
Reach-WellFormed (creates_event {a = a} h name) =
    create_event-WellFormed name a (Reach-WellFormed h)
Reach-WellFormed (sets_event {a = a} h id) =
    on_event-WellFormed set_event id a (λ e. ground arith) (Reach-WellFormed h)
Reach-WellFormed (resets_event {a = a} h id) =
    on_event-WellFormed reset_event id a (λ e. refl) (Reach-WellFormed h)
Reach-WellFormed (waits {a = a} h id now timeout ws r others e) =
    subst (Returns (λ r. WellFormedApex r.1)) e (
      wait_event_service-Returns id now timeout ws a
        (in_wakes ws (λ w k. Reach-WellFormed (others w k))) (Reach-WellFormed h))
Reach-WellFormed (creates_blackboard {a = a} h fresh name r e) =
    subst (Ends (λ r. WellFormedApex r.2)) e
      (create_blackboard-WellFormed fresh name (pos (length fresh)) a refl (Reach-WellFormed h))
Reach-WellFormed (clears {a = a} h id r e) =
    subst (Ends (λ r. WellFormedApex r.1)) e (clear_blackboard-WellFormed id a (Reach-WellFormed h))
Reach-WellFormed (displays {a = a} h id message len r e) =
    subst (Ends (λ r. WellFormedApex r.1)) e
      (display_blackboard-WellFormed id message len a (Reach-WellFormed h))
Reach-WellFormed (reads {a = a} h out id now timeout ws r others e) = subst (Returns AfterRead) e (
    read_blackboard-Returns out id now timeout ws a
      (in_wakes ws (λ w k. Reach-WellFormed (others w k))) (Reach-WellFormed h))
