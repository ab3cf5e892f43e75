-- ===== src/Scheduling/Punctual.antt =====
-- The scheduler leaves a process alone that is not due.
use arinc653emulator.Prelude.{
  ℕ, pos, ◌&&◌, ◌≡◌, refl, true, false, not, Bool, Bool-cases, Option-cases, inl, inr, some, List,
  [], ◌∷◌, get_elem?,
}
use arinc653emulator.Types.{
  ReturnCode, no_error, no_action, not_available, invalid_param, invalid_config, invalid_mode,
  timed_out, nano,
}
use arinc653emulator.Time.{compare_time, add_time_nano}
use arinc653emulator.Blocking.{
  Wake, WakeReason, signalled, etimedout, by_reason, Outcome, returns, blocks, terminates, Run,
  done, aborts, faults,
}
use arinc653emulator.Event.{is_down, left, wait_event_until}
use arinc653emulator.Partition.{Descriptor, Partition, is_normal}
use arinc653emulator.BlackboardServices.Integrity.{Ends}
use arinc653emulator.Scheduling.Kept.{Kept}
use arinc653emulator.Scheduling.Steps.{Reports}
use arinc653emulator.Scheduling.Dispatch.{dispatch-Kept}
use arinc653emulator.Scheduling.Rounds.{
  scheduling_event_at, after_wait, scheduler_wait, Turn, idle_end, busy_end, by_work, round,
  then_rounds, rounds,
}

-- What holds of the result of a call that returns.
abbrev pub EndsIn : {A : Type 0} → (A → Type 0) → Outcome A → Type 0
EndsIn P (returns a) = P a
EndsIn P blocks = Unit
EndsIn P terminates = Unit

module _ (j : ℕ) (d : Descriptor) where
  -- The other threads leave the process alone while the scheduler sleeps.
  abbrev pub Alone : List (Wake Partition) → Type 0
  Alone [] = Unit
  Alone (w ∷ ws) = Kept j d w.state × Alone ws

  -- The process is not due in any of the rounds.
  abbrev pub Early : List Turn → Type 0
  Early [] = Unit
  Early (t ∷ ts) = (compare_time d.critical_time t.now ≡ false) × Alone t.wakes × Early ts

  by_reason-Kept :
      (reason : WakeReason) (x y : Outcome (ReturnCode × Partition))
      → EndsIn (λ r. Kept j d r.1) x
      → EndsIn (λ r. Kept j d r.1) y
      → EndsIn (λ r. Kept j d r.1) (by_reason reason x y)
  by_reason-Kept etimedout x y a b = a
  by_reason-Kept signalled x y a b = b

  wait_event_until-Kept :
      (ws : List (Wake Partition)) (s : Partition)
      → Kept j d s
      → Alone ws
      → EndsIn (λ r. Kept j d r.1) (wait_event_until scheduling_event_at ws s)
  unfolding wait_event_until
  wait_event_until-Kept [] s k a = elim (Bool-cases (is_down s.scheduling_event.state)) [
    | inl t ↦ rw (wait_event_until, t) record {}
    | inr f ↦ rw (wait_event_until, f) k
  ]
  wait_event_until-Kept (w ∷ ws) s k a = elim (Bool-cases (is_down s.scheduling_event.state)) [
    | inl t ↦
        rw (wait_event_until, t)
          (by_reason-Kept w.reason (returns (timed_out, left scheduling_event_at w.state))
            (wait_event_until scheduling_event_at ws w.state) a.0
            (wait_event_until-Kept ws w.state a.0 a.1))
    | inr f ↦ rw (wait_event_until, f) k
  ]

  after_wait-Kept :
      (o : Outcome (ReturnCode × Partition))
      → EndsIn (λ r. Kept j d r.1) o
      → EndsIn (λ r. Kept j d r.1) (after_wait o)
  after_wait-Kept (returns (timed_out, p)) h = h
  after_wait-Kept (returns (no_error, p)) h = h
  after_wait-Kept (returns (no_action, p)) h = h
  after_wait-Kept (returns (not_available, p)) h = h
  after_wait-Kept (returns (invalid_param, p)) h = h
  after_wait-Kept (returns (invalid_config, p)) h = h
  after_wait-Kept (returns (invalid_mode, p)) h = h
  after_wait-Kept blocks h = h
  after_wait-Kept terminates h = h

  scheduler_wait-Kept :
      (ws : List (Wake Partition)) (p : Partition)
      → Kept j d p
      → Alone ws
      → EndsIn (λ r. Kept j d r.1) (scheduler_wait ws p)
  unfolding scheduler_wait
  scheduler_wait-Kept ws p k a =
      after_wait-Kept (wait_event_until scheduling_event_at ws p) (wait_event_until-Kept ws p k a)

  module _ (sort : List Descriptor → List ℕ → List ℕ) (reports : Reports) where
    idle_end-Kept :
        (o : Outcome (Bool × Partition))
        → EndsIn (λ r. Kept j d r.1) o
        → EndsIn (Ends (Kept j d)) (idle_end sort reports o)
    idle_end-Kept (returns (b, p)) h = h
    idle_end-Kept blocks h = h
    idle_end-Kept terminates h = h

    busy_end-Kept :
        (t : Turn) (o : Outcome (Bool × Partition))
        → compare_time d.critical_time t.now ≡ false
        → EndsIn (λ r. Kept j d r.1) o
        → EndsIn (Ends (Kept j d)) (busy_end sort reports t o)
    busy_end-Kept t (returns (true, p)) f h =
        dispatch-Kept j d reports t.threads t.clock t.now p.sorted p f h
    busy_end-Kept t (returns (false, p)) f h = h
    busy_end-Kept t blocks f h = h
    busy_end-Kept t terminates f h = h

    by_work-Kept :
        (t : Turn) (p : Partition) (r : Run Bool)
        → compare_time d.critical_time t.now ≡ false
        → Alone t.wakes
        → Kept j d p
        → EndsIn (Ends (Kept j d)) (by_work sort reports t p r)
    by_work-Kept t p (done true) f a k = idle_end-Kept _ (scheduler_wait-Kept t.wakes p k a)
    by_work-Kept t p (done false) f a k = busy_end-Kept t _ f (scheduler_wait-Kept t.wakes p k a)
    by_work-Kept t p aborts f a k = record {}
    by_work-Kept t p faults f a k = record {}

    round-Kept :
        (t : Turn) (p : Partition)
        → compare_time d.critical_time t.now ≡ false
        → Alone t.wakes
        → Kept j d p
        → EndsIn (Ends (Kept j d)) (round sort reports t p)
    unfolding round
    round-Kept t p f a k = elim (Option-cases (add_time_nano t.before (pos nano))) [
      | inl o ↦ rw (round, o) record {}
      | inr x ↦ rw (round, x.1) (by_work-Kept t _ _ f a k)
    ]

    then_rounds-Kept :
        (o : Outcome (Run Partition)) (g : Partition → Outcome (Run Partition))
        → EndsIn (Ends (Kept j d)) o
        → ((p : Partition) → Kept j d p → EndsIn (Ends (Kept j d)) (g p))
        → EndsIn (Ends (Kept j d)) (then_rounds sort reports o g)
    then_rounds-Kept (returns (done p)) g h f = f p h
    then_rounds-Kept (returns aborts) g h f = h
    then_rounds-Kept (returns faults) g h f = h
    then_rounds-Kept blocks g h f = h
    then_rounds-Kept terminates g h f = h

    rounds-Kept :
        (ts : List Turn) (p : Partition)
        → Early ts
        → Kept j d p
        → EndsIn (Ends (Kept j d)) (rounds sort reports ts p)
    unfolding rounds
    rounds-Kept [] p e k = k
    rounds-Kept (t ∷ ts) p e k = elim (Bool-cases (is_normal p.mode && not p.flag_to_terminate)) [
      | inl n ↦
          rw (rounds, n)
            (then_rounds-Kept (round sort reports t p) (λ q. rounds sort reports ts q)
              (round-Kept t p e.0 e.1 k) (λ q h. rounds-Kept ts q e.2 h))
      | inr n ↦ rw (rounds, n) k
    ]

-- The scheduler is punctual: over any number of its rounds, in each of which the time that it reads
-- after its sleep is earlier than the critical time of the process j, it does not release, stop or
-- postpone j, whatever the sort does and whatever the other threads do while it sleeps, if these leave j
-- as it is but for its locks: where the rounds end with a partition, j is in it as it was, but for the
-- lists of the locks that it holds.
pub rounds_lem :
    (sort : List Descriptor → List ℕ → List ℕ) (reports : Reports) (turns : List Turn) (j : ℕ)
    (d : Descriptor) (p : Partition)
    → get_elem? p.processes j ≡ some d
    → Early j d turns
    → EndsIn (Ends (Kept j d)) (rounds sort reports turns p)
rounds_lem sort reports turns j d p g e = rounds-Kept j d sort reports turns p e (d, g, refl)
