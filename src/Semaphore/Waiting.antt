-- ===== src/Semaphore/Waiting.antt =====
-- What a call of wait can return.
use arinc653emulator.Prelude.{
  ℕ, ◌+◌, ◌-◌, ◌%◌, ◌-ℤ◌, ℤ, pos, eqb_ℤ, ◌≡◌, ◌≢◌, ◌⊎◌, inl, inr, List, [], ◌∷◌, Bool-cases, arith,
  eqb_ℤ_iff, ◌≤ℤ◌,
}
use arinc653emulator.Types.{
  unsigned_mod, ReturnCode, no_error, timed_out, max_time_out, infinite_time_value,
}
use arinc653emulator.Time.{TimeSpec, add_time_nano}
use arinc653emulator.Blocking.{
  Wake, Place, etimedout, returns, blocks, terminates, SomeWake, SomeWake-map, returns_of_ne,
}
use arinc653emulator.Semaphore.{
  Semaphore, grant, leave, entered, wait_loop, timed_wait_loop, wait_forever, wait_until, wait,
}

-- One less, in an unsigned integer
abbrev pub one_less : ℕ → ℕ
one_less n = (n + unsigned_mod - 1) % unsigned_mod

module _ {S : Type 0} (p : Place S Semaphore) where
  open p use {read, write}

  -- The waiter took a unit from the state `found`, which had one: the counter is one less, and so is the
  -- waiting counter.
  abbrev pub TookFrom : S → ReturnCode → S → Type 0
  TookFrom t code found =
      ((read found).counter ≢ pos 0)
      × (code ≡ no_error)
      × (t
          ≡ write found (record (read found) {
            counter = (read found).counter -ℤ pos 1;
            waiting = one_less (read found).waiting;
          }))

  -- The waiter gave up at the wake-up `w`: the counter is as it was, and the waiting counter one less.
  abbrev pub GaveUpAt : S → ReturnCode → Wake S → Type 0
  GaveUpAt t code w =
      (w.reason ≡ etimedout)
      × (code ≡ timed_out)
      × (t ≡ write w.state (record (read w.state) { waiting = one_less (read w.state).waiting }))

  -- A time-bound wait that returns either took a unit from a state with a non-zero counter, or gave
  -- up at a wake-up by time-out.
  timed_wait_loop_lem :
      (ws : List (Wake S)) (s t : S) (code : ReturnCode)
      → timed_wait_loop p ws s ≡ returns (code, t)
      → TookFrom t code s ⊎ SomeWake (λ w. GaveUpAt t code w ⊎ TookFrom t code w.state) ws
  unfolding timed_wait_loop grant leave
  timed_wait_loop_lem [] s t code e = ground (arith, eqb_ℤ_iff (read s).counter (pos 0))
  timed_wait_loop_lem (w ∷ ws) s t code e =
      ground (arith, eqb_ℤ_iff (read s).counter (pos 0), timed_wait_loop_lem ws w.state t code)

  wait_loop_lem :
      (ws : List (Wake S)) (s t : S) (code : ReturnCode)
      → wait_loop p ws s ≡ returns (code, t)
      → TookFrom t code s ⊎ SomeWake (λ w. TookFrom t code w.state) ws
  unfolding wait_loop grant leave
  wait_loop_lem [] s t code e = ground (arith, eqb_ℤ_iff (read s).counter (pos 0))
  wait_loop_lem (w ∷ ws) s t code e =
      ground (arith, eqb_ℤ_iff (read s).counter (pos 0), wait_loop_lem ws w.state t code)

  -- The ways in which a wait can be over by its last wake-up: a unit is there, or time ran out.
  abbrev pub CanEnd : Wake S → Type 0
  CanEnd w = (w.reason ≡ etimedout) ⊎ ((read w.state).counter ≢ pos 0)

  timed_wait_loop-nonzero :
      (ws : List (Wake S)) (s : S) → (read s).counter ≢ pos 0 → timed_wait_loop p ws s ≢ blocks
  unfolding timed_wait_loop
  timed_wait_loop-nonzero [] s h = ground (arith, eqb_ℤ_iff (read s).counter (pos 0))
  timed_wait_loop-nonzero (w ∷ ws) s h = ground (arith, eqb_ℤ_iff (read s).counter (pos 0))

  timed_wait_loop-ends :
      (ws : List (Wake S)) (s : S) → SomeWake CanEnd ws → timed_wait_loop p ws s ≢ blocks
  unfolding timed_wait_loop
  timed_wait_loop-ends [] s h = elim h [ ]
  timed_wait_loop-ends (w ∷ ws) s h =
      ground (arith, timed_wait_loop-nonzero ws w.state, timed_wait_loop-ends ws w.state)

  timed_wait_loop-ne-terminates : (ws : List (Wake S)) (s : S) → timed_wait_loop p ws s ≢ terminates
  unfolding timed_wait_loop
  timed_wait_loop-ne-terminates [] s = ground arith
  timed_wait_loop-ne-terminates (w ∷ ws) s =
      ground (arith, timed_wait_loop-ne-terminates ws w.state)

  -- wait: if the call returns, then either it took one unit from a state that it found with a
  -- non-zero counter (at its start or at a wake-up) and returned NO_ERROR, or, with a finite time-out
  -- only, it gave up at a wake-up by time-out, took no unit, and returned TIMED_OUT. In both cases it
  -- took itself off the waiting counter.
  pub wait_lem :
      (now : TimeSpec) (timeout : ℤ) (ws : List (Wake S)) (s t : S) (code : ReturnCode)
      → wait p now timeout ws s ≡ returns (code, t)
      → TookFrom t code (entered p s)
        ⊎ SomeWake
            (λ w. ((timeout ≢ infinite_time_value) × GaveUpAt t code w) ⊎ TookFrom t code w.state)
            ws
  unfolding wait wait_until wait_forever add_time_nano
  wait_lem now timeout ws s t code e = elim (Bool-cases (eqb_ℤ timeout infinite_time_value)) [
    | inl inf ↦ elim (wait_loop_lem ws (entered p s) t code (ground arith)) [
      | inl a ↦ inl a
      | inr b ↦ inr (SomeWake-map (λ w p. inr p) ws b)
    ]
    | inr fin ↦ elim (timed_wait_loop_lem ws (entered p s) t code (ground arith)) [
      | inl a ↦ inl a
      | inr b ↦ inr (
          SomeWake-map
            (λ w p. elim p [
              | inl g ↦ inl (ground (arith, eqb_ℤ_iff timeout infinite_time_value), g)
              | inr k ↦ inr k
            ])
            ws b)
    ]
  ]

  -- wait: with a finite time-out of at most MAX_TIME_OUT, and a unit there at its start or a wake-up
  -- that finds one or that is a time-out, the call returns.
  pub wait-returns :
      (now : TimeSpec) (timeout : ℤ) (ws : List (Wake S)) (s : S)
      → timeout ≢ infinite_time_value
      → timeout ≤ℤ pos max_time_out
      → ((read (entered p s)).counter ≢ pos 0) ⊎ SomeWake CanEnd ws
      → (r : ReturnCode × S) × (wait p now timeout ws s ≡ returns r)
  unfolding wait wait_until add_time_nano
  wait-returns now timeout ws s fin small h =
      returns_of_ne _
        (ground (
          arith,
          eqb_ℤ_iff timeout infinite_time_value,
          timed_wait_loop-nonzero ws (entered p s),
          timed_wait_loop-ends ws (entered p s),
        ))
        (ground (
          arith,
          eqb_ℤ_iff timeout infinite_time_value,
          timed_wait_loop-ne-terminates ws (entered p s),
        ))
