-- ===== src/Tests/Semaphores.antt =====
-- A semaphore by itself.
use arinc653emulator.Prelude.{
  ◌+◌, ◌-◌, ◌%◌, ◌≤◌, pos, quot, rem, ◌+ℤ◌, ◌≤ℤ◌, ◌≡◌, ◌≢◌, ◌⊎◌, refl, inl, arith, [], ◌∷◌,
}
use arinc653emulator.Types.{ReturnCode, timed_out, unsigned_mod, infinite_time_value}
use arinc653emulator.Time.{TimeSpec, add_time_nano}
use arinc653emulator.Blocking.{Place, etimedout, returns, SomeWake}
use arinc653emulator.Semaphore.{
  Semaphore, new_semaphore, enter, leave, grant, wait, wait_until, timed_wait_loop, entered, left,
}
use arinc653emulator.Semaphore.Waiting.{TookFrom, GaveUpAt, wait_lem, wait-returns}
use arinc653emulator.Semaphore.Counting.{
  System, init, start, later, begin, acquire, never_overdrawn,
}

abbrev only : Place Semaphore Semaphore
only = record { read = λ s. s; write = λ s t. t }

abbrev now : TimeSpec
now = record { tv_sec = pos 5; tv_nsec = pos 0 }

abbrev taken : Semaphore
taken = record { counter = pos 0; name = "s"; maximum_value = pos 3; waiting = 1 }

abbrev two_left : Semaphore
two_left = record { counter = pos 2; name = "s"; maximum_value = pos 3; waiting = 0 }

-- No unit, and a time-out.
wait_example :
    TookFrom only (left only taken) timed_out (entered only (new_semaphore "s" (pos 0) (pos 3)))
    ⊎ SomeWake
        (λ w.
          ((pos 10 ≢ infinite_time_value) × GaveUpAt only (left only taken) timed_out w)
          ⊎ TookFrom only (left only taken) timed_out w.state)
        (record { reason = etimedout; state = taken } ∷ [])
unfolding wait wait_until timed_wait_loop new_semaphore enter leave add_time_nano quot rem ◌+ℤ◌
wait_example =
    wait_lem only now (pos 10) (record { reason = etimedout; state = taken } ∷ [])
      (new_semaphore "s" (pos 0) (pos 3)) (left only taken) timed_out refl

wait-returns_example :
    (r : ReturnCode × Semaphore) × (wait only now (pos 10) [] two_left ≡ returns r)
unfolding enter
wait-returns_example =
    wait-returns only now (pos 10) [] two_left (λ e. ground arith) (omega arith)
      (inl (λ e. ground arith))

-- One wait that takes a unit of two, and one post.
abbrev began : System
began = record (init "s" 2 3) { sem = enter (new_semaphore "s" (pos 2) (pos 3)); inside = 0 + 1 }

abbrev took : System
took = record began { sem = grant began.sem; inside = 0 + 1 - 1; grants = 0 + 1 }

counting_example :
    (took.grants ≤ 2 + took.posts)
    × (took.sem.counter ≡ pos (2 + took.posts - took.grants))
    × (took.sem.counter ≤ℤ pos 3)
    × (took.sem.waiting ≡ took.inside % unsigned_mod)
unfolding enter new_semaphore
counting_example =
    never_overdrawn (omega arith)
      (later (later start begin) (acquire (omega arith) (λ e. ground arith)))
