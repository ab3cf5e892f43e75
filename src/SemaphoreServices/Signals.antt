-- ===== src/SemaphoreServices/Signals.antt =====
-- SIGNAL_SEMAPHORE, and WAIT_SEMAPHORE after it.
use arinc653emulator.Prelude.{
  ℕ, ◌+◌, ◌<◌, ℤ, pos, eqb_ℤ, eqb_ℤ_iff, ◌≤ℤ◌, ◌≡◌, refl, ap, ◌∙◌, inl, inr, arith, some, List, [],
  ◌∷◌, length, get_elem?, set, get_elem?-set_self, get_or-set_self, set-set_self, set-get_elem?,
  Bool-cases, false, pos_sub_one,
}
use arinc653emulator.Types.{no_error, max_time_out, unsigned_mod, infinite_time_value}
use arinc653emulator.Time.{TimeSpec}
use arinc653emulator.Time.Nanoseconds.{add_time_nano-known}
use arinc653emulator.Blocking.{Wake, Place, returns}
use arinc653emulator.Semaphore.{
  Semaphore, enter, leave, grant, is_zero, granted, entered, wait_loop, timed_wait_loop,
  wait_forever, wait_until, wait,
}
use arinc653emulator.Semaphore.Units.{post_lem}
use arinc653emulator.Partition.{Partition}
use arinc653emulator.Partition.Names.{get_elem?-some_lt}
use arinc653emulator.EventServices.{service_end}
use arinc653emulator.SemaphoreServices.{
  semaphore_at, wait_semaphore, signal_semaphore, get_semaphore_status,
}

module _ {S : Type 0} (p : Place S Semaphore) where
  open p use {read}

  wait_loop-free :
      (ws : List (Wake S)) (s : S)
      → is_zero (read s) ≡ false
      → wait_loop p ws s ≡ returns (no_error, granted p s)
  unfolding wait_loop
  wait_loop-free [] s h = ground (arith, h)
  wait_loop-free (w ∷ ws) s h = ground (arith, h)

  timed_wait_loop-free :
      (ws : List (Wake S)) (s : S)
      → is_zero (read s) ≡ false
      → timed_wait_loop p ws s ≡ returns (no_error, granted p s)
  unfolding timed_wait_loop
  timed_wait_loop-free [] s h = ground (arith, h)
  timed_wait_loop-free (w ∷ ws) s h = ground (arith, h)

  -- A waiter that finds a unit takes it at once.
  pub wait-free :
      (now : TimeSpec) (timeout : ℤ) (ws : List (Wake S)) (s : S)
      → timeout ≤ℤ pos max_time_out
      → is_zero (read (entered p s)) ≡ false
      → wait p now timeout ws s ≡ returns (no_error, granted p (entered p s))
  unfolding wait wait_until wait_forever
  wait-free now timeout ws s t h =
      let b = add_time_nano-known now timeout t in
      elim (Bool-cases (eqb_ℤ timeout infinite_time_value)) [
        | inl i ↦ rw (wait, b.1, i) (wait_loop-free ws (entered p s) h)
        | inr f ↦ rw (wait, b.1, f) (timed_wait_loop-free ws (entered p s) h)
      ]

enter-not_zero : (x : Semaphore) (k : ℕ) → x.counter ≡ pos (k + 1) → is_zero (enter x) ≡ false
unfolding enter
enter-not_zero x k e = ground (arith, eqb_ℤ_iff x.counter (pos 0))

-- A unit taken puts a semaphore back to what it was before the post.
grant-post :
    (x : Semaphore) (k : ℕ)
    → x.counter ≡ pos k
    → x.waiting < unsigned_mod
    → grant (enter (record x { counter = pos (k + 1) })) ≡ x
unfolding grant enter leave
grant-post x k e w = ground (arith, pos_sub_one k)

abbrev with_semaphore : Partition → ℕ → Semaphore → Partition
with_semaphore p id y = record p { semaphores = set p.semaphores id y }

-- A change in place of a semaphore that was written
update_twice :
    (p : Partition) (id : ℕ) (y : Semaphore) (f : Semaphore → Semaphore)
    → id < length p.semaphores
    → (semaphore_at id).write
        (with_semaphore p id y)
        (f ((semaphore_at id).read (with_semaphore p id y)))
      ≡ with_semaphore p id (f y)
update_twice p id y f h =
    ap (λ z. record p { semaphores = set (set p.semaphores id y) id (f z) })
      (get_or-set_self p.semaphores id y _ h)
    ∙ ap (λ l. record p { semaphores = l }) (set-set_self p.semaphores id y (f y))

wait_after_post :
    (p : Partition) (id k : ℕ) (x : Semaphore) (now : TimeSpec) (timeout : ℤ)
    (ws : List (Wake Partition))
    → get_elem? p.semaphores id ≡ some x
    → x.counter ≡ pos k
    → x.waiting < unsigned_mod
    → timeout ≤ℤ pos max_time_out
    → wait
        (semaphore_at id)
        now
        timeout
        ws
        (with_semaphore p id (record x { counter = pos (k + 1) }))
      ≡ returns (no_error, p)
wait_after_post p id k x now timeout ws g c w t =
    let up = record x { counter = pos (k + 1) } in
    let inside = get_elem?-some_lt p.semaphores x id g in
    let in1 = update_twice p id up enter inside in
    let in2 = update_twice p id (enter up) grant inside in
    let seen = get_or-set_self p.semaphores id (enter up) _ inside in
    wait-free (semaphore_at id) now timeout ws (with_semaphore p id up) t (
      ap (λ (q : Partition). is_zero ((semaphore_at id).read q)) in1
      ∙ ap is_zero seen
      ∙ enter-not_zero up k refl)
    ∙ ap (λ (q : Partition). returns (no_error, granted (semaphore_at id) q)) in1
    ∙ ap (λ (q : Partition). returns (no_error, q))
        (in2
          ∙ ap (λ y. with_semaphore p id y) (grant-post x k c w)
          ∙ ap (λ l. record p { semaphores = l }) (set-get_elem? p.semaphores id x g))

-- On a semaphore below its maximum, SIGNAL_SEMAPHORE adds one unit; WAIT_SEMAPHORE after it returns
-- at once, whatever wake-ups were to come, for any time-out up to MAX_TIME_OUT, and leaves the
-- partition as it was before the signal.
pub signal_semaphore-wait_semaphore :
    (p : Partition) (id k m : ℕ) (x : Semaphore) (now : TimeSpec) (timeout : ℤ)
    (ws : List (Wake Partition))
    → get_elem? p.semaphores id ≡ some x
    → x.counter ≡ pos k
    → x.maximum_value ≡ pos m
    → k < m
    → x.waiting < unsigned_mod
    → timeout ≤ℤ pos max_time_out
    → (q : Partition) × (signal_semaphore id (some p) ≡ (no_error, some q))
      × (get_semaphore_status id (some q) ≡ (
        no_error,
        some (record {
          waiting_processes = x.waiting;
          current_value = pos (k + 1);
          maximum_value = x.maximum_value;
        }),
      ))
      × (wait_semaphore id now timeout ws (some q) ≡ returns (no_error, some p))
unfolding signal_semaphore get_semaphore_status wait_semaphore
signal_semaphore-wait_semaphore p id k m x now timeout ws g c mx lt w t =
    let up = record x { counter = pos (k + 1) } in
    let q = record p { semaphores = set p.semaphores id up } in
    let inside = get_elem?-some_lt p.semaphores x id g in
    let here = get_elem?-set_self p.semaphores id up inside in
    (
      q,
      rw (signal_semaphore, g, post_lem x k m c mx lt) refl,
      rw (get_semaphore_status, here) refl,
      rw (wait_semaphore, here) (ap service_end (wait_after_post p id k x now timeout ws g c w t)),
    )
