-- ===== src/RwLock/Free.antt =====
-- A writer that finds the lock free.
use arinc653emulator.Prelude.{
  ℕ, zero, suc, ◌+◌, ℤ, pos, pos_part, ◌≤ℤ◌, eqb_ℤ_iff, ◌≡◌, refl, ap, ◌∙◌, arith, [], false, some,
  none,
}
use arinc653emulator.Types.{no_error, max_time_out}
use arinc653emulator.Time.{TimeSpec}
use arinc653emulator.Time.Nanoseconds.{add_time_nano-known}
use arinc653emulator.Blocking.{Place, returns, terminates}
use arinc653emulator.Semaphore.{
  Semaphore, enter, leave, grant, is_zero, wait_until, timed_wait_loop, granted, entered,
}
use arinc653emulator.Semaphore.Units.{post_lem, grant_lem}
use arinc653emulator.RwLock.{
  RwLock, readers_side, writers_side, collect, next_round, end_of_writelock, with_token, writelock,
  release_token, writeunlock,
}

-- A lock by itself.
abbrev pub alone : Place RwLock RwLock
alone = record { read = λ l. l; write = λ l m. m }

module _ {S : Type 0} (p : Place S Semaphore) where
  open p use {read, write}

  wait_until-free :
      (s : S)
      → is_zero (read (entered p s)) ≡ false
      → wait_until p [] s ≡ returns (no_error, granted p (entered p s))
  unfolding wait_until timed_wait_loop
  wait_until-free s h = ground (arith, h)

abbrev one_taken : RwLock → RwLock
one_taken l = record l { rw_sem = grant (enter l.rw_sem) }

enter-counter : (s : Semaphore) → (enter s).counter ≡ s.counter
unfolding enter
enter-counter s = refl

taken-counter :
    (s : Semaphore) (k : ℕ) → s.counter ≡ pos (suc k) → (grant (enter s)).counter ≡ pos k
taken-counter s k e =
    let g =
      grant_lem (enter s) (suc k) (enter-counter s ∙ e)
        (λ z. ground (arith, enter-counter s, e, z)) in
    g.1 ∙ ap pos (omega arith)

not_zero : (s : Semaphore) (k : ℕ) → s.counter ≡ pos (suc k) → is_zero (enter s) ≡ false
unfolding enter
not_zero s k e = ground (arith, eqb_ℤ_iff s.counter (pos 0))

collect_lem :
    (rounds k : ℕ) (l : RwLock)
    → l.rw_sem.counter ≡ pos rounds
    → (m : RwLock) × (collect alone (λ i. []) (λ i s. s) rounds k l
        ≡ returns (no_error, k + rounds, m))
      × (m.rw_sem.counter ≡ pos 0)
      × (m.writer_semaphore ≡ l.writer_semaphore)
      × (m.max_readers ≡ l.max_readers)
unfolding collect
collect_lem zero k l e = (l, ap (λ x. returns (no_error, x, l)) (omega arith), e, refl, refl)
collect_lem (suc rounds) k l e =
    let r = collect_lem rounds (suc k) (one_taken l) (taken-counter l.rw_sem rounds e) in
    let w = wait_until-free (readers_side alone) l (not_zero l.rw_sem rounds e) in
    (
      r.0,
      ap (next_round alone (collect alone (λ i. []) (λ i s. s) rounds) k) w
          ∙ r.1
          ∙ ap (λ x. returns (no_error, x, r.0)) (omega arith),
      r.2,
      r.3,
      r.4,
    )

abbrev token_taken : RwLock → RwLock
token_taken l = record l { writer_semaphore = grant (enter l.writer_semaphore) }

taken-maximum : (s : Semaphore) → (grant (enter s)).maximum_value ≡ s.maximum_value
unfolding grant leave enter
taken-maximum s = refl

-- A writer that finds a lock of n readers free, nobody else acting meanwhile, gets it without
-- waiting if its time-out is at most MAX_TIME_OUT: all n units are then taken, the writers' token
-- is back, and writeunlock puts n units in the semaphore.
pub writelock_lem :
    (n : ℕ) (l : RwLock) (now : TimeSpec) (timeout : ℤ)
    → l.max_readers ≡ pos n
    → l.rw_sem.counter ≡ pos n
    → l.writer_semaphore.counter ≡ pos 1
    → l.writer_semaphore.maximum_value ≡ pos 1
    → timeout ≤ℤ pos max_time_out
    → (m : RwLock) × (writelock alone now timeout [] (λ k. []) (λ k s. s) l ≡ returns (no_error, m))
      × (m.rw_sem.counter ≡ pos 0)
      × (m.writer_semaphore.counter ≡ pos 1)
      × ((writeunlock m).rw_sem.counter ≡ pos n)
unfolding writelock writeunlock release_token
writelock_lem n l now timeout hm hr hw hx ht =
    let r = collect_lem n 0 (token_taken l) hr in
    let w = wait_until-free (writers_side alone) l (not_zero l.writer_semaphore 0 hw) in
    (
      release_token r.0,
      ap
            (λ d. elim d [
              | none ↦ terminates
              | some _ ↦
                  with_token alone (λ k. []) (λ k s. s) (wait_until (writers_side alone) [] l)
            ])
            (add_time_nano-known now timeout ht).1
          ∙ ap (with_token alone (λ k. []) (λ k s. s)) w
          ∙ ap
              (λ k.
                end_of_writelock alone
                  (collect alone (λ k. []) (λ k s. s) (pos_part k) 0 (token_taken l)))
              hm
          ∙ ap (end_of_writelock alone) r.1,
      r.2,
      ap (λ x. x.1.counter)
          (post_lem r.0.writer_semaphore 0 1
            (ap (λ x. x.counter) r.3 ∙ taken-counter l.writer_semaphore 0 hw)
            (ap (λ x. x.maximum_value) r.3 ∙ taken-maximum l.writer_semaphore ∙ hx) (omega arith)),
      r.4 ∙ hm,
    )
