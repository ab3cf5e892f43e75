-- ===== src/Semaphore/Units.antt =====
-- post and the end of wait on a counter that is known.
use arinc653emulator.Prelude.{
  ℕ, zero, suc, ◌+◌, ◌-◌, ◌<◌, pos, ◌≡◌, ◌≢◌, arith, pos_add_one, pos_sub_one,
}
use arinc653emulator.Types.{no_error}
use arinc653emulator.Semaphore.{Semaphore, leave, grant, post}

pub post_lem :
    (s : Semaphore) (k m : ℕ)
    → s.counter ≡ pos k
    → s.maximum_value ≡ pos m
    → k < m
    → post s ≡ (no_error, record s { counter = pos (k + 1) })
unfolding post
post_lem s k m e f h = ground (arith, pos_add_one k)

pub grant_lem :
    (s : Semaphore) (k : ℕ)
    → s.counter ≡ pos k
    → s.counter ≢ pos 0
    → (0 < k) × ((grant s).counter ≡ pos (k - 1))
unfolding grant leave
grant_lem s zero e n = absurd (n e)
grant_lem s (suc k) e n = (omega arith, ground (arith, pos_sub_one k))
