-- ===== src/Time.antt =====
-- include/ACM/USER/ACM_UTILITIES.h: arithmetic and comparison of time stamps.
pub mod Nanoseconds
use arinc653emulator.Prelude.{
  ℕ, zero, suc, ◌+◌, ◌/◌, ℤ, pos, pos_part, neg_part, ◌+ℤ◌, ◌-ℤ◌, scale, quot, rem, ltb_ℤ, leb_ℤ,
  eqb_ℤ, Bool, true, false, Option, none, some, if◌then◌else◌,
}
use arinc653emulator.Types.{nano, max_time_out, infinite_time_value}

-- struct timespec
pub record TimeSpec : Type 0 where
  pub tv_sec : ℤ
  pub tv_nsec : ℤ

-- convertTimeSpecToNano
unfoldable pub convert_time_spec_to_nano : TimeSpec → ℤ
convert_time_spec_to_nano tv = scale nano tv.tv_sec +ℤ tv.tv_nsec

-- The loop of addTime; the fuel bounds its rounds.
carry_loop : ℕ → ℤ → ℤ → TimeSpec
carry_loop zero secs nsecs = record { tv_sec = secs; tv_nsec = nsecs }
carry_loop (suc fuel) secs nsecs = elim (leb_ℤ (pos nano) nsecs) [
  | true ↦ carry_loop fuel (secs +ℤ pos 1) (nsecs -ℤ pos nano)
  | false ↦ record { tv_sec = secs; tv_nsec = nsecs }
]

-- addTime
unfoldable pub add_time : TimeSpec → TimeSpec → TimeSpec
unfolding carry_loop
add_time first second =
    let nsecs = first.tv_nsec +ℤ second.tv_nsec in
    carry_loop (pos_part nsecs / nano + 1) (first.tv_sec +ℤ second.tv_sec) nsecs

-- The two branches of addTimeNano after its assertion.
split_nano : TimeSpec → ℤ → TimeSpec
split_nano first nanoseconds =
    let nsecs = first.tv_nsec +ℤ nanoseconds in
    record { tv_sec = quot nsecs nano +ℤ first.tv_sec; tv_nsec = rem nsecs nano }

-- addTimeNano; `none` where ACM_ASSERT ends the program.
unfoldable pub add_time_nano : TimeSpec → ℤ → Option TimeSpec
unfolding split_nano
add_time_nano first nanoseconds =
    if leb_ℤ nanoseconds (pos max_time_out)
    then if eqb_ℤ nanoseconds infinite_time_value
      then some (split_nano first (pos max_time_out))
      else some (split_nano first nanoseconds)
    else none

-- computeDeadlineTimeSpecs
unfoldable pub compute_deadline_time_specs : TimeSpec → ℤ → Option TimeSpec
compute_deadline_time_specs first nanoseconds =
    if leb_ℤ nanoseconds (pos max_time_out)
    then if eqb_ℤ nanoseconds infinite_time_value
      then add_time_nano first (pos max_time_out)
      else add_time_nano first nanoseconds
    else none

-- The loop of subtractTime and subtractTimeNano.
borrow_loop : ℕ → ℤ → ℤ → TimeSpec
borrow_loop zero secs nsecs = record { tv_sec = secs; tv_nsec = nsecs }
borrow_loop (suc fuel) secs nsecs = elim (ltb_ℤ nsecs (pos 0)) [
  | true ↦ borrow_loop fuel (secs -ℤ pos 1) (nsecs +ℤ pos nano)
  | false ↦ record { tv_sec = secs; tv_nsec = nsecs }
]

-- subtractTime
unfoldable pub subtract_time : TimeSpec → TimeSpec → TimeSpec
unfolding borrow_loop
subtract_time first second =
    let nsecs = first.tv_nsec -ℤ second.tv_nsec in
    borrow_loop (neg_part nsecs / nano + 1) (first.tv_sec -ℤ second.tv_sec) nsecs

-- subtractTime2
unfoldable pub subtract_time2 : TimeSpec → TimeSpec → ℤ
subtract_time2 first second =
    let tv = subtract_time first second in tv.tv_nsec +ℤ scale nano tv.tv_sec

-- subtractTimeNano; `none` where ACM_ASSERT ends the program.
unfoldable pub subtract_time_nano : TimeSpec → ℤ → Option TimeSpec
unfolding borrow_loop
subtract_time_nano first nanoseconds =
    let nsecs = first.tv_nsec -ℤ nanoseconds in
    if leb_ℤ nanoseconds (pos max_time_out)
    then some (borrow_loop (neg_part nsecs / nano + 1) first.tv_sec nsecs)
    else none

-- compareTime
unfoldable pub compare_time : TimeSpec → TimeSpec → Bool
compare_time first second =
    if ltb_ℤ first.tv_sec second.tv_sec
    then true
    else if ltb_ℤ second.tv_sec first.tv_sec
    then false
    else if leb_ℤ first.tv_nsec second.tv_nsec
    then true
    else false

-- compareTimeLess
unfoldable pub compare_time_less : TimeSpec → TimeSpec → Bool
compare_time_less first second =
    if ltb_ℤ first.tv_sec second.tv_sec
    then true
    else if ltb_ℤ second.tv_sec first.tv_sec
    then false
    else if ltb_ℤ first.tv_nsec second.tv_nsec
    then true
    else false
