-- ===== src/Time/Nanoseconds.antt =====
-- Time stamps as numbers of nanoseconds.
use arinc653emulator.Prelude.{
  ℕ, zero, suc, ◌+◌, ◌*◌, ◌/◌, ◌%◌, ◌≤◌, ◌<◌, ℤ, pos, negsuc, pos_part, neg_part, ◌+ℤ◌, ◌-ℤ◌, scale,
  quot, rem, ◌≤ℤ◌, ◌<ℤ◌, leb_ℤ, ltb_ℤ, eqb_ℤ, Bool, if◌then◌else◌, ap, none, false, ◌≡◌, ◌↔◌, true,
  some, arith, int_laws, +ℤ_parts, -ℤ_parts, eq_of_parts, one_sided, refl, ◌∙◌, Bool-cases, inl,
  inr,
}
use arinc653emulator.Types.{nano, max_time_out, infinite_time_value}
use arinc653emulator.Time.{
  TimeSpec, convert_time_spec_to_nano, carry_loop, add_time, split_nano, add_time_nano,
  compute_deadline_time_specs, borrow_loop, subtract_time, subtract_time2, subtract_time_nano,
  compare_time, compare_time_less,
}

-- A time stamp as clock_gettime gives it: the nanoseconds are below a second.
abbrev pub IsNormal : TimeSpec → Type 0
IsNormal tv = (pos 0 ≤ℤ tv.tv_nsec) × (tv.tv_nsec <ℤ pos nano)

convert_parts :
    (tv : TimeSpec)
    → let t = convert_time_spec_to_nano tv in
      pos_part t + neg_part tv.tv_sec * nano + neg_part tv.tv_nsec
      ≡ neg_part t + pos_part tv.tv_sec * nano + pos_part tv.tv_nsec
unfolding convert_time_spec_to_nano
convert_parts tv = omega int_laws

carry_step :
    (secs nsecs : ℤ) → scale nano (secs +ℤ pos 1) +ℤ (nsecs -ℤ pos nano) ≡ scale nano secs +ℤ nsecs
carry_step secs nsecs = omega int_laws

borrow_step :
    (secs nsecs : ℤ) → scale nano (secs -ℤ pos 1) +ℤ (nsecs +ℤ pos nano) ≡ scale nano secs +ℤ nsecs
borrow_step secs nsecs = omega int_laws

carry_loop_lem :
    (fuel : ℕ) (secs nsecs : ℤ)
    → pos 0 ≤ℤ nsecs
    → pos_part nsecs < fuel * nano
    → IsNormal (carry_loop fuel secs nsecs)
      × (convert_time_spec_to_nano (carry_loop fuel secs nsecs) ≡ scale nano secs +ℤ nsecs)
unfolding carry_loop convert_time_spec_to_nano
carry_loop_lem zero secs nsecs h f = absurd (omega arith)
carry_loop_lem (suc fuel) secs nsecs h f = elim (Bool-cases (leb_ℤ (pos nano) nsecs)) [
  | inl e ↦
      rw (e, carry_loop)
        (let r =
            carry_loop_lem fuel (secs +ℤ pos 1) (nsecs -ℤ pos nano)
              (ground (arith, -ℤ_parts nsecs (pos nano)))
              (ground (arith, -ℤ_parts nsecs (pos nano))) in
          (r.0, r.1 ∙ carry_step secs nsecs))
  | inr e ↦ rw (e, carry_loop) ((h, ground arith), refl)
]

borrow_loop_lem :
    (fuel : ℕ) (secs nsecs : ℤ)
    → nsecs <ℤ pos nano
    → neg_part nsecs ≤ fuel * nano
    → IsNormal (borrow_loop fuel secs nsecs)
      × (convert_time_spec_to_nano (borrow_loop fuel secs nsecs) ≡ scale nano secs +ℤ nsecs)
unfolding borrow_loop convert_time_spec_to_nano
borrow_loop_lem zero secs nsecs h f = ((omega arith, h), refl)
borrow_loop_lem (suc fuel) secs nsecs h f = elim (Bool-cases (ltb_ℤ nsecs (pos 0))) [
  | inl e ↦
      rw (e, borrow_loop)
        (let r =
            borrow_loop_lem fuel (secs -ℤ pos 1) (nsecs +ℤ pos nano)
              (ground (arith, +ℤ_parts nsecs (pos nano)))
              (ground (arith, +ℤ_parts nsecs (pos nano))) in
          (r.0, r.1 ∙ borrow_step secs nsecs))
  | inr e ↦ rw (e, borrow_loop) ((ground arith, h), refl)
]

-- addTime of two normal time stamps is normal, and its nanoseconds are the sum of theirs.
pub add_time_lem :
    (a b : TimeSpec)
    → IsNormal a
    → IsNormal b
    → IsNormal (add_time a b)
      × (convert_time_spec_to_nano (add_time a b)
          ≡ convert_time_spec_to_nano a +ℤ convert_time_spec_to_nano b)
unfolding add_time
add_time_lem a b na nb =
    let n = a.tv_nsec +ℤ b.tv_nsec in
    let r =
      carry_loop_lem (pos_part n / nano + 1) (a.tv_sec +ℤ b.tv_sec) n
        (omega (arith, +ℤ_parts a.tv_nsec b.tv_nsec)) (omega arith) in
    (r.0, r.1 ∙ omega (int_laws, convert_parts))

-- subtractTime of two normal time stamps is normal, and its nanoseconds are the difference of theirs.
pub subtract_time_lem :
    (a b : TimeSpec)
    → IsNormal a
    → IsNormal b
    → IsNormal (subtract_time a b)
      × (convert_time_spec_to_nano (subtract_time a b)
          ≡ convert_time_spec_to_nano a -ℤ convert_time_spec_to_nano b)
unfolding subtract_time
subtract_time_lem a b na nb =
    let n = a.tv_nsec -ℤ b.tv_nsec in
    let r =
      borrow_loop_lem (neg_part n / nano + 1) (a.tv_sec -ℤ b.tv_sec) n
        (omega (arith, -ℤ_parts a.tv_nsec b.tv_nsec)) (omega arith) in
    (r.0, r.1 ∙ omega (int_laws, convert_parts))

quot-rem_nonneg :
    (x : ℤ)
    → pos 0 ≤ℤ x
    → (quot x nano ≡ pos (pos_part x / nano)) × (rem x nano ≡ pos (pos_part x % nano))
unfolding quot rem
quot-rem_nonneg (pos n) h = (refl, refl)
quot-rem_nonneg (negsuc n) h = absurd (omega arith)

split_nano_lem :
    (a : TimeSpec) (t : ℕ)
    → IsNormal a
    → IsNormal (split_nano a (pos t))
      × (convert_time_spec_to_nano (split_nano a (pos t)) ≡ convert_time_spec_to_nano a +ℤ pos t)
unfolding split_nano convert_time_spec_to_nano
split_nano_lem a t na =
    let n = a.tv_nsec +ℤ pos t in
    let q = quot-rem_nonneg n (omega (arith, +ℤ_parts a.tv_nsec (pos t))) in
    rw (q.0, q.1)
      ((omega arith, omega arith), omega (int_laws, one_sided n, +ℤ_parts a.tv_nsec (pos t)))

-- The bound asserted by addTimeNano, as a case of the time-out.
abbrev pub IsTimeOut : ℤ → Type 0
IsTimeOut t = (pos 0 ≤ℤ t) × (t ≤ℤ pos max_time_out)

-- addTimeNano: for a time-out from 0 to MAX_TIME_OUT the result is normal and lies that many
-- nanoseconds later.
pub add_time_nano_lem :
    (a : TimeSpec) (t : ℤ)
    → IsNormal a
    → IsTimeOut t
    → (b : TimeSpec) × (add_time_nano a t ≡ some b)
      × IsNormal b
      × (convert_time_spec_to_nano b ≡ convert_time_spec_to_nano a +ℤ t)
unfolding add_time_nano
add_time_nano_lem a (pos t) na h =
    (split_nano a (pos t), ground arith, (split_nano_lem a t na).0, (split_nano_lem a t na).1)
add_time_nano_lem a (negsuc t) na h = absurd (omega arith)

-- subtractTimeNano: for a time-out from 0 to MAX_TIME_OUT the result is normal and lies that many
-- nanoseconds earlier.
pub subtract_time_nano_lem :
    (a : TimeSpec) (t : ℤ)
    → IsNormal a
    → IsTimeOut t
    → (b : TimeSpec) × (subtract_time_nano a t ≡ some b)
      × IsNormal b
      × (convert_time_spec_to_nano b ≡ convert_time_spec_to_nano a -ℤ t)
unfolding subtract_time_nano
subtract_time_nano_lem a t na h =
    let n = a.tv_nsec -ℤ t in
    let r =
      borrow_loop_lem (neg_part n / nano + 1) a.tv_sec n (omega (arith, -ℤ_parts a.tv_nsec t))
        (omega arith) in
    (
      borrow_loop (neg_part n / nano + 1) a.tv_sec n,
      ground arith,
      r.0,
      r.1 ∙ omega (int_laws, convert_parts),
    )

either_known :
    (b : Bool) (x y : TimeSpec) → (z : TimeSpec) × ((if b then some x else some y) ≡ some z)
either_known true x y = (x, refl)
either_known false x y = (y, refl)

-- addTimeNano has a result for every time-out up to MAX_TIME_OUT.
pub add_time_nano-known :
    (a : TimeSpec) (t : ℤ) → t ≤ℤ pos max_time_out → (b : TimeSpec) × (add_time_nano a t ≡ some b)
unfolding add_time_nano
add_time_nano-known a t h =
    let e =
      either_known (eqb_ℤ t infinite_time_value) (split_nano a (pos max_time_out))
        (split_nano a t) in
    let ok : leb_ℤ t (pos max_time_out) ≡ true = ground (arith, h) in
    (
      e.0,
      ap
            (λ b.
              if b
              then (if eqb_ℤ t infinite_time_value
                  then some (split_nano a (pos max_time_out))
                  else some (split_nano a t))
              else none)
            ok
          ∙ e.1,
    )

-- addTimeNano takes an infinite time-out for MAX_TIME_OUT.
pub add_time_nano-infinite :
    (a : TimeSpec) → add_time_nano a infinite_time_value ≡ add_time_nano a (pos max_time_out)
unfolding add_time_nano
add_time_nano-infinite a = refl

-- computeDeadlineTimeSpecs agrees with addTimeNano at every argument.
pub compute_deadline-eq-add_time_nano :
    (a : TimeSpec) (t : ℤ) → compute_deadline_time_specs a t ≡ add_time_nano a t
unfolding compute_deadline_time_specs add_time_nano
compute_deadline-eq-add_time_nano a t = ground arith

-- subtractTime2 of two normal time stamps is their signed distance in nanoseconds.
pub subtract_time2_lem :
    (a b : TimeSpec)
    → IsNormal a
    → IsNormal b
    → subtract_time2 a b ≡ convert_time_spec_to_nano a -ℤ convert_time_spec_to_nano b
unfolding subtract_time2 convert_time_spec_to_nano
subtract_time2_lem a b na nb = eq_of_parts _ _ (omega int_laws) ∙ (subtract_time_lem a b na nb).1

-- compareTime of two normal time stamps is true exactly when the first is no later.
pub compare_time_lem :
    (a b : TimeSpec)
    → IsNormal a
    → IsNormal b
    → (compare_time a b ≡ true) ↔ (convert_time_spec_to_nano a ≤ℤ convert_time_spec_to_nano b)
unfolding compare_time
compare_time_lem a b na nb = ground (arith, convert_parts a, convert_parts b)

-- compareTimeLess of two normal time stamps is true exactly when the first is earlier.
pub compare_time_less_lem :
    (a b : TimeSpec)
    → IsNormal a
    → IsNormal b
    → (compare_time_less a b ≡ true) ↔ (convert_time_spec_to_nano a <ℤ convert_time_spec_to_nano b)
unfolding compare_time_less
compare_time_less_lem a b na nb = ground (arith, convert_parts a, convert_parts b)
