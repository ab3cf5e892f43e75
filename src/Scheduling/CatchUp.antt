-- ===== src/Scheduling/CatchUp.antt =====
-- The loop that keeps a process in phase when it missed a soft deadline.
use mathlib.Core.Path.{subst}
use arinc653emulator.Prelude.{
  ℕ, zero, suc, ◌+◌, ◌*◌, ◌≤◌, ◌<◌, ℤ, pos, pos_part, ◌+ℤ◌, ◌-ℤ◌, ◌≤ℤ◌, ◌<ℤ◌, ◌≡◌, refl, sym, ap,
  ◌∙◌, arith, false, Bool-cases, some, int_laws, inl, inr, ◌⊎◌,
}
use arinc653emulator.Types.{max_time_out}
use arinc653emulator.Time.{TimeSpec, convert_time_spec_to_nano, compare_time}
use arinc653emulator.Time.Nanoseconds.{IsNormal, compare_time_lem, add_time_nano_lem}
use arinc653emulator.Scheduling.Steps.{catch_up, catch_up_fuel}

-- From the release `next`, whole periods lead to the first release after `critical`.
pub record FirstAfter (period : ℕ) (critical next r : TimeSpec) : Type 0 where
  pub normal : IsNormal r
  pub periods : ℕ
  pub reached :
      convert_time_spec_to_nano r ≡ convert_time_spec_to_nano next +ℤ pos (periods * period)
  pub later : convert_time_spec_to_nano critical <ℤ convert_time_spec_to_nano r
  pub first :
      (periods ≡ 0)
      ⊎ (convert_time_spec_to_nano r ≤ℤ convert_time_spec_to_nano critical +ℤ pos period)

not_later :
    (a b : TimeSpec)
    → IsNormal a
    → IsNormal b
    → compare_time a b ≡ false
    → convert_time_spec_to_nano b <ℤ convert_time_spec_to_nano a
not_later a b na nb f = ground (arith, compare_time_lem a b na nb)

pub plus_zero : (a : ℤ) (p : ℕ) → a ≡ a +ℤ pos (0 * p)
plus_zero a p = omega int_laws

add_twice : (a : ℤ) (p q : ℕ) → a +ℤ pos p +ℤ pos q ≡ a +ℤ pos (p + q)
add_twice a p q = omega int_laws

suc_times : (k p : ℕ) → p + k * p ≡ suc k * p
suc_times k p = grind arith

pub one_more :
    (a b r : ℤ) (k p : ℕ) → b ≡ a +ℤ pos p → r ≡ b +ℤ pos (k * p) → r ≡ a +ℤ pos (suc k * p)
one_more a b r k p e f =
    f ∙ ap (λ x. x +ℤ pos (k * p)) e ∙ add_twice a p (k * p) ∙ ap (λ x. a +ℤ pos x) (suc_times k p)

le_plus : (n c : ℤ) (p : ℕ) → n ≤ℤ c → n +ℤ pos p ≤ℤ c +ℤ pos p
le_plus n c p h = omega int_laws

-- The period that was added is the last if the loop ends after it.
first_of_next :
    (period periods : ℕ) (c n b r : ℤ)
    → n ≤ℤ c
    → b ≡ n +ℤ pos period
    → r ≡ b +ℤ pos (periods * period)
    → (periods ≡ 0) ⊎ (r ≤ℤ c +ℤ pos period)
    → r ≤ℤ c +ℤ pos period
first_of_next period periods c n b r h e f (inr k) = k
first_of_next period periods c n b r h e f (inl k) =
    let same = f ∙ ap (λ x. b +ℤ pos (x * period)) k ∙ sym (plus_zero b period) ∙ e in
    subst (λ x. x ≤ℤ c +ℤ pos period) (sym same) (le_plus n c period h)

-- A round that ends the loop
ends_here :
    (fuel period : ℕ) (critical next : TimeSpec)
    → IsNormal critical
    → IsNormal next
    → compare_time next critical ≡ false
    → (r : TimeSpec) × (catch_up (suc fuel) (pos period) critical next ≡ some r)
      × FirstAfter period critical next r
unfolding catch_up
ends_here fuel period critical next nc nn f = (
  next,
  rw (catch_up, f) refl,
  record {
    normal = nn;
    periods = 0;
    reached = plus_zero (convert_time_spec_to_nano next) period;
    later = not_later next critical nn nc f;
    first = inl refl;
  },
)

no_fuel : (c n : ℤ) → c <ℤ n +ℤ pos 0 → n ≤ℤ c → ⊥
no_fuel c n h k = omega int_laws

less_fuel : (c n b : ℤ) (f p : ℕ) → c <ℤ n +ℤ pos (suc f) → b ≡ n +ℤ pos p → 0 < p → c <ℤ b +ℤ pos f
less_fuel c n b f p h e z = subst (λ x. c <ℤ x +ℤ pos f) (sym e) (omega int_laws)

enough : (c n : ℤ) → c <ℤ n +ℤ pos (pos_part (c -ℤ n) + 1)
enough c n = omega int_laws

catch_up_loop :
    (fuel period : ℕ) (critical next : TimeSpec)
    → IsNormal critical
    → IsNormal next
    → 0 < period
    → period ≤ max_time_out
    → convert_time_spec_to_nano critical <ℤ convert_time_spec_to_nano next +ℤ pos fuel
    → (r : TimeSpec) × (catch_up (suc fuel) (pos period) critical next ≡ some r)
      × FirstAfter period critical next r
unfolding catch_up
catch_up_loop zero period critical next nc nn z m e =
    elim (Bool-cases (compare_time next critical)) [
      | inr f ↦ ends_here 0 period critical next nc nn f
      | inl t ↦ absurd (
          no_fuel (convert_time_spec_to_nano critical) (convert_time_spec_to_nano next) e
            ((compare_time_lem next critical nn nc).0 t))
    ]
catch_up_loop (suc fuel) period critical next nc nn z m e =
    elim (Bool-cases (compare_time next critical)) [
      | inr f ↦ ends_here (suc fuel) period critical next nc nn f
      | inl t ↦
          let b = add_time_nano_lem next (pos period) nn (omega arith, omega arith) in
          let r = catch_up_loop fuel period critical b.0 nc b.2 z m (
            less_fuel (convert_time_spec_to_nano critical) (convert_time_spec_to_nano next)
              (convert_time_spec_to_nano b.0) fuel period e b.3 z) in
          (
            r.0,
            rw (catch_up, t, b.1) r.1,
            record {
              normal = r.2.normal;
              periods = suc r.2.periods;
              reached =
                  one_more (convert_time_spec_to_nano next) (convert_time_spec_to_nano b.0)
                    (convert_time_spec_to_nano r.0) r.2.periods period b.3 r.2.reached;
              later = r.2.later;
              first = inr (
                  first_of_next period r.2.periods (convert_time_spec_to_nano critical)
                    (convert_time_spec_to_nano next) (convert_time_spec_to_nano b.0)
                    (convert_time_spec_to_nano r.0) ((compare_time_lem next critical nn nc).0 t) b.3
                    r.2.reached r.2.first);
            },
          )
    ]

-- The loop ends for every period from 1 to MAX_TIME_OUT: from normal time stamps it reaches the first
-- of the releases next, next + period, next + 2 period, … that is later than the critical time.
pub catch_up_lem :
    (period : ℕ) (critical next : TimeSpec)
    → IsNormal critical
    → IsNormal next
    → 0 < period
    → period ≤ max_time_out
    → (r : TimeSpec) × (catch_up (catch_up_fuel critical next) (pos period) critical next ≡ some r)
      × FirstAfter period critical next r
catch_up_lem period critical next nc nn z m =
    let n = pos_part (convert_time_spec_to_nano critical -ℤ convert_time_spec_to_nano next) in
    let r =
      catch_up_loop (n + 1) period critical next nc nn z m
        (enough (convert_time_spec_to_nano critical) (convert_time_spec_to_nano next)) in
    let fuel : n + 2 ≡ suc (n + 1) = omega arith in
    (r.0, ap (λ k. catch_up k (pos period) critical next) fuel ∙ r.1, r.2)
