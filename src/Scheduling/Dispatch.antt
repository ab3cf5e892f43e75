-- ===== src/Scheduling/Dispatch.antt =====
-- The loop over the sorted processes.

use arinc653emulator.Prelude.{
  ℕ, ◌≡◌, ◌≢◌, refl, ap, ◌∙◌, true, false, some, Option-cases, Option, inl, inr, Bool-cases, List,
  [], ◌∷◌, ◌++◌, get_elem?,
}
use arinc653emulator.Time.{TimeSpec, compare_time}
use arinc653emulator.Partition.{Descriptor, Partition}
use arinc653emulator.BlackboardServices.{Run, done, aborts, faults}
use arinc653emulator.BlackboardServices.Integrity.{Ends}
use arinc653emulator.Scheduling.Kept.{Kept}
use arinc653emulator.Scheduling.Steps.{Reports, ◌>>=◌, process_step, dispatch}
use arinc653emulator.Scheduling.Stepping.{Ends-bind, process_step-Kept}

module _ (j : ℕ) (d : Descriptor) (reports : Reports) where
  -- A process that is due is another one than a process that is not.
  due_ne :
      (now : TimeSpec) (id : ℕ) (x : Descriptor) (p : Partition)
      → get_elem? p.processes id ≡ some x
      → compare_time x.critical_time now ≡ true
      → compare_time d.critical_time now ≡ false
      → Kept j d p
      → id ≢ j
  due_ne now id x p g t f k same =
      let critical : k.0.critical_time ≡ d.critical_time = ap (λ y. y.critical_time) k.2 in cc

  pub dispatch-Kept :
      (threads : ℕ → Option ℕ) (clock : ℕ → TimeSpec) (now : TimeSpec) (ids : List ℕ)
      (p : Partition)
      → compare_time d.critical_time now ≡ false
      → Kept j d p
      → Ends (Kept j d) (dispatch reports threads clock now ids p)
  unfolding dispatch
  dispatch-Kept threads clock now [] p f k = k
  dispatch-Kept threads clock now (id ∷ ids) p f k =
      elim (Option-cases (get_elem? p.processes id)) [
        | inl o ↦ rw (dispatch, o) record {}
        | inr x ↦ elim (Bool-cases (compare_time x.0.critical_time now)) [
          | inr o ↦ rw (dispatch, x.1, o) k
          | inl t ↦
              rw (dispatch, x.1, t)
                (Ends-bind (Kept j d) (Kept j d)
                  (process_step reports (threads id) now (clock id) id x.0 p)
                  (λ q. dispatch reports threads clock now ids q)
                  (process_step-Kept j d reports (threads id) now (clock id) id x.0 p
                    (due_ne now id x.0 p x.1 t f k) k)
                  (λ q h. dispatch-Kept threads clock now ids q f h))
        ]
      ]

  stops_at :
      (threads : ℕ → Option ℕ) (clock : ℕ → TimeSpec) (now : TimeSpec) (ids : List ℕ)
      (p : Partition)
      → compare_time d.critical_time now ≡ false
      → Kept j d p
      → dispatch reports threads clock now (j ∷ ids) p ≡ done p
  unfolding dispatch
  stops_at threads clock now ids p f k =
      let critical : k.0.critical_time ≡ d.critical_time = ap (λ y. y.critical_time) k.2 in
      let late : compare_time k.0.critical_time now ≡ false =
        ap (λ c. compare_time c now) critical ∙ f in
      rw (dispatch, k.1, late) refl

  bind-cong :
      {A B : Type 0} (P : A → Type 0) (m : Run A) (f g : A → Run B)
      → Ends P m
      → ((a : A) → P a → f a ≡ g a)
      → (m >>= f) ≡ (m >>= g)
  bind-cong P (done a) f g h e = e a h
  bind-cong P aborts f g h e = refl
  bind-cong P faults f g h e = refl

  -- Where the process at `j` is not due, the loop over the sorted processes does what the loop over
  -- those before `j` does.
  dispatch-cut :
      (threads : ℕ → Option ℕ) (clock : ℕ → TimeSpec) (now : TimeSpec) (ids rest : List ℕ)
      (p : Partition)
      → compare_time d.critical_time now ≡ false
      → Kept j d p
      → dispatch reports threads clock now (ids ++ (j ∷ rest)) p
        ≡ dispatch reports threads clock now ids p
  unfolding dispatch
  dispatch-cut threads clock now [] rest p f k = stops_at threads clock now rest p f k
  dispatch-cut threads clock now (id ∷ ids) rest p f k =
      elim (Option-cases (get_elem? p.processes id)) [
        | inl o ↦ rw (dispatch, o) refl
        | inr x ↦ elim (Bool-cases (compare_time x.0.critical_time now)) [
          | inr o ↦ rw (dispatch, x.1, o) refl
          | inl t ↦
              rw (dispatch, x.1, t)
                (bind-cong (Kept j d) (process_step reports (threads id) now (clock id) id x.0 p) _
                  _
                  (process_step-Kept j d reports (threads id) now (clock id) id x.0 p
                    (due_ne now id x.0 p x.1 t f k) k)
                  (λ q h. dispatch-cut threads clock now ids rest q f h))
        ]
      ]

-- In the loop of the scheduler over the sorted processes, a process j whose critical time is later than
-- the time of the round ends the round: the round is that over the processes before j, and it leaves j
-- as it was, but for the lists of the locks that j holds.
pub dispatch_lem :
    (reports : Reports) (threads : ℕ → Option ℕ) (clock : ℕ → TimeSpec) (now : TimeSpec)
    (ids rest : List ℕ) (j : ℕ) (d : Descriptor) (p : Partition)
    → get_elem? p.processes j ≡ some d
    → compare_time d.critical_time now ≡ false
    → (dispatch reports threads clock now (ids ++ (j ∷ rest)) p
        ≡ dispatch reports threads clock now ids p)
      × Ends (Kept j d) (dispatch reports threads clock now ids p)
dispatch_lem reports threads clock now ids rest j d p g f = (
  dispatch-cut j d reports threads clock now ids rest p f (d, g, refl),
  dispatch-Kept j d reports threads clock now ids p f (d, g, refl),
)
