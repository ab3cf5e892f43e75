-- ===== src/ModuleManager/Checking.antt =====
-- The check of the schedule against the windows being disjoint and within the hyperperiod.
use arinc653emulator.Prelude.{
  ℤ, ◌≤ℤ◌, ltb_ℤ, int_laws, Bool-cases, List, [], ◌∷◌, ◌≡◌, refl, ◌↔◌, inl, inr, arith,
}
use arinc653emulator.ModuleManager.Defs.{SchedulingTuple, accepted, window_end, check_schedule}
use arinc653emulator.ModuleManager.Frames.{AllWindows, accepted_one, accepted_more, ends_within}

-- Each window of a list begins at or after a time, and ends by the end of the frame.
abbrev pub AllAfter : ℤ → List SchedulingTuple → Type 0
AllAfter time [] = Unit {0}
AllAfter time (t ∷ ts) = (time ≤ℤ t.offset) × AllAfter time ts

abbrev pub AllWithin : ℤ → List SchedulingTuple → Type 0
AllWithin frame [] = Unit {0}
AllWithin frame (t ∷ ts) = (window_end t ≤ℤ frame) × AllWithin frame ts

-- Every window ends before every later one begins.
abbrev pub AllApart : List SchedulingTuple → Type 0
AllApart [] = Unit {0}
AllApart (t ∷ ts) = AllAfter (window_end t) ts × AllApart ts

AllAfter-le : (a b : ℤ) (ts : List SchedulingTuple) → a ≤ℤ b → AllAfter b ts → AllAfter a ts
AllAfter-le a b [] h k = tt
AllAfter-le a b (t ∷ ts) h k = (omega (arith, k.0), AllAfter-le a b ts h k.1)

apart_of_accepted :
    (frame : ℤ) (t : SchedulingTuple) (ts : List SchedulingTuple)
    → AllWindows (t ∷ ts)
    → check_schedule frame (t ∷ ts) ≡ accepted
    → AllApart (t ∷ ts) × AllWithin frame (t ∷ ts)
apart_of_accepted frame t [] w h = ((tt, tt), (accepted_one frame t h, tt))
apart_of_accepted frame t (u ∷ ts) w h =
    let (before, ok) = accepted_more frame t u ts h in
    let (apart, within) = apart_of_accepted frame u ts w.1 ok in
    (
      ((before, AllAfter-le (window_end t) (window_end u) ts (omega int_laws) apart.0), apart),
      (ends_within frame t (u ∷ ts) w h, within),
    )

accepted_of_apart :
    (frame : ℤ) (t : SchedulingTuple) (ts : List SchedulingTuple)
    → AllApart (t ∷ ts)
    → AllWithin frame (t ∷ ts)
    → check_schedule frame (t ∷ ts) ≡ accepted
unfolding check_schedule
accepted_of_apart frame t [] apart within = elim (Bool-cases (ltb_ℤ frame (window_end t))) [
  | inl late ↦ absurd (ground (arith, late, within.0))
  | inr fine ↦ rw fine refl
]
accepted_of_apart frame t (u ∷ ts) apart within =
    elim (Bool-cases (ltb_ℤ u.offset (window_end t))) [
      | inl early ↦ absurd (ground (arith, early, apart.0.0))
      | inr fine ↦ rw fine (accepted_of_apart frame u ts apart.1 within.1)
    ]

-- A schedule of windows whose offsets and durations are not negative passes the check exactly if every
-- window ends before each later one begins, and all end within the hyperperiod.
pub check_schedule_lem :
    (frame : ℤ) (t : SchedulingTuple) (ts : List SchedulingTuple)
    → AllWindows (t ∷ ts)
    → (check_schedule frame (t ∷ ts) ≡ accepted) ↔ (AllApart (t ∷ ts) × AllWithin frame (t ∷ ts))
check_schedule_lem frame t ts w =
    (apart_of_accepted frame t ts w, λ h. accepted_of_apart frame t ts h.0 h.1)
