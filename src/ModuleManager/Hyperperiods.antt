-- ===== src/ModuleManager/Hyperperiods.antt =====
-- Any number of hyperperiods of the two loops over a schedule.
use mathlib.Core.List.{append-nil}
use arinc653emulator.Prelude.{
  ℕ, zero, suc, ℤ, pos, ◌+ℤ◌, ◌≤ℤ◌, int_laws, Bool, Bool-cases, true, false, String, Option, none,
  some, List, [], ◌∷◌, ◌++◌, ◌≡◌, refl, ap, sym, ◌∙◌, inl, inr,
}
use arinc653emulator.Types.{max_time_out}
use arinc653emulator.Time.{TimeSpec, convert_time_spec_to_nano}
use arinc653emulator.Time.Nanoseconds.{IsNormal}
use arinc653emulator.ModuleManager.Defs.{
  SchedulingTuple, Module, Act, accepted, faults, sleep_until, echo, shut_down, joined,
  check_schedule, run_windows, goes_on, run_frames, run_without_system_manager,
  run_system_module_manager,
}
use arinc653emulator.ModuleManager.Timeline.{
  IsDisciplined, Window, windows, Leads, Leads-append, Leads-nil, sleep-Leads, Plays, joined-Plays,
  echo-Leads, shut_down-Leads,
}
use arinc653emulator.ModuleManager.Frames.{
  AllWindows, AllReady, planned, added, Passes, run_windows-Passes, ends_within,
}

module _ (eq : String → String → Bool) (m : Module) where
  -- The windows that some hyperperiods plan, from the start of the first
  abbrev pub planned_frames : ℕ → ℕ → ℤ → List Window
  planned_frames zero n start = []
  planned_frames (suc k) n start = elim (goes_on m.max_number_of_frames n) [
    | false ↦ []
    | true ↦
        planned eq m start m.scheduling_vector
        ++ planned_frames k (suc n) (start +ℤ m.major_frame_size)
  ]

  -- A schedule that the constructor accepted, on partitions and channels that are there
  pub record IsSound : Type 0 where
    pub checked : check_schedule m.major_frame_size m.scheduling_vector ≡ accepted
    pub not_negative : AllWindows m.scheduling_vector
    pub bounded : m.major_frame_size ≤ℤ pos max_time_out
    pub ready : AllReady eq m m.scheduling_vector

  -- One pass over the whole vector, which is not empty
  pass_lem :
      (start : TimeSpec) (vector : List SchedulingTuple)
      → IsNormal start
      → m.major_frame_size ≤ℤ pos max_time_out
      → check_schedule m.major_frame_size vector ≡ accepted
      → AllWindows vector
      → AllReady eq m vector
      → Passes eq m
          (convert_time_spec_to_nano start)
          (convert_time_spec_to_nano start)
          (run_windows eq m start vector)
          m.major_frame_size
          (planned eq m (convert_time_spec_to_nano start) vector)
        × (pos 0 ≤ℤ m.major_frame_size)
  unfolding check_schedule
  pass_lem start [] normal short ok w ready = let e : faults ≡ accepted = ok in cc
  pass_lem start (t ∷ ts) normal short ok w ready = (
    run_windows-Passes eq m start (convert_time_spec_to_nano start) t ts normal short ok w ready
        (omega int_laws),
    omega (int_laws, ends_within m.major_frame_size t ts w ok),
  )

  module _ (begin end : List Act) where
    -- What goes before each hyperperiod and after the last one takes no time.
    module _ (first : (a : ℤ) → Leads a begin a []) (last : (a : ℤ) → Leads a end a [])
        (sound : IsSound) where
      one_frame :
          (start next : TimeSpec) (k n : ℕ) (c : ℤ) (given : List Window)
          → Passes eq m
              (convert_time_spec_to_nano start)
              (convert_time_spec_to_nano start)
              (run_windows eq m start m.scheduling_vector)
              m.major_frame_size
              (planned eq m (convert_time_spec_to_nano start) m.scheduling_vector)
          → convert_time_spec_to_nano next ≡ convert_time_spec_to_nano start +ℤ m.major_frame_size
          → Plays
              (convert_time_spec_to_nano next)
              (run_frames eq begin end m k (suc n) next)
              c
              given
          → Plays
              (convert_time_spec_to_nano start)
              (joined (some begin) (
                joined (run_windows eq m start m.scheduling_vector) (
                  joined
                    (some (sleep_until next ∷ []))
                    (run_frames eq begin end m k (suc n) next))))
              c
              (planned eq m (convert_time_spec_to_nano start) m.scheduling_vector ++ given)
      one_frame start next k n c given (b, play, within) en rest =
          let s = convert_time_spec_to_nano start in
          let e = convert_time_spec_to_nano next in
          let plan = planned eq m s m.scheduling_vector in
          joined-Plays eq s s c (some begin) _ [] (plan ++ given) (begin, refl, first s)
            (joined-Plays eq s b c (run_windows eq m start m.scheduling_vector) _ plan given play (
              joined-Plays eq b e c (some (sleep_until next ∷ []))
                (run_frames eq begin end m k (suc n) next) [] given
                (sleep_until next ∷ [], refl, sleep-Leads b next (rw en within)) rest))

      frames_lem :
          (k n : ℕ) (start : TimeSpec)
          → IsNormal start
          → (c : ℤ) × Plays
              (convert_time_spec_to_nano start)
              (run_frames eq begin end m k n start)
              c
              (planned_frames k n (convert_time_spec_to_nano start))
      unfolding run_frames
      frames_lem zero n start normal =
          (convert_time_spec_to_nano start, ([], refl, Leads-nil (convert_time_spec_to_nano start)))
      frames_lem (suc k) n start normal = elim (Bool-cases (goes_on m.max_number_of_frames n)) [
        | inr over ↦ (
          convert_time_spec_to_nano start,
          rw (run_frames, over)
              (rw (planned_frames, over) (end, refl, last (convert_time_spec_to_nano start))),
        )
        | inl more ↦
            let (pass, positive) =
              pass_lem start m.scheduling_vector normal sound.bounded sound.checked
                sound.not_negative sound.ready in
            let (next, e, normal', en) =
              added eq m start m.major_frame_size normal positive sound.bounded in
            let (c, rest) = frames_lem k (suc n) next normal' in
            (
              c,
              rw (run_frames, more, e)
                  (rw (planned_frames, more, ← en)
                    (one_frame start next k n c
                      (planned_frames k (suc n) (convert_time_spec_to_nano next)) pass en rest)),
            )
      ]

  -- The actions of a loop over the hyperperiods as a whole
  abbrev pub RunsAsPlanned : TimeSpec → ℕ → Option (List Act) → Type 0
  RunsAsPlanned start k o =
      (acts : List Act) × (o ≡ some acts)
      × IsDisciplined (convert_time_spec_to_nano start) none acts
      × (windows (convert_time_spec_to_nano start) none acts
          ≡ planned_frames k 0 (convert_time_spec_to_nano start))

  as_planned :
      (start : TimeSpec) (k : ℕ) (o : Option (List Act)) (c : ℤ)
      → Plays
          (convert_time_spec_to_nano start)
          o
          c
          (planned_frames k 0 (convert_time_spec_to_nano start))
      → RunsAsPlanned start k o
  unfolding windows
  as_planned start k o c (acts, e, leads) =
      let s = convert_time_spec_to_nano start in
      (
        acts,
        e,
        rw (← append-nil acts) (leads.disciplined [] refl),
        ap (λ l. windows s none l) (sym (append-nil acts))
            ∙ leads.gives []
            ∙ append-nil (planned_frames k 0 s),
      )

  -- RUN_WITHOUT_SYSTEM_MANAGER on a sound schedule, over any number k of hyperperiods: it never
  -- dereferences a null pointer and no assertion fails. At most one partition runs at a time, channels are
  -- moved only while none runs, and the clock is never waited for backwards. Every partition gets exactly
  -- the windows that the schedule plans, in hyperperiods that follow one another without drift, as many
  -- as k and the limit allow.
  pub run_without_system_manager_lem :
      (k : ℕ) (start : TimeSpec)
      → IsNormal start
      → IsSound
      → RunsAsPlanned start k (run_without_system_manager eq m k start)
  unfolding run_without_system_manager
  run_without_system_manager_lem k start normal sound =
      let (c, play) =
        frames_lem [] (shut_down ∷ []) Leads-nil shut_down-Leads sound k 0 start normal in
      as_planned start k (run_frames eq [] (shut_down ∷ []) m k 0 start) c play

  -- RUN_SYSTEM_MODULE_MANAGER on a sound schedule runs as planned in the same way.
  pub run_system_module_manager_lem :
      (k : ℕ) (start : TimeSpec)
      → IsNormal start
      → IsSound
      → RunsAsPlanned start k (run_system_module_manager eq m k start)
  unfolding run_system_module_manager
  run_system_module_manager_lem k start normal sound =
      let (c, play) =
        frames_lem (echo false ∷ []) (echo true ∷ shut_down ∷ []) (λ a. echo-Leads a false)
          (λ a.
            Leads-append a a a (echo true ∷ []) (shut_down ∷ []) [] [] (echo-Leads a true)
              (shut_down-Leads a))
          sound k 0 start normal in
      as_planned start k (run_frames eq (echo false ∷ []) (echo true ∷ shut_down ∷ []) m k 0 start)
        c play
