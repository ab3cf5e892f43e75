-- ===== src/StateMachine/Points.antt =====
-- The points of entry and exit of a transition, from the paths of its source and target.
use arinc653emulator.Prelude.{
  ℕ, Bool, Bool-cases, true, false, some, List, [], ◌∷◌, ◌++◌, ◌≡◌, ◌≢◌, refl, ap, ◌∙◌, ◌⊎◌, inl,
  inr, get_elem?, length, if◌then◌else◌,
}
use arinc653emulator.StateMachine.Model.{State, Transition, Machine}
use arinc653emulator.StateMachine.Tree.{AllBelow, get_elem?_of_lt}
use arinc653emulator.StateMachine.Paths.{same_pointer, exit_point, with_points}
use arinc653emulator.StateMachine.Parting.{
  Part, first_difference-append, get_elem?-append, drop-append, exit_point_end, exit_point_without,
  exit_point_across, exit_point_between, Part-nil, split, snoc, AllBelow_rest,
  element_before-append,
}

-- The three courses of a transition from source, by where the paths of its source and its target part:
-- the state to leave, what is put before the states to enter, and whether it crosses between parallel
-- machines.
pub data Course (m : Machine) (source : ℕ) (common xs ys : List ℕ)
    : ℕ → List ℕ → Bool → Type 0 where
  -- one path is the beginning of the other
  along : (xs ≡ []) ⊎ (ys ≡ []) → Course m source common xs ys source [] false
  -- the paths part at two states of one region
  across :
      (a b : ℕ) (xs' ys' : List ℕ) (σ γ : State)
      → xs ≡ a ∷ xs'
      → ys ≡ b ∷ ys'
      → a ≢ b
      → get_elem? m.states a ≡ some σ
      → get_elem? m.states b ≡ some γ
      → same_pointer σ.region γ.region ≡ true
      → Course m source common xs ys a [] false
  -- the paths part at states of two regions of one state
  between :
      (a b : ℕ) (xs' ys' : List ℕ) (σ γ : State) (start : List ℕ) (e : ℕ)
      → xs ≡ a ∷ xs'
      → ys ≡ b ∷ ys'
      → a ≢ b
      → get_elem? m.states a ≡ some σ
      → get_elem? m.states b ≡ some γ
      → same_pointer σ.region γ.region ≡ false
      → common ≡ start ++ e ∷ []
      → Course m source common xs ys e (e ∷ []) true

module _ (m : Machine) (τ : Transition) (source target : ℕ) where
  -- The transition as its course has it
  abbrev pub by_course : ℕ → List ℕ → Bool → List ℕ → Transition
  by_course e before parallel ys = record τ {
    state_to_exit = some e;
    between_parallel_machines = parallel;
    states_to_enter = (before ++ ys) ++ target ∷ [];
  }

  -- The loop of computeEntryAndExitPoints, once it has stopped
  stopped :
      (common xs ys : List ℕ) (e : ℕ) (parallel : Bool)
      → Part xs ys
      → τ.between_parallel_machines ≡ false
      → τ.states_to_enter ≡ []
      → exit_point m source (common ++ xs) (length common) (get_elem? xs 0) (get_elem? ys 0)
        ≡ some (e, parallel)
      → with_points m τ source target (common ++ xs) (common ++ ys)
        ≡ some (by_course e (if parallel then e ∷ [] else []) parallel ys)
  unfolding with_points
  stopped common xs ys e parallel part fresh none_yet exit =
      rw
        (
          first_difference-append common xs ys part,
          get_elem?-append common xs,
          get_elem?-append common ys,
          exit,
          drop-append common ys,
        )
        (simp (fresh, none_yet))

module _ (m : Machine) (τ : Transition) (source target : ℕ) where
  -- Where two paths of one machine part, one of the courses applies.
  find-Course :
      (root : ℕ) (common xs ys : List ℕ)
      → Part xs ys
      → AllBelow (length m.states) xs
      → AllBelow (length m.states) ys
      → (e : ℕ) × (before : List ℕ) × (parallel : Bool) × Course m source
          (root ∷ common)
          xs
          ys
          e
          before
          parallel
  find-Course root common [] ys part hx hy = (source, [], false, along (inl refl))
  find-Course root common (a ∷ xs) [] part hx hy = (source, [], false, along (inr refl))
  find-Course root common (a ∷ xs) (b ∷ ys) part hx hy =
      let (σ, ea) = get_elem?_of_lt m.states a hx.0 in
      let (γ, eb) = get_elem?_of_lt m.states b hy.0 in
      let (start, e, ec) = snoc root common in
      elim (Bool-cases (same_pointer σ.region γ.region)) [
        | inl same ↦ (a, [], false, across a b xs ys σ γ refl refl part ea eb same)
        | inr differ ↦
            (e, e ∷ [], true, between a b xs ys σ γ start e refl refl part ea eb differ ec)
      ]

  course_lem :
      (common xs ys : List ℕ) (e : ℕ) (before : List ℕ) (parallel : Bool)
      → Course m source common xs ys e before parallel
      → τ.between_parallel_machines ≡ false
      → τ.states_to_enter ≡ []
      → with_points m τ source target (common ++ xs) (common ++ ys)
        ≡ some (by_course m τ source target e before parallel ys)
  course_lem common xs ys e before parallel (along (inl ex)) fresh none_yet = rw ex (
      stopped m τ source target common [] ys source false tt fresh none_yet
        (exit_point_end m source (common ++ []) (length common) (get_elem? ys 0)))
  course_lem common xs ys e before parallel (along (inr ey)) fresh none_yet = rw ey (
      stopped m τ source target common xs [] source false (Part-nil xs) fresh none_yet
        (exit_point_without m source (common ++ xs) (length common) xs))
  course_lem common xs ys e before parallel (across a b xs' ys' σ γ ex ey ne ea eb same) fresh
        none_yet =
      rw (ex, ey)
        (stopped m τ source target common (a ∷ xs') (b ∷ ys') a false ne fresh none_yet
          (exit_point_across m source (common ++ a ∷ xs') (length common) a b σ γ ea eb same))
  course_lem common xs ys e before parallel
        (between a b xs' ys' σ γ start x ex ey ne ea eb differ ec) fresh none_yet =
      rw (ex, ey, ec)
        (stopped m τ source target (start ++ x ∷ []) (a ∷ xs') (b ∷ ys') x true ne fresh none_yet (
          exit_point_between m source ((start ++ x ∷ []) ++ a ∷ xs') (length (start ++ x ∷ [])) a b
            x σ γ ea eb differ (element_before-append start x (a ∷ xs'))))

  -- computeEntryAndExitPoints on a new transition, whose source and target have paths of valid states from
  -- one root, gives a result, so that it never reads the element before the first. The paths have a common
  -- beginning, and the transition has the exit of its course; the states to enter are the rest of the path
  -- of the target and the target, after the last common state where the course crosses between parallel
  -- machines.
  pub with_points-Course :
      (root : ℕ) (xs ys : List ℕ)
      → AllBelow (length m.states) xs
      → AllBelow (length m.states) ys
      → τ.between_parallel_machines ≡ false
      → τ.states_to_enter ≡ []
      → (common xs' ys' : List ℕ) × (e : ℕ) × (before : List ℕ) × (parallel : Bool) × (root ∷ xs
          ≡ root ∷ (common ++ xs'))
        × (root ∷ ys ≡ root ∷ (common ++ ys'))
        × Course m source (root ∷ common) xs' ys' e before parallel
        × (with_points m τ source target (root ∷ xs) (root ∷ ys)
            ≡ some (by_course m τ source target e before parallel ys'))
  with_points-Course root xs ys hx hy fresh none_yet =
      let (common, xs', ys', ex, ey, part) = split xs ys in
      let (e, before, parallel, course) =
        find-Course root common xs' ys' part
          (AllBelow_rest (length m.states) common xs' (rw (← ex) hx))
          (AllBelow_rest (length m.states) common ys' (rw (← ey) hy)) in
      (
        common,
        xs',
        ys',
        e,
        before,
        parallel,
        ap (λ l. root ∷ l) ex,
        ap (λ l. root ∷ l) ey,
        course,
        ap (λ l. with_points m τ source target (root ∷ l) (root ∷ ys)) ex
            ∙ ap (λ l. with_points m τ source target (root ∷ (common ++ xs')) (root ∷ l)) ey
            ∙ course_lem (root ∷ common) xs' ys' e before parallel course fresh none_yet,
      )
