-- ===== src/StateMachine/Keeping.antt =====
-- What a walk through a machine that is a tree keeps: the tree, and the regions above the walk.
use arinc653emulator.Prelude.{
  ℕ, ◌<◌, true, false, some, List, ◌≡◌, refl, ◌∙◌, get_elem?, get_elem?-set_ne, length,
}
use arinc653emulator.StateMachine.Model.{State, Region, Machine, DataSource}
use arinc653emulator.StateMachine.Actions.{Action}
use arinc653emulator.StateMachine.Build.{member, set_current_state}
use arinc653emulator.StateMachine.Walks.{
  World, source_call, state_at, region_at, make_current, perform_entry,
  eval_transitions_for_time_out,
}
use arinc653emulator.StateMachine.Running.{Runs, Any, bind_Runs, when_Runs}
use arinc653emulator.StateMachine.Tree.{
  IsTree, Fits, Follows, Follows-IsTree, with_current, with_current-Follows, get_elem?_of_lt,
}
use arinc653emulator.StateMachine.Walking.{Is, call_Runs, eval_transitions_for_time_out_Runs}

pub set_current_state_inside :
    (s : ℕ) (ρ : Region)
    → member s ρ.child_states ≡ true
    → set_current_state s ρ ≡ record ρ { current_state = some s }
unfolding set_current_state
set_current_state_inside s ρ h = rw h refl

module _ (D : DataSource) (height region_height : ℕ → ℕ) (m : Machine)
    (tree : IsTree height region_height m) where
  -- The machine is m but for current states, and the regions with K are as in a list.
  abbrev pub Keeps : (ℕ → Type 0) → List Region → World D → Type 0
  Keeps K regions w =
      Follows height region_height m w.0
      × ((q : ℕ) → K q → get_elem? w.0.regions q ≡ get_elem? regions q)

  module _ (K : ℕ → Type 0) (regions : List Region) where
    -- What leaves the machine as it is keeps all of this.
    pub lift_Runs :
        {A : Type 0} (a : Action (World D) A) (Q : A → Type 0)
        → ((m' : Machine) (f : Follows height region_height m m')
            → Runs (Is D height region_height m' (Follows-IsTree tree f)) a Q)
        → Runs (Keeps K regions) a Q
    lift_Runs a Q run w h = let (x, w', e, same, q) = run w.0 h.0 w refl in (x, w', e, rw same h, q)

    pub state_Runs :
        (s : ℕ)
        → s < length m.states
        → Runs (Keeps K regions) (state_at D s) (λ σ. get_elem? m.states s ≡ some σ)
    state_Runs s k w h =
        let (σ, e) = get_elem?_of_lt m.states s k in (σ, w, rw (h.0.same_states, e) refl, h, e)

    -- The region as it stands, with its states as they are in m
    abbrev pub IsRegion : ℕ → Region → Type 0
    IsRegion r ρ =
        Fits (length m.states) height region_height r ρ
        × ((s : ℕ) (σ : State)
            → member s ρ.child_states ≡ true
            → get_elem? m.states s ≡ some σ
            → σ.region ≡ some r)

    pub region_at-IsRegion :
        (r : ℕ) → r < length m.regions → Runs (Keeps K regions) (region_at D r) (IsRegion r)
    region_at-IsRegion r k w h =
        let (ρ, e) = get_elem?_of_lt w.0.regions r (rw h.0.same_size k) in
        let tree' = Follows-IsTree tree h.0 in
        (
          ρ,
          w,
          rw e refl,
          h,
          (h.0.still_fits r ρ e, λ s σ c es. tree'.home r s ρ σ e c (rw h.0.same_states es)),
        )

    pub make_current_Runs :
        (r s : ℕ) → r < length m.regions → ¬ K r → Runs (Keeps K regions) (make_current D r s) Any
    make_current_Runs r s k free w h =
        let (ρ, e) = get_elem?_of_lt w.0.regions r (rw h.0.same_size k) in
        (
          tt,
          (with_current r s ρ w.0, w.1),
          rw (make_current, e) refl,
          (
            with_current-Follows r s ρ h.0 e,
            λ q kq.
                get_elem?-set_ne w.0.regions (set_current_state s ρ) (λ same. free (rw same kq))
                ∙ h.1 q kq,
          ),
          tt,
        )

    pub perform_entry_Runs :
        (s : ℕ) (σ : State)
        → get_elem? m.states s ≡ some σ
        → Runs (Keeps K regions) (perform_entry D σ) Any
    unfolding perform_entry
    perform_entry_Runs s σ es = when_Runs _ σ.has_source _ (
        bind_Runs _ (eval_transitions_for_time_out D false σ) _ Any Any
          (lift_Runs _ Any (λ m' f.
            eval_transitions_for_time_out_Runs D height region_height m' (Follows-IsTree tree f)
              false σ (λ t c. (Follows-IsTree tree f).time_outs s t σ (rw f.same_states es) c)))
          (λ _ _.
            lift_Runs (source_call D (D.perform_state_entry_action σ.id)) Any
              (λ m' f. call_Runs D height region_height m' (Follows-IsTree tree f) _)))
