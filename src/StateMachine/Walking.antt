-- ===== src/StateMachine/Walking.antt =====
-- EvalExit, EvalTimeOut and EvalTransitions in a machine that is a tree: with more fuel than the height
-- of the state they give a result, and leave the machine as it is.
use arinc653emulator.Prelude.{
  ℕ, zero, suc, ◌<◌, Bool, Bool-cases, true, false, some, List, [], ◌∷◌, ◌≡◌, refl, arith, inl, inr,
  get_elem?, length,
}
use arinc653emulator.StateMachine.Model.{State, Region, Transition, Machine, DataSource}
use arinc653emulator.StateMachine.Actions.{give, when, each}
use arinc653emulator.StateMachine.Build.{member}
use arinc653emulator.StateMachine.Walks.{
  World, source_call, source_query, state_at, region_at, transition_at, is_empty, check_event,
  check_guard, perform_during, perform_exit, eval_transitions_for_time_out, check_time_out,
  note_time_out, leave, state_to_enter, history_below, arrive, region_eval_exit, eval_exit,
  region_eval_time_out, eval_time_out,
}
use arinc653emulator.StateMachine.Running.{
  Runs, Any, bind_Runs, give_Runs, if_Runs, when_Runs, option_Runs, each_Runs,
}
use arinc653emulator.StateMachine.Tree.{IsTree, Fits, get_elem?_of_lt}

module _ (D : DataSource) (height region_height : ℕ → ℕ) (m : Machine)
    (tree : IsTree height region_height m) where
  abbrev pub Is : World D → Type 0
  Is w = w.0 ≡ m

  pub call_Runs : (f : D.Data → D.Data) → Runs Is (source_call D f) Any
  call_Runs f (m', d) h = (tt, (m', f d), refl, h, tt)

  pub query_Runs : (f : D.Data → Bool × D.Data) → Runs Is (source_query D f) Any
  query_Runs f (m', d) h = ((f d).0, (m', (f d).1), refl, h, tt)

  pub state_at_Runs :
      (s : ℕ) → s < length m.states → Runs Is (state_at D s) (λ σ. get_elem? m.states s ≡ some σ)
  state_at_Runs s k w h = let (σ, e) = get_elem?_of_lt m.states s k in (σ, w, rw (h, e) refl, h, e)

  pub region_at_Runs :
      (r : ℕ) → r < length m.regions → Runs Is (region_at D r) (λ ρ. get_elem? m.regions r ≡ some ρ)
  region_at_Runs r k w h =
      let (ρ, e) = get_elem?_of_lt m.regions r k in (ρ, w, rw (h, e) refl, h, e)

  pub transition_at_Runs :
      (t : ℕ)
      → t < length m.transitions
      → Runs Is (transition_at D t) (λ τ. get_elem? m.transitions t ≡ some τ)
  transition_at_Runs t k w h =
      let (τ, e) = get_elem?_of_lt m.transitions t k in (τ, w, rw (h, e) refl, h, e)

  pub check_guard_Runs : (τ : Transition) → Runs Is (check_guard D τ) Any
  unfolding check_guard
  check_guard_Runs τ =
      if_Runs Is τ.has_source (source_query D (D.eval_transition_guard τ.id)) (give true) Any
        (query_Runs _) (give_Runs Is true Any tt)

  pub check_event_Runs : (τ : Transition) → Runs Is (check_event D τ) Any
  unfolding check_event
  check_event_Runs τ =
      if_Runs Is τ.has_source (source_query D (D.eval_transition_event_trigger τ.id)) (give true)
        Any (query_Runs _) (give_Runs Is true Any tt)

  pub perform_during_Runs : (σ : State) → Runs Is (perform_during D σ) Any
  unfolding perform_during
  perform_during_Runs σ = when_Runs Is σ.has_source _ (call_Runs _)

  pub perform_exit_Runs : (σ : State) → Runs Is (perform_exit D σ) Any
  unfolding perform_exit
  perform_exit_Runs σ = when_Runs Is σ.has_source _ (call_Runs _)

  -- The transitions of a list that a state of the machine has
  abbrev pub Known : List ℕ → Type 0
  Known ts = (t : ℕ) → member t ts ≡ true → t < length m.transitions

  pub eval_transitions_for_time_out_Runs :
      (during : Bool) (σ : State)
      → Known σ.time_out_transitions
      → Runs Is (eval_transitions_for_time_out D during σ) Any
  unfolding eval_transitions_for_time_out
  eval_transitions_for_time_out_Runs during σ known =
      if_Runs Is (is_empty σ.time_out_transitions) (give tt) _ Any (give_Runs Is tt Any tt) (
        bind_Runs Is (when during (perform_during D σ)) _ Any Any
          (when_Runs Is during (perform_during D σ) (perform_during_Runs σ))
          (λ _ _.
            each_Runs Is (check_time_out D) Any σ.time_out_transitions
              (λ t _ k _.
                bind_Runs Is (transition_at D t) _ _ Any (transition_at_Runs t (known t k)) (λ τ _.
                  bind_Runs Is (check_guard D τ) _ Any Any (check_guard_Runs τ)
                    (λ _ _. give_Runs Is tt Any tt)))
              tt tt))

  leave_Runs :
      (do_exit : Bool) (σ : State) (ids : List ℕ)
      → Known σ.time_out_transitions
      → Runs Is (leave D do_exit σ ids) Any
  leave_Runs false σ ids known = give_Runs Is ids Any tt
  leave_Runs true σ ids known =
      bind_Runs Is (each (note_time_out D) σ.time_out_transitions ids) _ Any Any
        (each_Runs Is (note_time_out D) Any σ.time_out_transitions
          (λ t a k _.
            bind_Runs Is (transition_at D t) _ _ Any (transition_at_Runs t (known t k))
              (λ τ _. give_Runs Is _ Any tt))
          ids tt)
        (λ ids' _.
          bind_Runs Is (perform_exit D σ) _ Any Any (perform_exit_Runs σ)
            (λ _ _. give_Runs Is ids' Any tt))

  -- A walk of the states below a region
  abbrev pub Below : ℕ → ℕ → Type 0
  Below fuel s = (s < length m.states) × (height s < fuel)

  pub child-Below :
      (fuel s r q : ℕ) (σ : State) (ρ : Region)
      → height s < suc fuel
      → get_elem? m.states s ≡ some σ
      → member r σ.regions ≡ true
      → get_elem? m.regions r ≡ some ρ
      → member q ρ.child_states ≡ true
      → Below fuel q
  child-Below fuel s r q σ ρ h es k er c =
      let (there, low) = (tree.fits r ρ er).children q c in
      (there, omega (arith, low, (tree.regions_below s r σ es k).1))

  -- EvalExit
  pub eval_exit_Runs :
      (fuel : ℕ) (do_exit : Bool) (s : ℕ) (ids : List ℕ)
      → Below fuel s
      → Runs Is (eval_exit D fuel do_exit s ids) Any
  unfolding eval_exit region_eval_exit
  eval_exit_Runs zero do_exit s ids h = absurd (omega arith)
  eval_exit_Runs (suc fuel) do_exit s ids (there, low) =
      bind_Runs Is (state_at D s) _ _ Any (state_at_Runs s there) (λ σ es.
        bind_Runs Is (each (region_eval_exit D (eval_exit D fuel true)) σ.regions ids) _ Any Any
          (each_Runs Is (region_eval_exit D (eval_exit D fuel true)) Any σ.regions
            (λ r ids' k _.
              bind_Runs Is (region_at D r) _ _ Any
                (region_at_Runs r (tree.regions_below s r σ es k).0)
                (λ ρ er.
                  option_Runs Is ρ.current_state (give ids') (λ q. eval_exit D fuel true q ids') Any
                    (give_Runs Is ids' Any tt)
                    (λ q c.
                      eval_exit_Runs fuel true q ids'
                        (child-Below fuel s r q σ ρ low es k er ((tree.fits r ρ er).current q c)))))
            ids tt)
          (λ ids' _. leave_Runs do_exit σ ids' (λ t. tree.time_outs s t σ es)))

  -- The state that a region chooses is one of its states.
  pub state_to_enter-member :
      (r q : ℕ) (ρ : Region) (queue : List ℕ) (history : Bool)
      → Fits (length m.states) height region_height r ρ
      → state_to_enter ρ queue history ≡ some q
      → member q ρ.child_states ≡ true
  unfolding state_to_enter
  state_to_enter-member r q ρ [] true f e = f.current q e
  state_to_enter-member r q ρ [] false f e = f.initial q e
  state_to_enter-member r q ρ (s ∷ queue) history f e =
      elim (Bool-cases (member s ρ.child_states)) [
        | inl inside ↦
            let same : s ≡ q = let e' : some s ≡ some q = rw inside at e in cc in rw (← same) inside
        | inr outside ↦ f.initial q (rw outside at e)
      ]

  -- EvalTimeOut
  pub eval_time_out_Runs :
      (fuel : ℕ) (do_entry : Bool) (s : ℕ) (history : Bool) (queue : List ℕ)
      → Below fuel s
      → Runs Is (eval_time_out D fuel do_entry s history queue) Any
  unfolding eval_time_out region_eval_time_out
  eval_time_out_Runs zero do_entry s history queue h = absurd (omega arith)
  eval_time_out_Runs (suc fuel) do_entry s history queue (there, low) =
      bind_Runs Is (state_at D s) _ _ Any (state_at_Runs s there) (λ σ es.
        bind_Runs Is (when do_entry (eval_transitions_for_time_out D false σ)) _ Any Any
          (when_Runs Is do_entry _
            (eval_transitions_for_time_out_Runs false σ (λ t. tree.time_outs s t σ es)))
          (λ _ _.
            each_Runs Is
              (region_eval_time_out D (eval_time_out D fuel do_entry) history
                (arrive s queue history).1)
              Any σ.regions
              (λ r queue' k _.
                bind_Runs Is (region_at D r) _ _ Any
                  (region_at_Runs r (tree.regions_below s r σ es k).0)
                  (λ ρ er.
                    option_Runs Is (state_to_enter ρ queue' history) (give queue') _ Any
                      (give_Runs Is queue' Any tt)
                      (λ q c.
                        eval_time_out_Runs fuel do_entry q
                          (history_below ρ queue' history (arrive s queue history).1) queue'
                          (child-Below fuel s r q σ ρ low es k er
                            (state_to_enter-member r q ρ queue' history (tree.fits r ρ er) c)))))
              (arrive s queue history).0 tt))
