-- ===== src/StateMachine/Steps.antt =====
-- A step of a machine that is a tree: no null pointer is used, the fuel of the walks suffices, and the
-- machine stays a tree.
use arinc653emulator.Prelude.{ℕ, ◌<◌, ℤ, Bool, true, false, not, List, [], ◌∷◌, length}
use arinc653emulator.StateMachine.Model.{Transition, Machine, DataSource}
use arinc653emulator.StateMachine.Actions.{give, deref}
use arinc653emulator.StateMachine.Walks.{
  World, source_call, source_query, state_at, transition_at, eval_exit, eval_time_out, eval_entry,
}
use arinc653emulator.StateMachine.Stepping.{
  no_default, eval_transitions, perform_action, enter_states, take_transition, take_transitions,
}
use arinc653emulator.StateMachine.Running.{
  Runs, Any, bind_Runs, give_Runs, if_Runs, when_Runs, deref_Runs, weaken_Runs,
}
use arinc653emulator.StateMachine.Tree.{IsTree, IsComplete, AllBelow, Follows-IsTree}
use arinc653emulator.StateMachine.Walking.{
  call_Runs, query_Runs, state_at_Runs, transition_at_Runs, eval_exit_Runs, eval_time_out_Runs,
}
use arinc653emulator.StateMachine.Searching.{eval_transitions_Runs}
use arinc653emulator.StateMachine.Taken.{IsSearched-AllBelow}
use arinc653emulator.StateMachine.Keeping.{Keeps, lift_Runs}
use arinc653emulator.StateMachine.Entering.{eval_entry_Runs}

module _ (D : DataSource) (height region_height : ℕ → ℕ) (m : Machine)
    (tree : IsTree height region_height m) where
  -- The machine is m but for current states.
  abbrev pub Still : World D → Type 0
  Still = Keeps D height region_height m tree (λ _. ⊥) []

  pub call_Still : (f : D.Data → D.Data) → Runs Still (source_call D f) Any
  call_Still f =
      lift_Runs D height region_height m tree (λ _. ⊥) [] (source_call D f) Any
        (λ m' k. call_Runs D height region_height m' (Follows-IsTree tree k) f)

  pub query_Still : (f : D.Data → Bool × D.Data) → Runs Still (source_query D f) Any
  query_Still f =
      lift_Runs D height region_height m tree (λ _. ⊥) [] (source_query D f) Any
        (λ m' k. query_Runs D height region_height m' (Follows-IsTree tree k) f)

  state_Still : (s : ℕ) → s < length m.states → Runs Still (state_at D s) Any
  state_Still s there =
      lift_Runs D height region_height m tree (λ _. ⊥) [] (state_at D s) Any
        (λ m' k.
          weaken_Runs _ (state_at D s) _ Any (λ _ _. tt)
            (state_at_Runs D height region_height m' (Follows-IsTree tree k) s
              (rw k.same_states there)))

  transition_Still :
      (t : ℕ)
      → t < length m.transitions
      → Runs Still (transition_at D t) (IsComplete (length m.states))
  transition_Still t there =
      lift_Runs D height region_height m tree (λ _. ⊥) [] (transition_at D t) _
        (λ m' k.
          weaken_Runs _ (transition_at D t) _ _
            (λ τ e. rw (← k.same_states) ((Follows-IsTree tree k).complete t τ e))
            (transition_at_Runs D height region_height m' (Follows-IsTree tree k) t
              (rw k.same_transitions there)))

  module _ (fuel : ℕ) (enough : (s : ℕ) → height s < fuel) where
    exit_Still :
        (do_exit : Bool) (s : ℕ) (ids : List ℕ)
        → s < length m.states
        → Runs Still (eval_exit D fuel do_exit s ids) Any
    exit_Still do_exit s ids there =
        lift_Runs D height region_height m tree (λ _. ⊥) [] (eval_exit D fuel do_exit s ids) Any
          (λ m' k.
            eval_exit_Runs D height region_height m' (Follows-IsTree tree k) fuel do_exit s ids
              (rw k.same_states there, enough s))

    pub time_out_Still :
        (do_entry : Bool) (s : ℕ) (history : Bool) (queue : List ℕ)
        → s < length m.states
        → Runs Still (eval_time_out D fuel do_entry s history queue) Any
    time_out_Still do_entry s history queue there =
        lift_Runs D height region_height m tree (λ _. ⊥) []
          (eval_time_out D fuel do_entry s history queue) Any
          (λ m' k.
            eval_time_out_Runs D height region_height m' (Follows-IsTree tree k) fuel do_entry s
              history queue (rw k.same_states there, enough s))

    pub entry_Still :
        (do_entry : Bool) (s : ℕ) (history : Bool) (queue : List ℕ)
        → s < length m.states
        → Runs Still (eval_entry D fuel do_entry s history queue) Any
    entry_Still do_entry s history queue there =
        eval_entry_Runs D height region_height m tree (λ _. ⊥) [] fuel do_entry s history queue
          (there, enough s) (record { above = λ q h. absurd h; own = λ r σ es e h. h })

    abbrev pub IsFound : List ℕ × ℤ → Type 0
    IsFound v = AllBelow (length m.transitions) v.0

    pub search_Still :
        (active : List ℕ)
        → 0 < length m.states
        → AllBelow (length m.transitions) active
        → Runs Still (eval_transitions D fuel true 0 active no_default) IsFound
    search_Still active there known =
        lift_Runs D height region_height m tree (λ _. ⊥) []
          (eval_transitions D fuel true 0 active no_default) IsFound
          (λ m' k.
            weaken_Runs _ (eval_transitions D fuel true 0 active no_default) _ IsFound
              (λ v h.
                rw (← k.same_transitions)
                  (IsSearched-AllBelow D m' active v.0 v.1 (rw k.same_transitions known) h))
              (eval_transitions_Runs D height region_height m' (Follows-IsTree tree k) fuel true 0
                active no_default (rw k.same_states there, enough 0)))

    action_Still :
        (τ : Transition) → IsComplete (length m.states) τ → Runs Still (perform_action D τ) Any
    unfolding perform_action
    action_Still τ c =
        let (s, es, hs) = c.source in
        let (t, et, ht) = c.target in
        bind_Runs _ (deref τ.source_state) _ (λ x. x < length m.states) Any
          (deref_Runs _ τ.source_state s _ es hs)
          (λ x hx. bind_Runs _ (state_at D x) _ Any Any (state_Still x hx) (λ _ _.
            bind_Runs _ (deref τ.target_state) _ (λ y. y < length m.states) Any
              (deref_Runs _ τ.target_state t _ et ht)
              (λ y hy.
                bind_Runs _ (state_at D y) _ Any Any (state_Still y hy)
                  (λ _ _. when_Runs _ τ.has_source _ (call_Still _)))))

    enter_Still :
        (τ : Transition) (queue : List ℕ)
        → IsComplete (length m.states) τ
        → AllBelow (length m.states) queue
        → Runs Still (enter_states D fuel τ queue) Any
    unfolding enter_states
    enter_Still τ [] c h = give_Runs _ true Any tt
    enter_Still τ (first ∷ rest) c h =
        bind_Runs _ (perform_action D τ) _ Any Any (action_Still τ c) (λ _ _.
          bind_Runs _
            (eval_time_out D fuel (not τ.between_parallel_machines) first τ.set_history
              (first ∷ rest))
            _ Any Any (time_out_Still _ first _ _ h.0)
            (λ _ _.
              bind_Runs _
                (eval_entry D fuel (not τ.between_parallel_machines) first τ.set_history
                  (first ∷ rest))
                _ Any Any (entry_Still _ first _ _ h.0) (λ _ _. give_Runs _ false Any tt)))

    abbrev pub IsLeft : List ℕ × List ℕ → Type 0
    IsLeft v = AllBelow (length m.transitions) v.0

    pub transitions_Still :
        (ts ids : List ℕ)
        → AllBelow (length m.transitions) ts
        → Runs Still (take_transitions D fuel ts ids) IsLeft
    unfolding take_transitions
    transitions_Still [] ids h = give_Runs _ ([], ids) IsLeft tt
    transitions_Still (t ∷ ts) ids h =
        bind_Runs _ (take_transition D fuel t ids) _ Any IsLeft
          (bind_Runs _ (transition_at D t) _ (IsComplete (length m.states)) Any
            (transition_Still t h.0)
            (λ τ c.
              let (x, e, there) = c.exit in
              bind_Runs _ (deref τ.state_to_exit) _ (λ x. x < length m.states) Any
                (deref_Runs _ τ.state_to_exit x _ e there)
                (λ x hx.
                  bind_Runs _ (eval_exit D fuel (not τ.between_parallel_machines) x ids) _ Any Any
                    (exit_Still _ x ids hx)
                    (λ ids' _.
                      bind_Runs _ (enter_states D fuel τ τ.states_to_enter) _ Any Any
                        (enter_Still τ τ.states_to_enter c c.entered)
                        (λ stop _. give_Runs _ (ids', stop) Any tt)))))
          (λ v _.
            if_Runs _ v.1 (give (ts, v.0)) (take_transitions D fuel ts v.0) IsLeft
              (give_Runs _ (ts, v.0) IsLeft h.1) (transitions_Still ts v.0 h.1))
