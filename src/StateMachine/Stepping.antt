-- ===== src/StateMachine/Stepping.antt =====
-- The choice of the transitions and the step: State::EvalTransitions, Transition::performAction,
-- StateMachine::start and StateMachine::step. The pointer that EvalTransitions returns is left out, since
-- no caller reads it. The lock of step is left out.
use arinc653emulator.Prelude.{
  ℕ, zero, suc, ◌-◌, ◌%◌, ◌^◌, ltb, ℤ, pos, negsuc, eqb_ℤ, Bool, true, false, not, ◌&&◌, Option,
  none, some, List, [], ◌∷◌, ◌++◌, if◌then◌else◌,
}
use arinc653emulator.StateMachine.Model.{State, Transition, DataSource}
use arinc653emulator.StateMachine.Actions.{Action, ◌>>=◌, ◌>>◌, give, deref, when, each}
use arinc653emulator.StateMachine.Walks.{
  World, source_call, source_query, state_at, region_at, transition_at, is_empty, check_event,
  check_guard, perform_during, eval_exit, eval_time_out, eval_entry,
}

-- The conversions between STATEID (unsigned long) and int
unfoldable pub to_int : ℕ → ℤ
to_int id = let n = id % 2 ^ 32 in if ltb n (2 ^ 31) then pos n else negsuc (2 ^ 32 - 1 - n)

unfoldable pub to_state_id : ℤ → ℕ
to_state_id (pos n) = n
to_state_id (negsuc n) = 2 ^ 64 - 1 - n

abbrev pub no_default : ℤ
no_default = negsuc 0

module _ (D : DataSource) where
  open D use {
    reset_output_events, apply_and_reset_input_events, apply_and_reset_internal_events,
    reset_input_events, reset_internal_events, is_current_event_set, perform_default_state_action,
    perform_transition_action, set_current_time, clear_time_out_calls, evaluate_time_outs,
    get_time_out_transitions_to_evaluate, set_evaluating_time_outs,
  }

  -- checkEvent() && checkGuard()
  abbrev pub is_enabled : Transition → Action (World D) Bool
  is_enabled τ = do event ← check_event D τ; if event then check_guard D τ else give false

  abbrev pub chosen : ℕ → Transition → Action (World D) (Option ℕ)
  chosen t τ = do target ← deref τ.target_state; _ ← state_at D target; give (some t)

  -- The first transition that is enabled; the log names its target.
  unfoldable pub first_enabled : List ℕ → Action (World D) (Option ℕ)
  unfolding check_event check_guard
  first_enabled [] = give none
  first_enabled (t ∷ ts) = do
    τ ← transition_at D t
    enabled ← is_enabled τ
    let rest = first_enabled ts
    if enabled then chosen t τ else rest

  -- The variables of the loop over the regions: the active transitions, defActionID, lookForDef
  abbrev pub Search : Type 0
  Search = List ℕ × ℤ × Bool

  unfoldable pub descend :
      (Bool → ℕ → List ℕ → ℤ → Action (World D) (List ℕ × ℤ)) → ℕ → Search → Action (World D) Search
  descend eval r v = do
    ρ ← region_at D r
    elim ρ.current_state [
      | none ↦ give v
      | some s ↦ do
        (active, found) ← eval v.2 s v.0 v.1
        give (active, found, (if eqb_ℤ found no_default then v.2 else false))
    ]

  -- The part of EvalTransitions where no transition of the state itself is enabled
  abbrev pub search_below :
      (Bool → ℕ → List ℕ → ℤ → Action (World D) (List ℕ × ℤ))
      → Bool
      → State
      → List ℕ
      → ℤ
      → Action (World D) (List ℕ × ℤ)
  search_below eval look σ active found = do
    v ← each (descend eval) σ.regions (active, no_default, look)
    let own = if look && σ.default_action_set then to_int σ.id else found
    give (v.0, (if is_empty v.0 then v.1 else own))

  -- State::EvalTransitions: the active transitions and defaultStateActionID
  unfoldable pub eval_transitions : ℕ → Bool → ℕ → List ℕ → ℤ → Action (World D) (List ℕ × ℤ)
  unfolding first_enabled perform_during descend each to_int
  eval_transitions zero look s active found w = none
  eval_transitions (suc fuel) look s active found w =
      (do
        σ ← state_at D s
        perform_during D σ
        t ← first_enabled σ.out_transitions
        elim t [
          | some t ↦ give (active ++ t ∷ [], found)
          | none ↦ search_below (eval_transitions fuel) look σ active found
        ])
        w

  -- Transition::performAction; the log names the source and the target.
  unfoldable pub perform_action : Transition → Action (World D) (Unit {0})
  perform_action τ = do
    source ← deref τ.source_state
    _ ← state_at D source
    target ← deref τ.target_state
    _ ← state_at D target
    when τ.has_source (source_call D (perform_transition_action τ.id))

  -- The entry of the states of a transition, after its exit; true where the loop is left.
  unfoldable pub enter_states : ℕ → Transition → List ℕ → Action (World D) Bool
  unfolding perform_action eval_time_out eval_entry
  enter_states fuel τ [] = give true
  enter_states fuel τ (first ∷ rest) = do
    perform_action τ
    _ ← eval_time_out D fuel (not τ.between_parallel_machines) first τ.set_history (first ∷ rest)
    _ ← eval_entry D fuel (not τ.between_parallel_machines) first τ.set_history (first ∷ rest)
    give false

  -- One round of the inner loop of step
  abbrev pub take_transition : ℕ → ℕ → List ℕ → Action (World D) (List ℕ × Bool)
  take_transition fuel t ids = do
    τ ← transition_at D t
    exit_state ← deref τ.state_to_exit
    ids' ← eval_exit D fuel (not τ.between_parallel_machines) exit_state ids
    stop ← enter_states fuel τ τ.states_to_enter
    give (ids', stop)

  -- The inner loop of step: what is left in the queue, and the identifiers for clearTimeOutCalls
  unfoldable pub take_transitions : ℕ → List ℕ → List ℕ → Action (World D) (List ℕ × List ℕ)
  unfolding eval_exit enter_states
  take_transitions fuel [] ids = give ([], ids)
  take_transitions fuel (t ∷ ts) ids = do
    (ids', stop) ← take_transition fuel t ids
    let rest = take_transitions fuel ts ids'
    if stop then give (ts, ids') else rest

  -- The default action of a round without transitions
  abbrev pub perform_default : ℤ → Action (World D) (Unit {0})
  perform_default found =
      if eqb_ℤ found no_default
      then give tt
      else source_call D (perform_default_state_action (to_state_id found))

  -- The end of a round that took transitions
  abbrev pub end_of_round : List ℕ → Action (World D) Bool
  end_of_round ids = do
    source_call D (clear_time_out_calls ids)
    source_call D evaluate_time_outs
    source_call D reset_input_events
    source_call D apply_and_reset_internal_events
    source_query D (λ d. (is_current_event_set d, d))

  abbrev pub without_transitions : ℤ → Action (World D) (List ℕ × Bool)
  without_transitions found = do perform_default found; give ([], false)

  abbrev pub with_transitions : ℕ → List ℕ → Action (World D) (List ℕ × Bool)
  with_transitions fuel active = do
    (rest, ids) ← take_transitions fuel active []
    more ← end_of_round ids
    give (rest, more)

  -- One round of the outer loop of step: what is left in the queue, and whether another round follows
  unfoldable pub round : ℕ → List ℕ → Action (World D) (List ℕ × Bool)
  unfolding eval_transitions take_transitions to_state_id
  round fuel queue = do
    source_call D (set_evaluating_time_outs true)
    (active, found) ← eval_transitions fuel true 0 queue no_default
    source_call D (set_evaluating_time_outs false)
    if is_empty active then without_transitions found else with_transitions fuel active

  unfoldable pub rounds : ℕ → ℕ → List ℕ → Action (World D) (Unit {0})
  unfolding round
  rounds zero fuel queue w = none
  rounds (suc n) fuel queue w =
      (do
        (rest, more) ← round fuel queue
        elim more [ true ↦ rounds n fuel rest | false ↦ give tt ])
        w

  -- step(true) up to its test; true where the step ends there.
  unfoldable pub first_entry : ℕ → Action (World D) Bool
  unfolding eval_time_out eval_entry
  first_entry fuel = do
    queue ← eval_time_out D fuel true 0 false []
    source_call D evaluate_time_outs
    _ ← eval_entry D fuel true 0 false queue
    source_call D apply_and_reset_internal_events
    source_query D (λ d. (not (is_current_event_set d), d))

  abbrev pub rest_of_step : ℕ → ℕ → Action (World D) (Unit {0})
  rest_of_step n fuel = do
    source_call D get_time_out_transitions_to_evaluate
    rounds n fuel []
    source_call D reset_input_events
    source_call D reset_internal_events

  -- The step before its loop; true where the step ends there.
  unfoldable pub opening : ℕ → Bool → Action (World D) Bool
  unfolding first_entry
  opening fuel init = do
    source_call D reset_output_events
    source_call D apply_and_reset_input_events
    source_call D set_current_time
    if init then first_entry fuel else give false

  -- StateMachine::step, with the fuel of its loop and that of the walks
  unfoldable pub step : ℕ → ℕ → Bool → Action (World D) (Unit {0})
  unfolding rounds opening
  step n fuel init = do ended ← opening fuel init; if ended then give tt else rest_of_step n fuel

  -- StateMachine::start
  unfoldable pub start : ℕ → ℕ → Action (World D) (Unit {0})
  unfolding step
  start n fuel = step n fuel true
