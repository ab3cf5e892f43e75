-- ===== src/Tests/Machines.antt =====
-- A state machine with two states, idle and busy, and a transition from each to the other; the program
-- counts the exit actions and lists the states that are entered.
use arinc653emulator.Prelude.{
  ℕ, zero, suc, ◌+◌, ◌≤◌, ◌<◌, ℤ, pos, Bool, true, false, none, some, List, [], ◌∷◌, ◌++◌, ◌≡◌, ◌≢◌,
  refl, ◌⊎◌, arith, get_elem?,
}
use arinc653emulator.StateMachine.Model.{or, State, Region, Transition, Machine, DataSource}
use arinc653emulator.StateMachine.Build.{member, set_current_state, add_outgoing_transition}
use arinc653emulator.StateMachine.Walks.{World, eval_exit, eval_entry}
use arinc653emulator.StateMachine.Stepping.{no_default, step, eval_transitions}
use arinc653emulator.StateMachine.Paths.{with_points}
use arinc653emulator.StateMachine.Searching.{eval_transitions_lem}
use arinc653emulator.StateMachine.Taken.{IsSearched}
use arinc653emulator.StateMachine.Entering.{eval_entry_lem}
use arinc653emulator.StateMachine.Exits.{exit_order, answer, eval_exit-exit_order}
use arinc653emulator.StateMachine.Points.{Course, by_course, with_points-Course}
use arinc653emulator.StateMachine.Order.{
  IsOrdered, is_lower, priority_of, add_outgoing_transition_lem,
}
use arinc653emulator.StateMachine.Tree.{IsTree, Follows, Fits, IsComplete}

-- The program: it raises no events of its own, and all its guards hold.
abbrev program : DataSource
program = record {
  Data = List ℕ;
  reset_output_events = λ d. d;
  apply_and_reset_input_events = λ d. d;
  apply_and_reset_internal_events = λ d. d;
  reset_input_events = λ d. d;
  reset_internal_events = λ d. d;
  is_current_event_set = λ d. false;
  perform_state_entry_action = λ s d. s ∷ d;
  perform_state_exit_action = λ s d. (100 + s) ∷ d;
  perform_state_during_action = λ s d. d;
  perform_default_state_action = λ s d. d;
  perform_transition_action = λ t d. (200 + t) ∷ d;
  eval_transition_guard = λ t d. (true, d);
  eval_transition_event_trigger = λ t d. (true, d);
  set_current_time = λ d. d;
  clear_time_out_calls = λ ids d. d;
  evaluate_time_outs = λ d. d;
  get_time_out_transitions_to_evaluate = λ d. d;
  set_evaluating_time_outs = λ b d. d;
}

abbrev root_state : State
root_state = record {
  region = none;
  parent = none;
  kind = or;
  name = "machine";
  id = 0;
  has_source = false;
  default_action_set = false;
  out_transitions = [];
  time_out_transitions = [];
  regions = 0 ∷ [];
  region_path_to_root = [];
  state_path_to_root = [];
}

abbrev idle_state : State
idle_state = record {
  region = some 0;
  parent = some 0;
  kind = or;
  name = "idle";
  id = 1;
  has_source = true;
  default_action_set = true;
  out_transitions = 0 ∷ [];
  time_out_transitions = [];
  regions = [];
  region_path_to_root = 0 ∷ [];
  state_path_to_root = 0 ∷ [];
}

abbrev busy_state : State
busy_state = record idle_state { name = "busy"; id = 2; out_transitions = 1 ∷ [] }

abbrev only_region : Region
only_region = record {
  parent = some 0;
  name = "main";
  priority = pos 0;
  init_state = some 1;
  current_state = some 1;
  history_enabled = false;
  is_deep_history = false;
  child_states = 1 ∷ 2 ∷ [];
}

abbrev to_busy : Transition
to_busy = record {
  source_state = some 1;
  target_state = some 2;
  priority = pos 0;
  id = 0;
  has_source = true;
  between_parallel_machines = false;
  set_history = false;
  eval_time_out = false;
  state_to_exit = some 1;
  states_to_enter = 2 ∷ [];
}

abbrev to_idle : Transition
to_idle = record to_busy {
  source_state = some 2;
  target_state = some 1;
  id = 1;
  state_to_exit = some 2;
  states_to_enter = 1 ∷ [];
}

abbrev machine : Machine
machine = record {
  states = root_state ∷ idle_state ∷ busy_state ∷ [];
  regions = only_region ∷ [];
  transitions = to_busy ∷ to_idle ∷ [];
}

abbrev height : ℕ → ℕ
height zero = 2
height (suc s) = 0

abbrev region_height : ℕ → ℕ
region_height r = 1

tree_below :
    (s r : ℕ) (σ : State)
    → get_elem? machine.states s ≡ some σ
    → member r σ.regions ≡ true
    → (r < 1) × (region_height r ≤ height s)
unfolding member
tree_below zero r σ e k = ground arith
tree_below (suc zero) r σ e k = ground arith
tree_below (suc (suc zero)) r σ e k = ground arith
tree_below (suc (suc (suc s))) r σ e k = cc

children_lem : (s : ℕ) → member s (1 ∷ 2 ∷ []) ≡ true → (s < 3) × (height s < 1)
unfolding member
children_lem zero k = ground arith
children_lem (suc zero) k = ground arith
children_lem (suc (suc zero)) k = ground arith
children_lem (suc (suc (suc s))) k = ground arith

only_region-Fits : Fits 3 height region_height 0 only_region
unfolding member
only_region-Fits = record {
  children = children_lem;
  initial = λ s e. ground arith;
  current = λ s e. ground arith;
}

owner_lem : (s r : ℕ) (σ : State) → get_elem? machine.states s ≡ some σ → σ.region ≡ some r → r < 1
owner_lem zero r σ e k = ground arith
owner_lem (suc zero) r σ e k = ground arith
owner_lem (suc (suc zero)) r σ e k = ground arith
owner_lem (suc (suc (suc s))) r σ e k = cc

out_lem :
    (s t : ℕ) (σ : State)
    → get_elem? machine.states s ≡ some σ
    → member t σ.out_transitions ≡ true
    → t < 2
unfolding member
out_lem zero t σ e k = ground arith
out_lem (suc zero) t σ e k = ground arith
out_lem (suc (suc zero)) t σ e k = ground arith
out_lem (suc (suc (suc s))) t σ e k = cc

time_out_lem :
    (s t : ℕ) (σ : State)
    → get_elem? machine.states s ≡ some σ
    → member t σ.time_out_transitions ≡ true
    → t < 2
unfolding member
time_out_lem zero t σ e k = ground arith
time_out_lem (suc zero) t σ e k = ground arith
time_out_lem (suc (suc zero)) t σ e k = ground arith
time_out_lem (suc (suc (suc s))) t σ e k = cc

fits_lem :
    (r : ℕ) (ρ : Region) → get_elem? machine.regions r ≡ some ρ → Fits 3 height region_height r ρ
fits_lem zero ρ e = let same : only_region ≡ ρ = cc in rw (← same) only_region-Fits
fits_lem (suc r) ρ e = cc

home_lem :
    (r s : ℕ) (ρ : Region) (σ : State)
    → get_elem? machine.regions r ≡ some ρ
    → member s ρ.child_states ≡ true
    → get_elem? machine.states s ≡ some σ
    → σ.region ≡ some r
unfolding member
home_lem (suc r) s ρ σ er k es = cc
home_lem zero zero ρ σ er k es = ground arith
home_lem zero (suc zero) ρ σ er k es = ground arith
home_lem zero (suc (suc zero)) ρ σ er k es = ground arith
home_lem zero (suc (suc (suc s))) ρ σ er k es = cc

complete_lem : (t : ℕ) (τ : Transition) → get_elem? machine.transitions t ≡ some τ → IsComplete 3 τ
complete_lem zero τ e =
    let same : to_busy ≡ τ = cc in
    rw (← same) (record {
      source = (1, refl, omega arith);
      target = (2, refl, omega arith);
      exit = (1, refl, omega arith);
      entered = (omega arith, tt);
    })
complete_lem (suc zero) τ e =
    let same : to_idle ≡ τ = cc in
    rw (← same) (record {
      source = (2, refl, omega arith);
      target = (1, refl, omega arith);
      exit = (2, refl, omega arith);
      entered = (omega arith, tt);
    })
complete_lem (suc (suc t)) τ e = cc

machine-IsTree : IsTree height region_height machine
machine-IsTree = record {
  regions_below = tree_below;
  owner = owner_lem;
  outgoing = out_lem;
  time_outs = time_out_lem;
  fits = fits_lem;
  home = home_lem;
  complete = complete_lem;
}

-- The machine changes from idle to busy in one step, with its actions in order.
abbrev busy_machine : Machine
busy_machine = record machine { regions = record only_region { current_state = some 2 } ∷ [] }

step_runs : step program 1 3 false (machine, []) ≡ some (tt, (busy_machine, 2 ∷ 200 ∷ 101 ∷ []))
unfolding step set_current_state member
step_runs = refl

eval_entry_example :
    (queue' : List ℕ) × (w : World program) × (eval_entry program 1 true 2 false
        (2 ∷ [])
        (machine, [])
      ≡ some (queue', w))
    × Follows height region_height machine w.0
    × (get_elem? w.0.regions 0 ≡ some (record only_region { current_state = some 2 }))
    × ((q : ℕ)
        → height 2 < region_height q
        → 0 ≢ q
        → get_elem? w.0.regions q ≡ get_elem? machine.regions q)
unfolding member
eval_entry_example =
    eval_entry_lem program height region_height machine machine-IsTree 1 true 2 false (2 ∷ []) [] 0
      only_region refl refl (omega arith)

eval_transitions_example :
    (active : List ℕ) × (found : ℤ) × (d' : List ℕ) × (eval_transitions program 3 true 0
        (1 ∷ [])
        no_default
        (machine, [])
      ≡ some ((active, found), (machine, d')))
    × IsSearched program machine (1 ∷ []) active found
eval_transitions_example =
    eval_transitions_lem program height region_height machine machine-IsTree 3 (1 ∷ []) []
      (omega arith) (omega arith)

-- The states that the machine leaves as a whole: the current one, and the root.
order_runs : exit_order machine 3 0 ≡ idle_state ∷ root_state ∷ []
unfolding exit_order
order_runs = refl

exit_order_example :
    eval_exit program 3 true 0 [] (machine, [])
    ≡ answer program machine (exit_order machine 3 0) ([], [])
exit_order_example =
    eval_exit-exit_order program machine height region_height machine-IsTree 3 0 ([], [])
      (omega arith, omega arith)

abbrev fresh_transition : Transition
fresh_transition = record to_busy { state_to_exit = none; states_to_enter = [] }

parting_example :
    (common xs' ys' : List ℕ) × (e : ℕ) × (before : List ℕ) × (parallel : Bool) × (0 ∷ []
      ≡ 0 ∷ (common ++ xs'))
    × (0 ∷ [] ≡ 0 ∷ (common ++ ys'))
    × Course machine 1 (0 ∷ common) xs' ys' e before parallel
    × (with_points machine fresh_transition 1 2 (0 ∷ []) (0 ∷ [])
        ≡ some (by_course machine fresh_transition 1 2 e before parallel ys'))
parting_example = with_points-Course machine fresh_transition 1 2 0 [] [] tt tt refl refl

added_example :
    (m' : Machine) × (σ' : State) × (add_outgoing_transition 1 1 machine ≡ some m')
    × (get_elem? m'.states 1 ≡ some σ')
    × IsOrdered (is_lower m') σ'.out_transitions
    × ((u : ℕ) → member u (0 ∷ []) ≡ true → member u σ'.out_transitions ≡ true)
    × ((member 1 σ'.out_transitions ≡ true)
        ⊎ (((u : ℕ) × (member u (0 ∷ []) ≡ true) × (priority_of machine u ≡ priority_of machine 1))
            × (σ'.out_transitions ≡ 0 ∷ [])))
added_example =
    add_outgoing_transition_lem 1 1 machine idle_state refl (omega arith) (omega arith, tt) (tt, tt)
