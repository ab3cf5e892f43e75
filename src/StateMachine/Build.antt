-- ===== src/StateMachine/Build.antt =====
-- The construction of a machine: the constructors of State, Region, Transition and StateMachine, the
-- sets that TransitionComp and RegionComp order, and the methods that put a machine together. What the
-- methods write to the log is left out.
use arinc653emulator.Prelude.{
  ℕ, ℤ, ltb_ℤ, Bool, true, false, String, Option, none, some, List, [], ◌∷◌, ◌++◌, get_elem?, set,
  ◌==◌, if◌then◌else◌,
}
use arinc653emulator.StateMachine.Model.{StateType, or, State, Region, Transition, Machine}

-- TransitionComp and RegionComp
unfoldable pub transition_comp : Option Transition → Option Transition → Bool
transition_comp (some t) (some u) = ltb_ℤ t.priority u.priority
transition_comp (some t) none = true
transition_comp none _ = false

unfoldable pub region_comp : Option Region → Option Region → Bool
region_comp (some r) (some q) = ltb_ℤ r.priority q.priority
region_comp (some r) none = true
region_comp none _ = false

-- std::set::insert for a comparison: what compares equal to a member is not inserted
unfoldable pub insert_by : (ℕ → ℕ → Bool) → ℕ → List ℕ → List ℕ
insert_by less x [] = x ∷ []
insert_by less x (y ∷ ys) =
    if less x y then x ∷ y ∷ ys else if less y x then y ∷ insert_by less x ys else y ∷ ys

unfoldable pub member : ℕ → List ℕ → Bool
member x [] = false
member x (y ∷ ys) = if x == y then true else member x ys

-- std::set<State *>::insert; nothing depends on the order of that set
unfoldable pub insert_state : ℕ → List ℕ → List ℕ
insert_state x xs = if member x xs then xs else xs ++ x ∷ []

unfoldable pub new_state : Option ℕ → Option ℕ → String → StateType → ℕ → State
new_state region parent name kind id = record {
  region = region;
  parent = parent;
  kind = kind;
  name = name;
  id = id;
  has_source = false;
  default_action_set = false;
  out_transitions = [];
  time_out_transitions = [];
  regions = [];
  region_path_to_root = [];
  state_path_to_root = [];
}

unfoldable pub new_region : String → ℤ → Option ℕ → Region
new_region name priority parent = record {
  parent = parent;
  name = name;
  priority = priority;
  init_state = none;
  current_state = none;
  history_enabled = false;
  is_deep_history = false;
  child_states = [];
}

unfoldable pub new_transition : Option ℕ → Option ℕ → ℤ → ℕ → Bool → Transition
new_transition source target priority id set_history = record {
  source_state = source;
  target_state = target;
  priority = priority;
  id = id;
  has_source = false;
  between_parallel_machines = false;
  set_history = set_history;
  eval_time_out = false;
  state_to_exit = none;
  states_to_enter = [];
}

-- StateMachine::StateMachine: the root is the state 0, of which only the machine's own m_ds is set.
unfoldable pub new_machine : String → Machine
unfolding new_state
new_machine name = record {
  states = new_state none none name or 0 ∷ [];
  regions = [];
  transitions = [];
}

-- A change of the object that an index points to
abbrev pub on_state : (State → State) → ℕ → Machine → Option Machine
on_state f s m = elim (get_elem? m.states s) [
  | none ↦ none
  | some σ ↦ some (record m { states = set m.states s (f σ) })
]

abbrev pub on_region : (Region → Region) → ℕ → Machine → Option Machine
on_region f r m = elim (get_elem? m.regions r) [
  | none ↦ none
  | some ρ ↦ some (record m { regions = set m.regions r (f ρ) })
]

abbrev pub on_transition : (Transition → Transition) → ℕ → Machine → Option Machine
on_transition f t m = elim (get_elem? m.transitions t) [
  | none ↦ none
  | some τ ↦ some (record m { transitions = set m.transitions t (f τ) })
]

abbrev pub transition_before : Machine → ℕ → ℕ → Bool
transition_before m t u = transition_comp (get_elem? m.transitions t) (get_elem? m.transitions u)

abbrev pub region_before : Machine → ℕ → ℕ → Bool
region_before m r q = region_comp (get_elem? m.regions r) (get_elem? m.regions q)

unfoldable pub add_outgoing_transition : ℕ → ℕ → Machine → Option Machine
add_outgoing_transition t s m =
    on_state
      (λ σ. record σ { out_transitions = insert_by (transition_before m) t σ.out_transitions }) s m

unfoldable pub add_time_out_transition : ℕ → ℕ → Machine → Option Machine
add_time_out_transition t s m =
    on_state
      (λ σ. record σ {
        time_out_transitions = insert_by (transition_before m) t σ.time_out_transitions;
      })
      s m

unfoldable pub add_child_region : ℕ → ℕ → Machine → Option Machine
add_child_region r s m =
    on_state (λ σ. record σ { regions = insert_by (region_before m) r σ.regions }) s m

unfoldable pub set_default_action : ℕ → Machine → Option Machine
set_default_action s m = on_state (λ σ. record σ { default_action_set = true }) s m

-- SetDataSource of State and of Transition; the argument says that the pointer is not null.
unfoldable pub set_state_data_source : Bool → ℕ → Machine → Option Machine
set_state_data_source b s m = on_state (λ σ. record σ { has_source = b }) s m

unfoldable pub set_transition_data_source : Bool → ℕ → Machine → Option Machine
set_transition_data_source b t m = on_transition (λ τ. record τ { has_source = b }) t m

unfoldable pub set_eval_time_out : Bool → ℕ → Machine → Option Machine
set_eval_time_out b t m = elim (get_elem? m.transitions t) [
  | none ↦ none
  | some τ ↦
      let m' : Machine = record m {
        transitions = set m.transitions t (record τ { eval_time_out = b });
      } in
      elim τ.source_state [
        | none ↦ some m'
        | some s ↦ if b then add_time_out_transition t s m' else some m'
      ]
]

-- Region::setCurrentState on a state that is not null
unfoldable pub set_current_state : ℕ → Region → Region
set_current_state s ρ = if member s ρ.child_states then record ρ { current_state = some s } else ρ

-- Region::addState
unfoldable pub add_state : ℕ → Bool → Region → Region
add_state s is_initial ρ =
    let ρ' : Region = record ρ { child_states = insert_state s ρ.child_states } in
    if is_initial
    then elim ρ'.init_state [
      | none ↦ set_current_state s (record ρ' { init_state = some s })
      | some _ ↦ ρ'
    ]
    else ρ'

unfoldable pub enable_shallow_history : Region → Region
enable_shallow_history ρ = record ρ { history_enabled = true; is_deep_history = false }

unfoldable pub enable_deep_history : Region → Region
enable_deep_history ρ = record ρ { history_enabled = true; is_deep_history = true }
