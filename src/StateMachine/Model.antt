-- ===== src/StateMachine/Model.antt =====
-- The data of a state machine: the classes State, Region and Transition of
-- include/StateMachine/StateMachine.h. The objects stand in three lists and a pointer is an index
-- (`none` is the null pointer), so that states, regions and transitions share objects as they do in the
-- source. The interface DataSource, which a generated program implements, is a record of functions.
use arinc653emulator.Prelude.{ℕ, ℤ, Bool, String, Option, List}

pub data StateType : Type 0 where
  or and : StateType

pub record State : Type 0 where
  pub region : Option ℕ
  pub parent : Option ℕ
  pub kind : StateType
  pub name : String
  pub id : ℕ  -- unsigned long
  pub has_source : Bool  -- m_ds is set
  pub default_action_set : Bool
  pub out_transitions : List ℕ  -- in the order of TransitionComp
  pub time_out_transitions : List ℕ  -- in the order of TransitionComp
  pub regions : List ℕ  -- in the order of RegionComp
  pub region_path_to_root : List ℕ
  pub state_path_to_root : List ℕ

pub record Region : Type 0 where
  pub parent : Option ℕ
  pub name : String
  pub priority : ℤ
  pub init_state : Option ℕ
  pub current_state : Option ℕ
  pub history_enabled : Bool
  pub is_deep_history : Bool
  pub child_states : List ℕ

pub record Transition : Type 0 where
  pub source_state : Option ℕ
  pub target_state : Option ℕ
  pub priority : ℤ
  pub id : ℕ  -- unsigned long
  pub has_source : Bool  -- m_ds is set
  pub between_parallel_machines : Bool
  pub set_history : Bool
  pub eval_time_out : Bool
  pub state_to_exit : Option ℕ
  pub states_to_enter : List ℕ

pub record Machine : Type 0 where
  pub states : List State
  pub regions : List Region
  pub transitions : List Transition

-- What a program implements: its data, and what each method makes of it.
pub record DataSource : Type 1 where
  pub Data : Type 0
  pub reset_output_events : Data → Data
  pub apply_and_reset_input_events : Data → Data
  pub apply_and_reset_internal_events : Data → Data
  pub reset_input_events : Data → Data
  pub reset_internal_events : Data → Data
  pub is_current_event_set : Data → Bool
  pub perform_state_entry_action : ℕ → Data → Data
  pub perform_state_exit_action : ℕ → Data → Data
  pub perform_state_during_action : ℕ → Data → Data
  pub perform_default_state_action : ℕ → Data → Data
  pub perform_transition_action : ℕ → Data → Data
  pub eval_transition_guard : ℕ → Data → Bool × Data
  pub eval_transition_event_trigger : ℕ → Data → Bool × Data
  pub set_current_time : Data → Data
  pub clear_time_out_calls : List ℕ → Data → Data
  pub evaluate_time_outs : Data → Data
  pub get_time_out_transitions_to_evaluate : Data → Data
  pub set_evaluating_time_outs : Bool → Data → Data
