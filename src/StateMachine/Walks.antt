-- ===== src/StateMachine/Walks.antt =====
-- The walks through the tree of states: EvalExit, EvalTimeOut and EvalEntry of State and Region, with
-- performEntry, performExit, performDuring and EvalTransitionsForTimeOut. A walk takes one unit of fuel
-- for each state on the way down.
use arinc653emulator.Prelude.{
  ℕ, zero, suc, ltb, Bool, true, false, not, ◌&&◌, Option, none, some, List, [], ◌∷◌, get_elem?,
  set, ◌==◌, if◌then◌else◌,
}
use arinc653emulator.StateMachine.Model.{State, Region, Transition, Machine, DataSource}
use arinc653emulator.StateMachine.Actions.{Action, ◌>>=◌, ◌>>◌, give, deref, when, each}
use arinc653emulator.StateMachine.Build.{insert_by, member, set_current_state}

abbrev pub is_empty : List ℕ → Bool
is_empty [] = true
is_empty (_ ∷ _) = false

-- Region::EvalEntry and Region::EvalTimeOut choose the state to enter in the same way.
unfoldable pub state_to_enter : Region → List ℕ → Bool → Option ℕ
state_to_enter ρ [] history = if history then ρ.current_state else ρ.init_state
state_to_enter ρ (s ∷ _) history = if member s ρ.child_states then some s else ρ.init_state

-- History goes on to the children of the target only where it is deep.
unfoldable pub history_below : Region → List ℕ → Bool → Bool → Bool
history_below ρ [] history check =
    if history && check && not ρ.is_deep_history then false else history
history_below ρ (_ ∷ _) history check = history

-- The state takes itself off the front of the queue; the second part is checkHistory.
unfoldable pub arrive : ℕ → List ℕ → Bool → List ℕ × Bool
arrive s [] history = ([], false)
arrive s (t ∷ queue) history =
    if t == s then (queue, is_empty queue && history) else (t ∷ queue, false)

module _ (D : DataSource) where
  open D use {
    Data, perform_state_entry_action, perform_state_exit_action, perform_state_during_action,
    eval_transition_guard, eval_transition_event_trigger,
  }

  abbrev pub World : Type 0
  World = Machine × Data

  abbrev pub source_call : (Data → Data) → Action World (Unit {0})
  source_call f (m, d) = some (tt, (m, f d))

  abbrev pub source_query : (Data → Bool × Data) → Action World Bool
  source_query f (m, d) = some ((f d).0, (m, (f d).1))

  abbrev pub state_at : ℕ → Action World State
  state_at s w = deref (get_elem? w.0.states s) w

  abbrev pub region_at : ℕ → Action World Region
  region_at r w = deref (get_elem? w.0.regions r) w

  abbrev pub transition_at : ℕ → Action World Transition
  transition_at t w = deref (get_elem? w.0.transitions t) w

  -- Region::setCurrentState
  abbrev pub make_current : ℕ → ℕ → Action World (Unit {0})
  make_current r s (m, d) = elim (get_elem? m.regions r) [
    | none ↦ none
    | some ρ ↦ some (tt, (record m { regions = set m.regions r (set_current_state s ρ) }, d))
  ]

  unfoldable pub check_event : Transition → Action World Bool
  check_event τ =
      if τ.has_source then source_query (eval_transition_event_trigger τ.id) else give true

  unfoldable pub check_guard : Transition → Action World Bool
  check_guard τ = if τ.has_source then source_query (eval_transition_guard τ.id) else give true

  unfoldable pub perform_during : State → Action World (Unit {0})
  perform_during σ = when σ.has_source (source_call (perform_state_during_action σ.id))

  unfoldable pub perform_exit : State → Action World (Unit {0})
  perform_exit σ = when σ.has_source (source_call (perform_state_exit_action σ.id))

  abbrev pub check_time_out : ℕ → Unit {0} → Action World (Unit {0})
  check_time_out t _ = do τ ← transition_at t; _ ← check_guard τ; give tt

  unfoldable pub eval_transitions_for_time_out : Bool → State → Action World (Unit {0})
  unfolding each check_guard perform_during
  eval_transitions_for_time_out during σ =
      if is_empty σ.time_out_transitions
      then give tt
      else when during (perform_during σ) >> each check_time_out σ.time_out_transitions tt

  unfoldable pub perform_entry : State → Action World (Unit {0})
  unfolding eval_transitions_for_time_out
  perform_entry σ =
      when σ.has_source
        do eval_transitions_for_time_out false σ; source_call (perform_state_entry_action σ.id)

  -- The identifiers of the time-out transitions of a state that is left go into a set.
  abbrev pub note_time_out : ℕ → List ℕ → Action World (List ℕ)
  note_time_out t ids = do τ ← transition_at t; give (insert_by ltb τ.id ids)

  abbrev pub leave : Bool → State → List ℕ → Action World (List ℕ)
  leave false σ ids = give ids
  leave true σ ids = do
    ids' ← each note_time_out σ.time_out_transitions ids
    perform_exit σ
    give ids'

  -- Region::EvalExit, over State::EvalExit
  unfoldable pub region_eval_exit :
      (ℕ → List ℕ → Action World (List ℕ)) → ℕ → List ℕ → Action World (List ℕ)
  region_eval_exit exit r ids = do
    ρ ← region_at r
    elim ρ.current_state [ none ↦ give ids | some s ↦ exit s ids ]

  -- State::EvalExit
  unfoldable pub eval_exit : ℕ → Bool → ℕ → List ℕ → Action World (List ℕ)
  unfolding region_eval_exit each perform_exit
  eval_exit zero do_exit s ids w = none
  eval_exit (suc fuel) do_exit s ids w =
      (do
        σ ← state_at s
        ids' ← each (region_eval_exit (eval_exit fuel true)) σ.regions ids
        leave do_exit σ ids')
        w

  -- Region::EvalTimeOut, over State::EvalTimeOut
  unfoldable pub region_eval_time_out :
      (ℕ → Bool → List ℕ → Action World (List ℕ)) → Bool → Bool → ℕ → List ℕ → Action World (List ℕ)
  unfolding state_to_enter history_below
  region_eval_time_out enter history check r queue = do
    ρ ← region_at r
    elim (state_to_enter ρ queue history) [
      | none ↦ give queue
      | some s ↦ enter s (history_below ρ queue history check) queue
    ]

  -- State::EvalTimeOut
  unfoldable pub eval_time_out : ℕ → Bool → ℕ → Bool → List ℕ → Action World (List ℕ)
  unfolding eval_transitions_for_time_out arrive region_eval_time_out each
  eval_time_out zero do_entry s history queue w = none
  eval_time_out (suc fuel) do_entry s history queue w =
      (do
        σ ← state_at s
        when do_entry (eval_transitions_for_time_out false σ)
        let queue' = (arrive s queue history).0
        let check = (arrive s queue history).1
        each (region_eval_time_out (eval_time_out fuel do_entry) history check) σ.regions queue')
        w

  -- Region::EvalEntry, over State::EvalEntry
  unfoldable pub region_eval_entry :
      (ℕ → Bool → List ℕ → Action World (List ℕ)) → Bool → Bool → ℕ → List ℕ → Action World (List ℕ)
  unfolding state_to_enter history_below
  region_eval_entry enter history check r queue = do
    ρ ← region_at r
    elim (state_to_enter ρ queue history) [
      | none ↦ give queue
      | some s ↦ make_current r s >> enter s (history_below ρ queue history check) queue
    ]

  -- m_pRegion->setCurrentState(this)
  abbrev pub enter_region : Option ℕ → ℕ → Action World (Unit {0})
  enter_region none s = give tt
  enter_region (some r) s = make_current r s

  -- State::EvalEntry
  unfoldable pub eval_entry : ℕ → Bool → ℕ → Bool → List ℕ → Action World (List ℕ)
  unfolding perform_entry arrive region_eval_entry each
  eval_entry zero do_entry s history queue w = none
  eval_entry (suc fuel) do_entry s history queue w =
      (do
        σ ← state_at s
        when do_entry (perform_entry σ)
        let queue' = (arrive s queue history).0
        let check = (arrive s queue history).1
        enter_region σ.region s
        each (region_eval_entry (eval_entry fuel true) history check) σ.regions queue')
        w
