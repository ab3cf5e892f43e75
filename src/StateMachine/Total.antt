-- ===== src/StateMachine/Total.antt =====
-- The step of a state machine as a whole.
use arinc653emulator.Prelude.{
  ℕ, zero, suc, ◌<◌, ℤ, Bool, true, false, Option, some, List, [], ◌≡◌, refl, ◌⊎◌, length,
}
use arinc653emulator.StateMachine.Model.{Machine, DataSource}
use arinc653emulator.StateMachine.Actions.{◌>>=◌, give}
use arinc653emulator.StateMachine.Walks.{World, source_call, is_empty}
use arinc653emulator.StateMachine.Stepping.{
  no_default, to_state_id, eval_transitions, take_transitions, perform_default, end_of_round,
  without_transitions, with_transitions, round, step,
}
use arinc653emulator.StateMachine.Running.{Runs, Any, bind_Runs, give_Runs, if_Runs}
use arinc653emulator.StateMachine.Tree.{IsTree, AllBelow, Follows}
use arinc653emulator.StateMachine.Steps.{Still, call_Still, search_Still, transitions_Still}

module _ (D : DataSource) (fuel : ℕ) where
  -- Each of n rounds leaves an event set, and another round follows.
  abbrev pub IsBusy : ℕ → List ℕ → World D → Type 0
  IsBusy zero queue w = Unit {0}
  IsBusy (suc n) queue w =
      (rest : List ℕ) × (w' : World D) × (round D fuel queue w ≡ some ((rest, true), w'))
      × (D.is_current_event_set w'.1 ≡ true)
      × IsBusy n rest w'

  -- The search of a round finds no active transition.
  abbrev pub NoneActive : List ℕ → World D → Type 0
  NoneActive queue w =
      (found : ℤ) × (w' : World D) × (eval_transitions D fuel true 0 queue no_default
          (w.0, D.set_evaluating_time_outs true w.1)
        ≡ some (([], found), w'))

  -- At most n rounds: each but the last leaves an event set, and the last leaves none or has no active
  -- transition.
  abbrev pub IsSettled : ℕ → List ℕ → World D → Type 0
  IsSettled zero queue w = ⊥
  IsSettled (suc n) queue w =
      (rest : List ℕ) × (more : Bool) × (w' : World D) × (round D fuel queue w
        ≡ some ((rest, more), w'))
      × ((NoneActive queue w ⊎ (D.is_current_event_set w'.1 ≡ false))
          ⊎ ((D.is_current_event_set w'.1 ≡ true) × IsSettled n rest w'))

module _ (D : DataSource) (height region_height : ℕ → ℕ) (m : Machine)
    (tree : IsTree height region_height m) where
  module _ (fuel : ℕ) (enough : (s : ℕ) → height s < fuel) (root : 0 < length m.states) where
    abbrev IsOver : List ℕ × Bool → Type 0
    IsOver v = AllBelow (length m.transitions) v.0

    end_Still : (ids : List ℕ) → Runs (Still D height region_height m tree) (end_of_round D ids) Any
    end_Still ids (m', d) h =
        let d' : D.Data =
          D.apply_and_reset_internal_events
            (D.reset_input_events (D.evaluate_time_outs (D.clear_time_out_calls ids d))) in
        (D.is_current_event_set d', (m', d'), refl, h, tt)

    default_Still :
        (found : ℤ) → Runs (Still D height region_height m tree) (perform_default D found) Any
    default_Still found =
        if_Runs _ _ (give tt) (source_call D (D.perform_default_state_action (to_state_id found)))
          Any (give_Runs _ tt Any tt) (call_Still D height region_height m tree _)

    pub round-Still :
        (queue : List ℕ)
        → AllBelow (length m.transitions) queue
        → Runs (Still D height region_height m tree) (round D fuel queue) IsOver
    unfolding round
    round-Still queue known =
        bind_Runs _ (source_call D (D.set_evaluating_time_outs true)) _ Any IsOver
          (call_Still D height region_height m tree _)
          (λ _ _.
            bind_Runs _ (eval_transitions D fuel true 0 queue no_default) _
              (λ v. AllBelow (length m.transitions) v.0) IsOver
              (search_Still D height region_height m tree fuel enough queue root known)
              (λ v h.
                bind_Runs _ (source_call D (D.set_evaluating_time_outs false)) _ Any IsOver
                  (call_Still D height region_height m tree _)
                  (λ _ _.
                    if_Runs _ (is_empty v.0) (without_transitions D v.1)
                      (with_transitions D fuel v.0) IsOver
                      (bind_Runs _ (perform_default D v.1) _ Any IsOver (default_Still v.1)
                        (λ _ _. give_Runs _ ([], false) IsOver tt))
                      (bind_Runs _ (take_transitions D fuel v.0 []) _
                        (λ x. AllBelow (length m.transitions) x.0) IsOver
                        (transitions_Still D height region_height m tree fuel enough v.0 [] h)
                        (λ x k.
                          bind_Runs _ (end_of_round D x.1) _ Any IsOver (end_Still x.1)
                            (λ more _. give_Runs _ (x.0, more) IsOver k))))))

    -- A result in a machine that is m but for current states
    abbrev pub Ends : Option (Unit {0} × World D) → Type 0
    Ends result = (w : World D) × (result ≡ some (tt, w)) × Follows height region_height m w.0

    -- How a step goes on after its opening: it ends there, its rounds settle, or they are busy.
    abbrev pub Goes : ℕ → Bool → Bool → World D → World D → Type 0
    Goes n init ended w w' =
        let from : World D = (w'.0, D.get_time_out_transitions_to_evaluate w'.1) in
        (Ends (step D n fuel init w) × ((ended ≡ true) ⊎ IsSettled D fuel n [] from))
        ⊎ ((ended ≡ false) × IsBusy D fuel n [] from)
