-- ===== src/StateMachine/Searching.antt =====
-- EvalTransitions in a machine that is a tree: it gives a result and leaves the machine as it is, what
-- it adds to the active transitions leaves states of the machine and passed its tests, and with no active
-- transition the default action is -1.

use arinc653emulator.Prelude.{
  ℕ, zero, suc, ◌<◌, ℤ, Bool, true, false, ◌&&◌, Option, none, some, List, [], ◌∷◌, ◌++◌, ◌≡◌, refl,
  ap, ◌∙◌, arith, get_elem?, length, if◌then◌else◌,
}
use arinc653emulator.StateMachine.Model.{State, Region, Transition, Machine, DataSource}
use arinc653emulator.StateMachine.Actions.{Action, give, deref, each}
use arinc653emulator.StateMachine.Build.{member}
use arinc653emulator.StateMachine.Walks.{
  World, state_at, region_at, transition_at, check_event, check_guard, perform_during,
}
use arinc653emulator.StateMachine.Stepping.{
  chosen, is_enabled, first_enabled, descend, search_below, Search, no_default, to_int,
  eval_transitions,
}
use arinc653emulator.StateMachine.Running.{
  Runs, Any, bind_Runs, give_Runs, if_Runs, weaken_Runs, deref_Runs, option_Runs, each_Runs,
  member_head, member_tail,
}
use arinc653emulator.StateMachine.Tree.{IsTree}
use arinc653emulator.StateMachine.Walking.{
  Is, Known, Below, child-Below, state_at_Runs, region_at_Runs, transition_at_Runs,
  check_event_Runs, check_guard_Runs, perform_during_Runs,
}
use arinc653emulator.StateMachine.Taken.{
  ++_nil, append_ne_nil, IsHeld, is_enabled-IsHeld, IsSearched, IsSearched-end, IsSearched-trans,
}

module _ (D : DataSource) (height region_height : ℕ → ℕ) (m : Machine)
    (tree : IsTree height region_height m) where
  -- A transition that is chosen is one of those looked at, and of the machine, and its tests held.
  abbrev pub IsChosen : List ℕ → Option ℕ → Type 0
  IsChosen ts none = Unit {0}
  IsChosen ts (some t) =
      (τ : Transition) × (member t ts ≡ true) × (get_elem? m.transitions t ≡ some τ) × IsHeld D τ

  abbrev Holds : Transition → Bool → Type 0
  Holds τ enabled = enabled ≡ true → IsHeld D τ

  is_enabled_Runs :
      (τ : Transition) → Runs (Is D height region_height m tree) (is_enabled D τ) (Holds τ)
  is_enabled_Runs τ w h =
      let (enabled, w', e, h', _) =
        bind_Runs _ (check_event D τ) _ Any Any (check_event_Runs D height region_height m tree τ)
          (λ b _.
            if_Runs _ b (check_guard D τ) (give false) Any
              (check_guard_Runs D height region_height m tree τ) (give_Runs _ false Any tt))
          w h in
      (enabled, w', e, h', λ holds. is_enabled-IsHeld D τ w w' (e ∙ ap (λ b. some (b, w')) holds))

  chosen_Runs :
      (t : ℕ) (ts : List ℕ) (τ : Transition)
      → get_elem? m.transitions t ≡ some τ
      → IsHeld D τ
      → Runs (Is D height region_height m tree) (chosen D t τ) (IsChosen (t ∷ ts))
  chosen_Runs t ts τ e held =
      let (target, pointer, there) = (tree.complete t τ e).target in
      bind_Runs _ (deref τ.target_state) _ (λ s. s < length m.states) (IsChosen (t ∷ ts))
        (deref_Runs _ τ.target_state target _ pointer there)
        (λ s there'.
          bind_Runs _ (state_at D s) _ _ (IsChosen (t ∷ ts))
            (state_at_Runs D height region_height m tree s there')
            (λ _ _. give_Runs _ (some t) (IsChosen (t ∷ ts)) (τ, member_head t ts, e, held)))

  IsChosen-tail : (t : ℕ) (ts : List ℕ) (o : Option ℕ) → IsChosen ts o → IsChosen (t ∷ ts) o
  IsChosen-tail t ts none h = h
  IsChosen-tail t ts (some u) (τ, k, e, held) = (τ, member_tail u t ts k, e, held)

  by_test :
      (b : Bool) (t : ℕ) (ts : List ℕ) (τ : Transition)
      → get_elem? m.transitions t ≡ some τ
      → Holds τ b
      → Runs (Is D height region_height m tree) (first_enabled D ts) (IsChosen ts)
      → Runs
          (Is D height region_height m tree)
          (if b then chosen D t τ else first_enabled D ts)
          (IsChosen (t ∷ ts))
  by_test true t ts τ e held rest = chosen_Runs t ts τ e (held refl)
  by_test false t ts τ e held rest =
      weaken_Runs _ (first_enabled D ts) (IsChosen ts) (IsChosen (t ∷ ts)) (IsChosen-tail t ts) rest

  first_enabled_Runs :
      (ts : List ℕ)
      → Known D height region_height m tree ts
      → Runs (Is D height region_height m tree) (first_enabled D ts) (IsChosen ts)
  unfolding first_enabled
  first_enabled_Runs [] known = give_Runs _ none (IsChosen []) tt
  first_enabled_Runs (t ∷ ts) known =
      bind_Runs _ (transition_at D t) _ _ (IsChosen (t ∷ ts))
        (transition_at_Runs D height region_height m tree t (known t (member_head t ts)))
        (λ τ e.
          bind_Runs _ (is_enabled D τ) _ (Holds τ) (IsChosen (t ∷ ts)) (is_enabled_Runs τ)
            (λ enabled held.
              by_test enabled t ts τ e held
                (first_enabled_Runs ts (λ u k. known u (member_tail u t ts k)))))

  abbrev pub IsFound : List ℕ → List ℕ × ℤ → Type 0
  IsFound given v = IsSearched D m given v.0 v.1

  abbrev IsSearch : List ℕ → Search D → Type 0
  IsSearch given v = IsSearched D m given v.0 v.1

  descend_Runs :
      (eval : Bool → ℕ → List ℕ → ℤ → Action (World D) (List ℕ × ℤ)) (r : ℕ) (given : List ℕ)
      (v : Search D)
      → r < length m.regions
      → IsSearch given v
      → ((ρ : Region) (q : ℕ) (look : Bool)
          → get_elem? m.regions r ≡ some ρ
          → ρ.current_state ≡ some q
          → Runs (Is D height region_height m tree) (eval look q v.0 v.1) (IsFound v.0))
      → Runs (Is D height region_height m tree) (descend D eval r v) (IsSearch given)
  unfolding descend
  descend_Runs eval r given v there h run =
      bind_Runs _ (region_at D r) _ _ (IsSearch given)
        (region_at_Runs D height region_height m tree r there)
        (λ ρ e.
          option_Runs _ ρ.current_state (give v) _ (IsSearch given)
            (give_Runs _ v (IsSearch given) h)
            (λ q c.
              bind_Runs _ (eval v.2 q v.0 v.1) _ (IsFound v.0) (IsSearch given) (run ρ q v.2 e c)
                (λ (a, f) k.
                  give_Runs _ _ (IsSearch given) (IsSearched-trans D m given v.0 a v.1 f h k))))

  -- The two ways on from the transitions of the state itself
  choice_Runs :
      (eval : Bool → ℕ → List ℕ → ℤ → Action (World D) (List ℕ × ℤ)) (look : Bool) (s : ℕ)
      (σ : State) (active : List ℕ) (found : ℤ)
      → get_elem? m.states s ≡ some σ
      → ((r : ℕ) (v : Search D)
          → member r σ.regions ≡ true
          → IsSearch active v
          → Runs (Is D height region_height m tree) (descend D eval r v) (IsSearch active))
      → (t : Option ℕ) → IsChosen σ.out_transitions t
      → Runs
          (Is D height region_height m tree)
          (elim t [
            | some t ↦ give (active ++ t ∷ [], found)
            | none ↦ search_below D eval look σ active found
          ])
          (IsFound active)
  choice_Runs eval look s σ active found es run (some t) (τ, out, e, held) =
      give_Runs _ (active ++ t ∷ [], found) (IsFound active)
        (t ∷ [], refl, ((s, σ, τ, es, out, e, held), tt), append_ne_nil active t)
  choice_Runs eval look s σ active found es run none k =
      bind_Runs _ (each (descend D eval) σ.regions (active, no_default, look)) _ (IsSearch active)
        (IsFound active)
        (each_Runs _ (descend D eval) (IsSearch active) σ.regions run (active, no_default, look)
          ([], ++_nil active, tt, λ _. refl))
        (λ v q. give_Runs _ _ (IsFound active) (
          IsSearched-end D m active v.0 v.1
            (if look && σ.default_action_set then to_int σ.id else found) q))

  -- EvalTransitions
  pub eval_transitions_Runs :
      (fuel : ℕ) (look : Bool) (s : ℕ) (active : List ℕ) (found : ℤ)
      → Below D height region_height m tree fuel s
      → Runs
          (Is D height region_height m tree)
          (eval_transitions D fuel look s active found)
          (IsFound active)
  unfolding eval_transitions
  eval_transitions_Runs zero look s active found b = absurd (omega arith)
  eval_transitions_Runs (suc fuel) look s active found (there, low) =
      bind_Runs _ (state_at D s) _ _ (IsFound active)
        (state_at_Runs D height region_height m tree s there)
        (λ σ es.
          bind_Runs _ (perform_during D σ) _ Any (IsFound active)
            (perform_during_Runs D height region_height m tree σ)
            (λ _ _.
              bind_Runs _ (first_enabled D σ.out_transitions) _ (IsChosen σ.out_transitions)
                (IsFound active)
                (first_enabled_Runs σ.out_transitions (λ t. tree.outgoing s t σ es))
                (λ t k.
                  choice_Runs (eval_transitions D fuel) look s σ active found es
                    (λ r v c q.
                      descend_Runs (eval_transitions D fuel) r active v
                        (tree.regions_below s r σ es c).0 q
                        (λ ρ x look' er cur. eval_transitions_Runs fuel look' x v.0 v.1 (
                          child-Below D height region_height m tree fuel s r x σ ρ low es c er
                            ((tree.fits r ρ er).current x cur))))
                    t k)))

  -- EvalTransitions from the root of a machine that is a tree gives a result, with more fuel than the
  -- height of the root, and leaves the machine as it is. The active transitions are those it was given, in
  -- their order, and then others, each of which leaves a state of the machine and has no data source, or
  -- had a trigger and then a guard that gave true. Where there is no active transition, the default action
  -- is -1, whatever states have a default action.
  pub eval_transitions_lem :
      (fuel : ℕ) (given : List ℕ) (d : D.Data)
      → 0 < length m.states
      → height 0 < fuel
      → (active : List ℕ) × (found : ℤ) × (d' : D.Data) × (eval_transitions D fuel true 0 given
            no_default
            (m, d)
          ≡ some ((active, found), (m, d')))
        × IsSearched D m given active found
  eval_transitions_lem fuel given d root high =
      let (v, w, e, same, k) =
        eval_transitions_Runs fuel true 0 given no_default (root, high) (m, d) refl in
      (v.0, v.1, w.1, e ∙ ap (λ x. some (v, (x, w.1))) same, k)
