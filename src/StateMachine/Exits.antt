-- ===== src/StateMachine/Exits.antt =====
-- EvalExit against the order in which it leaves the states: of each region in turn the current state with
-- all below it, and then the state itself.
use arinc653emulator.Prelude.{
  ℕ, zero, suc, ◌≤◌, ◌<◌, ltb, Bool, true, false, Option, none, some, List, [], ◌∷◌, ◌++◌, ◌≡◌,
  refl, ap, sym, ◌∙◌, arith, get_elem?, length, if◌then◌else◌,
}
use arinc653emulator.StateMachine.Model.{State, Region, Transition, Machine, DataSource}
use arinc653emulator.StateMachine.Actions.{Action, give, when, each}
use arinc653emulator.StateMachine.Build.{insert_by, member}
use arinc653emulator.StateMachine.Walks.{
  World, source_call, state_at, region_at, transition_at, perform_exit, note_time_out, leave,
  region_eval_exit, eval_exit,
}
use arinc653emulator.StateMachine.Running.{bind_some, member_head, member_tail}
use arinc653emulator.StateMachine.Tree.{IsTree, get_elem?_of_lt}

abbrev pub current_of : Option Region → Option ℕ
current_of none = none
current_of (some ρ) = ρ.current_state

abbrev pub order_from : (ℕ → List State) → Option ℕ → List State
order_from order none = []
order_from order (some s) = order s

-- The states that are left with s, in order, down to a depth
unfoldable pub below_regions : Machine → (ℕ → List State) → List ℕ → List State
below_regions m order [] = []
below_regions m order (r ∷ rs) =
    order_from order (current_of (get_elem? m.regions r)) ++ below_regions m order rs

abbrev pub with_below : (State → List State) → Option State → List State
with_below below none = []
with_below below (some σ) = below σ ++ σ ∷ []

unfoldable pub exit_order : Machine → ℕ → ℕ → List State
unfolding below_regions
exit_order m zero s = []
exit_order m (suc depth) s =
    with_below (λ σ. below_regions m (exit_order m depth) σ.regions) (get_elem? m.states s)

-- The identifiers of some transitions added to a set
abbrev pub add_id : Option Transition → List ℕ → List ℕ
add_id none ids = ids
add_id (some τ) ids = insert_by ltb τ.id ids

pub add_ids : Machine → List ℕ → List ℕ → List ℕ
add_ids m [] ids = ids
add_ids m (t ∷ ts) ids = add_ids m ts (add_id (get_elem? m.transitions t) ids)

module _ (D : DataSource) (m : Machine) where
  -- The exits of some states: the set of identifiers and the data afterwards
  abbrev pub left_one : State → List ℕ × D.Data → List ℕ × D.Data
  left_one σ v = (
    add_ids m σ.time_out_transitions v.0,
    (if σ.has_source then D.perform_state_exit_action σ.id v.1 else v.1),
  )

  pub all_left : List State → List ℕ × D.Data → List ℕ × D.Data
  all_left [] v = v
  all_left (σ ∷ σs) v = all_left σs (left_one σ v)

  all_left-append :
      (xs ys : List State) (v : List ℕ × D.Data)
      → all_left (xs ++ ys) v ≡ all_left ys (all_left xs v)
  unfolding all_left
  all_left-append [] ys v = refl
  all_left-append (x ∷ xs) ys v = all_left-append xs ys (left_one x v)

  -- The result of a walk that leaves the states of a list
  abbrev pub answer : List State → List ℕ × D.Data → Option (List ℕ × World D)
  answer l v = some ((all_left l v).0, (m, (all_left l v).1))

  note_lem :
      (t : ℕ) (ids : List ℕ) (d : D.Data)
      → t < length m.transitions
      → note_time_out D t ids (m, d) ≡ some (add_id (get_elem? m.transitions t) ids, (m, d))
  note_lem t ids d there =
      let (τ, e) = get_elem?_of_lt m.transitions t there in
      bind_some (transition_at D t) (λ τ. give (insert_by ltb τ.id ids)) (m, d) {a = τ}
        {w' = (m, d)} (rw e refl)
      ∙ rw e refl

  notes_lem :
      (ts ids : List ℕ) (d : D.Data)
      → ((t : ℕ) → member t ts ≡ true → t < length m.transitions)
      → each (note_time_out D) ts ids (m, d) ≡ some (add_ids m ts ids, (m, d))
  unfolding each add_ids
  notes_lem [] ids d known = refl
  notes_lem (t ∷ ts) ids d known =
      bind_some (note_time_out D t ids) _ (m, d) (note_lem t ids d (known t (member_head t ts)))
      ∙ notes_lem ts (add_id (get_elem? m.transitions t) ids) d
          (λ u k. known u (member_tail u t ts k))

  when_lem :
      (b : Bool) (f : D.Data → D.Data) (d : D.Data)
      → when b (source_call D f) (m, d) ≡ some (tt, (m, (if b then f d else d)))
  when_lem true f d = refl
  when_lem false f d = refl

  leave_lem :
      (σ : State) (v : List ℕ × D.Data)
      → ((t : ℕ) → member t σ.time_out_transitions ≡ true → t < length m.transitions)
      → leave D true σ v.0 (m, v.1) ≡ answer (σ ∷ []) v
  unfolding perform_exit all_left
  leave_lem σ v known =
      bind_some (each (note_time_out D) σ.time_out_transitions v.0) _ (m, v.1)
        (notes_lem σ.time_out_transitions v.0 v.1 known)
      ∙ bind_some (perform_exit D σ) _ (m, v.1)
          (when_lem σ.has_source (D.perform_state_exit_action σ.id) v.1)

  module _ (height region_height : ℕ → ℕ) (tree : IsTree height region_height m) where
    -- What EvalExit of the states one level below gives
    abbrev Exits : ℕ → Type 0
    Exits fuel =
        (s : ℕ) (v : List ℕ × D.Data)
        → (s < length m.states) × (height s < fuel)
        → eval_exit D fuel true s v.0 (m, v.1) ≡ answer (exit_order m fuel s) v

    region_lem :
        (fuel : ℕ) (r : ℕ) (v : List ℕ × D.Data) (ρ : Region)
        → Exits fuel
        → get_elem? m.regions r ≡ some ρ
        → region_height r ≤ fuel
        → (o : Option ℕ) → o ≡ ρ.current_state
        → (elim o as (λ _. Action (World D) (List ℕ)) [
          | none ↦ give v.0
          | some s ↦ eval_exit D fuel true s v.0
        ])
            (m, v.1)
          ≡ answer (order_from (exit_order m fuel) o) v
    unfolding all_left
    region_lem fuel r v ρ run at low none e = refl
    region_lem fuel r v ρ run at low (some s) e =
        let f = tree.fits r ρ at in
        let (there, high) = f.children s (f.current s (sym e)) in
        run s v (there, omega (arith, high))

    region_exit_lem :
        (fuel : ℕ) (r : ℕ) (v : List ℕ × D.Data) (ρ : Region)
        → Exits fuel
        → get_elem? m.regions r ≡ some ρ
        → region_height r ≤ fuel
        → region_eval_exit D (eval_exit D fuel true) r v.0 (m, v.1)
          ≡ answer (order_from (exit_order m fuel) (current_of (get_elem? m.regions r))) v
    unfolding region_eval_exit
    region_exit_lem fuel r v ρ run e low =
        bind_some (region_at D r) _ (m, v.1) {a = ρ} {w' = (m, v.1)} (rw e refl)
        ∙ rw e (region_lem fuel r v ρ run e low ρ.current_state refl)

    regions_lem :
        (fuel : ℕ)
        → Exits fuel
        → (rs : List ℕ)
        → ((r : ℕ) → member r rs ≡ true → (r < length m.regions) × (region_height r ≤ fuel))
        → (v : List ℕ × D.Data)
        → each (region_eval_exit D (eval_exit D fuel true)) rs v.0 (m, v.1)
          ≡ answer (below_regions m (exit_order m fuel) rs) v
    unfolding each below_regions all_left
    regions_lem fuel run [] known v = refl
    regions_lem fuel run (r ∷ rs) known v =
        let (ρ, e) = get_elem?_of_lt m.regions r (known r (member_head r rs)).0 in
        let first = order_from (exit_order m fuel) (current_of (get_elem? m.regions r)) in
        bind_some (region_eval_exit D (eval_exit D fuel true) r v.0) _ (m, v.1)
          (region_exit_lem fuel r v ρ run e (known r (member_head r rs)).1)
        ∙ regions_lem fuel run rs (λ q k. known q (member_tail q r rs k)) (all_left first v)
        ∙ ap (λ x. some (x.0, (m, x.1)))
            (sym (all_left-append first (below_regions m (exit_order m fuel) rs) v))

    -- EvalExit of a state of a machine that is a tree, with more fuel than the height of the state, leaves
    -- the machine as it is, performs the exit action of each state in the order of exit_order and of no
    -- other, and adds the time-out transitions of these states to the set of identifiers.
    pub eval_exit-exit_order :
        (fuel s : ℕ) (v : List ℕ × D.Data)
        → (s < length m.states) × (height s < fuel)
        → eval_exit D fuel true s v.0 (m, v.1) ≡ answer (exit_order m fuel s) v
    unfolding eval_exit exit_order
    eval_exit-exit_order zero s v h = absurd (omega arith)
    eval_exit-exit_order (suc fuel) s v (there, low) =
        let (σ, e) = get_elem?_of_lt m.states s there in
        let below = below_regions m (exit_order m fuel) σ.regions in
        bind_some (state_at D s) _ (m, v.1) {a = σ} {w' = (m, v.1)} (rw e refl)
        ∙ bind_some (each (region_eval_exit D (eval_exit D fuel true)) σ.regions v.0) _ (m, v.1)
            (regions_lem fuel (eval_exit-exit_order fuel) σ.regions
              (λ r k. let (x, y) = tree.regions_below s r σ e k in (x, omega (arith, y))) v)
        ∙ leave_lem σ (all_left below v) (λ t. tree.time_outs s t σ e)
        ∙ rw e (ap (λ x. some (x.0, (m, x.1))) (sym (all_left-append below (σ ∷ []) v)))
