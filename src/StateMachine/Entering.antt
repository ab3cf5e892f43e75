-- ===== src/StateMachine/Entering.antt =====
-- EvalEntry in a machine that is a tree: with more fuel than the height of the state it gives a result,
-- the current state of each region stays one of its states, and the state that is entered is current in
-- its region afterwards.
use arinc653emulator.Prelude.{
  ℕ, zero, suc, ◌<◌, Bool, true, Option, none, some, List, ◌≡◌, ◌≢◌, refl, ap, ◌∙◌, arith,
  get_elem?, get_elem?-set_self, get_elem?-set_ne, length,
}
use arinc653emulator.StateMachine.Model.{State, Region, Machine, DataSource}
use arinc653emulator.StateMachine.Actions.{give, when, each}
use arinc653emulator.StateMachine.Build.{member, set_current_state}
use arinc653emulator.StateMachine.Walks.{
  World, state_at, region_at, make_current, enter_region, perform_entry, state_to_enter,
  history_below, arrive, region_eval_entry, eval_entry,
}
use arinc653emulator.StateMachine.Running.{
  Runs, Any, bind_some, bind_Runs, give_Runs, when_Runs, option_Runs, each_Runs,
}
use arinc653emulator.StateMachine.Tree.{
  IsTree, Follows, Follows-refl, with_current, with_current-Follows, get_elem?_of_lt,
  lt_of_get_elem?,
}
use arinc653emulator.StateMachine.Walking.{state_to_enter-member}
use arinc653emulator.StateMachine.Keeping.{
  set_current_state_inside, Keeps, state_Runs, IsRegion, region_at-IsRegion, make_current_Runs,
  perform_entry_Runs,
}

module _ (D : DataSource) (height region_height : ℕ → ℕ) (m : Machine)
    (tree : IsTree height region_height m) where
  module _ (K : ℕ → Type 0) (regions : List Region) where
    -- The regions that a walk from s may change do not have K.
    pub record IsFree (s : ℕ) : Type 0 where
      pub above : (q : ℕ) → K q → height s < region_height q
      pub own : (r : ℕ) (σ : State) → get_elem? m.states s ≡ some σ → σ.region ≡ some r → ¬ K r

    enter_region_Runs :
        (o : Option ℕ) (s : ℕ)
        → ((r : ℕ) → o ≡ some r → (r < length m.regions) × (¬ K r))
        → Runs (Keeps D height region_height m tree K regions) (enter_region D o s) Any
    enter_region_Runs none s h = give_Runs _ tt Any tt
    enter_region_Runs (some r) s h =
        make_current_Runs D height region_height m tree K regions r s (h r refl).0 (h r refl).1

    -- The regions with K are above s.
    abbrev pub AllAbove : ℕ → Type 0
    AllAbove s = (q : ℕ) → K q → height s < region_height q

    not_below :
        (s r : ℕ) (σ : State)
        → get_elem? m.states s ≡ some σ
        → member r σ.regions ≡ true
        → AllAbove s
        → ¬ K r
    not_below s r σ es k above kr =
        absurd (omega (arith, above r kr, (tree.regions_below s r σ es k).1))

    IsFree-below :
        (s r q : ℕ) (σ : State) (ρ : Region)
        → get_elem? m.states s ≡ some σ
        → member r σ.regions ≡ true
        → IsRegion D height region_height m tree K regions r ρ
        → member q ρ.child_states ≡ true
        → AllAbove s
        → IsFree q
    IsFree-below s r q σ ρ es k f c above = record {
      above = λ x kx.
          omega (arith, above x kx, (tree.regions_below s r σ es k).1, (f.0.children q c).1);
      own = λ x γ eq o.
          let same : r ≡ x = cc (f.1 q γ c eq, o) in rw (← same) (not_below s r σ es k above);
    }

    -- The loop over the regions of a state, from what EvalEntry does one level below
    pub entry_regions_Runs :
        (fuel s : ℕ) (σ : State) (history check : Bool) (queue : List ℕ)
        → get_elem? m.states s ≡ some σ
        → height s < suc fuel
        → AllAbove s
        → ((q : ℕ) (history : Bool) (queue : List ℕ)
            → (q < length m.states) × (height q < fuel)
            → IsFree q
            → Runs
                (Keeps D height region_height m tree K regions)
                (eval_entry D fuel true q history queue)
                Any)
        → Runs
            (Keeps D height region_height m tree K regions)
            (each (region_eval_entry D (eval_entry D fuel true) history check) σ.regions queue)
            Any
    unfolding region_eval_entry
    entry_regions_Runs fuel s σ history check queue es low above run =
        each_Runs _ (region_eval_entry D (eval_entry D fuel true) history check) Any σ.regions
          (λ r queue' k _.
            bind_Runs _ (region_at D r) _ (IsRegion D height region_height m tree K regions r) Any
              (region_at-IsRegion D height region_height m tree K regions r
                (tree.regions_below s r σ es k).0)
              (λ ρ f.
                option_Runs _ (state_to_enter ρ queue' history) (give queue') _ Any
                  (give_Runs _ queue' Any tt)
                  (λ q e.
                    let c : member q ρ.child_states ≡ true =
                      state_to_enter-member D height region_height m tree r q ρ queue' history f.0
                        e in
                    bind_Runs _ (make_current D r q) _ Any Any
                      (make_current_Runs D height region_height m tree K regions r q
                        (tree.regions_below s r σ es k).0 (not_below s r σ es k above))
                      (λ _ _.
                        run q (history_below ρ queue' history check) queue'
                          (
                            (f.0.children q c).0,
                            omega (
                              arith,
                              low,
                              (tree.regions_below s r σ es k).1,
                              (f.0.children q c).1,
                            ),
                          )
                          (IsFree-below s r q σ ρ es k f c above)))))
          queue tt

    -- EvalEntry
    pub eval_entry_Runs :
        (fuel : ℕ) (do_entry : Bool) (s : ℕ) (history : Bool) (queue : List ℕ)
        → (s < length m.states) × (height s < fuel)
        → IsFree s
        → Runs
            (Keeps D height region_height m tree K regions)
            (eval_entry D fuel do_entry s history queue)
            Any
    unfolding eval_entry region_eval_entry
    eval_entry_Runs zero do_entry s history queue b free = absurd (omega arith)
    eval_entry_Runs (suc fuel) do_entry s history queue (there, low) free =
        bind_Runs _ (state_at D s) _ _ Any
          (state_Runs D height region_height m tree K regions s there)
          (λ σ es.
            bind_Runs _ (when do_entry (perform_entry D σ)) _ Any Any
              (when_Runs _ do_entry _
                (perform_entry_Runs D height region_height m tree K regions s σ es))
              (λ _ _.
                bind_Runs _ (enter_region D σ.region s) _ Any Any
                  (enter_region_Runs σ.region s (λ r e. (tree.owner s r σ es e, free.own r σ es e)))
                  (λ _ _.
                    entry_regions_Runs fuel s σ history (arrive s queue history).1
                      (arrive s queue history).0 es low free.above (eval_entry_Runs fuel true))))

  enter_region_at :
      (r s : ℕ) (ρ : Region) (w : World D) (o : Option ℕ)
      → o ≡ some r
      → get_elem? w.0.regions r ≡ some ρ
      → enter_region D o s w ≡ some (tt, (with_current r s ρ w.0, w.1))
  enter_region_at r s ρ w o e at = rw (e, enter_region, make_current, at) refl

  -- One level of EvalEntry, from what its parts give
  eval_entry_by_parts :
      (fuel : ℕ) (do_entry : Bool) (s : ℕ) (history : Bool) (queue : List ℕ) (w w1 : World D)
      (x : Unit {0}) (σ : State) (r : ℕ) (ρ : Region) (result : Option (List ℕ × World D))
      → get_elem? w.0.states s ≡ some σ
      → when do_entry (perform_entry D σ) w ≡ some (x, w1)
      → σ.region ≡ some r
      → get_elem? w1.0.regions r ≡ some ρ
      → each
          (region_eval_entry D (eval_entry D fuel true) history (arrive s queue history).1)
          σ.regions
          (arrive s queue history).0
          (with_current r s ρ w1.0, w1.1)
        ≡ result
      → eval_entry D (suc fuel) do_entry s history queue w ≡ result
  unfolding eval_entry
  eval_entry_by_parts fuel do_entry s history queue w w1 x σ r ρ result es e home at rest =
      bind_some (state_at D s) _ w {a = σ} {w' = w} (rw es refl)
      ∙ bind_some (when do_entry (perform_entry D σ)) _ w e
      ∙ bind_some (enter_region D σ.region s) _ w1 (enter_region_at r s ρ w1 σ.region home at)
      ∙ rest

  -- EvalEntry of a state of the region r, in a machine that is a tree, gives a result if the fuel is more
  -- than the height of the state. Afterwards the state is current in r, the other regions above the
  -- state are as they were, and the machine is a tree with the same states, transitions and regions but
  -- for current states, each of which is one of its region's states.
  pub eval_entry_lem :
      (fuel : ℕ) (do_entry : Bool) (s : ℕ) (history : Bool) (queue : List ℕ) (d : D.Data) (r : ℕ)
      (ρ : Region)
      → get_elem? m.regions r ≡ some ρ
      → member s ρ.child_states ≡ true
      → height s < fuel
      → (queue' : List ℕ) × (w : World D) × (eval_entry D fuel do_entry s history queue (m, d)
          ≡ some (queue', w))
        × Follows height region_height m w.0
        × (get_elem? w.0.regions r ≡ some (record ρ { current_state = some s }))
        × ((q : ℕ)
            → height s < region_height q
            → r ≢ q
            → get_elem? w.0.regions q ≡ get_elem? m.regions q)
  eval_entry_lem zero do_entry s history queue d r ρ at child low = absurd (omega arith)
  eval_entry_lem (suc fuel) do_entry s history queue d r ρ at child low =
      let (there, high) = (tree.fits r ρ at).children s child in
      let (σ, es) = get_elem?_of_lt m.states s there in
      let home = tree.home r s ρ σ at child es in
      let (x1, w1, e1, h1, _) =
        when_Runs (Keeps D height region_height m tree (λ _. Unit {0}) m.regions) do_entry _
          (perform_entry_Runs D height region_height m tree (λ _. Unit {0}) m.regions s σ es) (m, d)
          (Follows-refl tree, λ _ _. refl) in
      let at1 : get_elem? w1.0.regions r ≡ some ρ = h1.1 r tt ∙ at in
      let w2 : World D = (with_current r s ρ w1.0, w1.1) in
      let (queue', w3, e3, h3, _) =
        entry_regions_Runs (λ q. height s < region_height q) w2.0.regions fuel s σ history
          (arrive s queue history).1 (arrive s queue history).0 es low (λ q k. k)
          (eval_entry_Runs (λ q. height s < region_height q) w2.0.regions fuel true) w2
          (with_current-Follows r s ρ h1.0 at1, λ _ _. refl) in
      let now =
        get_elem?-set_self w1.0.regions r (set_current_state s ρ)
          (lt_of_get_elem? w1.0.regions r at1) in
      (
        queue',
        w3,
        eval_entry_by_parts fuel do_entry s history queue (m, d) w1 x1 σ r ρ (some (queue', w3)) es
            e1 home at1 e3,
        h3.0,
        h3.1 r high ∙ now ∙ ap some (set_current_state_inside s ρ child),
        λ q k other.
            h3.1 q k ∙ get_elem?-set_ne w1.0.regions (set_current_state s ρ) other ∙ h1.1 q tt,
      )
