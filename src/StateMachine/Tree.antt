-- ===== src/StateMachine/Tree.antt =====
-- The states and regions as a tree: what the walks need of a machine so that no null pointer is used and
-- their fuel suffices, and that a change of a current state keeps it.
use arinc653emulator.Prelude.{
  ℕ, zero, suc, ◌≤◌, ◌<◌, ◌==◌, ==_iff, ◌∙◌, Bool-cases, true, false, some, List, [], ◌∷◌, ◌≡◌,
  refl, sym, ap, arith, inl, inr, get_elem?, set, length, length-set, get_elem?-set_self,
  get_elem?-set_ne,
}
use arinc653emulator.StateMachine.Model.{State, Region, Transition, Machine}
use arinc653emulator.StateMachine.Build.{member, set_current_state}

-- Each pointer of a list is valid.
abbrev pub AllBelow : ℕ → List ℕ → Type 0
AllBelow n [] = Unit {0}
AllBelow n (x ∷ xs) = (x < n) × AllBelow n xs

-- A transition with its source, its target and its points of entry and exit
pub record IsComplete (n : ℕ) (τ : Transition) : Type 0 where
  pub source : (s : ℕ) × (τ.source_state ≡ some s) × (s < n)
  pub target : (s : ℕ) × (τ.target_state ≡ some s) × (s < n)
  pub exit : (s : ℕ) × (τ.state_to_exit ≡ some s) × (s < n)
  pub entered : AllBelow n τ.states_to_enter

-- A region r of a machine with n states: its states are states below it, and the initial and the
-- current state are among them.
pub record Fits (n : ℕ) (height region_height : ℕ → ℕ) (r : ℕ) (ρ : Region) : Type 0 where
  pub children : (s : ℕ) → member s ρ.child_states ≡ true → (s < n) × (height s < region_height r)
  pub initial : (s : ℕ) → ρ.init_state ≡ some s → member s ρ.child_states ≡ true
  pub current : (s : ℕ) → ρ.current_state ≡ some s → member s ρ.child_states ≡ true

-- The states and transitions of a machine with n regions: the regions of a state are below it.
pub record IsTree (height region_height : ℕ → ℕ) (m : Machine) : Type 0 where
  pub regions_below :
      (s r : ℕ) (σ : State)
      → get_elem? m.states s ≡ some σ
      → member r σ.regions ≡ true
      → (r < length m.regions) × (region_height r ≤ height s)
  pub owner :
      (s r : ℕ) (σ : State)
      → get_elem? m.states s ≡ some σ
      → σ.region ≡ some r
      → r < length m.regions
  pub outgoing :
      (s t : ℕ) (σ : State)
      → get_elem? m.states s ≡ some σ
      → member t σ.out_transitions ≡ true
      → t < length m.transitions
  pub time_outs :
      (s t : ℕ) (σ : State)
      → get_elem? m.states s ≡ some σ
      → member t σ.time_out_transitions ≡ true
      → t < length m.transitions
  pub fits :
      (r : ℕ) (ρ : Region)
      → get_elem? m.regions r ≡ some ρ
      → Fits (length m.states) height region_height r ρ
  -- A state of a region has that region as m_pRegion.
  pub home :
      (r s : ℕ) (ρ : Region) (σ : State)
      → get_elem? m.regions r ≡ some ρ
      → member s ρ.child_states ≡ true
      → get_elem? m.states s ≡ some σ
      → σ.region ≡ some r
  pub complete :
      (t : ℕ) (τ : Transition) → get_elem? m.transitions t ≡ some τ → IsComplete (length m.states) τ

pub get_elem?_of_lt {ℓ} :
    {A : Type ℓ} (xs : List A) (i : ℕ) → i < length xs → (x : A) × (get_elem? xs i ≡ some x)
get_elem?_of_lt [] i h = elim h [ ]
get_elem?_of_lt (x ∷ xs) zero h = (x, refl)
get_elem?_of_lt (x ∷ xs) (suc i) h = get_elem?_of_lt xs i (omega arith)

pub lt_of_get_elem? {ℓ} :
    {A : Type ℓ} (xs : List A) (i : ℕ) {x : A} → get_elem? xs i ≡ some x → i < length xs
lt_of_get_elem? [] i h = cc
lt_of_get_elem? (x ∷ xs) zero h = omega arith
lt_of_get_elem? (x ∷ xs) (suc i) h = omega (arith, lt_of_get_elem? xs i h)

module _ {n : ℕ} {height region_height : ℕ → ℕ} where
  -- The guard of setCurrentState keeps the current state among the states of the region.
  pub set_current_state-Fits :
      (s r : ℕ) (ρ : Region)
      → Fits n height region_height r ρ
      → Fits n height region_height r (set_current_state s ρ)
  unfolding set_current_state
  set_current_state-Fits s r ρ f = elim (Bool-cases (member s ρ.child_states)) [
    | inr outside ↦ rw outside f
    | inl inside ↦ rw inside (record {
      children = f.children;
      initial = f.initial;
      current = λ q e. let same : s ≡ q = cc in rw (← same) inside;
    })
  ]

-- A machine with another state made current in a region
abbrev pub with_current : ℕ → ℕ → Region → Machine → Machine
with_current r s ρ m = record m { regions = set m.regions r (set_current_state s ρ) }

-- What stands in the regions afterwards
at_changed :
    (m : Machine) (r s : ℕ) (ρ : Region)
    → get_elem? m.regions r ≡ some ρ
    → (q : ℕ) (γ : Region) → (r == q) ≡ true
    → get_elem? (with_current r s ρ m).regions q ≡ some γ
    → set_current_state s ρ ≡ γ
at_changed m r s ρ at q γ same e =
    let eq : r ≡ q = (==_iff r q).0 same in
    cc (
      get_elem?-set_self m.regions r (set_current_state s ρ) (lt_of_get_elem? m.regions r at),
      e,
      eq,
    )

at_unchanged :
    (m : Machine) (r s : ℕ) (ρ : Region) (q : ℕ) (γ : Region)
    → (r == q) ≡ false
    → get_elem? (with_current r s ρ m).regions q ≡ some γ
    → get_elem? m.regions q ≡ some γ
at_unchanged m r s ρ q γ other e =
    sym (get_elem?-set_ne m.regions (set_current_state s ρ) (λ k. cc ((==_iff r q).1 k))) ∙ e

set_current_state_same :
    (s : ℕ) (ρ : Region)
    → set_current_state s ρ ≡ record ρ { current_state = (set_current_state s ρ).current_state }
unfolding set_current_state
set_current_state_same s ρ = elim (Bool-cases (member s ρ.child_states)) [
  | inl t ↦ rw t refl
  | inr f ↦ rw f refl
]

same_region_trans :
    (ρ γ δ : Region)
    → ρ ≡ record γ { current_state = ρ.current_state }
    → γ ≡ record δ { current_state = γ.current_state }
    → ρ ≡ record δ { current_state = ρ.current_state }
same_region_trans ρ γ δ e e' =
    e ∙ ap (λ (x : Region). record x { current_state = ρ.current_state }) e'

-- The machine m' is the machine m, but for the current states of the regions.
pub record Follows (height region_height : ℕ → ℕ) (m m' : Machine) : Type 0 where
  pub same_states : m'.states ≡ m.states
  pub same_transitions : m'.transitions ≡ m.transitions
  pub same_size : length m'.regions ≡ length m.regions
  pub same_region :
      (r : ℕ) (ρ : Region)
      → get_elem? m'.regions r ≡ some ρ
      → (γ : Region) × (get_elem? m.regions r ≡ some γ)
        × (ρ ≡ record γ { current_state = ρ.current_state })
  pub still_fits :
      (r : ℕ) (ρ : Region)
      → get_elem? m'.regions r ≡ some ρ
      → Fits (length m.states) height region_height r ρ

module _ {height region_height : ℕ → ℕ} {m : Machine} where
  pub Follows-IsTree :
      {m' : Machine}
      → IsTree height region_height m
      → Follows height region_height m m'
      → IsTree height region_height m'
  Follows-IsTree t f = record {
    regions_below = λ s r σ e k. rw f.same_size (t.regions_below s r σ (rw (← f.same_states) e) k);
    owner = λ s r σ e k. rw f.same_size (t.owner s r σ (rw (← f.same_states) e) k);
    outgoing = λ s r σ e k. rw f.same_transitions (t.outgoing s r σ (rw (← f.same_states) e) k);
    time_outs = λ s r σ e k. rw f.same_transitions (t.time_outs s r σ (rw (← f.same_states) e) k);
    fits = λ r ρ e. rw f.same_states (f.still_fits r ρ e);
    home = λ r s ρ σ e k es.
        let (γ, at, same) = f.same_region r ρ e in
        t.home r s γ σ at (rw (← ap (λ (x : Region). x.child_states) same) k)
          (rw (← f.same_states) es);
    complete = λ r τ e. rw f.same_states (t.complete r τ (rw (← f.same_transitions) e));
  }

  pub Follows-refl : IsTree height region_height m → Follows height region_height m m
  Follows-refl t = record {
    same_states = refl;
    same_transitions = refl;
    same_size = refl;
    same_region = λ r ρ e. (ρ, e, refl);
    still_fits = t.fits;
  }

  pub Follows-trans :
      {m' m'' : Machine}
      → Follows height region_height m m'
      → Follows height region_height m' m''
      → Follows height region_height m m''
  Follows-trans f g = record {
    same_states = g.same_states ∙ f.same_states;
    same_transitions = g.same_transitions ∙ f.same_transitions;
    same_size = g.same_size ∙ f.same_size;
    same_region = λ r ρ e.
        let (γ, at, same) = g.same_region r ρ e in
        let (δ, at', same') = f.same_region r γ at in (δ, at', same_region_trans ρ γ δ same same');
    still_fits = λ r ρ e. rw (← f.same_states) (g.still_fits r ρ e);
  }

  pub with_current-Follows :
      {m' : Machine} (r s : ℕ) (ρ : Region)
      → Follows height region_height m m'
      → get_elem? m'.regions r ≡ some ρ
      → Follows height region_height m (with_current r s ρ m')
  with_current-Follows {m'} r s ρ f at = record {
    same_states = f.same_states;
    same_transitions = f.same_transitions;
    same_size = length-set m'.regions r (set_current_state s ρ) ∙ f.same_size;
    same_region = λ q γ e. elim (Bool-cases (r == q)) [
      | inl same ↦
          let eq : r ≡ q = (==_iff r q).0 same in
          let (δ, at', same') = f.same_region r ρ at in
          (
            δ,
            rw (← eq) at',
            same_region_trans γ ρ δ
                (rw (← at_changed m' r s ρ at q γ same e) (set_current_state_same s ρ)) same',
          )
      | inr other ↦ f.same_region q γ (at_unchanged m' r s ρ q γ other e)
    ];
    still_fits = λ q γ e. elim (Bool-cases (r == q)) [
      | inl same ↦
          let eq : r ≡ q = (==_iff r q).0 same in
          rw (← eq, ← at_changed m' r s ρ at q γ same e)
            (set_current_state-Fits s r ρ (f.still_fits r ρ at))
      | inr other ↦ f.still_fits q γ (at_unchanged m' r s ρ q γ other e)
    ];
  }
