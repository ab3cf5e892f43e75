-- ===== src/StateMachine/Paths.antt =====
-- State::computePathToRoot and Transition::computeEntryAndExitPoints.
use arinc653emulator.Prelude.{
  ℕ, zero, suc, Bool, true, false, ◌||◌, Option, none, some, List, [], ◌∷◌, ◌++◌, get_elem?, set,
  drop, ◌==◌, if◌then◌else◌,
}
use arinc653emulator.StateMachine.Model.{Transition, Machine}

infixl 5 ◌>>=◌
abbrev ◌>>=◌ : {A B : Type 0} → Option A → (A → Option B) → Option B
none >>= f = none
some a >>= f = f a

-- The loop of computePathToRoot, from a region upwards; the fuel is one round for each region.
unfoldable pub path_loop : ℕ → Machine → Option ℕ → List ℕ → List ℕ → Option (List ℕ × List ℕ)
path_loop fuel m none rs ss = some (rs, ss)
path_loop zero m (some r) rs ss = none
path_loop (suc fuel) m (some r) rs ss = do
  ρ ← get_elem? m.regions r
  s ← ρ.parent
  σ ← get_elem? m.states s
  path_loop fuel m σ.region (r ∷ rs) (s ∷ ss)

unfoldable pub compute_path_to_root : ℕ → ℕ → Machine → Option Machine
unfolding path_loop
compute_path_to_root fuel s m = do
  σ ← get_elem? m.states s
  (rs, ss) ← path_loop fuel m σ.region [] []
  some (record m {
    states = set m.states s (record σ { region_path_to_root = rs; state_path_to_root = ss });
  })

-- The index at which the loop of computeEntryAndExitPoints stops
unfoldable pub first_difference : List ℕ → List ℕ → ℕ
first_difference [] ys = 0
first_difference (x ∷ xs) [] = 0
first_difference (x ∷ xs) (y ∷ ys) = if x == y then suc (first_difference xs ys) else 0

-- path[i - 1]; `none` is the access before the first element
abbrev pub element_before : List ℕ → ℕ → Option ℕ
element_before path zero = none
element_before path (suc i) = get_elem? path i

-- m_pRegion of two states is the same pointer
abbrev pub same_pointer : Option ℕ → Option ℕ → Bool
same_pointer none none = true
same_pointer (some a) (some b) = a == b
same_pointer _ _ = false

-- m_StateToExit, and whether the states where the paths part stand in different regions
unfoldable pub exit_point : Machine → ℕ → List ℕ → ℕ → Option ℕ → Option ℕ → Option (ℕ × Bool)
exit_point m source path i none b = some (source, false)
exit_point m source path i (some a) none = some (source, false)
exit_point m source path i (some a) (some b) = do
  σ ← get_elem? m.states a
  γ ← get_elem? m.states b
  (if same_pointer σ.region γ.region
      then some (a, false)
      else (element_before path i >>= λ e. some (e, true)))

-- What a transition is left with, from the two paths
unfoldable pub with_points : Machine → Transition → ℕ → ℕ → List ℕ → List ℕ → Option Transition
unfolding first_difference exit_point
with_points m τ source target path path' =
    let i = first_difference path path' in
    exit_point m source path i (get_elem? path i) (get_elem? path' i) >>= λ (e, parallel).
    let between = τ.between_parallel_machines || parallel in
    some (record τ {
      state_to_exit = some e;
      between_parallel_machines = between;
      states_to_enter =
          ((τ.states_to_enter ++ (if between then e ∷ [] else [])) ++ drop i path') ++ target ∷ [];
    })

unfoldable pub compute_entry_and_exit_points : ℕ → Machine → Option Machine
unfolding with_points
compute_entry_and_exit_points t m = do
  τ ← get_elem? m.transitions t
  source ← τ.source_state
  target ← τ.target_state
  σ ← get_elem? m.states source
  γ ← get_elem? m.states target
  τ' ← with_points m τ source target σ.state_path_to_root γ.state_path_to_root
  some (record m { transitions = set m.transitions t τ' })
