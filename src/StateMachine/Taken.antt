-- ===== src/StateMachine/Taken.antt =====
-- The transitions that the search of a step takes, and why it may.
use mathlib.Core.List.{append_assoc}
use arinc653emulator.Prelude.{
  ℕ, ℤ, ◌⊎◌, inl, inr, Bool-cases, true, false, some, List, [], ◌∷◌, ◌++◌, ◌≡◌, refl, ap, ◌∙◌,
  arith, get_elem?, length, if◌then◌else◌,
}
use arinc653emulator.StateMachine.Model.{State, Transition, Machine, DataSource}
use arinc653emulator.StateMachine.Build.{member}
use arinc653emulator.StateMachine.Walks.{World, is_empty, check_event, check_guard}
use arinc653emulator.StateMachine.Stepping.{is_enabled, no_default}
use arinc653emulator.StateMachine.Tree.{AllBelow, lt_of_get_elem?}

pub ++_nil : (xs : List ℕ) → xs ≡ xs ++ []
++_nil [] = refl
++_nil (x ∷ xs) = ap (λ l. x ∷ l) (++_nil xs)

pub append_ne_nil : {P : Type 0} (xs : List ℕ) (t : ℕ) → xs ++ t ∷ [] ≡ [] → P
append_ne_nil [] t e = cc
append_ne_nil (x ∷ xs) t e = cc

-- A test of the choice: with a data source the trigger of the transition holds, and then its guard.
abbrev pub IsHeld : DataSource → Transition → Type 0
IsHeld D τ =
    (τ.has_source ≡ false)
    ⊎ ((d : D.Data) × ((D.eval_transition_event_trigger τ.id d).0 ≡ true)
        × ((D.eval_transition_guard τ.id (D.eval_transition_event_trigger τ.id d).1).0 ≡ true))

module _ (D : DataSource) (τ : Transition) (m : Machine) (d : D.Data) (w' : World D)
    (t : τ.has_source ≡ true) (e : is_enabled D τ (m, d) ≡ some (true, w')) where
  held_event : (D.eval_transition_event_trigger τ.id d).0 ≡ true
  unfolding check_event check_guard
  held_event = elim (Bool-cases (D.eval_transition_event_trigger τ.id d).0) [
    | inl holds ↦ holds
    | inr fails ↦ absurd (ground (arith, t, fails, e))
  ]

  held_guard : (D.eval_transition_guard τ.id (D.eval_transition_event_trigger τ.id d).1).0 ≡ true
  unfolding check_event check_guard
  held_guard = ground (arith, t, held_event, e)

-- What a call of is_enabled that gave true has found
pub is_enabled-IsHeld :
    (D : DataSource) (τ : Transition) (w w' : World D)
    → is_enabled D τ w ≡ some (true, w')
    → IsHeld D τ
unfolding check_event check_guard
is_enabled-IsHeld D τ (m, d) w' e = elim (Bool-cases τ.has_source) [
  | inr f ↦ inl f
  | inl t ↦ inr (d, held_event D τ m d w' t e, held_guard D τ m d w' t e)
]

module _ (D : DataSource) (m : Machine) where
  -- A transition that leaves a state of the machine, and whose tests held
  abbrev pub IsTaken : ℕ → Type 0
  IsTaken t =
      (s : ℕ) × (σ : State) × (τ : Transition) × (get_elem? m.states s ≡ some σ)
      × (member t σ.out_transitions ≡ true)
      × (get_elem? m.transitions t ≡ some τ)
      × IsHeld D τ

  abbrev pub AllTaken : List ℕ → Type 0
  AllTaken [] = Unit {0}
  AllTaken (t ∷ ts) = IsTaken t × AllTaken ts

  AllTaken-append : (xs ys : List ℕ) → AllTaken xs → AllTaken ys → AllTaken (xs ++ ys)
  AllTaken-append [] ys h k = k
  AllTaken-append (x ∷ xs) ys h k = (h.0, AllTaken-append xs ys h.1 k)

  -- What EvalTransitions promises: to the given transitions it adds such transitions, and with no active
  -- transition it finds no default action.
  abbrev pub IsSearched : List ℕ → List ℕ → ℤ → Type 0
  IsSearched given active found =
      (more : List ℕ) × (active ≡ given ++ more)
      × AllTaken more
      × (active ≡ [] → found ≡ no_default)

  pub IsSearched-end :
      (given active : List ℕ) (found own : ℤ)
      → IsSearched given active found
      → IsSearched given active (if is_empty active then found else own)
  IsSearched-end given [] found own h = h
  IsSearched-end given (t ∷ ts) found own h = (h.0, h.1, h.2, λ e. cc)

  pub IsSearched-trans :
      (given active after : List ℕ) (found found' : ℤ)
      → IsSearched given active found
      → IsSearched active after found'
      → IsSearched given after found'
  IsSearched-trans given active after found found' (more, e, h, _) (more', e', h', none_found) = (
    more ++ more',
    e' ∙ ap (λ l. l ++ more') e ∙ append_assoc given more more',
    AllTaken-append more more' h h',
    none_found,
  )

  AllTaken-AllBelow :
      (given more : List ℕ)
      → AllBelow (length m.transitions) given
      → AllTaken more
      → AllBelow (length m.transitions) (given ++ more)
  AllTaken-AllBelow (x ∷ xs) more h k = (h.0, AllTaken-AllBelow xs more h.1 k)
  AllTaken-AllBelow [] [] h k = tt
  AllTaken-AllBelow [] (t ∷ ts) h k =
      let (s, σ, τ, _, _, e, _) = k.0 in
      (lt_of_get_elem? m.transitions t e, AllTaken-AllBelow [] ts tt k.1)

  pub IsSearched-AllBelow :
      (given active : List ℕ) (found : ℤ)
      → AllBelow (length m.transitions) given
      → IsSearched given active found
      → AllBelow (length m.transitions) active
  IsSearched-AllBelow given active found h (more, e, k, _) = rw e (AllTaken-AllBelow given more h k)
