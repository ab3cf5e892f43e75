-- ===== src/StateMachine/Order.antt =====
-- The sets of transitions that TransitionComp orders.
use arinc653emulator.Prelude.{
  ℕ, ◌<◌, ◌==◌, ==_iff, ℤ, pos, ltb_ℤ, eq_of_parts, length, none, Option, ap, sym, ◌∙◌, Bool,
  Bool-cases, true, false, some, List, [], ◌∷◌, ◌≡◌, refl, ◌⊎◌, inl, inr, arith, get_elem?, set,
  get_elem?-set_self,
}
use arinc653emulator.StateMachine.Model.{State, Transition, Machine}
use arinc653emulator.StateMachine.Build.{
  insert_by, member, transition_comp, transition_before, on_state, add_outgoing_transition,
}
use arinc653emulator.StateMachine.Tree.{AllBelow, get_elem?_of_lt, lt_of_get_elem?}

-- Each member comes before the next one.
abbrev pub Precedes : (ℕ → ℕ → Bool) → ℕ → List ℕ → Type 0
Precedes less x [] = Unit {0}
Precedes less x (y ∷ ys) = less x y ≡ true

abbrev pub IsOrdered : (ℕ → ℕ → Bool) → List ℕ → Type 0
IsOrdered less [] = Unit {0}
IsOrdered less (x ∷ xs) = Precedes less x xs × IsOrdered less xs

module _ (less : ℕ → ℕ → Bool) where
  Precedes-insert_by :
      (x y : ℕ) (ys : List ℕ)
      → less y x ≡ true
      → Precedes less y ys
      → Precedes less y (insert_by less x ys)
  unfolding insert_by
  Precedes-insert_by x y [] h p = h
  Precedes-insert_by x y (z ∷ zs) h p = elim (Bool-cases (less x z)) [
    | inl t ↦ rw t h
    | inr f ↦ elim (Bool-cases (less z x)) [ inl u ↦ rw (f, u) p | inr g ↦ rw (f, g) p ]
  ]

  insert_by-IsOrdered :
      (x : ℕ) (ys : List ℕ) → IsOrdered less ys → IsOrdered less (insert_by less x ys)
  unfolding insert_by
  insert_by-IsOrdered x [] h = (tt, tt)
  insert_by-IsOrdered x (y ∷ ys) h = elim (Bool-cases (less x y)) [
    | inl t ↦ rw t (t, h)
    | inr f ↦ elim (Bool-cases (less y x)) [
      | inl u ↦ rw (f, u) (Precedes-insert_by x y ys u h.0, insert_by-IsOrdered x ys h.1)
      | inr g ↦ rw (f, g) h
    ]
  ]

  -- A member of equal rank keeps the new one out, and the set as it was.
  abbrev pub Equals : ℕ → List ℕ → Type 0
  Equals x ys = (y : ℕ) × (member y ys ≡ true) × (less x y ≡ false) × (less y x ≡ false)

  insert_by-member :
      (x : ℕ) (ys : List ℕ)
      → (member x (insert_by less x ys) ≡ true) ⊎ (Equals x ys × (insert_by less x ys ≡ ys))
  unfolding insert_by member
  insert_by-member x [] = inl (ground arith)
  insert_by-member x (y ∷ ys) = elim (Bool-cases (less x y)) [
    | inl t ↦ inl (rw t (ground arith))
    | inr f ↦ elim (Bool-cases (less y x)) [
      | inr g ↦ inr ((y, ground arith, f, g), rw (f, g) refl)
      | inl u ↦ elim (insert_by-member x ys) [
        | inl k ↦ inl (rw (f, u) (ground arith))
        | inr ((z, k, a, b), same) ↦ inr ((z, ground arith, a, b), rw (f, u, same) refl)
      ]
    ]
  ]

  insert_by_keeps :
      (x z : ℕ) (ys : List ℕ) → member z ys ≡ true → member z (insert_by less x ys) ≡ true
  unfolding insert_by member
  insert_by_keeps x z [] h = cc
  insert_by_keeps x z (y ∷ ys) h = elim (Bool-cases (less x y)) [
    | inl t ↦ rw t (ground arith)
    | inr f ↦ elim (Bool-cases (less y x)) [
      | inr g ↦ rw (f, g) h
      | inl u ↦
          rw (f, u)
            (elim (Bool-cases (z == y)) [
              | inl same ↦ rw same refl
              | inr other ↦ rw other (insert_by_keeps x z ys (rw other at h))
            ])
    ]
  ]

on_state_at :
    (f : State → State) (s : ℕ) (m : Machine) (σ : State)
    → get_elem? m.states s ≡ some σ
    → on_state f s m ≡ some (record m { states = set m.states s (f σ) })
on_state_at f s m σ at = rw (on_state, at) refl

eq_of_not_less : (a b : ℤ) → ltb_ℤ a b ≡ false → ltb_ℤ b a ≡ false → a ≡ b
eq_of_not_less a b h k = eq_of_parts a b (ground arith)

-- The priority of a transition of the machine
abbrev pub priority_of : Machine → ℕ → ℤ
priority_of m t = elim (get_elem? m.transitions t) [ none ↦ pos 0 | some τ ↦ τ.priority ]

-- The priority of the one is the smaller number.
abbrev pub is_lower : Machine → ℕ → ℕ → Bool
is_lower m t u = ltb_ℤ (priority_of m t) (priority_of m u)

priority_of-known :
    (m : Machine) (t : ℕ) (τ : Transition)
    → get_elem? m.transitions t ≡ some τ
    → priority_of m t ≡ τ.priority
priority_of-known m t τ e =
    ap (λ (o : Option Transition). elim o [ none ↦ pos 0 | some τ ↦ τ.priority ]) e

transition_before-is_lower :
    (m : Machine) (t u : ℕ)
    → t < length m.transitions
    → u < length m.transitions
    → transition_before m t u ≡ is_lower m t u
unfolding transition_comp
transition_before-is_lower m t u a b =
    let (τ, e) = get_elem?_of_lt m.transitions t a in
    let (γ, f) = get_elem?_of_lt m.transitions u b in
    let lower : is_lower m t u ≡ ltb_ℤ τ.priority γ.priority =
      ap (λ p. ltb_ℤ p (priority_of m u)) (priority_of-known m t τ e)
      ∙ ap (ltb_ℤ τ.priority) (priority_of-known m u γ f) in
    rw (e, f) (sym lower)

-- Two comparisons that agree on what is below a bound order the same lists of it.
module _ (n : ℕ) (f g : ℕ → ℕ → Bool) (same : (x y : ℕ) → x < n → y < n → f x y ≡ g x y) where
  Precedes-same : (x : ℕ) (ys : List ℕ) → x < n → AllBelow n ys → Precedes f x ys → Precedes g x ys
  Precedes-same x [] k h p = tt
  Precedes-same x (y ∷ ys) k h p = rw (← same x y k h.0) p

  IsOrdered-same : (xs : List ℕ) → AllBelow n xs → IsOrdered f xs → IsOrdered g xs
  IsOrdered-same [] h p = tt
  IsOrdered-same (x ∷ xs) h p = (Precedes-same x xs h.0 h.1 p.0, IsOrdered-same xs h.1 p.1)

insert_by-AllBelow :
    (less : ℕ → ℕ → Bool) (n x : ℕ) (ys : List ℕ)
    → x < n
    → AllBelow n ys
    → AllBelow n (insert_by less x ys)
unfolding insert_by
insert_by-AllBelow less n x [] k h = (k, tt)
insert_by-AllBelow less n x (y ∷ ys) k h = elim (Bool-cases (less x y)) [
  | inl t ↦ rw t (k, h)
  | inr f ↦ elim (Bool-cases (less y x)) [
    | inl u ↦ rw (f, u) (h.0, insert_by-AllBelow less n x ys k h.1)
    | inr g ↦ rw (f, g) h
  ]
]

AllBelow-member : (n x : ℕ) (ys : List ℕ) → AllBelow n ys → member x ys ≡ true → x < n
unfolding member
AllBelow-member n x [] h e = cc
AllBelow-member n x (y ∷ ys) h e = elim (Bool-cases (x == y)) [
  | inl same ↦ rw ((==_iff x y).0 same) h.0
  | inr other ↦ AllBelow-member n x ys h.1 (ground (arith, other, e))
]

equal_priority :
    (m : Machine) (t : ℕ) (ys : List ℕ)
    → t < length m.transitions
    → AllBelow (length m.transitions) ys
    → Equals (transition_before m) t ys
    → (u : ℕ) × (member u ys ≡ true) × (priority_of m u ≡ priority_of m t)
equal_priority m t ys k h (u, c, a, b) =
    let there = AllBelow-member (length m.transitions) u ys h c in
    let one = sym (transition_before-is_lower m t u k there) ∙ a in
    let other = sym (transition_before-is_lower m u t there k) ∙ b in
    (u, c, eq_of_not_less (priority_of m u) (priority_of m t) other one)

-- addOutgoingTransition, with transitions of the machine: it keeps the transitions of the state in the
-- order of their priorities, the smallest number first and no two alike, and each that was there. The new
-- one is among them, or there is one of the same priority: then it is lost, and the set stays as it was.
pub add_outgoing_transition_lem :
    (t s : ℕ) (m : Machine) (σ : State)
    → get_elem? m.states s ≡ some σ
    → t < length m.transitions
    → AllBelow (length m.transitions) σ.out_transitions
    → IsOrdered (is_lower m) σ.out_transitions
    → (m' : Machine) × (σ' : State) × (add_outgoing_transition t s m ≡ some m')
      × (get_elem? m'.states s ≡ some σ')
      × IsOrdered (is_lower m') σ'.out_transitions
      × ((u : ℕ) → member u σ.out_transitions ≡ true → member u σ'.out_transitions ≡ true)
      × ((member t σ'.out_transitions ≡ true)
          ⊎ (((u : ℕ) × (member u σ.out_transitions ≡ true) × (priority_of m u ≡ priority_of m t))
              × (σ'.out_transitions ≡ σ.out_transitions)))
unfolding add_outgoing_transition
add_outgoing_transition_lem t s m σ at k below h =
    let n = length m.transitions in
    let less = transition_before m in
    let σ' : State = record σ { out_transitions = insert_by less t σ.out_transitions } in
    let ordered = insert_by-IsOrdered less t σ.out_transitions (
      IsOrdered-same n (is_lower m) less (λ x y a b. sym (transition_before-is_lower m x y a b))
        σ.out_transitions below h) in
    (
      record m { states = set m.states s σ' },
      σ',
      on_state_at (λ x. record x { out_transitions = insert_by less t x.out_transitions }) s m σ at,
      get_elem?-set_self m.states s σ' (lt_of_get_elem? m.states s at),
      IsOrdered-same n less (is_lower m) (transition_before-is_lower m) _
          (insert_by-AllBelow less n t σ.out_transitions k below) ordered,
      λ u. insert_by_keeps less t u σ.out_transitions,
      elim (insert_by-member less t σ.out_transitions) [
        | inl c ↦ inl c
        | inr (e, same) ↦ inr (equal_priority m t σ.out_transitions k below e, same)
      ],
    )
