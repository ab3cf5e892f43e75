-- ===== src/StateMachine/Actions.antt =====
-- The form of the methods of the state machine: from the machine and the data of the program to a
-- result and both as the method leaves them. `none` is the use of a null pointer, or that the fuel of a
-- walk through the states ran out; StateMachine/Total proves that neither happens.
use arinc653emulator.Prelude.{ℕ, Bool, true, false, Option, none, some, List, [], ◌∷◌}

abbrev pub Action : Type 0 → Type 0 → Type 0
Action S A = S → Option (A × S)

infixl 5 ◌>>=◌ ◌>>◌
abbrev pub ◌>>=◌ : {S A B : Type 0} → Action S A → (A → Action S B) → Action S B
◌>>=◌ m f s = elim (m s) [ none ↦ none | some (a, s') ↦ f a s' ]

abbrev pub ◌>>◌ : {S B : Type 0} → Action S (Unit {0}) → Action S B → Action S B
m >> k = m >>= λ _. k

abbrev pub give : {S A : Type 0} → A → Action S A
give a s = some (a, s)

-- A pointer that must not be null
abbrev pub deref : {S A : Type 0} → Option A → Action S A
deref none s = none
deref (some a) s = some (a, s)

abbrev pub when : {S : Type 0} → Bool → Action S (Unit {0}) → Action S (Unit {0})
when true m = m
when false m = give tt

-- A loop over a set, with the variables that it changes
unfoldable pub each : {S A : Type 0} → (ℕ → A → Action S A) → List ℕ → A → Action S A
each f [] a = give a
each f (x ∷ xs) a = f x a >>= each f xs
