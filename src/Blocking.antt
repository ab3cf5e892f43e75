-- ===== src/Blocking.antt =====
-- Calls that sleep on a condition variable. While a thread sleeps, other threads run: the call is
-- given the wake-ups that it gets, each with the state found when the mutex is held again. A loop
-- that is still asleep after its last wake-up `blocks`; `terminates` is the end of the program that
-- the failed assertion of addTimeNano brings about (ACM_UTILITIES.h).
use arinc653emulator.Prelude.{◌≡◌, refl, ◌≢◌, ◌⊎◌, inl, inr, List, [], ◌∷◌}

-- What the wait on the condition variable returned.
pub data WakeReason : Type 0 where
  signalled etimedout : WakeReason

pub record Wake {ℓ} (S : Type ℓ) : Type ℓ where
  pub reason : WakeReason
  pub state : S

-- Where an object stands in the state that its users share.
pub record Place (S A : Type 0) : Type 0 where
  pub read : S → A
  pub write : S → A → S

pub data Outcome {ℓ} (A : Type ℓ) : Type ℓ where
  returns : A → Outcome A
  blocks : Outcome A
  terminates : Outcome A

pub data Run {ℓ} (A : Type ℓ) : Type ℓ where
  done : A → Run A
  aborts : Run A
  faults : Run A

-- A branch on what the wait returned.
abbrev pub by_reason {ℓ} : {A : Type ℓ} → WakeReason → A → A → A
by_reason etimedout x y = x
by_reason signalled x y = y

-- Some wake-up satisfies `P`.
abbrev pub SomeWake : {S : Type 0} → (Wake S → Type 0) → List (Wake S) → Type 0
SomeWake P [] = ⊥
SomeWake P (w ∷ ws) = P w ⊎ SomeWake P ws

pub returns_of_ne {ℓ} :
    {A : Type ℓ} (o : Outcome A) → o ≢ blocks → o ≢ terminates → (a : A) × (o ≡ returns a)
returns_of_ne (returns a) b t = (a, refl)
returns_of_ne blocks b t = absurd (b refl)
returns_of_ne terminates b t = absurd (t refl)

pub SomeWake-map :
    {S : Type 0} {P Q : Wake S → Type 0} (f : (w : Wake S) → P w → Q w) (ws : List (Wake S))
    → SomeWake P ws
    → SomeWake Q ws
SomeWake-map f [] h = h
SomeWake-map f (w ∷ ws) (inl p) = inl (f w p)
SomeWake-map f (w ∷ ws) (inr r) = inr (SomeWake-map f ws r)
