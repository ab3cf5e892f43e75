-- ===== src/StateMachine/Running.antt =====
-- Total correctness of the methods of a state machine: from every state with P the method gives a
-- result with Q and a state with P. One rule for each form of method.
use arinc653emulator.Prelude.{
  ℕ, Bool, true, false, Option, none, some, List, [], ◌∷◌, ◌≡◌, refl, arith, Option-cases, inl, inr,
  sym, ◌∙◌, if◌then◌else◌,
}
use arinc653emulator.StateMachine.Actions.{Action, ◌>>=◌, give, deref, when, each}
use arinc653emulator.StateMachine.Build.{member}

abbrev pub Runs : {S A : Type 0} → (S → Type 0) → Action S A → (A → Type 0) → Type 0
Runs {S} {A} P m Q = (w : S) → P w → (a : A) × (w' : S) × (m w ≡ some (a, w')) × P w' × Q a

abbrev pub Any : {A : Type 0} → A → Type 0
Any a = Unit {0}

pub member_head : (x : ℕ) (xs : List ℕ) → member x (x ∷ xs) ≡ true
unfolding member
member_head x xs = ground arith

pub member_tail : (y x : ℕ) (xs : List ℕ) → member y xs ≡ true → member y (x ∷ xs) ≡ true
unfolding member
member_tail y x xs h = ground arith

-- A bind whose first part gives a result
pub bind_some :
    {S A B : Type 0} (m : Action S A) (f : A → Action S B) (w : S) {a : A} {w' : S}
    → m w ≡ some (a, w')
    → (m >>= f) w ≡ f a w'
bind_some m f w e = rw (◌>>=◌, e) refl

-- A bind that gave a result: both parts did.
pub bind_inverse :
    {S A B : Type 0} (m : Action S A) (f : A → Action S B) (w : S) {b : B} {w'' : S}
    → (m >>= f) w ≡ some (b, w'')
    → (a : A) × (w' : S) × (m w ≡ some (a, w')) × (f a w' ≡ some (b, w''))
bind_inverse m f w e = elim (Option-cases (m w)) [
  | inl n ↦ absurd (ground (arith, n, e))
  | inr ((a, w'), h) ↦ (a, w', h, sym (bind_some m f w h) ∙ e)
]

module _ {S : Type 0} (P : S → Type 0) where
  pub bind_Runs :
      {A B : Type 0} (m : Action S A) (f : A → Action S B) (Q : A → Type 0) (R : B → Type 0)
      → Runs P m Q
      → ((a : A) → Q a → Runs P (f a) R)
      → Runs P (m >>= f) R
  bind_Runs m f Q R hm hf w h =
      let (a, w', e, h', q) = hm w h in
      let (b, w'', e', h'', r) = hf a q w' h' in (b, w'', rw (◌>>=◌, e) e', h'', r)

  pub give_Runs : {A : Type 0} (a : A) (Q : A → Type 0) → Q a → Runs P (give a) Q
  give_Runs a Q q w h = (a, w, refl, h, q)

  pub if_Runs :
      {A : Type 0} (b : Bool) (m n : Action S A) (Q : A → Type 0)
      → Runs P m Q
      → Runs P n Q
      → Runs P (if b then m else n) Q
  if_Runs true m n Q hm hn = hm
  if_Runs false m n Q hm hn = hn

  pub when_Runs : (b : Bool) (m : Action S (Unit {0})) → Runs P m Any → Runs P (when b m) Any
  when_Runs true m hm w h = hm w h
  when_Runs false m hm w h = (tt, w, refl, h, tt)

  pub option_Runs :
      {A B : Type 0} (o : Option A) (n : Action S B) (f : A → Action S B) (Q : B → Type 0)
      → Runs P n Q
      → ((a : A) → o ≡ some a → Runs P (f a) Q)
      → Runs P (elim o [ none ↦ n | some a ↦ f a ]) Q
  option_Runs none n f Q hn hf = hn
  option_Runs (some a) n f Q hn hf = hf a refl

  pub deref_Runs :
      {A : Type 0} (o : Option A) (a : A) (Q : A → Type 0) → o ≡ some a → Q a → Runs P (deref o) Q
  deref_Runs o a Q e q w h = (a, w, rw e refl, h, q)

  pub each_Runs :
      {A : Type 0} (f : ℕ → A → Action S A) (Q : A → Type 0) (xs : List ℕ)
      → ((x : ℕ) (a : A) → member x xs ≡ true → Q a → Runs P (f x a) Q)
      → (a : A) → Q a
      → Runs P (each f xs a) Q
  unfolding each
  each_Runs f Q [] hf a q = give_Runs a Q q
  each_Runs f Q (x ∷ xs) hf a q =
      bind_Runs (f x a) (each f xs) Q Q (hf x a (member_head x xs) q)
        (λ b qb. each_Runs f Q xs (λ y c k qc. hf y c (member_tail y x xs k) qc) b qb)

-- A Runs with a weaker conclusion
pub weaken_Runs :
    {S A : Type 0} (P : S → Type 0) (m : Action S A) (Q R : A → Type 0)
    → ((a : A) → Q a → R a)
    → Runs P m Q
    → Runs P m R
weaken_Runs P m Q R hq hm w h = let (a, w', e, h', q) = hm w h in (a, w', e, h', hq a q)
