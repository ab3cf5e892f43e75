-- ===== src/StateMachine/Parting.antt =====
-- Two paths from the root, and where they part.
use arinc653emulator.Prelude.{
  ℕ, ◌==◌, ==_iff, Bool-cases, true, false, Option, none, some, List, [], ◌∷◌, ◌++◌, ◌≡◌, ◌≢◌, refl,
  ap, sym, ◌∙◌, inl, inr, arith, get_elem?, length, drop,
}
use arinc653emulator.StateMachine.Model.{State, Machine}
use arinc653emulator.StateMachine.Tree.{AllBelow}
use arinc653emulator.StateMachine.Paths.{first_difference, element_before, same_pointer, exit_point}

-- Two paths that part after a common beginning: the rests do not begin alike.
abbrev pub Part : List ℕ → List ℕ → Type 0
Part (a ∷ xs) (b ∷ ys) = a ≢ b
Part xs ys = Unit {0}

first_difference-Part : (xs ys : List ℕ) → Part xs ys → first_difference xs ys ≡ 0
unfolding first_difference
first_difference-Part [] ys h = refl
first_difference-Part (a ∷ xs) [] h = refl
first_difference-Part (a ∷ xs) (b ∷ ys) h = elim (Bool-cases (a == b)) [
  | inl same ↦ absurd (h ((==_iff a b).0 same))
  | inr other ↦ rw other refl
]

-- The loop over two paths stops where they part.
pub first_difference-append :
    (common xs ys : List ℕ)
    → Part xs ys
    → first_difference (common ++ xs) (common ++ ys) ≡ length common
unfolding first_difference
first_difference-append [] xs ys h = first_difference-Part xs ys h
first_difference-append (c ∷ cs) xs ys h = ground (arith, first_difference-append cs xs ys h)

pub get_elem?-append :
    (common xs : List ℕ) → get_elem? (common ++ xs) (length common) ≡ get_elem? xs 0
get_elem?-append [] xs = refl
get_elem?-append (c ∷ cs) xs = get_elem?-append cs xs

pub drop-append : (common xs : List ℕ) → drop (length common) (common ++ xs) ≡ xs
drop-append [] xs = refl
drop-append (c ∷ cs) xs = drop-append cs xs

-- The last state of the common beginning
last-append :
    (d : ℕ) (ds : List ℕ) (c : ℕ) (xs : List ℕ)
    → get_elem? (d ∷ ((ds ++ c ∷ []) ++ xs)) (length (ds ++ c ∷ [])) ≡ some c
last-append d [] c xs = refl
last-append d (e ∷ es) c xs = last-append e es c xs

pub element_before-append :
    (common : List ℕ) (c : ℕ) (xs : List ℕ)
    → element_before ((common ++ c ∷ []) ++ xs) (length (common ++ c ∷ [])) ≡ some c
element_before-append [] c xs = refl
element_before-append (d ∷ ds) c xs = last-append d ds c xs

pub exit_point_end :
    (m : Machine) (source : ℕ) (path : List ℕ) (i : ℕ) (b : Option ℕ)
    → exit_point m source path i none b ≡ some (source, false)
unfolding exit_point
exit_point_end m source path i b = refl

pub exit_point_without :
    (m : Machine) (source : ℕ) (path : List ℕ) (i : ℕ) (xs : List ℕ)
    → exit_point m source path i (get_elem? xs 0) none ≡ some (source, false)
unfolding exit_point
exit_point_without m source path i [] = refl
exit_point_without m source path i (x ∷ xs) = refl

pub Part-nil : (xs : List ℕ) → Part xs []
Part-nil [] = tt
Part-nil (x ∷ xs) = tt

pub exit_point_across :
    (m : Machine) (source : ℕ) (path : List ℕ) (i a b : ℕ) (σ γ : State)
    → get_elem? m.states a ≡ some σ
    → get_elem? m.states b ≡ some γ
    → same_pointer σ.region γ.region ≡ true
    → exit_point m source path i (some a) (some b) ≡ some (a, false)
unfolding exit_point
exit_point_across m source path i a b σ γ ea eb e = rw (ea, eb, e) refl

pub exit_point_between :
    (m : Machine) (source : ℕ) (path : List ℕ) (i a b e : ℕ) (σ γ : State)
    → get_elem? m.states a ≡ some σ
    → get_elem? m.states b ≡ some γ
    → same_pointer σ.region γ.region ≡ false
    → element_before path i ≡ some e
    → exit_point m source path i (some a) (some b) ≡ some (e, true)
unfolding exit_point
exit_point_between m source path i a b e σ γ ea eb differ before = rw (ea, eb, differ, before) refl

-- Any two paths part somewhere.
pub split :
    (xs ys : List ℕ)
    → (common xs' ys' : List ℕ) × (xs ≡ common ++ xs') × (ys ≡ common ++ ys') × Part xs' ys'
split [] ys = ([], [], ys, refl, refl, tt)
split (x ∷ xs) [] = ([], x ∷ xs, [], refl, refl, tt)
split (x ∷ xs) (y ∷ ys) = elim (Bool-cases (x == y)) [
  | inr other ↦ ([], x ∷ xs, y ∷ ys, refl, refl, λ e. cc ((==_iff x y).1 e))
  | inl same ↦
      let (common, xs', ys', ex, ey, part) = split xs ys in
      let eq : x ≡ y = (==_iff x y).0 same in
      (
        x ∷ common,
        xs',
        ys',
        ap (λ l. x ∷ l) ex,
        ap (λ z. z ∷ ys) (sym eq) ∙ ap (λ l. x ∷ l) ey,
        part,
      )
]

pub snoc : (c : ℕ) (cs : List ℕ) → (start : List ℕ) × (e : ℕ) × (c ∷ cs ≡ start ++ e ∷ [])
snoc c [] = ([], c, refl)
snoc c (d ∷ ds) = let (start, e, eq) = snoc d ds in (c ∷ start, e, ap (λ l. c ∷ l) eq)

pub AllBelow_rest : (n : ℕ) (xs ys : List ℕ) → AllBelow n (xs ++ ys) → AllBelow n ys
AllBelow_rest n [] ys h = h
AllBelow_rest n (x ∷ xs) ys h = AllBelow_rest n xs ys h.1
