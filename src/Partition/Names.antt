-- ===== src/Partition/Names.antt =====
-- Vectors of named objects.
use mathlib.Core.Option.{some-injective}
use arinc653emulator.Prelude.{
  ℕ, zero, suc, ◌<◌, String, str_eq, eq_iff, ◌≡◌, refl, sym, ap, ◌∙◌, ◌≢◌, ◌⊎◌, inl, inr, arith,
  Bool-cases, Option-cases, none, some, List, [], ◌∷◌, ◌++◌, length, get_elem?, set,
}
use arinc653emulator.Partition.{find_index}

-- No two objects of the vector have the same name.
abbrev pub Distinct : {A : Type 0} → (A → String) → List A → Type 0
Distinct {A = A} name xs =
    (i j : ℕ) (x y : A)
    → get_elem? xs i ≡ some x
    → get_elem? xs j ≡ some y
    → name x ≡ name y
    → i ≡ j

module _ {ℓ} {A : Type ℓ} where
  pub get_elem?-append_last :
      (xs : List A) (x : A) → get_elem? (xs ++ (x ∷ [])) (length xs) ≡ some x
  get_elem?-append_last [] x = refl
  get_elem?-append_last (y ∷ xs) x = get_elem?-append_last xs x

  -- An index into a vector with one more object is the last or was there before.
  pub get_elem?-snoc :
      (xs : List A) (x y : A) (i : ℕ)
      → get_elem? (xs ++ (x ∷ [])) i ≡ some y
      → (get_elem? xs i ≡ some y) ⊎ ((i ≡ length xs) × (x ≡ y))
  get_elem?-snoc [] x y zero e = inr (refl, some-injective x y e)
  get_elem?-snoc [] x y (suc i) e = ground arith
  get_elem?-snoc (z ∷ xs) x y zero e = inl e
  get_elem?-snoc (z ∷ xs) x y (suc i) e = elim (get_elem?-snoc xs x y i e) [
    | inl h ↦ inl h
    | inr h ↦ inr (ap suc h.0, h.1)
  ]

  pub get_elem?-some_lt : (xs : List A) (x : A) (i : ℕ) → get_elem? xs i ≡ some x → i < length xs
  get_elem?-some_lt [] x i e = ground arith
  get_elem?-some_lt (y ∷ xs) x zero e = omega arith
  get_elem?-some_lt (y ∷ xs) x (suc i) e = omega (arith, get_elem?-some_lt xs x i e)

  pub get_elem?-append_left :
      (xs ys : List A) (x : A) (i : ℕ) → get_elem? xs i ≡ some x → get_elem? (xs ++ ys) i ≡ some x
  get_elem?-append_left [] ys x i e = ground arith
  get_elem?-append_left (y ∷ xs) ys x zero e = e
  get_elem?-append_left (y ∷ xs) ys x (suc i) e = get_elem?-append_left xs ys x i e

  -- An index into a vector with one object overwritten.
  pub get_elem?-set :
      (xs : List A) (i : ℕ) (v y : A) (j : ℕ)
      → get_elem? (set xs i v) j ≡ some y
      → ((j ≡ i) × (v ≡ y)) ⊎ (get_elem? xs j ≡ some y)
  get_elem?-set [] i v y j e = inr e
  get_elem?-set (x ∷ xs) zero v y zero e = inl (refl, some-injective v y e)
  get_elem?-set (x ∷ xs) zero v y (suc j) e = inr e
  get_elem?-set (x ∷ xs) (suc i) v y zero e = inr e
  get_elem?-set (x ∷ xs) (suc i) v y (suc j) e = elim (get_elem?-set xs i v y j e) [
    | inl h ↦ inl (ap suc h.0, h.1)
    | inr h ↦ inr h
  ]

  pub get_elem?-set_kept :
      (xs : List A) (i : ℕ) (v y : A) (j : ℕ)
      → get_elem? xs j ≡ some y
      → ((j ≡ i) × (get_elem? (set xs i v) j ≡ some v)) ⊎ (get_elem? (set xs i v) j ≡ some y)
  get_elem?-set_kept [] i v y j e = inr e
  get_elem?-set_kept (x ∷ xs) zero v y zero e = inl (refl, refl)
  get_elem?-set_kept (x ∷ xs) zero v y (suc j) e = inr e
  get_elem?-set_kept (x ∷ xs) (suc i) v y zero e = inr e
  get_elem?-set_kept (x ∷ xs) (suc i) v y (suc j) e = elim (get_elem?-set_kept xs i v y j e) [
    | inl h ↦ inl (ap suc h.0, h.1)
    | inr h ↦ inr h
  ]

module _ {A : Type 0} (name : A → String) where
  pub find_index-some :
      (wanted : String) (xs : List A) (i : ℕ)
      → find_index name wanted xs ≡ some i
      → (x : A) × (get_elem? xs i ≡ some x) × (name x ≡ wanted)
  unfolding find_index
  find_index-some wanted [] i e = ground arith
  find_index-some wanted (x ∷ xs) i e = elim (Bool-cases (str_eq (name x) wanted)) [
    | inl t ↦ let z : i ≡ 0 = ground (arith, e, t) in (x, rw z refl, (eq_iff (name x) wanted).0 t)
    | inr f ↦ elim (Option-cases (find_index name wanted xs)) [
      | inl n ↦ absurd (ground (arith, e, f, n))
      | inr s ↦
          let z : i ≡ suc s.0 = ground (arith, e, f, s.1) in
          let r = find_index-some wanted xs s.0 s.1 in (r.0, rw z r.1, r.2)
    ]
  ]

  pub find_index-none :
      (wanted : String) (xs : List A) (x : A) (i : ℕ)
      → find_index name wanted xs ≡ none
      → get_elem? xs i ≡ some x
      → name x ≢ wanted
  unfolding find_index
  find_index-none wanted [] x i e g = ground arith
  find_index-none wanted (y ∷ xs) x zero e g = ground (arith, eq_iff (name y) wanted)
  find_index-none wanted (y ∷ xs) x (suc i) e g = find_index-none wanted xs x i (ground arith) g

  -- In a vector of distinct names, the search gives the object's own index.
  pub find_index-Distinct :
      (xs : List A) (x : A) (i : ℕ)
      → Distinct name xs
      → get_elem? xs i ≡ some x
      → find_index name (name x) xs ≡ some i
  find_index-Distinct xs x i d g = elim (Option-cases (find_index name (name x) xs)) [
    | inl n ↦ absurd (find_index-none (name x) xs x i n g refl)
    | inr s ↦ let r = find_index-some (name x) xs s.0 s.1 in s.1 ∙ ap some (d s.0 i r.0 x r.1 g r.2)
  ]

  pub Distinct-snoc :
      (xs : List A) (x : A)
      → find_index name (name x) xs ≡ none
      → Distinct name xs
      → Distinct name (xs ++ (x ∷ []))
  Distinct-snoc xs x n d i j y z g h e = elim (get_elem?-snoc xs x y i g) [
    | inl a ↦ elim (get_elem?-snoc xs x z j h) [
      | inl b ↦ d i j y z a b e
      | inr b ↦ absurd (find_index-none (name x) xs y i n a (e ∙ ap name (sym b.1)))
    ]
    | inr a ↦ elim (get_elem?-snoc xs x z j h) [
      | inl b ↦ absurd (find_index-none (name x) xs z j n b (sym e ∙ ap name (sym a.1)))
      | inr b ↦ a.0 ∙ sym b.0
    ]
  ]

  -- An object is overwritten by one of its name.
  pub set-names :
      (xs : List A) (i : ℕ) (v x y : A) (j : ℕ)
      → get_elem? xs i ≡ some x
      → name v ≡ name x
      → get_elem? (set xs i v) j ≡ some y
      → (z : A) × (get_elem? xs j ≡ some z) × (name z ≡ name y)
  set-names xs i v x y j g n e = elim (get_elem?-set xs i v y j e) [
    | inl h ↦ (x, rw h.0 g, sym n ∙ ap name h.1)
    | inr h ↦ (y, h, refl)
  ]

  pub set-kept_name :
      (xs : List A) (i : ℕ) (v x y : A) (j : ℕ)
      → get_elem? xs i ≡ some x
      → name v ≡ name x
      → get_elem? xs j ≡ some y
      → (z : A) × (get_elem? (set xs i v) j ≡ some z) × (name z ≡ name y)
  set-kept_name xs i v x y j g n e = elim (get_elem?-set_kept xs i v y j e) [
    | inl h ↦ (v, h.1, n ∙ ap name (some-injective x y (sym g ∙ rw (sym h.0) e)))
    | inr h ↦ (y, h, refl)
  ]

  pub Distinct-set :
      (xs : List A) (i : ℕ) (v x : A)
      → get_elem? xs i ≡ some x
      → name v ≡ name x
      → Distinct name xs
      → Distinct name (set xs i v)
  Distinct-set xs i v x g n d j k y z a b e =
      let l = set-names xs i v x y j g n a in
      let r = set-names xs i v x z k g n b in d j k l.0 r.0 l.1 r.1 (l.2 ∙ e ∙ sym r.2)

  pub find_index-append_new :
      (xs : List A) (x : A)
      → find_index name (name x) xs ≡ none
      → find_index name (name x) (xs ++ (x ∷ [])) ≡ some (length xs)
  unfolding find_index
  find_index-append_new [] x e = ground (arith, eq_iff (name x) (name x))
  find_index-append_new (y ∷ xs) x e = ground (arith, find_index-append_new xs x)

  pub find_index-append_other :
      (wanted : String) (xs : List A) (x : A)
      → name x ≢ wanted
      → find_index name wanted (xs ++ (x ∷ [])) ≡ find_index name wanted xs
  unfolding find_index
  find_index-append_other wanted [] x n = ground (arith, eq_iff (name x) wanted)
  find_index-append_other wanted (y ∷ xs) x n = rw (find_index-append_other wanted xs x n) refl
