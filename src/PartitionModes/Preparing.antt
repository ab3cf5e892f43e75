-- ===== src/PartitionModes/Preparing.antt =====
-- What the change of the mode does to the process table.
use arinc653emulator.Prelude.{
  ℕ, zero, suc, true, pos, eqb_ℤ, ◌≡◌, refl, ap, sym, ◌∙◌, inl, inr, arith, Bool-cases, none, some,
  Option-cases, List, [], ◌∷◌, length, get_elem?,
}
use mathlib.Core.Path.{subst}
use mathlib.Core.Option.{some-injective}
use arinc653emulator.Types.{OperatingMode}
use arinc653emulator.Time.{TimeSpec, add_time_nano}
use arinc653emulator.Partition.{Descriptor, release_process, Partition}
use arinc653emulator.ProcessServices.Table.{Admitted, Table}
use arinc653emulator.Scheduling.Steps.{is_unstarted, first_released, prepare, prepare_all}

-- The process is prepared: its attributes are as they were, and it is admitted if it was.
abbrev pub IsPrepared : Descriptor → Descriptor → Type 0
IsPrepared d e = (e.attributes ≡ d.attributes) × (Admitted d → Admitted e)

first_released-IsPrepared :
    (d : Descriptor) (first : TimeSpec)
    → is_unstarted d.process_state ≡ true
    → IsPrepared d (first_released d first)
first_released-IsPrepared d first u =
    (refl, λ h. record { accepted = h.accepted; in_range = λ _. h.in_range (ground (arith, u)) })

prepare-IsPrepared : (now : TimeSpec) (d e : Descriptor) → prepare now d ≡ some e → IsPrepared d e
unfolding prepare
prepare-IsPrepared now d e h = elim (Bool-cases (is_unstarted d.process_state)) [
  | inr f ↦
      let known : prepare now d ≡ some (record d { next_instance = release_process }) =
        rw (prepare, f) refl in
      subst (IsPrepared d) (some-injective _ _ (sym known ∙ h))
        (refl, λ k. record { accepted = k.accepted; in_range = k.in_range })
  | inl u ↦ elim (Bool-cases (eqb_ℤ d.initial_delay_time (pos 0))) [
    | inl z ↦
        let known : prepare now d ≡ some (first_released d now) = rw (prepare, u, z) refl in
        subst (IsPrepared d) (some-injective _ _ (sym known ∙ h))
          (first_released-IsPrepared d now u)
    | inr n ↦ elim (Option-cases (add_time_nano now d.initial_delay_time)) [
      | inl o ↦
          let known : prepare now d ≡ none = rw (prepare, u, n, o) refl in
          absurd (ground (arith, known, h))
      | inr (first, o) ↦
          let known : prepare now d ≡ some (first_released d first) = rw (prepare, u, n, o) refl in
          subst (IsPrepared d) (some-injective _ _ (sym known ∙ h))
            (first_released-IsPrepared d first u)
    ]
  ]
]

prepare_all-inverse :
    (clock : ℕ → TimeSpec) (d : Descriptor) (ds es : List Descriptor)
    → prepare_all clock (d ∷ ds) ≡ some es
    → (e : Descriptor) × (rest : List Descriptor) × (prepare (clock 0) d ≡ some e)
      × (prepare_all (λ i. clock (suc i)) ds ≡ some rest)
      × (es ≡ e ∷ rest)
unfolding prepare_all
prepare_all-inverse clock d ds es h = elim (Option-cases (prepare (clock 0) d)) [
  | inl n ↦
      let known : prepare_all clock (d ∷ ds) ≡ none = rw (prepare_all, n) refl in
      absurd (ground (arith, known, h))
  | inr (e, p) ↦ elim (Option-cases (prepare_all (λ i. clock (suc i)) ds)) [
    | inl n ↦
        let known : prepare_all clock (d ∷ ds) ≡ none = rw (prepare_all, p, n) refl in
        absurd (ground (arith, known, h))
    | inr (rest, q) ↦
        let known : prepare_all clock (d ∷ ds) ≡ some (e ∷ rest) = rw (prepare_all, p, q) refl in
        (e, rest, p, q, some-injective _ _ (sym h ∙ known))
  ]
]

prepare_all-length :
    (clock : ℕ → TimeSpec) (ds es : List Descriptor)
    → prepare_all clock ds ≡ some es
    → length es ≡ length ds
unfolding prepare_all
prepare_all-length clock [] es h = rw (← some-injective _ _ h) refl
prepare_all-length clock (d ∷ ds) es h =
    let (e, rest, _, q, same) = prepare_all-inverse clock d ds es h in
    rw (same, prepare_all-length (λ i. clock (suc i)) ds rest q) refl

prepare_all-IsPrepared :
    (clock : ℕ → TimeSpec) (ds es : List Descriptor) (i : ℕ) (e : Descriptor)
    → prepare_all clock ds ≡ some es
    → get_elem? es i ≡ some e
    → (d : Descriptor) × (get_elem? ds i ≡ some d) × IsPrepared d e
unfolding prepare_all
prepare_all-IsPrepared clock [] es i e h g =
    let none_left : get_elem? es i ≡ none = rw (← some-injective _ _ h) refl in
    absurd (ground (arith, none_left, g))
prepare_all-IsPrepared clock (d ∷ ds) es zero e h g =
    let (first, rest, p, _, same) = prepare_all-inverse clock d ds es h in
    let there : some first ≡ some e = ap (λ l. get_elem? l 0) (sym same) ∙ g in
    (d, refl, prepare-IsPrepared (clock 0) d e (p ∙ there))
prepare_all-IsPrepared clock (d ∷ ds) es (suc i) e h g =
    let (first, rest, _, q, same) = prepare_all-inverse clock d ds es h in
    prepare_all-IsPrepared (λ i. clock (suc i)) ds rest i e q
      (ap (λ l. get_elem? l (suc i)) (sym same) ∙ g)

-- The preparation of all processes on the way to the mode NORMAL keeps the process table.
pub prepared-Table :
    (clock : ℕ → TimeSpec) (p : Partition) (mode : OperatingMode) (es : List Descriptor)
    → prepare_all clock p.processes ≡ some es
    → Table p
    → Table (record p { mode = mode; processes = es })
prepared-Table clock p mode es h t = record {
  names = λ i j x y a b same.
      let (d, u, k) = prepare_all-IsPrepared clock p.processes es i x h a in
      let (f, v, l) = prepare_all-IsPrepared clock p.processes es j y h b in
      t.names i j d f u v
        (sym (ap (λ a. a.process_name) k.0) ∙ same ∙ ap (λ a. a.process_name) l.0);
  number = rw (prepare_all-length clock p.processes es h) t.number;
  each = λ i e g.
      let (d, u, k) = prepare_all-IsPrepared clock p.processes es i e h g in k.1 (t.each i d u);
}
