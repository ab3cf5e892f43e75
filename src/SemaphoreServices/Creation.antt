-- ===== src/SemaphoreServices/Creation.antt =====
-- The identifier of a new semaphore.
use arinc653emulator.Prelude.{
  ℕ, ℤ, String, ◌≡◌, refl, sym, ◌≢◌, inl, inr, arith, none, some, Option-cases, [], ◌∷◌, ◌++◌,
  length, get_elem?, Bool-cases, ◌⊎◌, true, false, ◌||◌,
}
use arinc653emulator.Types.{no_error, invalid_mode, invalid_param}
use arinc653emulator.Semaphore.{Semaphore, new_semaphore}
use arinc653emulator.Partition.{Partition, Apex, is_idle, is_normal, find_index}
use arinc653emulator.Partition.Names.{
  find_index-append_new, find_index-append_other, get_elem?-append_last, get_elem?-append_left,
}
use arinc653emulator.EventServices.{obtain}
use arinc653emulator.SemaphoreServices.{
  semaphore_name, create_semaphore, get_semaphore_id, SemaphoreStatus, get_semaphore_status,
}

status_kept :
    (p : Partition) (x : Semaphore) (k : ℕ) (r : SemaphoreStatus)
    → get_semaphore_status k (some p) ≡ (no_error, some r)
    → get_semaphore_status k (some (record p { semaphores = p.semaphores ++ (x ∷ []) }))
      ≡ (no_error, some r)
unfolding get_semaphore_status
status_kept p x k r h = elim (Option-cases (get_elem? p.semaphores k)) [
  | inl n ↦ absurd (ground (arith, n, h))
  | inr s ↦
      rw (get_semaphore_status, get_elem?-append_left p.semaphores (x ∷ []) s.0 k s.1)
        (ground (arith, s.1, h))
]

-- A name that no semaphore has
get_semaphore_id-absent :
    (name : String) (p : Partition)
    → find_index semaphore_name name p.semaphores ≡ none
    → (i : ℕ) → get_semaphore_id name (some p) ≢ (no_error, some i)
unfolding get_semaphore_id
get_semaphore_id-absent name p n i e = ground (arith, n, e)

-- What CREATE_SEMAPHORE does, by case
abbrev pub CreatedOrRefused : String → ℤ → ℤ → Apex → Type 0
CreatedOrRefused name value maximum a =
    (((is_idle (obtain a).mode || is_normal (obtain a).mode) ≡ true)
      × (create_semaphore name value maximum a ≡ (invalid_mode, none, some (obtain a))))
    ⊎ (((is_idle (obtain a).mode || is_normal (obtain a).mode) ≡ false)
        × ((((i : ℕ) × (get_semaphore_id name (some (obtain a)) ≡ (no_error, some i)))
              × (create_semaphore name value maximum a ≡ (invalid_param, none, some (obtain a))))
            ⊎ (((i : ℕ) → get_semaphore_id name (some (obtain a)) ≢ (no_error, some i))
                × (id : ℕ) × (b : Apex) × (create_semaphore name value maximum a
                    ≡ (no_error, some id, b))
                × (get_semaphore_id name b ≡ (no_error, some id))
                × (get_semaphore_status id b ≡ (
                  no_error,
                  some (record {
                    waiting_processes = 0;
                    current_value = value;
                    maximum_value = maximum;
                  }),
                ))
                × ((other : String)
                    → other ≢ name
                    → get_semaphore_id other b ≡ get_semaphore_id other (some (obtain a)))
                × ((k : ℕ) (r : SemaphoreStatus)
                    → get_semaphore_status k (some (obtain a)) ≡ (no_error, some r)
                    → get_semaphore_status k b ≡ (no_error, some r)))))

-- CREATE_SEMAPHORE either refuses and leaves the partition (a new one, if there was none) as it was:
-- with INVALID_MODE in the modes IDLE and NORMAL, or, in the other modes, with INVALID_PARAM if a
-- semaphore has the name. Or the mode is another and no semaphore has the name, and it returns NO_ERROR and an identifier by which GET_SEMAPHORE_STATUS finds no process waiting and
-- the two values that the caller gave, whatever they are, and which GET_SEMAPHORE_ID gives for the
-- name; the other names keep their identifiers, and the other identifiers their status.
pub create_semaphore-get_semaphore_id :
    (name : String) (value maximum : ℤ) (a : Apex) → CreatedOrRefused name value maximum a
unfolding create_semaphore get_semaphore_id get_semaphore_status new_semaphore
create_semaphore-get_semaphore_id name value maximum a =
    let p = obtain a in
    let x = new_semaphore name value maximum in
    elim (Bool-cases (is_idle p.mode || is_normal p.mode)) [
      | inl t ↦ inl (t, rw (create_semaphore, t) refl)
      | inr f ↦ elim (Option-cases (find_index semaphore_name name p.semaphores)) [
        | inr s ↦
            inr
              (f, inl ((s.0, rw (get_semaphore_id, s.1) refl), rw (create_semaphore, f, s.1) refl))
        | inl n ↦ inr (
          f,
          inr (
            get_semaphore_id-absent name p n,
            length p.semaphores,
            some (record p { semaphores = p.semaphores ++ (x ∷ []) }),
            rw (create_semaphore, f, n) refl,
            rw (get_semaphore_id, find_index-append_new semaphore_name p.semaphores x n) refl,
            rw (get_semaphore_status, get_elem?-append_last p.semaphores x) refl,
            λ other d.
                rw
                  (
                    get_semaphore_id,
                    find_index-append_other semaphore_name other p.semaphores x (λ e. d (sym e)),
                  )
                  refl,
            λ k r e. status_kept p x k r e,
          ),
        )
      ]
    ]
