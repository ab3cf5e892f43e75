-- ===== src/ModuleManager/Settings.antt =====
-- What the module manager reads from its property file: INIT_PARTITION_PROPERTY_MAP, SET_MAJOR_FRAME_SIZE,
-- SET_MAX_NUMBER_OF_FRAMES, SET_MIN_WAIT_TIME, READ_NUMBER_OF_INIT_STAGES, SET_CPU_NUMBER and the tuples of
-- the schedule, of ModuleManager/ModuleInitialization.cc. The map holds the properties in the order of
-- their insertion. from_string, with convertSecsToNano for the numbers with a fraction, is a parameter.
use arinc653emulator.Prelude.{
  ℕ, ltb, ◌==◌, ℤ, negsuc, Bool, true, false, Option, none, some, List, [], ◌∷◌, ◌++◌,
  if◌then◌else◌,
}
use arinc653emulator.ModuleManager.Text.{Bytes, blanks, string_trim, string_tokenize}
use arinc653emulator.ModuleManager.Defs.{SchedulingTuple}

-- A value that was read, or the number that is thrown
pub data Reading (A : Type 0) : Type 0 where
  value : A → Reading A
  throws : ℤ → Reading A

infixl 5 ◌>>=◌
abbrev pub ◌>>=◌ : {A B : Type 0} → Reading A → (A → Reading B) → Reading B
value a >>= f = f a
throws n >>= f = throws n

unfoldable pub same_bytes : Bytes → Bytes → Bool
same_bytes [] [] = true
same_bytes (a ∷ xs) (b ∷ ys) = let rest = same_bytes xs ys in if a == b then rest else false
same_bytes _ _ = false

abbrev pub PropertyMap : Type 0
PropertyMap = List (Bytes × Bytes)

-- A line that is a comment: find_first_of("//", 0) == 0
unfoldable pub is_comment : Bytes → Bool
is_comment [] = false
is_comment (c ∷ cs) = 47 == c

-- The two tokens of a line
abbrev pub as_property : List Bytes → Reading (Bytes × Bytes)
as_property (k ∷ v ∷ []) = value (k, v)
as_property _ = throws (negsuc 0)

-- The loop over the lines of the file
unfoldable pub read_lines : List Bytes → PropertyMap → Reading PropertyMap
unfolding string_trim string_tokenize is_comment
read_lines [] map = value map
read_lines (line ∷ lines) map = elim (string_trim blanks line) [
  | [] ↦ read_lines lines map
  | c ∷ cs ↦
      let comment = read_lines lines map in
      let property = as_property (string_tokenize (61 ∷ []) (c ∷ cs)) >>= λ (k, v).
      read_lines lines (map ++ (k, v) ∷ []) in
      if is_comment (c ∷ cs) then comment else property
]

unfoldable pub init_partition_property_map : Option (List Bytes) → Reading PropertyMap
unfolding read_lines
init_partition_property_map none = throws (negsuc 0)
init_partition_property_map (some lines) = read_lines lines []

-- equal_range: the values of a key
unfoldable pub equal_range : Bytes → PropertyMap → List Bytes
unfolding same_bytes
equal_range key [] = []
equal_range key ((k, v) ∷ map) =
    let rest = equal_range key map in if same_bytes key k then v ∷ rest else rest

module _ (from_seconds from_int : Bytes → Option ℤ) (from_unsigned : Bytes → Option ℕ) where
  abbrev pub parsed : {A : Type 0} → ℤ → Option A → Reading A
  parsed n none = throws n
  parsed n (some a) = value a

  abbrev pub blank : Bytes
  blank = 32 ∷ []

  unfoldable pub set_major_frame_size : Bytes → PropertyMap → Reading ℤ
  unfolding equal_range string_trim
  set_major_frame_size key map = elim (equal_range key map) [
    | [] ↦ throws (negsuc 1)
    | v ∷ _ ↦ parsed (negsuc 1) (from_seconds (string_trim blank v))
  ]

  -- The limit, if it is set
  unfoldable pub set_max_number_of_frames : Bytes → PropertyMap → Reading (Option ℤ)
  unfolding equal_range string_trim
  set_max_number_of_frames key map = elim (equal_range key map) [
    | [] ↦ value none
    | v ∷ _ ↦ parsed (negsuc 1) (from_int (string_trim blank v)) >>= λ n. value (some n)
  ]

  -- MIN_WAIT_TIME and isMIN_WAIT_TIME_SET, from the value of the constructor
  unfoldable pub set_min_wait_time : Bytes → PropertyMap → ℤ → Reading (ℤ × Bool)
  unfolding equal_range string_trim
  set_min_wait_time key map default = elim (equal_range key map) [
    | [] ↦ value (default, false)
    | v ∷ _ ↦ parsed (negsuc 1) (from_int (string_trim blank v)) >>= λ n. value (n, true)
  ]

  unfoldable pub read_number_of_init_stages : Bytes → PropertyMap → Reading ℕ
  unfolding equal_range string_trim
  read_number_of_init_stages key map = elim (equal_range key map) [
    | [] ↦ value 1
    | v ∷ _ ↦ parsed (negsuc 1) (from_unsigned (string_trim blank v)) >>= λ n.
        (if ltb 2 n then throws (negsuc 1) else value n)
  ]

  unfoldable pub set_cpu_number : Bytes → PropertyMap → ℤ → Reading ℤ
  unfolding equal_range string_trim
  set_cpu_number key map cpu = elim (equal_range key map) [
    | [] ↦ value cpu
    | v ∷ _ ↦ parsed (negsuc 3) (from_int (string_trim blank v))
  ]

  -- One entry of the schedule of a partition: its offset and its duration in seconds
  abbrev pub as_tuple : ℕ → List Bytes → Reading SchedulingTuple
  as_tuple i (o ∷ d ∷ []) = do
    offset ← parsed (negsuc 3) (from_seconds o)
    duration ← parsed (negsuc 3) (from_seconds d)
    value (record { offset = offset; duration = duration; partition_index = i })
  as_tuple i _ = throws (negsuc 2)

  unfoldable pub read_tuples : ℕ → List Bytes → Reading (List SchedulingTuple)
  unfolding string_tokenize
  read_tuples i [] = value []
  read_tuples i (entry ∷ entries) = do
    t ← as_tuple i (string_tokenize (44 ∷ []) entry)
    ts ← read_tuples i entries
    value (t ∷ ts)

  -- What CREATE_PARTITION_VECTOR appends to SCHEDULING_VECTOR for the partition with index i
  unfoldable pub read_schedule : Bytes → ℕ → PropertyMap → Reading (List SchedulingTuple)
  unfolding equal_range read_tuples
  read_schedule key i map = elim (equal_range key map) [
    | [] ↦ throws (negsuc 2)
    | entry ∷ entries ↦ read_tuples i (entry ∷ entries)
  ]
