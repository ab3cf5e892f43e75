-- ===== src/ModuleManager/Text.antt =====
-- stringTrim and stringTokenize of include/ACM/USER/ACM_UTILITIES.h, on texts as lists of bytes.
use arinc653emulator.Prelude.{
  ℕ, zero, suc, ◌==◌, Bool, true, false, List, [], ◌∷◌, length, if◌then◌else◌,
}

abbrev pub Bytes : Type 0
Bytes = List ℕ

unfoldable pub is_one_of : Bytes → ℕ → Bool
is_one_of [] c = false
is_one_of (d ∷ ds) c = if d == c then true else is_one_of ds c

abbrev pub put_back : Bool → ℕ → Bytes → Bytes
put_back is_delim c (d ∷ rest) = c ∷ d ∷ rest
put_back true c [] = []
put_back false c [] = c ∷ []

-- str.erase(find_last_not_of(delims) + 1)
unfoldable pub trim_back : Bytes → Bytes → Bytes
unfolding is_one_of
trim_back delims [] = []
trim_back delims (c ∷ cs) = put_back (is_one_of delims c) c (trim_back delims cs)

-- str.erase(0, find_first_not_of(delims))
unfoldable pub trim_front : Bytes → Bytes → Bytes
unfolding is_one_of
trim_front delims [] = []
trim_front delims (c ∷ cs) =
    let rest = trim_front delims cs in if is_one_of delims c then rest else c ∷ cs

unfoldable pub string_trim : Bytes → Bytes → Bytes
unfolding trim_back trim_front
string_trim delims str = trim_front delims (trim_back delims str)

-- A token, and what follows it: up to find_first_of(delimiters)
unfoldable pub token : Bytes → Bytes → Bytes
unfolding is_one_of
token delims [] = []
token delims (c ∷ cs) = let rest = token delims cs in if is_one_of delims c then [] else c ∷ rest

unfoldable pub after_token : Bytes → Bytes → Bytes
unfolding is_one_of
after_token delims [] = []
after_token delims (c ∷ cs) =
    let rest = after_token delims cs in if is_one_of delims c then c ∷ cs else rest

-- " \t\r\n"
abbrev pub blanks : Bytes
blanks = 32 ∷ 9 ∷ 13 ∷ 10 ∷ []

-- The loop of stringTokenize; each round takes at least one byte, which bounds the fuel.
unfoldable pub tokenize_loop : ℕ → Bytes → Bytes → List Bytes
unfolding string_trim token after_token
tokenize_loop zero delims str = []
tokenize_loop (suc fuel) delims str = elim (trim_front delims str) [
  | [] ↦ []
  | c ∷ cs ↦
      string_trim blanks (token delims (c ∷ cs))
      ∷ tokenize_loop fuel delims (after_token delims (c ∷ cs))
]

unfoldable pub string_tokenize : Bytes → Bytes → List Bytes
unfolding tokenize_loop
string_tokenize delims str = tokenize_loop (suc (length str)) delims str
