-- ===== src/ModuleManager/Properties.antt =====
-- A property file that is written down is read back.
use mathlib.Core.List.{append-nil, append_assoc}
use arinc653emulator.Prelude.{
  ℕ, zero, suc, false, List, [], ◌∷◌, ◌++◌, map, length, length-append, ◌≤◌, ◌≡◌, refl, ap, sym,
  ◌∙◌, arith,
}
use arinc653emulator.ModuleManager.Text.{
  Bytes, is_one_of, put_back, trim_back, trim_front, string_trim, token, after_token, blanks,
  tokenize_loop, string_tokenize,
}
use arinc653emulator.ModuleManager.Tokens.{
  AllOutside, AllInside, trim_back_inside, string_trim_outside, token_outside, after_token_outside,
  token-append, after_token-append, AllOutside-append, trim_front_head, outside_of,
}
use arinc653emulator.ModuleManager.Settings.{value, PropertyMap, is_comment, read_lines}

abbrev pub equals : Bytes
equals = 61 ∷ []

-- A key or a value: not empty, without blanks and without the equals sign; a key does not look like a
-- comment.
pub record IsWord (s : Bytes) : Type 0 where
  pub first : ℕ
  pub rest : Bytes
  pub whole : s ≡ first ∷ rest
  pub no_blank : AllOutside blanks s
  pub no_equals : AllOutside equals s

-- The lines of a file: properties, comments and blank lines
pub data Item : Type 0 where
  entry : (k v : Bytes) → IsWord k → IsWord v → is_comment k ≡ false → Item
  remark : Bytes → Item
  spaces : (s : Bytes) → AllInside blanks s → Item

abbrev pub print_item : Item → Bytes
print_item (entry k v _ _ _) = k ++ 61 ∷ v
print_item (remark s) = 47 ∷ s
print_item (spaces s _) = s

abbrev pub entries : List Item → PropertyMap
entries [] = []
entries (entry k v _ _ _ ∷ items) = (k, v) ∷ entries items
entries (remark s ∷ items) = entries items
entries (spaces s _ ∷ items) = entries items

skip_equals :
    (x : ℕ) (xs : Bytes) → is_one_of equals x ≡ false → trim_front equals (61 ∷ x ∷ xs) ≡ x ∷ xs
unfolding trim_front
skip_equals x xs h = rw h refl

-- One round of the loop over the tokens, from what its parts give
token_round :
    (fuel : ℕ) (delims str : Bytes) (c : ℕ) (cs word after : Bytes)
    → trim_front delims str ≡ c ∷ cs
    → token delims (c ∷ cs) ≡ word
    → AllOutside blanks word
    → after_token delims (c ∷ cs) ≡ after
    → tokenize_loop (suc fuel) delims str ≡ word ∷ tokenize_loop fuel delims after
unfolding tokenize_loop
token_round fuel delims str c cs word after e t plain a =
    rw (tokenize_loop, e, t, a, string_trim_outside blanks word plain) refl

token_end : (fuel : ℕ) (delims : Bytes) → tokenize_loop (suc fuel) delims [] ≡ []
unfolding tokenize_loop trim_front
token_end fuel delims = refl

tokens_lem :
    (n c : ℕ) (cs : Bytes) (x : ℕ) (xs : Bytes)
    → 3 ≤ n
    → AllOutside blanks (c ∷ cs)
    → AllOutside equals (c ∷ cs)
    → AllOutside blanks (x ∷ xs)
    → AllOutside equals (x ∷ xs)
    → tokenize_loop n equals ((c ∷ cs) ++ 61 ∷ x ∷ xs) ≡ (c ∷ cs) ∷ (x ∷ xs) ∷ []
unfolding is_one_of
tokens_lem zero c cs x xs h kb ke vb ve = absurd (omega arith)
tokens_lem (suc zero) c cs x xs h kb ke vb ve = absurd (omega arith)
tokens_lem (suc (suc zero)) c cs x xs h kb ke vb ve = absurd (omega arith)
tokens_lem (suc (suc (suc fuel))) c cs x xs h kb ke vb ve =
    token_round (suc (suc fuel)) equals ((c ∷ cs) ++ 61 ∷ x ∷ xs) c (cs ++ 61 ∷ x ∷ xs) (c ∷ cs)
      (61 ∷ x ∷ xs) (trim_front_head equals c (cs ++ 61 ∷ x ∷ xs) ke.0)
      (token-append equals (c ∷ cs) 61 (x ∷ xs) ke refl) kb
      (after_token-append equals (c ∷ cs) 61 (x ∷ xs) ke refl)
    ∙ ap (λ l. (c ∷ cs) ∷ l)
        (token_round (suc fuel) equals (61 ∷ x ∷ xs) x xs (x ∷ xs) [] (skip_equals x xs ve.0)
            (token_outside equals (x ∷ xs) ve) vb (after_token_outside equals (x ∷ xs) ve)
          ∙ ap (λ l. (x ∷ xs) ∷ l) (token_end fuel equals))

tokenize_line :
    (k v : Bytes) → IsWord k → IsWord v → string_tokenize equals (k ++ 61 ∷ v) ≡ k ∷ v ∷ []
unfolding string_tokenize
tokenize_line k v a b =
    let ka : AllOutside blanks (a.first ∷ a.rest) = outside_of blanks _ _ a.whole a.no_blank in
    let ke : AllOutside equals (a.first ∷ a.rest) = outside_of equals _ _ a.whole a.no_equals in
    let va : AllOutside blanks (b.first ∷ b.rest) = outside_of blanks _ _ b.whole b.no_blank in
    let ve : AllOutside equals (b.first ∷ b.rest) = outside_of equals _ _ b.whole b.no_equals in
    ap (λ s. tokenize_loop (suc (length (s ++ 61 ∷ v))) equals (s ++ 61 ∷ v)) a.whole
    ∙ ap
        (λ s.
          tokenize_loop (suc (length ((a.first ∷ a.rest) ++ 61 ∷ s))) equals
            ((a.first ∷ a.rest) ++ 61 ∷ s))
        b.whole
    ∙ tokens_lem (suc (length ((a.first ∷ a.rest) ++ 61 ∷ b.first ∷ b.rest))) a.first a.rest b.first
        b.rest (omega (arith, length-append a.rest (61 ∷ b.first ∷ b.rest))) ka ke va ve
    ∙ ap (λ s. s ∷ (b.first ∷ b.rest) ∷ []) (sym a.whole)
    ∙ ap (λ s. k ∷ s ∷ []) (sym b.whole)

-- A line that holds a property
line_trimmed : (k v : Bytes) → IsWord k → IsWord v → string_trim blanks (k ++ 61 ∷ v) ≡ k ++ 61 ∷ v
unfolding is_one_of
line_trimmed k v a b =
    string_trim_outside blanks (k ++ 61 ∷ v)
      (AllOutside-append blanks k (61 ∷ v) a.no_blank (refl, b.no_blank))

-- The read of one line, by its kind
read_line :
    (line : Bytes) (c : ℕ) (cs k v : Bytes) (lines : List Bytes) (known : PropertyMap)
    → string_trim blanks line ≡ c ∷ cs
    → is_comment (c ∷ cs) ≡ false
    → string_tokenize equals (c ∷ cs) ≡ k ∷ v ∷ []
    → read_lines (line ∷ lines) known ≡ read_lines lines (known ++ (k, v) ∷ [])
unfolding read_lines
read_line line c cs k v lines known e plain t = rw (read_lines, e, plain, t) refl

comment_of_first :
    (c : ℕ) (cs k rest : Bytes)
    → k ≡ c ∷ cs
    → is_comment k ≡ false
    → is_comment (c ∷ (cs ++ rest)) ≡ false
unfolding is_comment
comment_of_first c cs k rest e plain = ap is_comment (sym e) ∙ plain

read_property :
    (k v : Bytes) (lines : List Bytes) (known : PropertyMap)
    → IsWord k
    → IsWord v
    → is_comment k ≡ false
    → read_lines ((k ++ 61 ∷ v) ∷ lines) known ≡ read_lines lines (known ++ (k, v) ∷ [])
read_property k v lines known a b plain =
    read_line (k ++ 61 ∷ v) a.first (a.rest ++ 61 ∷ v) k v lines known
      (line_trimmed k v a b ∙ ap (λ s. s ++ 61 ∷ v) a.whole)
      (comment_of_first a.first a.rest k (61 ∷ v) a.whole plain)
      (ap (λ s. string_tokenize equals (s ++ 61 ∷ v)) (sym a.whole) ∙ tokenize_line k v a b)

put_back_slash : (s : Bytes) → (t : Bytes) × (trim_front blanks (put_back false 47 s) ≡ 47 ∷ t)
unfolding trim_front
put_back_slash [] = ([], refl)
put_back_slash (c ∷ s) = (c ∷ s, refl)

read_comment :
    (line t : Bytes) (lines : List Bytes) (known : PropertyMap)
    → string_trim blanks line ≡ 47 ∷ t
    → read_lines (line ∷ lines) known ≡ read_lines lines known
unfolding read_lines
read_comment line t lines known e = rw (read_lines, e) refl

read_remark :
    (s : Bytes) (lines : List Bytes) (known : PropertyMap)
    → read_lines ((47 ∷ s) ∷ lines) known ≡ read_lines lines known
unfolding string_trim
read_remark s lines known =
    let (t, e) = put_back_slash (trim_back blanks s) in read_comment (47 ∷ s) t lines known e

read_spaces :
    (s : Bytes) (lines : List Bytes) (known : PropertyMap)
    → AllInside blanks s
    → read_lines (s ∷ lines) known ≡ read_lines lines known
unfolding string_trim trim_front read_lines
read_spaces s lines known h = rw (read_lines, string_trim, trim_back_inside blanks s h) refl

-- The lines of properties, comments and blank lines are read back as the properties, in order, after
-- those that were there. Keys and values are not empty and have no blank and no equals sign, and no key
-- begins with a slash.
pub read_lines-print_item :
    (items : List Item) (known : PropertyMap)
    → read_lines (map print_item items) known ≡ value (known ++ entries items)
unfolding read_lines
read_lines-print_item [] known = ap value (sym (append-nil known))
read_lines-print_item (entry k v a b plain ∷ items) known =
    read_property k v (map print_item items) known a b plain
    ∙ read_lines-print_item items (known ++ (k, v) ∷ [])
    ∙ ap value (append_assoc known ((k, v) ∷ []) (entries items))
read_lines-print_item (remark s ∷ items) known =
    read_remark s (map print_item items) known ∙ read_lines-print_item items known
read_lines-print_item (spaces s h ∷ items) known =
    read_spaces s (map print_item items) known h ∙ read_lines-print_item items known
