-- ===== src/ModuleManager/Tokens.antt =====
-- Texts with and without delimiters under stringTrim and the steps of stringTokenize.
use arinc653emulator.Prelude.{ℕ, true, false, [], ◌∷◌, ◌++◌, ◌≡◌, refl, ap}
use arinc653emulator.ModuleManager.Text.{
  Bytes, is_one_of, put_back, trim_back, trim_front, string_trim, token, after_token,
}

-- No byte, or each byte, of a text is a delimiter.
abbrev pub AllOutside : Bytes → Bytes → Type 0
AllOutside delims [] = Unit {0}
AllOutside delims (c ∷ cs) = (is_one_of delims c ≡ false) × AllOutside delims cs

abbrev pub AllInside : Bytes → Bytes → Type 0
AllInside delims [] = Unit {0}
AllInside delims (c ∷ cs) = (is_one_of delims c ≡ true) × AllInside delims cs

module _ (delims : Bytes) where
  pub trim_back_outside : (s : Bytes) → AllOutside delims s → trim_back delims s ≡ s
  unfolding trim_back
  trim_back_outside [] h = refl
  trim_back_outside (c ∷ []) h = rw h.0 refl
  trim_back_outside (c ∷ d ∷ s) h =
      ap (λ r. put_back (is_one_of delims c) c r) (trim_back_outside (d ∷ s) h.1)

  pub trim_front_outside : (s : Bytes) → AllOutside delims s → trim_front delims s ≡ s
  unfolding trim_front
  trim_front_outside [] h = refl
  trim_front_outside (c ∷ s) h = rw h.0 refl

  pub trim_back_inside : (s : Bytes) → AllInside delims s → trim_back delims s ≡ []
  unfolding trim_back
  trim_back_inside [] h = refl
  trim_back_inside (c ∷ s) h = rw (trim_back_inside s h.1, h.0) refl

  pub string_trim_outside : (s : Bytes) → AllOutside delims s → string_trim delims s ≡ s
  unfolding string_trim
  string_trim_outside s h = rw (trim_back_outside s h, trim_front_outside s h) refl

  pub token_outside : (s : Bytes) → AllOutside delims s → token delims s ≡ s
  unfolding token
  token_outside [] h = refl
  token_outside (c ∷ s) h = rw (h.0, token_outside s h.1) refl

  pub after_token_outside : (s : Bytes) → AllOutside delims s → after_token delims s ≡ []
  unfolding after_token
  after_token_outside [] h = refl
  after_token_outside (c ∷ s) h = rw (h.0, after_token_outside s h.1) refl

  pub token-append :
      (s : Bytes) (d : ℕ) (rest : Bytes)
      → AllOutside delims s
      → is_one_of delims d ≡ true
      → token delims (s ++ d ∷ rest) ≡ s
  unfolding token
  token-append [] d rest h k = rw k refl
  token-append (c ∷ s) d rest h k = rw (h.0, token-append s d rest h.1 k) refl

  pub after_token-append :
      (s : Bytes) (d : ℕ) (rest : Bytes)
      → AllOutside delims s
      → is_one_of delims d ≡ true
      → after_token delims (s ++ d ∷ rest) ≡ d ∷ rest
  unfolding after_token
  after_token-append [] d rest h k = rw k refl
  after_token-append (c ∷ s) d rest h k = rw (h.0, after_token-append s d rest h.1 k) refl

pub AllOutside-append :
    (delims s t : Bytes) → AllOutside delims s → AllOutside delims t → AllOutside delims (s ++ t)
AllOutside-append delims [] t h k = k
AllOutside-append delims (c ∷ s) t h k = (h.0, AllOutside-append delims s t h.1 k)

pub trim_front_head :
    (delims : Bytes) (c : ℕ) (s : Bytes)
    → is_one_of delims c ≡ false
    → trim_front delims (c ∷ s) ≡ c ∷ s
unfolding trim_front
trim_front_head delims c s h = rw h refl

pub outside_of : (delims s t : Bytes) → s ≡ t → AllOutside delims s → AllOutside delims t
outside_of delims s t e h = rw (← e) h
