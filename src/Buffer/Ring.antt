-- ===== src/Buffer/Ring.antt =====
-- The ring of slots: the messages in it from BUFFER_HEAD on, and the two copies.
use arinc653emulator.Prelude.{
  ℕ, zero, suc, ◌+◌, ◌-◌, ◌≤◌, ◌<◌, ltb, ℤ, pos, negsuc, eqb_ℤ_iff, ◌≡◌, refl, sym, ap, ◌≢◌, arith,
  eq_of_parts, List, [], ◌∷◌, ◌++◌, length, take, drop, length-append, length-take, length-drop,
  some, if◌then◌else◌,
}
use arinc653emulator.Buffer.{Slot, memcpy, set_slot, advance}

-- The slot holds the message, in a block of `size` bytes.
pub record Holds (size : ℕ) (slot : Slot) (m : List ℕ) : Type 0 where
  pub block : length slot.actual_load ≡ size
  pub len : slot.slot_length ≡ pos (length m)
  pub fits : length m ≤ size
  pub bytes : take (length m) slot.actual_load ≡ m

-- An index counted on past the end of the ring.
abbrev pub wrap : ℕ → ℕ → ℕ
wrap max i = if ltb i max then i else i - max

-- The messages are in the slots from `i` on.
abbrev pub Window : ℕ → ℕ → (ℕ → Slot) → ℕ → List (List ℕ) → Type 0
Window size max payload i [] = Unit
Window size max payload i (m ∷ q) =
    Holds size (payload (wrap max i)) m × Window size max payload (suc i) q

set_slot_self : (payload : ℕ → Slot) (i : ℕ) (slot : Slot) → set_slot payload i slot i ≡ slot
unfolding set_slot
set_slot_self payload i slot = ground arith

set_slot_ne :
    (payload : ℕ → Slot) (i j : ℕ) (slot : Slot) → j ≢ i → set_slot payload i slot j ≡ payload j
unfolding set_slot
set_slot_ne payload i j slot h = ground arith

wrap_ne : (max i t : ℕ) → i < t → t < i + max → wrap max i ≢ wrap max t
wrap_ne max i t a b = ground arith

module _ (size max : ℕ) where
  -- A slot that is written outside the window leaves it alone.
  Window-set :
      (payload : ℕ → Slot) (slot : Slot) (i t : ℕ) (q : List (List ℕ)) (j : ℕ)
      → wrap max t ≡ j
      → i + length q ≤ t
      → t < i + max
      → Window size max payload i q
      → Window size max (set_slot payload j slot) i q
  Window-set payload slot i t [] j e a b w = w
  Window-set payload slot i t (x ∷ q) j e a b w =
      let n : wrap max i ≢ j = rw (sym e) (wrap_ne max i t (omega arith) b) in
      (
        rw (set_slot_ne payload j (wrap max i) slot n) w.0,
        Window-set payload slot (suc i) t q j e (omega arith) (omega arith) w.1,
      )

  Window-append :
      (payload : ℕ → Slot) (i t : ℕ) (q : List (List ℕ)) (m : List ℕ)
      → t ≡ i + length q
      → Window size max payload i q
      → Holds size (payload (wrap max t)) m
      → Window size max payload i (q ++ (m ∷ []))
  Window-append payload i t [] m e w h = let d : i ≡ t = omega arith in (rw d h, w)
  Window-append payload i t (x ∷ q) m e w h =
      (w.0, Window-append payload (suc i) t q m (omega arith) w.1 h)

  -- The message written at the end of the window joins it.
  pub Window-snoc :
      (payload : ℕ → Slot) (slot : Slot) (i j : ℕ) (q : List (List ℕ)) (m : List ℕ)
      → wrap max (i + length q) ≡ j
      → length q < max
      → Window size max payload i q
      → Holds size slot m
      → Window size max (set_slot payload j slot) i (q ++ (m ∷ []))
  Window-snoc payload slot i j q m e a w h =
      Window-append (set_slot payload j slot) i (i + length q) q m refl
        (Window-set payload slot i (i + length q) q j e (omega arith) (omega arith) w)
        (rw (e, set_slot_self payload j slot) h)

  -- The slot at the head, written once the window has moved past it.
  pub Window-behind :
      (payload : ℕ → Slot) (slot : Slot) (i : ℕ) (q : List (List ℕ))
      → length q < max
      → Window size max payload (suc i) q
      → Window size max (set_slot payload i slot) (suc i) q
  Window-behind payload slot i q a w =
      Window-set payload slot (suc i) (i + max) q i (ground arith) (omega arith) (omega arith) w

  -- The window seen from its start's place in the ring.
  pub Window-wrap :
      (payload : ℕ → Slot) (i j : ℕ) (q : List (List ℕ))
      → j ≡ max + i
      → i + length q ≤ max
      → Window size max payload j q
      → Window size max payload i q
  Window-wrap payload i j [] e h w = w
  Window-wrap payload i j (x ∷ q) e h w =
      let d : wrap max i ≡ wrap max j = ground arith in
      (rw d w.0, Window-wrap payload (suc i) (suc j) q (omega arith) (omega arith) w.1)

pub advance_lem : (max i : ℕ) → i < max → advance (pos max) i ≡ wrap max (i + 1)
unfolding advance
advance_lem max i h =
    ground (arith, eqb_ℤ_iff (pos (i + 1)) (pos max), eq_of_parts (pos (i + 1)) (pos max))

-- memcpy with a length that both blocks have room for.
pub memcpy_lem :
    (dst src : List ℕ) (n : ℕ)
    → n ≤ length dst
    → n ≤ length src
    → memcpy dst src (pos n) ≡ some (take n src ++ drop n dst)
unfolding memcpy
memcpy_lem dst src n a b = ground arith

pub memcpy-bounds :
    (dst src : List ℕ) (n : ℤ) {r : List ℕ}
    → memcpy dst src n ≡ some r
    → (k : ℕ) × (n ≡ pos k) × (k ≤ length dst) × (k ≤ length src) × (r ≡ take k src ++ drop k dst)
unfolding memcpy
memcpy-bounds dst src (pos k) e = (k, refl, ground arith, ground arith, ground arith)
memcpy-bounds dst src (negsuc k) e = ground arith

pub take-append_exact :
    {A : Type 0} (xs ys : List A) (n : ℕ) → length xs ≡ n → take n (xs ++ ys) ≡ xs
take-append_exact [] ys zero h = refl
take-append_exact [] ys (suc n) h = ground arith
take-append_exact (x ∷ xs) ys zero h = ground arith
take-append_exact (x ∷ xs) ys (suc n) h = ap (λ l. x ∷ l) (take-append_exact xs ys n (omega arith))

pub memcpy-Holds :
    (size : ℕ) (dst src : List ℕ) (n : ℕ)
    → n ≤ size
    → n ≤ length src
    → length dst ≡ size
    → Holds size
        (record { actual_load = take n src ++ drop n dst; slot_length = pos n })
        (take n src)
memcpy-Holds size dst src n a b c =
    let e : length (take n src) ≡ n = omega (arith, length-take n src) in
    record {
      block = omega (arith, e, length-append (take n src) (drop n dst), length-drop n dst);
      len = ap pos (sym e);
      fits = omega (arith, e);
      bytes = take-append_exact (take n src) (drop n dst) (length (take n src)) refl;
    }
