-- ===== src/SamplingPort/Copies.antt =====
-- Blocks of bytes that are put together, taken apart and copied.

use arinc653emulator.Prelude.{
  ℕ, zero, suc, ◌+◌, ◌≤◌, pos, ◌≡◌, refl, sym, ap, ◌∙◌, arith, some, List, [], ◌∷◌, ◌++◌, length,
  take, drop, length-take,
}
use arinc653emulator.Buffer.{memcpy}
use arinc653emulator.Buffer.Ring.{memcpy_lem, take-append_exact}

pub drop-append_exact :
    {A : Type 0} (xs ys : List A) (n : ℕ) → length xs ≡ n → drop n (xs ++ ys) ≡ ys
drop-append_exact [] ys zero h = refl
drop-append_exact [] ys (suc n) h = ground arith
drop-append_exact (x ∷ xs) ys zero h = ground arith
drop-append_exact (x ∷ xs) ys (suc n) h = drop-append_exact xs ys n (omega (arith, h))

-- The first n of what memcpy leaves
pub head_of : (n : ℕ) (xs ys : List ℕ) → n ≤ length xs → take n (take n xs ++ ys) ≡ take n xs
head_of n xs ys h = take-append_exact (take n xs) ys n (omega (arith, length-take n xs))

pub take_all : (xs : List ℕ) → take (length xs) xs ≡ xs
take_all [] = refl
take_all (x ∷ xs) = ap (λ l. x ∷ l) (take_all xs)

-- memcpy of a whole block
pub memcpy_whole :
    (dst src : List ℕ) (n : ℕ)
    → length src ≡ n
    → n ≤ length dst
    → memcpy dst src (pos (length src)) ≡ some (src ++ drop n dst)
memcpy_whole dst src n e h =
    memcpy_lem dst src (length src) (omega (arith, e)) (omega arith)
    ∙ ap (λ l. some (l ++ drop (length src) dst)) (take_all src)
    ∙ ap (λ k. some (src ++ drop k dst)) e

drop_nil : (n : ℕ) → drop {A = ℕ} n [] ≡ []
drop_nil zero = refl
drop_nil (suc n) = refl

pub drop_twice : (m n : ℕ) (xs : List ℕ) → drop (m + n) xs ≡ drop n (drop m xs)
drop_twice zero n xs = ap (λ k. drop k xs) (omega arith)
drop_twice (suc m) n [] = drop_nil (suc m + n) ∙ sym (drop_nil n)
drop_twice (suc m) n (x ∷ xs) =
    let same : suc m + n ≡ suc (m + n) = omega arith in
    ap (λ k. drop k (x ∷ xs)) same ∙ drop_twice m n xs
