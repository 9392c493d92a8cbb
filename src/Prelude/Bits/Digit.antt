-- ===== src/Prelude/Bits/Digit.antt =====
-- Binary digits, by which numbers are told apart.
use Prim.Native.Nat.{ℕ, zero, suc, ◌+◌, ◌/◌, ◌%◌, ◌^◌, ◌≤◌, ◌<◌, min, max}
use Prim.Native.Nat.{bit_and, bit_or, bit_xor}
use Prim.Native.Nat.{bit_and-bitwise}
use mathlib.Core.Path.{◌≡◌, refl}
use mathlib.Core.Logic.{◌↔◌}
use native.Mathlib.Nat.{pow-suc, div-div-eq-div-mul, pow-succ', div-one}
use native.Mathlib.Omega.{arith}
use omino.Prelude.Bits.Step.{bit_or_step, bit_and_step, bit_xor_step}

-- The digit of weight 2 ^ k.
unfoldable pub digit : ℕ → ℕ → ℕ
digit a zero = a % 2
digit a (suc k) = digit (a / 2) k

pub digit-lt : (a k : ℕ) → digit a k < 2
unfolding digit
digit-lt a zero = omega arith
digit-lt a (suc k) = digit-lt (a / 2) k

pub digit_lem : (a k : ℕ) → digit a k ≡ a / 2 ^ k % 2
unfolding digit
digit_lem a zero = omega (arith, div-one a)
digit_lem a (suc k) = rw (pow-succ' 2 k, ← div-div-eq-div-mul a 2 (2 ^ k)) (digit_lem (a / 2) k)

bit_xor-half : (a b : ℕ) → bit_xor a b / 2 ≡ bit_xor (a / 2) (b / 2)
bit_xor-half a b = omega (arith, bit_xor_step a b)

bit_or-half : (a b : ℕ) → bit_or a b / 2 ≡ bit_or (a / 2) (b / 2)
bit_or-half a b = omega (arith, bit_or_step a b)

bit_and-half : (a b : ℕ) → bit_and a b / 2 ≡ bit_and (a / 2) (b / 2)
bit_and-half a b = omega (arith, bit_and_step a b)

pub digit-bit_xor : (a b k : ℕ) → digit (bit_xor a b) k ≡ (digit a k + digit b k) % 2
unfolding digit
digit-bit_xor a b zero = omega (arith, bit_xor_step a b)
digit-bit_xor a b (suc k) = rw (bit_xor-half a b) (digit-bit_xor (a / 2) (b / 2) k)

pub digit-bit_or : (a b k : ℕ) → digit (bit_or a b) k ≡ max (digit a k) (digit b k)
unfolding digit
digit-bit_or a b zero = omega (arith, bit_or_step a b)
digit-bit_or a b (suc k) = rw (bit_or-half a b) (digit-bit_or (a / 2) (b / 2) k)

pub digit-bit_and : (a b k : ℕ) → digit (bit_and a b) k ≡ min (digit a k) (digit b k)
unfolding digit
digit-bit_and a b zero = omega (arith, bit_and_step a b)
digit-bit_and a b (suc k) = rw (bit_and-half a b) (digit-bit_and (a / 2) (b / 2) k)

digit_ext_bounded : (n a b : ℕ) → a ≤ n → b ≤ n → ((k : ℕ) → digit a k ≡ digit b k) → a ≡ b
unfolding digit
digit_ext_bounded zero a b p q h = omega arith
digit_ext_bounded (suc n) a b p q h =
    omega
      (arith, h 0, digit_ext_bounded n (a / 2) (b / 2) (omega arith) (omega arith) (λ k. h (suc k)))

-- Numbers with the same digits are equal.
pub digit_ext : (a b : ℕ) → ((k : ℕ) → digit a k ≡ digit b k) → a ≡ b
digit_ext a b h = digit_ext_bounded (a + b) a b (omega arith) (omega arith) h

pub digit-zero : (k : ℕ) → digit 0 k ≡ 0
unfolding digit
digit-zero zero = refl
digit-zero (suc k) = digit-zero k

-- A number below 2 ^ n has no digit from n on.
pub digit-eq-zero : (n a k : ℕ) → a < 2 ^ n → n ≤ k → digit a k ≡ 0
unfolding digit
digit-eq-zero zero a k p q = rw is_zero (digit-zero k)
  where
    is_zero : a ≡ 0
    is_zero = omega arith
digit-eq-zero (suc n) a zero p q = absurd (omega arith)
digit-eq-zero (suc n) a (suc k) p q =
    digit-eq-zero n (a / 2) k (omega (arith, pow-suc 2 n)) (omega arith)

-- A power of two has one digit.
pub digit-pow : (k j : ℕ) → (digit (2 ^ k) j ≡ 1) ↔ (j ≡ k)
unfolding digit
digit-pow zero zero = (λ _. refl, λ _. refl)
digit-pow zero (suc j) = (λ e. absurd (omega (arith, digit-zero j)), λ e. absurd (omega arith))
digit-pow (suc k) zero = (λ e. absurd (omega (arith, pow-suc 2 k)), λ e. absurd (omega arith))
digit-pow (suc k) (suc j) = rw half (grind (arith, digit-pow k j))
  where
    half : 2 ^ suc k / 2 ≡ 2 ^ k
    half = omega (arith, pow-suc 2 k)

-- `&` only clears digits.
pub bit_and-le : (a b : ℕ) → bit_and a b ≤ a
bit_and-le a b = bounded a a b (omega arith)
  where
    half_le : (x y : ℕ) → bit_and (x / 2) (y / 2) ≤ x / 2 → bit_and x y ≤ x
    half_le x y h = omega (arith, bit_and_step x y)

    none_left : (x : ℕ) → x ≤ 0 → x ≡ 0
    none_left x h = omega arith

    bounded : (n x y : ℕ) → x ≤ n → bit_and x y ≤ x
    bounded zero x y h = rw (none_left x h, bit_and-bitwise 0 y) (omega arith)
    bounded (suc n) x y h = half_le x y (bounded n (x / 2) (y / 2) (omega arith))
