-- ===== src/Prelude/Bits/Xor.antt =====
-- The laws of `^`: the numbers form a commutative group in which every element is its own inverse.
use Prim.Native.Nat.{ℕ, zero, suc, ◌/◌, ◌^◌, ◌<◌, bit_xor, bit_or, bit_and}
use mathlib.Core.Path.{◌≡◌, sym, ap, ◌∙◌}
use native.Mathlib.Nat.{pow-suc}
use native.Mathlib.Omega.{arith}
use omino.Prelude.Bits.Step.{bit_xor_step, bit_or_step, bit_and_step}
use omino.Prelude.Bits.Digit.{digit-lt, digit-bit_xor, digit-zero, digit_ext}

pub bit_xor_comm : (a b : ℕ) → bit_xor a b ≡ bit_xor b a
bit_xor_comm a b = digit_ext _ _ λ k. omega (arith, digit-bit_xor a b k, digit-bit_xor b a k)

pub bit_xor_assoc : (a b c : ℕ) → bit_xor (bit_xor a b) c ≡ bit_xor a (bit_xor b c)
bit_xor_assoc a b c = digit_ext _ _ λ k. omega (
  arith,
  digit-bit_xor (bit_xor a b) c k,
  digit-bit_xor a (bit_xor b c) k,
  digit-bit_xor a b k,
  digit-bit_xor b c k,
)

pub bit_xor_left_comm : (a b c : ℕ) → bit_xor a (bit_xor b c) ≡ bit_xor b (bit_xor a c)
bit_xor_left_comm a b c = digit_ext _ _ λ k. omega (
  arith,
  digit-bit_xor a (bit_xor b c) k,
  digit-bit_xor b (bit_xor a c) k,
  digit-bit_xor a c k,
  digit-bit_xor b c k,
)

pub bit_xor_self : (a : ℕ) → bit_xor a a ≡ 0
bit_xor_self a = digit_ext _ _ λ k. omega (arith, digit-bit_xor a a k, digit-zero k)

pub bit_xor-zero : (a : ℕ) → bit_xor a 0 ≡ a
bit_xor-zero a = digit_ext _ _ λ k. omega (arith, digit-bit_xor a 0 k, digit-zero k, digit-lt a k)

pub zero-bit_xor : (a : ℕ) → bit_xor 0 a ≡ a
zero-bit_xor a = bit_xor_comm 0 a ∙ bit_xor-zero a

pub bit_xor_cancel : (a b : ℕ) → bit_xor a (bit_xor a b) ≡ b
bit_xor_cancel a b = rw (← bit_xor_assoc a a b, bit_xor_self a) (zero-bit_xor b)

pub ruleset xor_laws = (bit_xor_assoc, bit_xor_self, bit_xor-zero, zero-bit_xor, bit_xor_cancel)

pub bit_xor_left_inj : (a b c : ℕ) → bit_xor a b ≡ bit_xor a c → b ≡ c
bit_xor_left_inj a b c h = sym (bit_xor_cancel a b) ∙ ap (bit_xor a) h ∙ bit_xor_cancel a c

-- The operations stay within a width.
pub bit_xor-lt : (n a b : ℕ) → a < 2 ^ n → b < 2 ^ n → bit_xor a b < 2 ^ n
bit_xor-lt zero a b p q = rw (none_set a p, none_set b q) (omega arith)
  where
    none_set : (x : ℕ) → x < 1 → x ≡ 0
    none_set x h = omega arith
bit_xor-lt (suc n) a b p q = omega (
  arith,
  bit_xor_step a b,
  pow-suc 2 n,
  bit_xor-lt n (a / 2) (b / 2) (omega (arith, pow-suc 2 n)) (omega (arith, pow-suc 2 n)),
)

pub bit_or-lt : (n a b : ℕ) → a < 2 ^ n → b < 2 ^ n → bit_or a b < 2 ^ n
bit_or-lt zero a b p q = rw (none_set a p, none_set b q) (omega arith)
  where
    none_set : (x : ℕ) → x < 1 → x ≡ 0
    none_set x h = omega arith
bit_or-lt (suc n) a b p q = omega (
  arith,
  bit_or_step a b,
  pow-suc 2 n,
  bit_or-lt n (a / 2) (b / 2) (omega (arith, pow-suc 2 n)) (omega (arith, pow-suc 2 n)),
)

pub bit_and-lt : (n a b : ℕ) → a < 2 ^ n → b < 2 ^ n → bit_and a b < 2 ^ n
bit_and-lt zero a b p q = rw (none_set a p, none_set b q) (omega arith)
  where
    none_set : (x : ℕ) → x < 1 → x ≡ 0
    none_set x h = omega arith
bit_and-lt (suc n) a b p q = omega (
  arith,
  bit_and_step a b,
  pow-suc 2 n,
  bit_and-lt n (a / 2) (b / 2) (omega (arith, pow-suc 2 n)) (omega (arith, pow-suc 2 n)),
)
