-- ===== src/Prelude/Words.antt =====
-- Casts to the fixed widths, shifts, and rotations of a word as arithmetic on its two fields.
use Prim.Native.Nat.{ℕ, zero, suc, ◌+◌, ◌*◌, ◌/◌, ◌%◌, ◌^◌, ◌<◌, bit_or}
use mathlib.Core.Path.{◌≡◌, sym, ap, ◌∙◌}
use native.Mathlib.Nat.{pow-succ', one-le-pow, mod-lt, div-add-mod', mod-eq_of_lt, div-eq_of_lt}
use native.Mathlib.Nat.{mul_assoc, mul-add-mod_self_right, mul-add-div_right, div-le_self}
use native.Mathlib.Nat.{mul-lt-mul_of_pos_right, div-lt_iff_lt-mul}
use native.Mathlib.Omega.{arith}
use omino.Prelude.Bits.Fields.{bit_or-add}
use omino.Prelude.Bits.Xor.{bit_or-lt}

abbrev pub u8 : ℕ → ℕ
u8 n = n % 2 ^ 8

abbrev pub u16 : ℕ → ℕ
u16 n = n % 2 ^ 16

abbrev pub u32 : ℕ → ℕ
u32 n = n % 2 ^ 32

abbrev pub u64 : ℕ → ℕ
u64 n = n % 2 ^ 64

infixl 75 ◌<<<◌ ◌>>>◌
abbrev pub ◌<<<◌ : ℕ → ℕ → ℕ
x <<< k = x * 2 ^ k

abbrev pub ◌>>>◌ : ℕ → ℕ → ℕ
x >>> k = x / 2 ^ k

pub pow-add : (a b : ℕ) → 2 ^ (a + b) ≡ 2 ^ a * 2 ^ b
pow-add zero b = rw pow_zero_add (omega arith)
  where
    pow_zero_add : 2 ^ (0 + b) ≡ 2 ^ b
    pow_zero_add = ap (λ (t : ℕ). 2 ^ t) (omega arith)
pow-add (suc a) b =
    ap (λ (t : ℕ). 2 ^ t) carry
    ∙ pow-succ' 2 (a + b)
    ∙ ap (λ (t : ℕ). 2 * t) (pow-add a b)
    ∙ sym (mul_assoc 2 (2 ^ a) (2 ^ b))
    ∙ ap (λ (t : ℕ). t * 2 ^ b) (sym (pow-succ' 2 a))
  where
    carry : suc a + b ≡ suc (a + b)
    carry = omega arith

-- A word `v` below `p * q`, cut into `v / q` and `v % q`, and put together the other way round.
module _ (p q : ℕ) (p_pos : 0 < p) (q_pos : 0 < q) where
  pub mul-mod_mul : (v : ℕ) → v * p % (p * q) ≡ v % q * p
  mul-mod_mul v =
      ap (λ (t : ℕ). t % (p * q)) regroup
      ∙ mul-add-mod_self_right (v / q) (p * q) (v % q * p)
      ∙ mod-eq_of_lt fits
    where
      regroup : v * p ≡ v / q * (p * q) + v % q * p
      regroup = omega (arith, ap (λ (t : ℕ). t * p) (div-add-mod' v q))

      fits : v % q * p < p * q
      fits = omega (arith, mul-lt-mul_of_pos_right (mod-lt v q_pos) p_pos)

  -- Exchanging the fields back gives the fields of `v`.
  pub fields_back :
      (v : ℕ) → v < p * q → ((v % q * p + v / q) / p ≡ v % q) × ((v % q * p + v / q) % p ≡ v / q)
  fields_back v h = (
    rw (mul-add-div_right p_pos (v % q) (v / q), div-eq_of_lt high_fits) (omega arith),
    rw (mul-add-mod_self_right (v % q) p (v / q)) (mod-eq_of_lt high_fits),
  )
    where
      high_fits : v / q < p
      high_fits = (div-lt_iff_lt-mul q_pos).1 h

pub two_pow_pos : (k : ℕ) → 0 < 2 ^ k
two_pow_pos k = one-le-pow k 2 (omega arith)

-- A rotation of a `w`-bit word by `k`, the high field being the `m = w - k` low bits of `v`.
unfoldable pub rotate : ℕ → ℕ → ℕ → ℕ → ℕ
rotate w k m v = bit_or (v * 2 ^ k % 2 ^ w) (v / 2 ^ m)

module _ (w k m : ℕ) (parts : k + m ≡ w) (v : ℕ) (fits : v < 2 ^ w) where
  cut_at : 2 ^ k * 2 ^ m ≡ 2 ^ w
  cut_at = sym (pow-add k m) ∙ ap (λ (t : ℕ). 2 ^ t) parts

  pub high_field-lt : v / 2 ^ m < 2 ^ k
  high_field-lt = (div-lt_iff_lt-mul (two_pow_pos m)).1 (rw cut_at fits)

  pub rotate_fields : rotate w k m v ≡ v % 2 ^ m * 2 ^ k + v / 2 ^ m
  unfolding rotate
  rotate_fields =
      rw (← cut_at, mul-mod_mul (2 ^ k) (2 ^ m) (two_pow_pos k) (two_pow_pos m) v)
        (bit_or-add k (v % 2 ^ m) (v / 2 ^ m) high_field-lt)

  pub rotate-lt : rotate w k m v < 2 ^ w
  unfolding rotate
  rotate-lt =
      bit_or-lt w (v * 2 ^ k % 2 ^ w) (v / 2 ^ m) (mod-lt _ (two_pow_pos w))
        (omega (arith, div-le_self v (2 ^ m)))

-- Rotating by `m` undoes rotating by `k`.
pub rotate-rotate :
    (w k m : ℕ) (parts : k + m ≡ w) (v : ℕ) → v < 2 ^ w → rotate w m k (rotate w k m v) ≡ v
rotate-rotate w k m parts v h =
    rw
      (
        rotate_fields w m k (omega arith) (rotate w k m v) (rotate-lt w k m parts v h),
        rotate_fields w k m parts v h,
        back.0,
        back.1,
      )
      (div-add-mod' v (2 ^ m))
  where
    back :
        ((v % 2 ^ m * 2 ^ k + v / 2 ^ m) / 2 ^ k ≡ v % 2 ^ m)
        × ((v % 2 ^ m * 2 ^ k + v / 2 ^ m) % 2 ^ k ≡ v / 2 ^ m)
    back =
        fields_back (2 ^ k) (2 ^ m) (two_pow_pos k) (two_pow_pos m) v
          (rw (cut_at w k m parts v h) h)
