-- ===== src/Prelude/Bits/Fields.antt =====
-- Words cut into a high and a low field: the operations act on the fields apart, `|` of disjoint
-- fields is a sum, and `&` with a low mask is a remainder.
use Prim.Native.Nat.{
  ℕ, zero, suc, ◌+◌, ◌-◌, ◌*◌, ◌/◌, ◌%◌, ◌^◌, ◌<◌, min, max, bit_xor, bit_or, bit_and,
}
use mathlib.Core.Path.{◌≡◌, refl, sym, ap, ap₂, ◌∙◌}
use native.Mathlib.Nat.{pow-suc, one-le-pow, mod-lt, div-add-mod'}
use native.Mathlib.Omega.{arith}
use omino.Prelude.Bits.Step.{bit_xor_step, bit_or_step, bit_and_step}
use omino.Prelude.Bits.Digit.{digit-bit_or, digit-bit_and, digit-zero, digit_ext}

pub bit_or-zero : (a : ℕ) → bit_or a 0 ≡ a
bit_or-zero a = digit_ext _ _ λ k. omega (arith, digit-bit_or a 0 k, digit-zero k)

pub bit_or_comm : (a b : ℕ) → bit_or a b ≡ bit_or b a
bit_or_comm a b = digit_ext _ _ λ k. omega (arith, digit-bit_or a b k, digit-bit_or b a k)

pub bit_and_comm : (a b : ℕ) → bit_and a b ≡ bit_and b a
bit_and_comm a b = digit_ext _ _ λ k. omega (arith, digit-bit_and a b k, digit-bit_and b a k)

pub bit_and-zero : (a : ℕ) → bit_and a 0 ≡ 0
bit_and-zero a = digit_ext _ _ λ k. omega (arith, digit-bit_and a 0 k, digit-zero k)

-- `q * 2 ^ (k + 1)` is even, and its half is `q * 2 ^ k`.
scale : (q k : ℕ) → q * 2 ^ suc k ≡ q * 2 ^ k * 2
scale q k = omega (arith, ap (λ (t : ℕ). q * t) (pow-suc 2 k))

halves : (q k r : ℕ) → (q * 2 ^ suc k + r) / 2 ≡ q * 2 ^ k + r / 2
halves q k r = omega (arith, scale q k)

parity : (q k r : ℕ) → (q * 2 ^ suc k + r) % 2 ≡ r % 2
parity q k r = omega (arith, scale q k)

-- An operation on the digits acts on the two fields apart.
module _ (op low : ℕ → ℕ → ℕ) (empty : op 0 0 ≡ 0)
    (step : (a b : ℕ) → op a b ≡ op (a / 2) (b / 2) * 2 + low (a % 2) (b % 2)) where
  op_fields :
      (k q r p s : ℕ)
      → r < 2 ^ k
      → s < 2 ^ k
      → op (q * 2 ^ k + r) (p * 2 ^ k + s) ≡ op q p * 2 ^ k + op r s
  op_fields zero q r p s hr hs =
      rw (all_high q r hr, all_high p s hs, none r hr, none s hs, empty) (omega arith)
    where
      all_high : (x y : ℕ) → y < 1 → x * 1 + y ≡ x
      all_high x y h = omega arith

      none : (y : ℕ) → y < 1 → y ≡ 0
      none y h = omega arith
  op_fields (suc k) q r p s hr hs =
      let ih =
        op_fields k q (r / 2) p (s / 2) (omega (arith, pow-suc 2 k)) (omega (arith, pow-suc 2 k)) in
      rw (step (q * 2 ^ suc k + r) (p * 2 ^ suc k + s), halves q k r, halves p k s, ih)
        (rw (parity q k r, parity p k s, step r s) (omega (arith, scale (op q p) k)))

xor_step_digits : (a b : ℕ) → bit_xor a b ≡ bit_xor (a / 2) (b / 2) * 2 + (a % 2 + b % 2) % 2
xor_step_digits a b = omega (arith, bit_xor_step a b)

pub bit_xor_fields :
    (k q r p s : ℕ)
    → r < 2 ^ k
    → s < 2 ^ k
    → bit_xor (q * 2 ^ k + r) (p * 2 ^ k + s) ≡ bit_xor q p * 2 ^ k + bit_xor r s
bit_xor_fields = op_fields bit_xor (λ x y. (x + y) % 2) refl xor_step_digits

pub bit_or_fields :
    (k q r p s : ℕ)
    → r < 2 ^ k
    → s < 2 ^ k
    → bit_or (q * 2 ^ k + r) (p * 2 ^ k + s) ≡ bit_or q p * 2 ^ k + bit_or r s
bit_or_fields = op_fields bit_or max refl bit_or_step

pub bit_and_fields :
    (k q r p s : ℕ)
    → r < 2 ^ k
    → s < 2 ^ k
    → bit_and (q * 2 ^ k + r) (p * 2 ^ k + s) ≡ bit_and q p * 2 ^ k + bit_and r s
bit_and_fields = op_fields bit_and min refl bit_and_step

-- `(q << k) | r` is a sum when `r` fits `k` bits.
pub bit_or-add : (k q r : ℕ) → r < 2 ^ k → bit_or (q * 2 ^ k) r ≡ q * 2 ^ k + r
bit_or-add k q r h =
    rw
      (
        apart,
        bit_or_fields k q 0 0 r (omega arith) h,
        bit_or-zero q,
        bit_or_comm 0 r,
        bit_or-zero r,
      )
      refl
  where
    apart : bit_or (q * 2 ^ k) r ≡ bit_or (q * 2 ^ k + 0) (0 * 2 ^ k + r)
    apart = ap₂ bit_or (omega arith) (omega arith)

keeps_all : (k r : ℕ) → r < 2 ^ k → bit_and r (2 ^ k - 1) ≡ r
keeps_all zero r h = rw (bit_and-zero r) (omega arith)
keeps_all (suc k) r h =
    rw (bit_and_step r (2 ^ suc k - 1), half_mask, keeps_all k (r / 2) (omega (arith, pow-suc 2 k)))
      (omega (arith, pow-suc 2 k, one-le-pow k 2 (omega arith)))
  where
    half_mask : (2 ^ suc k - 1) / 2 ≡ 2 ^ k - 1
    half_mask = omega (arith, pow-suc 2 k, one-le-pow k 2 (omega arith))

-- A mask of the `k` low bits is the remainder by `2 ^ k`.
pub bit_and-mod : (k a : ℕ) → bit_and a (2 ^ k - 1) ≡ a % 2 ^ k
bit_and-mod k a =
    ap₂ bit_and (sym (div-add-mod' a (2 ^ k))) (omega arith)
    ∙ bit_and_fields k (a / 2 ^ k) (a % 2 ^ k) 0 (2 ^ k - 1) low_fits mask_fits
    ∙ rw (bit_and-zero (a / 2 ^ k), keeps_all k (a % 2 ^ k) low_fits) (omega arith)
  where
    low_fits : a % 2 ^ k < 2 ^ k
    low_fits = mod-lt a (one-le-pow k 2 (omega arith))

    mask_fits : 2 ^ k - 1 < 2 ^ k
    mask_fits = omega (arith, one-le-pow k 2 (omega arith))

pub bit_or_self : (a : ℕ) → bit_or a a ≡ a
bit_or_self a = digit_ext _ _ λ k. omega (arith, digit-bit_or a a k)
