-- ===== src/Delta/Period.antt =====
-- The rotate-and-xor laws return after eight steps, whatever their constant cancels to.
use omino.Prelude.{ℕ, zero, suc, ◌*◌, ◌/◌, ◌%◌, ◌^◌, ◌<◌, bit_xor}
use omino.Prelude.{◌≡◌, refl, sym, ap, ap₂, ◌∙◌, arith}
use omino.Prelude.{Bool, true, ◌&&◌}
use omino.Prelude.{◌==◌, all_below, all_below_sound}
use omino.Prelude.Bits.Xor.{
  bit_xor-lt, bit_xor_assoc, bit_xor_comm, bit_xor_left_comm, bit_xor-zero, zero-bit_xor,
}
use omino.Prelude.Bits.Fields.{bit_xor_fields, bit_and-mod}
use omino.Prelude.Words.{rotate, rotate-lt}
use native.Mathlib.Nat.{mod-eq_of_lt}
use omino.Delta.{rotl16, rotr16, delta_c16, delta_c16_const}
use omino.Delta.Linear.{rotate_xor, rotl16-rotate, rotr16-rotate}

-- `n` applications of `f`.
abbrev pub iterate : ℕ → (ℕ → ℕ) → ℕ → ℕ
iterate zero f x = x
iterate (suc n) f x = f (iterate n f x)

-- The three rotations, and a law with the constant `c`.
unfoldable pub linear : ℕ → ℕ
linear x = bit_xor (bit_xor (rotl16 x 1) (rotl16 x 3)) (rotr16 x 2)

unfoldable pub law : ℕ → ℕ → ℕ
law c x = bit_xor (linear x) c

linear_rotations :
    (x : ℕ)
    → x < 2 ^ 16
    → linear x ≡ bit_xor (bit_xor (rotate 16 1 15 x) (rotate 16 3 13 x)) (rotate 16 14 2 x)
unfolding linear
linear_rotations x h =
    ap₂ bit_xor
      (ap₂ bit_xor (rotl16-rotate 1 (omega arith) (omega arith) x h)
        (rotl16-rotate 3 (omega arith) (omega arith) x h))
      (rotr16-rotate 2 (omega arith) (omega arith) x h)

pub linear-lt : (x : ℕ) → x < 2 ^ 16 → linear x < 2 ^ 16
linear-lt x h = rw (linear_rotations x h) (
    bit_xor-lt 16 _ _ (bit_xor-lt 16 _ _ (rotate-lt 16 1 15 refl x h) (rotate-lt 16 3 13 refl x h))
      (rotate-lt 16 14 2 refl x h))

-- Three pairs, regrouped.
regroup :
    (a b c d e f : ℕ)
    → bit_xor (bit_xor (bit_xor a b) (bit_xor c d)) (bit_xor e f)
      ≡ bit_xor (bit_xor (bit_xor a c) e) (bit_xor (bit_xor b d) f)
regroup a b c d e f =
    simp (bit_xor_assoc, bit_xor_left_comm b c, bit_xor_left_comm d e, bit_xor_left_comm b e)

linear_xor :
    (x y : ℕ) → x < 2 ^ 16 → y < 2 ^ 16 → linear (bit_xor x y) ≡ bit_xor (linear x) (linear y)
linear_xor x y hx hy =
    rw
      (
        linear_rotations (bit_xor x y) (bit_xor-lt 16 x y hx hy),
        linear_rotations x hx,
        linear_rotations y hy,
        rotate_xor 16 1 15 refl x y hx hy,
        rotate_xor 16 3 13 refl x y hx hy,
        rotate_xor 16 14 2 refl x y hx hy,
      )
      (regroup _ _ _ _ _ _)

iterate-lt : (n x : ℕ) → x < 2 ^ 16 → iterate n linear x < 2 ^ 16
iterate-lt zero x h = h
iterate-lt (suc n) x h = linear-lt (iterate n linear x) (iterate-lt n x h)

iterate_xor :
    (n x y : ℕ)
    → x < 2 ^ 16
    → y < 2 ^ 16
    → iterate n linear (bit_xor x y) ≡ bit_xor (iterate n linear x) (iterate n linear y)
iterate_xor zero x y hx hy = refl
iterate_xor (suc n) x y hx hy =
    ap linear (iterate_xor n x y hx hy)
    ∙ linear_xor (iterate n linear x) (iterate n linear y) (iterate-lt n x hx) (iterate-lt n y hy)

abbrev returns : ℕ → Bool
returns v = iterate 8 linear v == v && iterate 8 linear (v * 256) == v * 256

bytes_return : all_below 256 returns ≡ true
unfolding all_below linear rotl16 rotr16
bytes_return = refl

-- Eight linear steps are the identity: it is so on the low and on the high byte.
linear_period : (x : ℕ) → x < 2 ^ 16 → iterate 8 linear x ≡ x
linear_period x h =
    ap (iterate 8 linear) split
    ∙ iterate_xor 8 (x / 256 * 256) (x % 256) (omega arith) (omega arith)
    ∙ ap₂ bit_xor high low
    ∙ sym split
  where
    split : x ≡ bit_xor (x / 256 * 256) (x % 256)
    split = sym (
        ap₂ bit_xor (omega arith) (omega arith)
        ∙ bit_xor_fields 8 (x / 256) 0 0 (x % 256) (omega arith) (omega arith)
        ∙ rw (bit_xor-zero (x / 256), zero-bit_xor (x % 256)) (omega arith))

    high : iterate 8 linear (x / 256 * 256) ≡ x / 256 * 256
    high = ground (arith, all_below_sound 256 returns (x / 256) bytes_return (omega arith))

    low : iterate 8 linear (x % 256) ≡ x % 256
    low = ground (arith, all_below_sound 256 returns (x % 256) bytes_return (omega arith))

pub law-lt : (c x : ℕ) → c < 2 ^ 16 → x < 2 ^ 16 → law c x < 2 ^ 16
unfolding law
law-lt c x hc hx = bit_xor-lt 16 (linear x) c (linear-lt x hx) hc

iterate-law-lt : (n c x : ℕ) → c < 2 ^ 16 → x < 2 ^ 16 → iterate n (law c) x < 2 ^ 16
iterate-law-lt zero c x hc hx = hx
iterate-law-lt (suc n) c x hc hx = law-lt c (iterate n (law c) x) hc (iterate-law-lt n c x hc hx)

-- The law is affine: its steps are those from 0, and the linear steps.
iterate-law :
    (n c x : ℕ)
    → c < 2 ^ 16
    → x < 2 ^ 16
    → iterate n (law c) x ≡ bit_xor (iterate n (law c) 0) (iterate n linear x)
iterate-law zero c x hc hx = sym (zero-bit_xor x)
iterate-law (suc n) c x hc hx =
    ap (law c) (iterate-law n c x hc hx)
    ∙ step (iterate n (law c) 0) (iterate n linear x) (iterate-law-lt n c 0 hc (omega arith))
        (iterate-lt n x hx)
  where
    step : (a b : ℕ) → a < 2 ^ 16 → b < 2 ^ 16 → law c (bit_xor a b) ≡ bit_xor (law c a) (linear b)
    step a b ha hb =
        unfold law in rw (linear_xor a b ha hb) (simp (bit_xor_assoc, bit_xor_comm (linear b) c))

-- A law whose constant cancels over eight steps from 0 returns from everywhere.
pub law_period :
    (c x : ℕ) → c < 2 ^ 16 → x < 2 ^ 16 → iterate 8 (law c) 0 ≡ 0 → iterate 8 (law c) x ≡ x
law_period c x hc hx e = iterate-law 8 c x hc hx ∙ rw (e, linear_period x hx) (zero-bit_xor x)

pub iterate_cong :
    (f g : ℕ → ℕ)
    → ((x : ℕ) → x < 2 ^ 16 → (f x ≡ g x) × (g x < 2 ^ 16))
    → (n x : ℕ) → x < 2 ^ 16
    → (iterate n f x ≡ iterate n g x) × (iterate n g x < 2 ^ 16)
iterate_cong f g h zero x hx = (refl, hx)
iterate_cong f g h (suc n) x hx =
    let (e, below) = iterate_cong f g h n x hx in
    let (e', below') = h (iterate n g x) below in (ap f e ∙ e', below')

delta_c16-law :
    (x : ℕ) → x < 2 ^ 16 → (delta_c16 x ≡ law delta_c16_const x) × (law delta_c16_const x < 2 ^ 16)
unfolding delta_c16 law linear
delta_c16-law x h =
    let below : law delta_c16_const x < 2 ^ 16 = law-lt delta_c16_const x (omega arith) h in
    (
      rw
          (
            mod-eq_of_lt below,
            bit_and-mod 16 (law delta_c16_const x),
            mod-eq_of_lt below,
            mod-eq_of_lt below,
          )
          refl,
      below,
    )

-- Eight applications of the delta law give every 16-bit word back.
pub delta_c16_period : (x : ℕ) → x < 2 ^ 16 → iterate 8 delta_c16 x ≡ x
delta_c16_period x h =
    (iterate_cong delta_c16 (law delta_c16_const) delta_c16-law 8 x h).0
    ∙ law_period delta_c16_const x (omega arith) h cancels
  where
    cancels : iterate 8 (law delta_c16_const) 0 ≡ 0
    cancels = unfold law linear rotl16 rotr16 in refl
