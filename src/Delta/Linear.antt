-- ===== src/Delta/Linear.antt =====
-- The rotations are linear over `^`.
use omino.Prelude.{ℕ, ◌+◌, ◌-◌, ◌*◌, ◌/◌, ◌%◌, ◌^◌, ◌<◌, bit_and, bit_or, bit_xor}
use omino.Prelude.{◌≡◌, refl, sym, ap, ap₂, ◌∙◌, arith}
use native.Mathlib.Nat.{
  mod-lt, div-add-mod', mod-eq_of_lt, mul-add-mod_self_right, mul-add-div_right, div-eq_of_lt,
  div-le_self,
}
use omino.Prelude.Bits.Fields.{bit_and-mod, bit_or_fields, bit_xor_fields, bit_or_comm}
use omino.Prelude.Bits.Xor.{bit_or-lt, bit_xor-lt}
use omino.Prelude.Words.{rotate, rotate_fields, two_pow_pos, high_field-lt}
use omino.Delta.{rotl16, rotr16}

-- The fields of `a ^ b` are those of `a` and `b`, `^`ed.
module _ (k a b : ℕ) where
  low-lt : (v : ℕ) → v % 2 ^ k < 2 ^ k
  low-lt v = mod-lt v (two_pow_pos k)

  xor_split :
      bit_xor a b ≡ bit_xor (a / 2 ^ k) (b / 2 ^ k) * 2 ^ k + bit_xor (a % 2 ^ k) (b % 2 ^ k)
  xor_split =
      ap₂ bit_xor (sym (div-add-mod' a (2 ^ k))) (sym (div-add-mod' b (2 ^ k)))
      ∙ bit_xor_fields k (a / 2 ^ k) (a % 2 ^ k) (b / 2 ^ k) (b % 2 ^ k) (low-lt a) (low-lt b)

  pub bit_xor-mod_pow : bit_xor a b % 2 ^ k ≡ bit_xor (a % 2 ^ k) (b % 2 ^ k)
  bit_xor-mod_pow =
      ap (λ (t : ℕ). t % 2 ^ k) xor_split
      ∙ mul-add-mod_self_right _ (2 ^ k) _
      ∙ mod-eq_of_lt (bit_xor-lt k (a % 2 ^ k) (b % 2 ^ k) (low-lt a) (low-lt b))

  pub bit_xor-div_pow : bit_xor a b / 2 ^ k ≡ bit_xor (a / 2 ^ k) (b / 2 ^ k)
  bit_xor-div_pow =
      ap (λ (t : ℕ). t / 2 ^ k) xor_split
      ∙ mul-add-div_right (two_pow_pos k) _ _
      ∙ rw (div-eq_of_lt (bit_xor-lt k (a % 2 ^ k) (b % 2 ^ k) (low-lt a) (low-lt b))) (omega arith)

  pub bit_or-mod_pow : bit_or a b % 2 ^ k ≡ bit_or (a % 2 ^ k) (b % 2 ^ k)
  bit_or-mod_pow =
      ap (λ (t : ℕ). t % 2 ^ k)
        (ap₂ bit_or (sym (div-add-mod' a (2 ^ k))) (sym (div-add-mod' b (2 ^ k)))
          ∙ bit_or_fields k (a / 2 ^ k) (a % 2 ^ k) (b / 2 ^ k) (b % 2 ^ k) (low-lt a) (low-lt b))
      ∙ mul-add-mod_self_right _ (2 ^ k) _
      ∙ mod-eq_of_lt (bit_or-lt k (a % 2 ^ k) (b % 2 ^ k) (low-lt a) (low-lt b))

pub rotate_xor :
    (w k m : ℕ) (parts : k + m ≡ w) (x y : ℕ)
    → x < 2 ^ w
    → y < 2 ^ w
    → rotate w k m (bit_xor x y) ≡ bit_xor (rotate w k m x) (rotate w k m y)
rotate_xor w k m parts x y hx hy =
    rw
      (
        rotate_fields w k m parts (bit_xor x y) (bit_xor-lt w x y hx hy),
        rotate_fields w k m parts x hx,
        rotate_fields w k m parts y hy,
        bit_xor-mod_pow m x y,
        bit_xor-div_pow m x y,
      )
      (sym (
        bit_xor_fields k (x % 2 ^ m) (x / 2 ^ m) (y % 2 ^ m) (y / 2 ^ m)
          (high_field-lt w k m parts x hx) (high_field-lt w k m parts y hy)))

-- A 16-bit rotation by a proper shift.
module _ (s : ℕ) (proper : 0 < s) (small : s < 16) where
  kept : bit_and (16 - s) 15 ≡ 16 - s
  kept = bit_and-mod 4 (16 - s) ∙ mod-eq_of_lt {n = 16 - s} {m = 16} (omega arith)

  shift_kept : bit_and s 15 ≡ s
  shift_kept = bit_and-mod 4 s ∙ mod-eq_of_lt {n = s} {m = 16} small

  shifted_down : (x m : ℕ) → x < 2 ^ 16 → x / 2 ^ m % 2 ^ 16 ≡ x / 2 ^ m
  shifted_down x m h = mod-eq_of_lt (omega (arith, div-le_self x (2 ^ m)))

  pub rotl16-rotate : (x : ℕ) → x < 2 ^ 16 → rotl16 x s ≡ rotate 16 s (16 - s) x
  unfolding rotl16 rotate
  rotl16-rotate x h =
      rw
        (
          shift_kept,
          kept,
          bit_or-mod_pow 16 (x * 2 ^ s) (x / 2 ^ (16 - s)),
          shifted_down x (16 - s) h,
        )
        refl

  pub rotr16-rotate : (x : ℕ) → x < 2 ^ 16 → rotr16 x s ≡ rotate 16 (16 - s) s x
  unfolding rotr16 rotate
  rotr16-rotate x h =
      rw (shift_kept, kept, bit_or-mod_pow 16 (x / 2 ^ s) (x * 2 ^ (16 - s)), shifted_down x s h)
        (bit_or_comm _ _)
