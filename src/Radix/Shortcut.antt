-- ===== src/Radix/Shortcut.antt =====
-- The shift shortcut computes what the multiplication by the base computes.
use omino.Prelude.{ℕ, ◌+◌, ◌*◌, ◌^◌, ◌<◌, bit_or}
use omino.Prelude.{◌≡◌, refl, ◌⊎◌, inl, inr, arith}
use omino.Prelude.{true, false}
use omino.Prelude.{ltb, leb, if◌then◌else◌, Bool-cases}
use omino.Prelude.{u32, u64, ◌<<<◌}
use omino.Prelude.Bits.Fields.{bit_or-add}
use native.Mathlib.Nat.{mod-eq_of_lt}
use omino.Radix.{
  radix_ok, character_out_of_bounds, overflow_fail, BaseMetricSeedModel, radix_base_is_supported,
  shortcut_of, next_accum, inject_radix_digit,
}

-- A model that initialisation made, with an accumulator of 32 bits.
pub record IsModel (m : BaseMetricSeedModel) : Type 0 where
  pub supported : radix_base_is_supported m.radix_base_n ≡ true
  pub shortcut : m.bit_shift_shortcut ≡ shortcut_of m.radix_base_n
  pub fits : m.current_accumulator < 2 ^ 32

shifted :
    (k acc d : ℕ) → acc * 2 ^ k < 2 ^ 64 → d < 2 ^ k → bit_or (u64 (acc <<< k)) d ≡ acc * 2 ^ k + d
shifted k acc d h lt = rw (mod-eq_of_lt h) (bit_or-add k acc d lt)

Base : ℕ → Type 0
Base b = (b ≡ 2) ⊎ ((b ≡ 8) ⊎ ((b ≡ 10) ⊎ ((b ≡ 16) ⊎ ((b ≡ 58) ⊎ (b ≡ 64)))))

bases : (b : ℕ) → radix_base_is_supported b ≡ true → Base b
unfolding radix_base_is_supported Base
bases b h = ground arith

next_accum_lem :
    (b acc d : ℕ)
    → Base b
    → acc < 2 ^ 32
    → d < b
    → next_accum
        record { radix_base_n = b; bit_shift_shortcut = shortcut_of b; current_accumulator = acc }
        d
      ≡ acc * b + d
unfolding next_accum shortcut_of Base
next_accum_lem b acc d (inl e) h lt = rw e (shifted 1 acc d (omega arith) (omega arith))
next_accum_lem b acc d (inr (inl e)) h lt = rw e (shifted 3 acc d (omega arith) (omega arith))
next_accum_lem b acc d (inr (inr (inl e))) h lt = rw e (omega arith)
next_accum_lem b acc d (inr (inr (inr (inl e)))) h lt =
    rw e (shifted 4 acc d (omega arith) (omega arith))
next_accum_lem b acc d (inr (inr (inr (inr (inl e))))) h lt = rw e (omega arith)
next_accum_lem b acc d (inr (inr (inr (inr (inr e))))) h lt =
    rw e (shifted 6 acc d (omega arith) (omega arith))

small_word : (n : ℕ) → ltb 0xFFFFFFFF n ≡ false → u32 n ≡ n
small_word n h = mod-eq_of_lt below
  where
    below : n < 2 ^ 32
    below = ground arith

-- On a model of a supported base with the shortcut of that base and a 32-bit accumulator,
-- injecting a digit is the same for every base, shifted or multiplied: a digit outside the base
-- and a value above 32 bits are refused without a change, and else the accumulator becomes its
-- product with the base plus the digit.
pub inject_radix_digit_uniform :
    (m : BaseMetricSeedModel) (d : ℕ)
    → IsModel m
    → inject_radix_digit m d ≡ (
        if leb m.radix_base_n d
        then (character_out_of_bounds, m)
        else if ltb 0xFFFFFFFF (m.current_accumulator * m.radix_base_n + d)
        then (overflow_fail, m)
        else (
          radix_ok,
          record m { current_accumulator = m.current_accumulator * m.radix_base_n + d },
        ))
unfolding inject_radix_digit
inject_radix_digit_uniform m d model = elim (Bool-cases (leb m.radix_base_n d)) [
  | inl outside ↦ rw (model.supported, outside) refl
  | inr inside ↦
      let next : next_accum m d ≡ m.current_accumulator * m.radix_base_n + d =
        rw (← model.shortcut) at (
          next_accum_lem m.radix_base_n m.current_accumulator d
            (bases m.radix_base_n model.supported) model.fits (ground arith)) in
      rw (model.supported, inside, next)
        (elim (Bool-cases (ltb 0xFFFFFFFF (m.current_accumulator * m.radix_base_n + d))) [
          | inl over ↦ rw over refl
          | inr small ↦ rw (small, small_word _ small) refl
        ])
]
