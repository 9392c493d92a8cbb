-- ===== src/Radix.antt =====
-- The accumulator of digits in a base, examples/radix/base_metric_seed_model.c. Null pointers are not
-- values of the model.
pub mod Shortcut
use omino.Prelude.{ℕ, zero, suc, ◌+◌, ◌-◌, ◌*◌, ◌/◌, ◌%◌, ◌^◌, ◌≤◌, ◌<◌, bit_and, bit_or, bit_xor}
use omino.Prelude.{◌≡◌, refl, sym, ap, ap₂, ◌∙◌, ◌≢◌, ◌↔◌, ◌⊎◌, inl, inr, arith}
use omino.Prelude.{Bool, true, false, not, ◌&&◌, ◌||◌, Option, none, some, List, [], ◌∷◌, ◌++◌, map}
use omino.Prelude.{
  ltb, leb, ◌==◌, if◌then◌else◌, ==_iff, Bool-cases, Bool-ext, all_below, all_below_sound,
  all_below_sound₂,
}
use omino.Prelude.{u8, u16, u32, u64, ◌<<<◌, ◌>>>◌, length, get_or, take, drop, replicate}
use omino.Prelude.{
  length-set, get_or-set_self, get_or-set_ne, get_or_ext, length-replicate, get_or-replicate,
  length-append, ltb→lt, lt→ltb,
}

pub data RadixStatus : Type 0 where
  radix_ok invalid_base character_out_of_bounds overflow_fail invalid_argument : RadixStatus

pub record BaseMetricSeedModel : Type 0 where
  pub radix_base_n : ℕ
  pub bit_shift_shortcut : ℕ
  pub current_accumulator : ℕ

unfoldable pub radix_base_is_supported : ℕ → Bool
radix_base_is_supported base_n =
    base_n == 2
    || (base_n == 8 || (base_n == 10 || (base_n == 16 || (base_n == 58 || base_n == 64))))

-- The `switch` on the base.
unfoldable pub shortcut_of : ℕ → ℕ
shortcut_of base_n =
    if base_n == 2
    then 1
    else if base_n == 8
    then 3
    else if base_n == 16
    then 4
    else if base_n == 64
    then 6
    else 0

-- `init_base_metric_model` with a model to write to: the status, and what is written.
unfoldable pub init_base_metric_model : ℕ → RadixStatus × Option BaseMetricSeedModel
init_base_metric_model base_n =
    if not (radix_base_is_supported base_n) then (invalid_base, none) else (
      radix_ok,
      some record {
        radix_base_n = base_n;
        bit_shift_shortcut = shortcut_of base_n;
        current_accumulator = 0;
      },
    )

unfoldable pub next_accum : BaseMetricSeedModel → ℕ → ℕ
next_accum model raw_digit_value =
    if ltb 0 model.bit_shift_shortcut
    then bit_or (u64 (model.current_accumulator <<< model.bit_shift_shortcut)) raw_digit_value
    else u64 (u64 (model.current_accumulator * model.radix_base_n) + raw_digit_value)

-- The status, and the model after the call.
unfoldable pub inject_radix_digit : BaseMetricSeedModel → ℕ → RadixStatus × BaseMetricSeedModel
inject_radix_digit model raw_digit_value =
    if not (radix_base_is_supported model.radix_base_n)
    then (invalid_base, model)
    else if leb model.radix_base_n raw_digit_value
    then (character_out_of_bounds, model)
    else let next = next_accum model raw_digit_value in
      if ltb 0xFFFFFFFF next
      then (overflow_fail, model)
      else (radix_ok, record model { current_accumulator = u32 next })
