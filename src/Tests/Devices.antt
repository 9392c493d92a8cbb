-- ===== src/Tests/Devices.antt =====
-- The accumulator of digits, the boot envelope and the media gate on concrete data.
use omino.Prelude.{◌+◌, ◌*◌}
use omino.Prelude.{◌≡◌, ◌↔◌, ◌⊎◌, refl, arith}
use omino.Prelude.{true, false, none, some}
use omino.Prelude.{ltb, leb, if◌then◌else◌}
use omino.Radix.{
  BaseMetricSeedModel, radix_ok, character_out_of_bounds, overflow_fail, inject_radix_digit,
  radix_base_is_supported, shortcut_of,
}
use omino.Radix.Shortcut.{IsModel, inject_radix_digit_uniform}
use omino.Boot.{
  resolve_candidate, resolve_candidate_lem, boot_ok, secure_rejection, bqf_out_of_bounds, InRange,
  Resolves, BootResolution,
}
use omino.Media.{MediaStreamChunk}

abbrev hexadecimal : BaseMetricSeedModel
hexadecimal = record { radix_base_n = 16; bit_shift_shortcut = 4; current_accumulator = 0x0A }

hexadecimal-IsModel : IsModel hexadecimal
unfolding radix_base_is_supported shortcut_of
hexadecimal-IsModel = record { supported = refl; shortcut = refl; fits = omega arith }

inject_radix_digit_uniform_example : inject_radix_digit hexadecimal 0x0F ≡ (
    if leb hexadecimal.radix_base_n 0x0F
    then (character_out_of_bounds, hexadecimal)
    else if ltb 0xFFFFFFFF (hexadecimal.current_accumulator * hexadecimal.radix_base_n + 0x0F)
    then (overflow_fail, hexadecimal)
    else (
      radix_ok,
      record hexadecimal {
        current_accumulator = hexadecimal.current_accumulator * hexadecimal.radix_base_n + 0x0F;
      },
    ))
inject_radix_digit_uniform_example = inject_radix_digit_uniform hexadecimal 0x0F hexadecimal-IsModel

resolve_candidate_lem_example :
    let result = resolve_candidate 2 15 3 true in
    ((result.0 ≡ boot_ok) ↔ (InRange 2 15 3 × (true ≡ true)))
    × ((result.0 ≡ secure_rejection) ↔ (InRange 2 15 3 × (true ≡ false)))
    × ((result.0 ≡ bqf_out_of_bounds) ↔ (¬ InRange 2 15 3))
    × ((result.1 ≡ none) ↔ (¬ InRange 2 15 3))
    × ((result.1 ≡ none) ⊎ ((out : BootResolution) × (result.1 ≡ some out) × Resolves 2 15 3 out))
resolve_candidate_lem_example = resolve_candidate_lem 2 15 3 true

abbrev chunk : MediaStreamChunk
chunk = record {
  chunk_sequence_id = 204;
  media_carrier_hash = 0xAAAA5555;
  requested_effect = 10;
  is_attestation_locked = true;
}
