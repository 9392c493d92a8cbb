-- ===== src/Epistemic.antt =====
-- The byte surface and the quadrants, examples/esp32/omnicron_epistemic_core.c. Null pointers are
-- not values of the model.
pub mod Surface
use omino.Prelude.{ℕ, ◌+◌, ◌*◌, bit_and}
use omino.Prelude.{Bool}
use omino.Prelude.{leb, ◌==◌, if◌then◌else◌}
use omino.Prelude.{u32, ◌>>>◌}

pub data OmnicronStatus : Type 0 where
  omnicron_ok surface_zero_leak delineation_breach out_of_band : OmnicronStatus

pub record EpistemicQuadrant : Type 0 where
  pub car_visibility : ℕ
  pub cdr_visibility : ℕ
  pub local_field_x : ℕ
  pub local_field_y : ℕ

pub record OmnicronResolution : Type 0 where
  pub address_energy : ℕ
  pub active_band : ℕ
  pub is_delineation : Bool

unfoldable pub omnicron_calculate_bqf : ℕ → ℕ → ℕ
omnicron_calculate_bqf x y =
    u32 (u32 (u32 (u32 (60 * x) * x) + u32 (u32 (16 * x) * y)) + u32 (u32 (4 * y) * y))

-- The chain of bands, and the one return inside it.
unfoldable pub band_of : ℕ → OmnicronStatus × ℕ
band_of raw_byte =
    if leb raw_byte 0x1F
    then ((if raw_byte == 0 then surface_zero_leak else omnicron_ok), 0)
    else if leb raw_byte 0x7F
    then (omnicron_ok, 1)
    else if leb raw_byte 0xAF
    then (omnicron_ok, 3)
    else (omnicron_ok, 2)

-- The status, and what is written through `out_res`.
unfoldable pub resolve_byte_surface : ℕ → OmnicronStatus × OmnicronResolution
resolve_byte_surface raw_byte =
    let (status, band) = band_of raw_byte in
    (
      status,
      record {
        address_energy = 0;
        active_band = band;
        is_delineation = leb 0x0B (bit_and (raw_byte >>> 4) 0x0F);
      },
    )

-- The status, and the resolution after the call.
unfoldable pub resolve_epistemic_quadrant :
    EpistemicQuadrant → OmnicronResolution → OmnicronStatus × OmnicronResolution
resolve_epistemic_quadrant q out_res =
    if leb 240 q.local_field_x then (delineation_breach, out_res) else (
      omnicron_ok,
      record out_res { address_energy = omnicron_calculate_bqf q.local_field_x q.local_field_y },
    )
