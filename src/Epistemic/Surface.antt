-- ===== src/Epistemic/Surface.antt =====
-- The byte surface and the quadrant, against their bands and the quadratic form.
use omino.Prelude.{ℕ, ◌+◌, ◌*◌, ◌%◌, ◌^◌, ◌≤◌, ◌<◌}
use omino.Prelude.{◌≡◌, refl, ◌↔◌, arith}
use omino.Prelude.{true, false}
use omino.Prelude.{leb}
use omino.Prelude.{u32, ◌>>>◌}
use omino.Prelude.Bits.Fields.{bit_and-mod}
use omino.Epistemic.{
  omnicron_ok, surface_zero_leak, delineation_breach, EpistemicQuadrant, OmnicronResolution,
  omnicron_calculate_bqf, band_of, resolve_byte_surface, resolve_epistemic_quadrant,
}

-- A byte leaks zero exactly when it is 0 and is accepted otherwise; it is a delineation exactly
-- in band 2, which begins at 0xB0.
pub resolve_byte_surface_lem :
    (raw_byte : ℕ)
    → raw_byte < 256
    → let (status, out) = resolve_byte_surface raw_byte in
      ((status ≡ surface_zero_leak) ↔ (raw_byte ≡ 0))
      × ((status ≡ omnicron_ok) ↔ (0 < raw_byte))
      × ((out.is_delineation ≡ true) ↔ (out.active_band ≡ 2))
      × ((out.active_band ≡ 2) ↔ (0xB0 ≤ raw_byte))
unfolding resolve_byte_surface band_of
resolve_byte_surface_lem raw_byte h = ground (arith, bit_and-mod 4 (raw_byte >>> 4))

sum_wraps : (a b c : ℕ) → u32 (u32 (u32 a + u32 b) + u32 c) ≡ (a + b + c) % 2 ^ 32
sum_wraps a b c = omega arith

-- The quadratic form, which wraps only as a whole.
omnicron_calculate_bqf_lem :
    (x y : ℕ)
    → x < 240
    → y < 2 ^ 16
    → omnicron_calculate_bqf x y ≡ (60 * x * x + 16 * x * y + 4 * y * y) % 2 ^ 32
unfolding omnicron_calculate_bqf
omnicron_calculate_bqf_lem x y hx hy =
    let a : u32 (60 * x) ≡ 60 * x = omega arith in
    let b : u32 (16 * x) ≡ 16 * x = omega arith in
    let c : u32 (4 * y) ≡ 4 * y = omega arith in
    rw (a, b, c) (sum_wraps (60 * x * x) (16 * x * y) (4 * y * y))

-- With a 16-bit y, an x below 240 gives the quadratic form modulo 2 ^ 32 as the energy; any
-- other x is a breach, which changes nothing.
pub resolve_epistemic_quadrant_lem :
    (q : EpistemicQuadrant) (before : OmnicronResolution)
    → q.local_field_y < 2 ^ 16
    → (q.local_field_x < 240
        → resolve_epistemic_quadrant q before ≡ (
          omnicron_ok,
          record before {
            address_energy =
                (60 * q.local_field_x * q.local_field_x
                  + 16 * q.local_field_x * q.local_field_y
                  + 4 * q.local_field_y * q.local_field_y)
                % 2 ^ 32;
          },
        ))
      × (240 ≤ q.local_field_x → resolve_epistemic_quadrant q before ≡ (delineation_breach, before))
unfolding resolve_epistemic_quadrant
resolve_epistemic_quadrant_lem q before fits = (
  λ h.
      (let inside : leb 240 q.local_field_x ≡ false = ground arith in
        rw (inside, omnicron_calculate_bqf_lem q.local_field_x q.local_field_y h fits) refl),
  λ h. ground arith,
)
