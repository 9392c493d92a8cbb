-- ===== src/Engine/Reconcile.antt =====
-- The reconciliation on both sides of the surface bands.
use omino.Prelude.{ℕ, zero, suc, ◌+◌, ◌-◌, ◌*◌, ◌/◌, ◌%◌, ◌^◌, ◌≤◌, ◌<◌}
use omino.Prelude.{◌≡◌, refl, ap, arith}
use omino.Prelude.{◌&&◌, none, some}
use omino.Prelude.{◌==◌}
use omino.Prelude.{u32, ◌<<<◌, get_or}
use omino.Engine.{
  eal_ok, band_breach, OmiAddress128, ReconciledEngineState, surface_band, evaluate_parabolic_form,
  reconcile_interface,
}

surface_band_lem :
    (mux_token : ℕ) → mux_token ≤ 0x7F → surface_band mux_token ≡ some ((mux_token - 1) / 32)
unfolding surface_band
surface_band_lem mux_token h = ground arith

surface_band-breach : (mux_token : ℕ) → 0x7F < mux_token → surface_band mux_token ≡ none
unfolding surface_band
surface_band-breach mux_token h = ground arith

evaluate_parabolic_form_lem :
    (x y : ℕ)
    → x < 2 ^ 16
    → y < 2 ^ 16
    → evaluate_parabolic_form x y ≡ (4 * x + 2 * y) * (4 * x + 2 * y) % 2 ^ 32
unfolding evaluate_parabolic_form
evaluate_parabolic_form_lem x y hx hy = ap (λ (n : ℕ). u32 (n * n)) root
  where
    root : u32 (u32 (x <<< 2) + u32 (y <<< 1)) ≡ 4 * x + 2 * y
    root = omega arith

-- The first segment is x, the second y.
abbrev placed : OmiAddress128 → ReconciledEngineState → ReconciledEngineState
placed addr before = record before {
  x_omi = get_or addr.segments 0 0;
  y_imo = get_or addr.segments 1 0;
}

centroid-flag :
    (x y : ℕ) → (x == 0 && (y == 0 && evaluate_parabolic_form x y == 0)) ≡ (x == 0 && y == 0)
unfolding evaluate_parabolic_form
centroid-flag zero zero = refl
centroid-flag zero (suc y) = ground arith
centroid-flag (suc x) y = ground arith

-- With two 16-bit coordinates, a token up to 0x7F gives the square of 4 x + 2 y modulo 2 ^ 32,
-- the band (token - 1) / 32, which is 0 for the token 0, and a centroid exactly where both
-- coordinates are 0; a higher token breaches the bands, and then only the coordinates are
-- written.
pub reconcile_interface_lem :
    (addr : OmiAddress128) (mux_token : ℕ) (before : ReconciledEngineState)
    → get_or addr.segments 0 0 < 2 ^ 16
    → get_or addr.segments 1 0 < 2 ^ 16
    → let x = get_or addr.segments 0 0 in
      let y = get_or addr.segments 1 0 in
      (mux_token ≤ 0x7F
        → reconcile_interface addr mux_token before ≡ (
          eal_ok,
          record {
            x_omi = x;
            y_imo = y;
            parabolic_evaluation = (4 * x + 2 * y) * (4 * x + 2 * y) % 2 ^ 32;
            active_surface_band = (mux_token - 1) / 32;
            is_centroid = x == 0 && y == 0;
          },
        ))
      × (0x7F < mux_token
          → reconcile_interface addr mux_token before ≡ (band_breach, placed addr before))
unfolding reconcile_interface
reconcile_interface_lem addr mux_token before hx hy =
    let x = get_or addr.segments 0 0 in
    let y = get_or addr.segments 1 0 in
    (
      λ h.
          rw
            (
              reconcile_interface,
              surface_band_lem mux_token h,
              centroid-flag x y,
              evaluate_parabolic_form_lem x y hx hy,
            )
            refl,
      λ h. rw (reconcile_interface, surface_band-breach mux_token h) refl,
    )
