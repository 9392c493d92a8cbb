-- ===== src/Tests/Demos.antt =====
-- The emulated mains on their own data, and an envelope with a frame.
use omino.Prelude.{ℕ, zero, suc, ◌^◌, ◌<◌}
use omino.Prelude.{◌≡◌, refl, arith}
use omino.Prelude.{true, false, some, List, [], ◌∷◌}
use omino.Prelude.{ltb, all_below, all_below_sound}
use omino.Prelude.{length, get_or, replicate}
use omino.Prelude.{length-replicate, ltb→lt}
use omino.Boot.{
  BootstrapFrame, boot_ok, envelope_parse, starts_with, four_scopes, read_u16_be, read_u32_be,
  resolve_candidate, boot_calculate_bqf,
}
use omino.Boot.Envelope.{AreScopes, IsFrame, envelope, envelope_parse-envelope}
use omino.Media.{arbitrate_media_bus}
use omino.Export.{
  meta_compile_to_eal, meta_compile_to_first_form, compiled_bytes, fnv1a32, fnv1a32_from,
  binary_export_compare, compare_from,
}
use omino.Metatron.{advance_place, adjudicate_closure, confirm_preclosure}
use omino.Radix.{
  init_base_metric_model, inject_radix_digit, radix_base_is_supported, shortcut_of, next_accum,
}
use omino.Epistemic.{
  resolve_byte_surface, resolve_epistemic_quadrant, band_of, omnicron_calculate_bqf,
}
use omino.Engine.{app_main_emulated, resolved, OmiAddress128, ReconciledEngineState}
use omino.Engine.Hex.{AreWords, frame_text, parse_hex_frame-frame_text}
use omino.Engine.Reconcile.{reconcile_interface_lem}
use omino.Demos.{
  app_main_boot_test, media_main, export_main, metatron_main, radix_main, two_digits,
  app_main_omnicron,
}

abbrev sample_frame : BootstrapFrame
sample_frame = record {
  active_scopes = 5 ∷ 0xFFFF ∷ 0x1234 ∷ 0 ∷ [];
  carrier_scopes = 1 ∷ 2 ∷ 3 ∷ 4 ∷ [];
  register_flags = 0xDEADBEEF;
  stack_context = 7;
  car_pointer = 0x12345678;
  cdr_pointer = 0x55667788;
}

four-AreScopes :
    (a b c d : ℕ)
    → a < 2 ^ 16
    → b < 2 ^ 16
    → c < 2 ^ 16
    → d < 2 ^ 16
    → AreScopes (a ∷ b ∷ c ∷ d ∷ [])
unfolding AreScopes
four-AreScopes a b c d ha hb hc hd = (refl, below)
  where
    below : (i : ℕ) → get_or (a ∷ b ∷ c ∷ d ∷ []) i 0 < 2 ^ 16
    below zero = ha
    below (suc zero) = hb
    below (suc (suc zero)) = hc
    below (suc (suc (suc zero))) = hd
    below (suc (suc (suc (suc i)))) = omega arith

sample_frame-IsFrame : IsFrame sample_frame
sample_frame-IsFrame = record {
  active = four-AreScopes 5 0xFFFF 0x1234 0 (omega arith) (omega arith) (omega arith) (omega arith);
  carrier = four-AreScopes 1 2 3 4 (omega arith) (omega arith) (omega arith) (omega arith);
  flags = omega arith;
  context = omega arith;
  car = omega arith;
  cdr = omega arith;
}

envelope_parse-envelope_example :
    envelope_parse (envelope (replicate 24 9) sample_frame) 64 ≡ (boot_ok, some sample_frame)
envelope_parse-envelope_example =
    envelope_parse-envelope (replicate 24 9) sample_frame (length-replicate 24 9)
      sample_frame-IsFrame

boot_run : app_main_boot_test ≡ (some 0x0500, some 13500)
unfolding app_main_boot_test envelope_parse starts_with four_scopes read_u16_be read_u32_be
    resolve_candidate boot_calculate_bqf replicate
boot_run = refl

media_run : media_main.1 ≡ 0
unfolding media_main arbitrate_media_bus
media_run = refl

metatron_run : metatron_main.2 ≡ 0
unfolding metatron_main advance_place adjudicate_closure confirm_preclosure
metatron_run = refl

radix_run : radix_main ≡ some (0xAF, 72)
unfolding radix_main two_digits init_base_metric_model inject_radix_digit radix_base_is_supported
    shortcut_of next_accum
radix_run = refl

omnicron_run : app_main_omnicron ≡ (some (1, false), some 14524)
unfolding app_main_omnicron resolve_byte_surface resolve_epistemic_quadrant band_of
    omnicron_calculate_bqf
omnicron_run = refl

export_run : export_main.3 ≡ 0
unfolding export_main meta_compile_to_eal meta_compile_to_first_form compiled_bytes fnv1a32
    fnv1a32_from binary_export_compare compare_from replicate
export_run = refl

abbrev nowhere : List ℕ
nowhere = 0 ∷ 0 ∷ 0 ∷ 0 ∷ 0 ∷ 0 ∷ 0 ∷ 0 ∷ []

nowhere-AreWords : AreWords nowhere
unfolding AreWords
nowhere-AreWords i h =
    ltb→lt _ _ (all_below_sound 8 (λ k. ltb (get_or nowhere k 0) (2 ^ 16)) i passed h)
  where
    passed : all_below 8 (λ k. ltb (get_or nowhere k 0) (2 ^ 16)) ≡ true
    passed = unfold all_below in refl

-- The emulated main of the address engine, whatever its variables hold.
engine_run :
    (frame : OmiAddress128) (state : ReconciledEngineState)
    → length frame.segments ≡ 8
    → app_main_emulated (frame_text nowhere) 0x1B frame state
      ≡ resolved record {
        x_omi = 0;
        y_imo = 0;
        parabolic_evaluation = 0;
        active_surface_band = 0;
        is_centroid = true;
      }
unfolding app_main_emulated
engine_run frame state size =
    let addr : OmiAddress128 = record { segments = nowhere } in
    let (settled, _) = reconcile_interface_lem addr 0x1B state (omega arith) (omega arith) in
    rw (parse_hex_frame-frame_text nowhere frame refl nowhere-AreWords size, settled (omega arith))
      refl
