-- ===== src/Hamming/Degrees.antt =====
-- Azimuth bytes in degrees, section 10 of src/omnicron-coproduct-partition.c, over a `double`.
use omino.Prelude.{ℕ, ◌+◌, ◌*◌, ◌<◌}
use omino.Prelude.{◌≡◌, refl, sym, ap, ◌∙◌, arith}
use omino.Prelude.{Bool, true, ◌&&◌}
use omino.Prelude.{◌==◌, ==_iff, all_below, all_below_sound}
use omino.Double.{Double, IsDouble}
use omino.Board.{plane_mirror}
use omino.Clock.{omnion_azimuth_byte}

unfoldable pub azimuth_degrees {ℓ} : {W : Type ℓ} ⦃d : Double W⦄ → ℕ → W
azimuth_degrees ⦃d⦄ byte = d.div (d.mul (d.whole byte) (d.whole 360)) (d.whole 256)

unfoldable pub verify_omnion_azimuth_mirror {ℓ} : (W : Type ℓ) ⦃d : Double W⦄ → Bool
verify_omnion_azimuth_mirror W ⦃d⦄ =
    let reference = omnion_azimuth_byte 0 in
    let antipodal = omnion_azimuth_byte 1 in
    plane_mirror reference == antipodal
    && (d.equal (azimuth_degrees {W = W} reference) (d.whole 0)
        && d.equal (azimuth_degrees {W = W} antipodal) (d.whole 180))

half_turn_on : ℕ → Bool
half_turn_on byte = plane_mirror byte == byte + 128

all_turned : all_below 128 half_turn_on ≡ true
unfolding all_below plane_mirror half_turn_on
all_turned = refl

module _ {ℓ} {W : Type ℓ} ⦃d : Double W⦄ (laws : IsDouble W) where
  azimuth_degrees-whole : (k : ℕ) → k < 8 → azimuth_degrees (k * 32) ≡ d.whole (k * 45)
  unfolding azimuth_degrees
  azimuth_degrees-whole k h =
      ap (λ (x : W). d.div x (d.whole 256))
        (laws.mul_whole (k * 32) 360 (omega arith) (omega arith) (omega arith)
          ∙ ap d.whole (omega arith))
      ∙ laws.div_whole (k * 45) 256 (omega arith) (omega arith) (omega arith)

  verify_mirror : verify_omnion_azimuth_mirror W ≡ true
  unfolding verify_omnion_azimuth_mirror omnion_azimuth_byte plane_mirror
  verify_mirror =
      let start : azimuth_degrees 0 ≡ d.whole 0 = azimuth_degrees-whole 0 (omega arith) in
      let half : azimuth_degrees 128 ≡ d.whole 180 = azimuth_degrees-whole 4 (omega arith) in
      rw
        (
          start,
          half,
          laws.equal_whole 0 0 (omega arith) (omega arith),
          laws.equal_whole 180 180 (omega arith) (omega arith),
        )
        refl

  azimuth_degrees-mul :
      (byte : ℕ) → byte < 256 → azimuth_degrees byte ≡ d.div (d.whole (byte * 360)) (d.whole 256)
  unfolding azimuth_degrees
  azimuth_degrees-mul byte h =
      ap (λ (x : W). d.div x (d.whole 256))
        (laws.mul_whole byte 360 (omega arith) (omega arith) (omega arith))

  -- For a double under the laws, the mirror in the plane of any byte below 128 has the degrees
  -- of the byte with 180 added, and the check of the program on OMNION passes.
  pub azimuth_degrees-plane_mirror :
      (byte : ℕ)
      → byte < 128
      → (azimuth_degrees (plane_mirror byte) ≡ d.add (azimuth_degrees byte) (d.whole 180))
        × (verify_omnion_azimuth_mirror W ≡ true)
  unfolding half_turn_on
  azimuth_degrees-plane_mirror byte h =
      let half : plane_mirror byte ≡ byte + 128 =
        (==_iff _ _).0 (all_below_sound 128 half_turn_on byte all_turned h) in
      (
        ap azimuth_degrees half
            ∙ azimuth_degrees-mul (byte + 128) (omega arith)
            ∙ ap (λ (n : ℕ). d.div (d.whole n) (d.whole 256)) {y = byte * 360 + 180 * 256}
                (omega arith)
            ∙ sym (laws.add_div256 (byte * 360) 180 (omega arith))
            ∙ ap (λ (x : W). d.add x (d.whole 180)) (sym (azimuth_degrees-mul byte (omega arith))),
        verify_mirror,
      )
