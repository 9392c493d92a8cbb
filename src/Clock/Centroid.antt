-- ===== src/Clock/Centroid.antt =====
-- The vector to the centroid, section 11.3 of src/omnicron-coproduct-partition.c, over a `double`.
use omino.Prelude.{ℕ, ◌+◌, ◌*◌, ◌/◌, ◌%◌, ◌^◌, ◌≤◌, ◌<◌, bit_and, bit_xor}
use omino.Prelude.{◌≡◌, refl, sym, ap, ◌∙◌, arith}
use omino.Prelude.{Bool, true, false, ◌&&◌, inl, inr, Bool-cases}
use omino.Prelude.{◌==◌, if◌then◌else◌}
use omino.Prelude.{u8, u16, ◌>>>◌}
use omino.Double.{Double, IsDouble, in_degrees}
use omino.Clock.{centroid_state}
use omino.Prelude.Bits.Xor.{bit_xor-zero}
use omino.Prelude.Bits.Fields.{bit_and-mod}
use native.Mathlib.Nat.{mod-eq_of_lt, mul-le-mul, le_of_lt}

pub record GeometricVector {ℓ} (W : Type ℓ) : Type ℓ where
  pub relative_address : ℕ
  pub azimuth_angle : W
  pub radial_distance : W

-- What follows `atan2`, on the angle in degrees.
unfoldable pub mirror_angle {ℓ} : {W : Type ℓ} ⦃d : Double W⦄ → ℕ → W → W
mirror_angle ⦃d⦄ current_omnion raw_angle =
    let mirrored =
      if bit_and current_omnion 0x01 == 1
      then (let turned = d.add raw_angle (d.whole 180) in
          if d.at_least turned (d.whole 360) then d.sub turned (d.whole 360) else turned)
      else raw_angle in
    if d.less mirrored (d.whole 0) then d.whole 0 else mirrored

unfoldable pub resolve_vector_to_centroid {ℓ} :
    {W : Type ℓ} ⦃d : Double W⦄ → ℕ → ℕ → GeometricVector W
resolve_vector_to_centroid ⦃d⦄ cons_address current_omnion =
    let relative = u16 (bit_xor cons_address (centroid_state current_omnion)) in
    let row = u8 (bit_and (relative >>> 8) 0xFF) in
    let col = u8 (bit_and relative 0xFF) in
    record {
      relative_address = relative;
      azimuth_angle =
          mirror_angle current_omnion (in_degrees (d.atan2 (d.whole row) (d.whole col)));
      radial_distance =
          d.sqrt (d.add (d.mul (d.whole row) (d.whole row)) (d.mul (d.whole col) (d.whole col)));
    }

unfoldable pub verify_centroid_alignment {ℓ} : (W : Type ℓ) ⦃d : Double W⦄ → Bool
verify_centroid_alignment W ⦃d⦄ =
    let zero_point = resolve_vector_to_centroid {W = W} 0x0000 0 in
    d.equal zero_point.radial_distance (d.whole 0) && d.equal zero_point.azimuth_angle (d.whole 0)

module _ {ℓ} {W : Type ℓ} ⦃d : Double W⦄ (laws : IsDouble W) where
  relative_lem :
      (address omnion : ℕ)
      → address < 2 ^ 16
      → u16 (bit_xor address (centroid_state omnion)) ≡ address
  unfolding centroid_state
  relative_lem address omnion h = rw (bit_xor-zero address) (mod-eq_of_lt h)

  abbrev angle : ℕ → ℕ → W
  angle row col = in_degrees (d.atan2 (d.whole row) (d.whole col))

  abbrev turned : ℕ → ℕ → W
  turned row col = d.add (angle row col) (d.whole 180)

  module _ (row col : ℕ) (hr : row < 256) (hc : col < 256) where
    turned_least : d.at_least (turned row col) (d.whole 180) ≡ true
    turned_least =
        ap (d.at_least (turned row col)) (sym (laws.add_whole 0 180 (omega arith)))
        ∙ laws.at_least-add (angle row col) (d.whole 0) 180 (omega arith)
            (laws.atan2_least row col hr hc)

    turned_most : d.at_least (d.whole 270) (turned row col) ≡ true
    turned_most =
        ap (λ (x : W). d.at_least x (turned row col)) (sym (laws.add_whole 90 180 (omega arith)))
        ∙ laws.at_least-add (d.whole 90) (angle row col) 180 (omega arith)
            (laws.atan2_most row col hr hc)

    -- Half a turn more is still below a full turn.
    turned_below : d.at_least (turned row col) (d.whole 360) ≡ false
    turned_below = elim (Bool-cases (d.at_least (turned row col) (d.whole 360))) [
      | inr below ↦ below
      | inl over ↦
          let both = laws.at_least_trans _ _ _ turned_most over in
          let order = laws.at_least_whole 270 360 (omega arith) (omega arith) in cc
    ]

    turned_nonneg : d.less (turned row col) (d.whole 0) ≡ false
    turned_nonneg = laws.at_least-less _ _ (
        laws.at_least_trans _ _ _ turned_least
          (laws.at_least_whole 180 0 (omega arith) (omega arith)))

    -- The angle of the reference orientation, and half a turn more.
    reference_angle :
        (mirror_angle 0 (angle row col) ≡ angle row col)
        × (mirror_angle 1 (angle row col) ≡ turned row col)
    unfolding mirror_angle
    reference_angle = (
      rw (laws.at_least-less _ _ (laws.atan2_least row col hr hc)) refl,
      rw (turned_below, turned_nonneg) refl,
    )

  squares :
      (row col : ℕ)
      → row < 256
      → col < 256
      → d.add (d.mul (d.whole row) (d.whole row)) (d.mul (d.whole col) (d.whole col))
        ≡ d.whole (row * row + col * col)
  squares row col hr hc =
      let rows : row * row ≤ 256 * 256 = mul-le-mul (le_of_lt hr) (le_of_lt hr) in
      let cols : col * col ≤ 256 * 256 = mul-le-mul (le_of_lt hc) (le_of_lt hc) in
      rw
        (
          laws.mul_whole row row (omega arith) (omega arith) (omega arith),
          laws.mul_whole col col (omega arith) (omega arith) (omega arith),
        )
        (laws.add_whole (row * row) (col * col) (omega arith))

  -- For a double under the laws and a 16-bit address, whose high byte is the row and whose low
  -- byte the column, both orientations give the address itself and the root of the sum of the
  -- two squares as the radial distance; the reference azimuth is the angle of the row over the
  -- column in degrees, and the antipodal azimuth is the reference azimuth with 180 degrees added
  -- and lies between 180 and 270.
  pub resolve_vector_to_centroid-mirror :
      (address : ℕ)
      → address < 2 ^ 16
      → let reference = resolve_vector_to_centroid {W = W} address 0 in
        let antipodal = resolve_vector_to_centroid {W = W} address 1 in
        let row = address / 256 in
        let col = address % 256 in
        (reference.relative_address ≡ address)
        × (antipodal.relative_address ≡ address)
        × (reference.radial_distance ≡ d.sqrt (d.whole (row * row + col * col)))
        × (antipodal.radial_distance ≡ reference.radial_distance)
        × (reference.azimuth_angle ≡ in_degrees (d.atan2 (d.whole row) (d.whole col)))
        × (antipodal.azimuth_angle ≡ d.add reference.azimuth_angle (d.whole 180))
        × (d.at_least antipodal.azimuth_angle (d.whole 180) ≡ true)
        × (d.at_least (d.whole 270) antipodal.azimuth_angle ≡ true)
  unfolding resolve_vector_to_centroid
  resolve_vector_to_centroid-mirror address h =
      let r = address / 256 in
      let c = address % 256 in
      let hr : r < 256 = omega arith in
      let hc : c < 256 = omega arith in
      let (here, mirrored) = reference_angle r c hr hc in
      rw (relative_lem address 0 h, relative_lem address 1 h, row_of, col_of, squares r c hr hc)
        (
          refl,
          refl,
          refl,
          refl,
          here,
          mirrored ∙ ap (λ (x : W). d.add x (d.whole 180)) (sym here),
          ap (λ (x : W). d.at_least x (d.whole 180)) mirrored ∙ turned_least r c hr hc,
          ap (d.at_least (d.whole 270)) mirrored ∙ turned_most r c hr hc,
        )
    where
      row_of : u8 (bit_and (address >>> 8) 0xFF) ≡ address / 256
      row_of = omega (arith, bit_and-mod 8 (address >>> 8))

      col_of : u8 (bit_and address 0xFF) ≡ address % 256
      col_of = omega (arith, bit_and-mod 8 address)

  -- The addresses of row 0.
  radial_distance_lem :
      (address omnion : ℕ)
      → address < 256
      → (resolve_vector_to_centroid {W = W} address omnion).radial_distance ≡ d.whole address
  unfolding resolve_vector_to_centroid
  radial_distance_lem address omnion h =
      rw (relative_lem address omnion (omega arith), row, col)
        (ap d.sqrt
            (squares 0 address (omega arith) h ∙ ap d.whole {y = address * address} (omega arith))
          ∙ laws.sqrt_whole address (omega (arith, mul-le-mul (le_of_lt h) (le_of_lt h))))
    where
      row : u8 (bit_and (address >>> 8) 0xFF) ≡ 0
      row = omega (arith, bit_and-mod 8 (address >>> 8))

      col : u8 (bit_and address 0xFF) ≡ address
      col = omega (arith, bit_and-mod 8 address)

  -- For a double under the laws the check of the alignment passes, and an address below 256 has
  -- itself as its radial distance, under any orientation.
  pub verify_centroid_alignment_lem :
      (address omnion : ℕ)
      → address < 256
      → (verify_centroid_alignment W ≡ true)
        × ((resolve_vector_to_centroid {W = W} address omnion).radial_distance ≡ d.whole address)
  unfolding verify_centroid_alignment
  verify_centroid_alignment_lem address omnion h = (
    rw
        (
          radial_distance_lem 0 0 (omega arith),
          origin_angle,
          laws.equal_whole 0 0 (omega arith) (omega arith),
        )
        refl,
    radial_distance_lem address omnion h,
  )
    where
      origin_angle : (resolve_vector_to_centroid {W = W} 0 0).azimuth_angle ≡ d.whole 0
      origin_angle =
          unfold resolve_vector_to_centroid centroid_state in
          ((reference_angle 0 0 (omega arith) (omega arith)).0 ∙ laws.atan2_origin)
