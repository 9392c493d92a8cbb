-- ===== src/Hamming/Azimuth.antt =====
-- The two antipodal azimuth bytes of the OMNION bit.
use omino.Prelude.{ℕ, ◌*◌, ◌%◌, ◌<◌, bit_xor}
use omino.Prelude.{◌≡◌, refl, arith}
use omino.Prelude.{Bool, true, ◌&&◌}
use omino.Prelude.{◌==◌, all_below, all_below_sound}
use omino.Board.{plane_mirror}
use omino.Clock.{omnion_azimuth_byte}
use omino.Hamming.{verify_azimuth_anchors}

abbrev antipodal : ℕ → Bool
antipodal omnion =
    omnion_azimuth_byte omnion == 128 * (omnion % 2)
    && plane_mirror (omnion_azimuth_byte omnion) == omnion_azimuth_byte (bit_xor omnion 1)

all_antipodal : all_below 256 antipodal ≡ true
unfolding all_below omnion_azimuth_byte plane_mirror
all_antipodal = refl

-- Only the lowest bit of OMNION counts; it selects 0x00 or 0x80, and flipping it is the mirror of
-- the plane.
pub omnion_azimuth_byte_lem :
    (omnion : ℕ)
    → omnion < 256
    → (omnion_azimuth_byte omnion ≡ 128 * (omnion % 2))
      × (plane_mirror (omnion_azimuth_byte omnion) ≡ omnion_azimuth_byte (bit_xor omnion 1))
omnion_azimuth_byte_lem omnion h =
    let both = all_below_sound 256 antipodal omnion all_antipodal h in (ground arith, ground arith)

-- The anchors are complements, and the two words that join them are balanced.
anchors : verify_azimuth_anchors ≡ true
unfolding verify_azimuth_anchors
anchors = refl
