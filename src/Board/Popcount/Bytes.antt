-- ===== src/Board/Popcount/Bytes.antt =====
-- The bytes of a lane in `lane_popcount`: the three folding steps act on each byte apart, and
-- leave there the number of its set bits.
use omino.Prelude.{ℕ, zero, suc, ◌+◌, ◌-◌, ◌*◌, ◌/◌, ◌%◌, ◌≤◌, ◌<◌, bit_and}
use omino.Prelude.{◌≡◌, refl, arith}
use omino.Prelude.{Bool, true, ◌&&◌}
use omino.Prelude.{leb, ◌==◌, ==_iff, all_below, all_below_sound, all_below_sound₂}
use omino.Prelude.Bits.Fields.{bit_and_fields}
use omino.Prelude.Bits.Digit.{bit_and-le}

-- The mask of `n` equal bytes.
unfoldable pub same_bytes : ℕ → ℕ → ℕ
same_bytes zero m = 0
same_bytes (suc n) m = same_bytes n m * 256 + m

-- The number of set bits among the `n` lowest.
unfoldable pub ones : ℕ → ℕ → ℕ
ones zero v = 0
ones (suc n) v = v % 2 + ones n (v / 2)

-- The three steps on `n` bytes, without the wraps.
unfoldable pub to_pairs : ℕ → ℕ → ℕ
to_pairs n v = v - bit_and (v / 2) (same_bytes n 0x55)

unfoldable pub to_nibbles : ℕ → ℕ → ℕ
to_nibbles n w = bit_and w (same_bytes n 0x33) + bit_and (w / 4) (same_bytes n 0x33)

unfoldable pub to_bytes : ℕ → ℕ → ℕ
to_bytes n x = bit_and (x + x / 16) (same_bytes n 0x0F)

-- A mask of one byte does not see what a shift brings in from the next one.
blind : (r c : ℕ) → r < 256 → c < 2 → bit_and (c * 128 + r / 2) 0x55 ≡ bit_and (r / 2) 0x55
blind r c hr hc = (==_iff _ _).0 (
    all_below_sound₂ 256 2 (λ r c. bit_and (c * 128 + r / 2) 0x55 == bit_and (r / 2) 0x55) r c
      (unfold all_below in refl) hr hc)

blind_four : (r c : ℕ) → r < 256 → c < 4 → bit_and (c * 64 + r / 4) 0x33 ≡ bit_and (r / 4) 0x33
blind_four r c hr hc = (==_iff _ _).0 (
    all_below_sound₂ 256 4 (λ r c. bit_and (c * 64 + r / 4) 0x33 == bit_and (r / 4) 0x33) r c
      (unfold all_below in refl) hr hc)

blind_sixteen :
    (r c : ℕ) → r < 256 → c < 16 → bit_and (c * 16 + (r + r / 16)) 0x0F ≡ bit_and (r + r / 16) 0x0F
blind_sixteen r c hr hc = (==_iff _ _).0 (
    all_below_sound₂ 256 16
      (λ r c. bit_and (c * 16 + (r + r / 16)) 0x0F == bit_and (r + r / 16) 0x0F) r c
      (unfold all_below in refl) hr hc)

-- What the steps make of one byte.
abbrev folds_byte : ℕ → Bool
folds_byte r =
    let x = to_nibbles 1 (to_pairs 1 r) in
    leb (x % 16) 4 && leb (x / 16) 4 && to_bytes 1 x == ones 8 r && leb (ones 8 r) 8

folds_each : all_below 256 folds_byte ≡ true
unfolding all_below to_nibbles to_pairs to_bytes ones same_bytes
folds_each = refl

pub byte_facts :
    (r : ℕ)
    → r < 256
    → (to_nibbles 1 (to_pairs 1 r) % 16 ≤ 4)
      × (to_nibbles 1 (to_pairs 1 r) / 16 ≤ 4)
      × (to_bytes 1 (to_nibbles 1 (to_pairs 1 r)) ≡ ones 8 r)
      × (ones 8 r ≤ 8)
byte_facts r h = ground (arith, all_below_sound 256 folds_byte r folds_each h)

pub to_pairs-split :
    (n q r : ℕ) → r < 256 → to_pairs (suc n) (q * 256 + r) ≡ to_pairs n q * 256 + to_pairs 1 r
unfolding to_pairs same_bytes
to_pairs-split n q r h =
    rw
      (
        shifted,
        bit_and_fields 8 (q / 2) (q % 2 * 128 + r / 2) (same_bytes n 0x55) 0x55 (omega arith)
            (omega arith),
        blind r (q % 2) h (omega arith),
      )
      (omega (arith, bit_and-le (q / 2) (same_bytes n 0x55), bit_and-le (r / 2) 0x55))
  where
    shifted : (q * 256 + r) / 2 ≡ q / 2 * 256 + (q % 2 * 128 + r / 2)
    shifted = omega arith

pub to_nibbles-split :
    (n q r : ℕ) → r < 256 → to_nibbles (suc n) (q * 256 + r) ≡ to_nibbles n q * 256 + to_nibbles 1 r
unfolding to_nibbles same_bytes
to_nibbles-split n q r h =
    rw
      (
        shifted,
        bit_and_fields 8 (q / 4) (q % 4 * 64 + r / 4) (same_bytes n 0x33) 0x33 (omega arith)
            (omega arith),
        bit_and_fields 8 q r (same_bytes n 0x33) 0x33 h (omega arith),
        blind_four r (q % 4) h (omega arith),
      )
      (omega arith)
  where
    shifted : (q * 256 + r) / 4 ≡ q / 4 * 256 + (q % 4 * 64 + r / 4)
    shifted = omega arith

pub to_bytes-split :
    (n q r : ℕ)
    → q % 16 ≤ 4
    → r % 16 ≤ 4
    → r / 16 ≤ 4
    → to_bytes (suc n) (q * 256 + r) ≡ to_bytes n q * 256 + to_bytes 1 r
unfolding to_bytes same_bytes
to_bytes-split n q r hq hl hr =
    rw
      (
        shifted,
        bit_and_fields 8 (q + q / 16) (q % 16 * 16 + (r + r / 16)) (same_bytes n 0x0F) 0x0F
            (omega arith) (omega arith),
        blind_sixteen r (q % 16) (omega arith) (omega arith),
      )
      refl
  where
    shifted : q * 256 + r + (q * 256 + r) / 16 ≡ (q + q / 16) * 256 + (q % 16 * 16 + (r + r / 16))
    shifted = omega arith
