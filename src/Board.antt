-- ===== src/Board.antt =====
-- The 256-position plane: `OmiBoard256` and its operations, section 1 of
-- src/omnicron-coproduct-partition.c. A coordinate is a `uint8_t`, a number below 256.
pub mod Plane
pub mod Popcount
use omino.Prelude.{ℕ, ◌+◌, ◌-◌, ◌*◌, ◌/◌, ◌%◌, ◌^◌, ◌<◌, bit_and, bit_or, bit_xor}
use omino.Prelude.{◌≡◌, Bool, not, List, [], ◌∷◌, ◌==◌, u8, u32, u64, ◌<<<◌, ◌>>>◌}
use omino.Prelude.{length, get_or, set as write}

-- `lane` has four entries of 64 bits.
pub record Board256 : Type 0 where
  pub lane : List ℕ

abbrev pub lane_at : Board256 → ℕ → ℕ
lane_at b i = get_or b.lane i 0

-- A loop that fills the four lanes.
abbrev pub four_lanes : (ℕ → ℕ) → Board256
four_lanes f = record { lane = f 0 ∷ f 1 ∷ f 2 ∷ f 3 ∷ [] }

abbrev pub clear : Board256
clear = record { lane = 0 ∷ 0 ∷ 0 ∷ 0 ∷ [] }

unfoldable pub set : Board256 → ℕ → Board256
set b p =
    let i = p >>> 6 in
    record { lane = write b.lane i (bit_or (lane_at b i) (u64 (1 <<< bit_and p 63))) }

unfoldable pub test : Board256 → ℕ → Bool
test b p = not (bit_and (lane_at b (p >>> 6) >>> bit_and p 63) 1 == 0)

unfoldable pub or : Board256 → Board256 → Board256
or a b = four_lanes (λ i. bit_or (lane_at a i) (lane_at b i))

unfoldable pub and : Board256 → Board256 → Board256
and a b = four_lanes (λ i. bit_and (lane_at a i) (lane_at b i))

unfoldable pub xor : Board256 → Board256 → Board256
xor a b = four_lanes (λ i. bit_xor (lane_at a i) (lane_at b i))

-- The body of the loop of `omi_board256_popcount`, on one lane. A difference adds 2 ^ 64 first.
unfoldable pub lane_popcount : ℕ → ℕ
lane_popcount v =
    let pairs = u64 (v + 2 ^ 64 - bit_and (v >>> 1) 0x5555555555555555) in
    let nibbles =
      u64 (bit_and pairs 0x3333333333333333 + bit_and (pairs >>> 2) 0x3333333333333333) in
    let bytes = bit_and (u64 (nibbles + nibbles >>> 4)) 0x0F0F0F0F0F0F0F0F in
    u32 (u64 (bytes * 0x0101010101010101) >>> 56)

unfoldable pub popcount : Board256 → ℕ
popcount b = u32 (
    u32 (
      u32 (lane_popcount (lane_at b 0) + lane_popcount (lane_at b 1)) + lane_popcount (lane_at b 2))
    + lane_popcount (lane_at b 3))

-- The mirror between the low and the high half of the plane.
unfoldable pub plane_mirror : ℕ → ℕ
plane_mirror x = u8 (bit_xor x 0x80)

-- Four lanes of 64 bits.
pub record IsBoard (b : Board256) : Type 0 where
  pub four : length b.lane ≡ 4
  pub fits : (i : ℕ) → i < 4 → lane_at b i < 2 ^ 64
