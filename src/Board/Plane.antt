-- ===== src/Board/Plane.antt =====
-- What the operations do to each coordinate of the plane.
use omino.Prelude.{ℕ, zero, suc, ◌+◌, ◌/◌, ◌%◌, ◌^◌, ◌<◌, bit_and, bit_or, bit_xor}
use omino.Prelude.{◌≡◌, refl, arith}
use omino.Prelude.{Bool, true, false, not, ◌&&◌, ◌||◌}
use omino.Prelude.{◌==◌, if◌then◌else◌, ==_iff, all_below, all_below_sound}
use omino.Prelude.{u8, u64, ◌<<<◌, length, get_or}
use omino.Prelude.{length-set, get_or-set_self, get_or-set_ne}
use omino.Prelude.{set as write}
use native.Mathlib.Decide.{ℕ_discrete}
use native.Mathlib.Nat.{pow-le-pow_right}
use omino.Prelude.Bits.Digit.{
  digit, digit-lt, digit_lem, digit-bit_or, digit-bit_and, digit-bit_xor,
}
use omino.Prelude.Bits.Digit.{digit-zero, digit-pow}
use omino.Prelude.Bits.Fields.{bit_and-mod}
use omino.Prelude.Bits.Xor.{bit_or-lt, bit_and-lt}
use omino.Board.{
  Board256, lane_at, four_lanes, clear, set, test, or, and, xor, IsBoard, plane_mirror,
}

abbrev pub differs : Bool → Bool → Bool
differs true b = not b
differs false b = b

unfoldable pub digit_at : Board256 → ℕ → ℕ
digit_at b p = digit (lane_at b (p / 64)) (p % 64)

digit_at-lt : (b : Board256) (p : ℕ) → digit_at b p < 2
unfolding digit_at
digit_at-lt b p = digit-lt _ _

pub test-digit_at : (b : Board256) (p : ℕ) → test b p ≡ (digit_at b p == 1)
unfolding test digit_at
test-digit_at b p =
    rw
      (
        bit_and-mod 6 p,
        bit_and-mod 1 (lane_at b (p / 64) / 2 ^ (p % 64)),
        ← digit_lem (lane_at b (p / 64)) (p % 64),
      )
      (ground (arith, digit-lt (lane_at b (p / 64)) (p % 64)))

lane_at-four_lanes : (f : ℕ → ℕ) (i : ℕ) → i < 4 → lane_at (four_lanes f) i ≡ f i
lane_at-four_lanes f zero h = refl
lane_at-four_lanes f (suc zero) h = refl
lane_at-four_lanes f (suc (suc zero)) h = refl
lane_at-four_lanes f (suc (suc (suc zero))) h = refl
lane_at-four_lanes f (suc (suc (suc (suc i)))) h = absurd (omega arith)

-- A lane-wise operation acts on each coordinate by what it does to a digit.
module _ (op : ℕ → ℕ → ℕ) (a b : Board256) (p : ℕ) (in_plane : p < 256) where
  digit_at-four_lanes :
      digit_at (four_lanes (λ i. op (lane_at a i) (lane_at b i))) p
      ≡ digit (op (lane_at a (p / 64)) (lane_at b (p / 64))) (p % 64)
  unfolding digit_at
  digit_at-four_lanes = rw (lane_at-four_lanes _ (p / 64) (omega arith))

module _ (a b : Board256) (p : ℕ) (in_plane : p < 256) where
  pub test-or : test (or a b) p ≡ (test a p || test b p)
  unfolding or digit_at
  test-or =
      rw (test-digit_at (or a b) p, test-digit_at a p, test-digit_at b p)
        (ground (
          arith,
          digit_at-four_lanes bit_or a b p in_plane,
          digit-bit_or (lane_at a (p / 64)) (lane_at b (p / 64)) (p % 64),
          digit_at-lt a p,
          digit_at-lt b p,
        ))

  pub test-and : test (and a b) p ≡ (test a p && test b p)
  unfolding and digit_at
  test-and =
      rw (test-digit_at (and a b) p, test-digit_at a p, test-digit_at b p)
        (ground (
          arith,
          digit_at-four_lanes bit_and a b p in_plane,
          digit-bit_and (lane_at a (p / 64)) (lane_at b (p / 64)) (p % 64),
          digit_at-lt a p,
          digit_at-lt b p,
        ))

  pub test-xor : test (xor a b) p ≡ differs (test a p) (test b p)
  unfolding xor digit_at
  test-xor =
      rw (test-digit_at (xor a b) p, test-digit_at a p, test-digit_at b p)
        (ground (
          arith,
          digit_at-four_lanes bit_xor a b p in_plane,
          digit-bit_xor (lane_at a (p / 64)) (lane_at b (p / 64)) (p % 64),
          digit_at-lt a p,
          digit_at-lt b p,
        ))

pub test-clear : (p : ℕ) → p < 256 → test clear p ≡ false
unfolding digit_at
test-clear p h =
    rw
      (
        test-digit_at clear p,
        lane_at-four_lanes (λ _. 0) (p / 64) (omega arith),
        digit-zero (p % 64),
      )
      refl

pow-lt_word : (k : ℕ) → k < 64 → 2 ^ k < 2 ^ 64
pow-lt_word k h =
    omega (arith, pow-le-pow_right {n = 2} (omega arith) {i = k} {j = 63} (omega arith))

low_bit : (p : ℕ) → u64 (1 <<< bit_and p 63) ≡ 2 ^ (p % 64)
low_bit p = rw (bit_and-mod 6 p) (omega (arith, pow-lt_word (p % 64) (omega arith)))

-- What a write to one lane does to the others.
lane_at-write :
    (b : Board256) (i j v : ℕ)
    → length b.lane ≡ 4
    → i < 4
    → get_or (write b.lane i v) j 0 ≡ (if i == j then v else lane_at b j)
lane_at-write b i j v four h = elim (ℕ_discrete i j) [
  | yes e ↦ rw (← e) (ground (arith, get_or-set_self b.lane i v 0))
  | no ne ↦ ground (arith, get_or-set_ne b.lane i j v 0)
]

-- On a board of four 64-bit lanes, for coordinates below 256, setting one coordinate sets it and
-- changes no other.
pub test-set :
    (b : Board256) (p q : ℕ)
    → IsBoard b
    → p < 256
    → q < 256
    → test (set b p) q ≡ (p == q || test b q)
unfolding set digit_at
test-set b p q valid hp hq =
    rw
      (
        test-digit_at (set b p) q,
        test-digit_at b q,
        lane_at-write b (p / 64) (q / 64) (bit_or (lane_at b (p / 64)) (u64 (1 <<< bit_and p 63)))
            valid.four (omega arith),
        low_bit p,
      )
      (ground (
        arith,
        digit-bit_or (lane_at b (p / 64)) (2 ^ (p % 64)) (q % 64),
        digit-pow (p % 64) (q % 64),
        digit-lt (lane_at b (p / 64)) (q % 64),
        digit-lt (2 ^ (p % 64)) (q % 64),
      ))

four_lanes-IsBoard : (f : ℕ → ℕ) → ((i : ℕ) → i < 4 → f i < 2 ^ 64) → IsBoard (four_lanes f)
four_lanes-IsBoard f h = record {
  four = refl;
  fits = λ i lt. rw (lane_at-four_lanes f i lt) (h i lt);
}

pub clear-IsBoard : IsBoard clear
clear-IsBoard = four_lanes-IsBoard (λ _. 0) (λ i lt. omega arith)

pub or-IsBoard : (a b : Board256) → IsBoard a → IsBoard b → IsBoard (or a b)
unfolding or
or-IsBoard a b va vb = four_lanes-IsBoard _ (λ i lt. bit_or-lt 64 _ _ (va.fits i lt) (vb.fits i lt))

pub and-IsBoard : (a b : Board256) → IsBoard a → IsBoard b → IsBoard (and a b)
unfolding and
and-IsBoard a b va vb =
    four_lanes-IsBoard _ (λ i lt. bit_and-lt 64 _ _ (va.fits i lt) (vb.fits i lt))

pub set-IsBoard : (b : Board256) (p : ℕ) → IsBoard b → p < 256 → IsBoard (set b p)
unfolding set
set-IsBoard b p valid hp =
    let v = bit_or (lane_at b (p / 64)) (u64 (1 <<< bit_and p 63)) in
    let v_fits : v < 2 ^ 64 =
      bit_or-lt 64 (lane_at b (p / 64)) (u64 (1 <<< bit_and p 63))
        (valid.fits (p / 64) (omega arith)) (omega arith) in
    record {
      four = rw length-set valid.four;
      fits = λ i lt.
          rw (lane_at-write b (p / 64) i v valid.four (omega arith))
            (ground (arith, valid.fits i lt, v_fits));
    }

-- For a coordinate below 256 the mirror is its own inverse and is a half turn of the plane.
pub plane_mirror_lem :
    (x : ℕ) → x < 256 → (plane_mirror (plane_mirror x) ≡ x) × (plane_mirror x ≡ (x + 128) % 256)
unfolding plane_mirror
plane_mirror_lem x h = (
  (==_iff _ x).0 (all_below_sound 256 _ x involution h),
  (==_iff _ ((x + 128) % 256)).0
      (all_below_sound 256 (λ y. u8 (bit_xor y 0x80) == (y + 128) % 256) x half_turn h),
)
  where
    involution : all_below 256 (λ y. u8 (bit_xor (u8 (bit_xor y 0x80)) 0x80) == y) ≡ true
    involution = unfold all_below in refl

    half_turn : all_below 256 (λ y. u8 (bit_xor y 0x80) == (y + 128) % 256) ≡ true
    half_turn = unfold all_below in refl
