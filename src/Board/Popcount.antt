-- ===== src/Board/Popcount.antt =====
-- `omi_board256_popcount` counts the coordinates of a board.
pub mod Bytes
pub mod Lane
use omino.Prelude.{ℕ, zero, suc, ◌+◌, ◌-◌, ◌*◌, ◌/◌, ◌%◌, ◌^◌, ◌≤◌, ◌<◌, bit_and, bit_or, bit_xor}
use omino.Prelude.{◌≡◌, refl, sym, ap, ap₂, ◌∙◌, ◌≢◌, ◌↔◌, ◌⊎◌, inl, inr, arith}
use omino.Prelude.{Bool, true, false, not, ◌&&◌, ◌||◌, Option, none, some, List, [], ◌∷◌, ◌++◌, map}
use omino.Prelude.{
  ltb, leb, ◌==◌, if◌then◌else◌, ==_iff, Bool-cases, Bool-ext, all_below, all_below_sound,
  all_below_sound₂,
}
use omino.Prelude.{u8, u16, u32, u64, ◌<<<◌, ◌>>>◌, length, get_or, take, drop, replicate}
use omino.Prelude.{
  length-set, get_or-set_self, get_or-set_ne, get_or_ext, length-replicate, get_or-replicate,
  length-append, ltb→lt, lt→ltb,
}
use omino.Prelude.Bits.Digit.{digit, digit-lt}
use native.Mathlib.Nat.{add-zero, add-suc}
use native.Mathlib.Decide.{ℕ_discrete}
use omino.Board.{Board256, lane_at, test, or, and, popcount, lane_popcount, IsBoard}
use omino.Board.Plane.{digit_at, test-digit_at, test-or, test-and, or-IsBoard, and-IsBoard}
use Bytes.{ones}
use Lane.{lane_popcount-ones, ones-snoc, ones-le_count}

-- The coordinates below `n` that the board claims, counted one by one.
unfoldable pub members : ℕ → Board256 → ℕ
members zero b = 0
members (suc n) b = members n b + (if test b n then 1 else 0)

test_in_lane :
    (b : Board256) (i n : ℕ)
    → n < 64
    → (if test b (i * 64 + n) then 1 else 0) ≡ digit (lane_at b i) n
unfolding digit_at
test_in_lane b i n h =
    rw (test-digit_at b (i * 64 + n), lane_of, place_of) (ground (arith, digit-lt (lane_at b i) n))
  where
    lane_of : (i * 64 + n) / 64 ≡ i
    lane_of = omega arith

    place_of : (i * 64 + n) % 64 ≡ n
    place_of = omega arith

members-lane :
    (b : Board256) (i n : ℕ)
    → n ≤ 64
    → members (i * 64 + n) b ≡ members (i * 64) b + ones n (lane_at b i)
unfolding members ones
members-lane b i zero h = rw (add-zero (i * 64)) (omega arith)
members-lane b i (suc n) h = rw (add-suc (i * 64) n) (
    omega
      (arith, members-lane b i n (omega arith), test_in_lane b i n h, ones-snoc n (lane_at b i)))

members_four :
    (b : Board256)
    → members 256 b
      ≡ ones 64 (lane_at b 0)
        + ones 64 (lane_at b 1)
        + ones 64 (lane_at b 2)
        + ones 64 (lane_at b 3)
members_four b = omega (
  arith,
  no_members,
  members-lane b 0 64 (omega arith),
  members-lane b 1 64 (omega arith),
  members-lane b 2 64 (omega arith),
  members-lane b 3 64 (omega arith),
)
  where
    no_members : members 0 b ≡ 0
    no_members = unfold members in refl

sum_exact :
    (w x y z : ℕ)
    → w ≤ 64
    → x ≤ 64
    → y ≤ 64
    → z ≤ 64
    → u32 (u32 (u32 (w + x) + y) + z) ≡ w + x + y + z
sum_exact w x y z hw hx hy hz = omega arith

-- For a board of four 64-bit lanes the branch-free population count is the number of coordinates
-- that the board claims, counted one by one.
pub popcount-members : (b : Board256) → IsBoard b → popcount b ≡ members 256 b
unfolding popcount
popcount-members b valid =
    rw
      (
        lane_popcount-ones (lane_at b 0) (valid.fits 0 (omega arith)),
        lane_popcount-ones (lane_at b 1) (valid.fits 1 (omega arith)),
        lane_popcount-ones (lane_at b 2) (valid.fits 2 (omega arith)),
        lane_popcount-ones (lane_at b 3) (valid.fits 3 (omega arith)),
        members_four b,
      )
      (sum_exact _ _ _ _ (ones-le_count 64 _) (ones-le_count 64 _) (ones-le_count 64 _)
        (ones-le_count 64 _))

pub members-eq-zero : (n : ℕ) (b : Board256) → members n b ≡ 0 → (p : ℕ) → p < n → test b p ≡ false
unfolding members
members-eq-zero zero b e p h = absurd (omega arith)
members-eq-zero (suc n) b e p h = elim (ℕ_discrete p n) [
  | yes same ↦ rw same (ground arith)
  | no other ↦ members-eq-zero n b (omega arith) p (omega arith)
]

members_none : (n : ℕ) (b : Board256) → ((p : ℕ) → p < n → test b p ≡ false) → members n b ≡ 0
unfolding members
members_none zero b h = refl
members_none (suc n) b h =
    rw (h n (omega arith), members_none n b (λ p lt. h p (omega arith))) (omega arith)

-- The count is 0 exactly when no coordinate is claimed.
pub popcount-eq-zero :
    (b : Board256) → IsBoard b → (popcount b ≡ 0) ↔ ((p : ℕ) → p < 256 → test b p ≡ false)
popcount-eq-zero b valid = rw (popcount-members b valid) (members-eq-zero 256 b, members_none 256 b)

members_or_and :
    (n : ℕ) (a b : Board256)
    → n ≤ 256
    → members n (or a b) + members n (and a b) ≡ members n a + members n b
unfolding members
members_or_and zero a b h = omega arith
members_or_and (suc n) a b h =
    rw (test-or a b n (omega arith), test-and a b n (omega arith))
      (ground (arith, members_or_and n a b (omega arith)))

-- For boards of four 64-bit lanes the counts of the union and of the intersection add up to
-- those of the two boards.
pub popcount-or-and :
    (a b : Board256)
    → IsBoard a
    → IsBoard b
    → popcount (or a b) + popcount (and a b) ≡ popcount a + popcount b
popcount-or-and a b va vb =
    rw
      (
        popcount-members (or a b) (or-IsBoard a b va vb),
        popcount-members (and a b) (and-IsBoard a b va vb),
        popcount-members a va,
        popcount-members b vb,
      )
      (members_or_and 256 a b (omega arith))
