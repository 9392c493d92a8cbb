-- ===== src/Board/Popcount/Lane.antt =====
-- One lane: `lane_popcount` counts the set bits of a 64-bit word.
use omino.Prelude.{ℕ, zero, suc, ◌+◌, ◌-◌, ◌*◌, ◌/◌, ◌%◌, ◌^◌, ◌≤◌, ◌<◌, bit_and}
use omino.Prelude.{◌≡◌, refl, ap, ap₂, ◌∙◌, arith}
use omino.Prelude.{u64, ◌>>>◌}
use native.Mathlib.Nat.{pow-suc}
use omino.Prelude.Bits.Digit.{digit, bit_and-le}
use omino.Board.{lane_popcount}
use omino.Board.Popcount.Bytes.{same_bytes, ones, to_pairs, to_nibbles, to_bytes, byte_facts}
use omino.Board.Popcount.Bytes.{to_pairs-split, to_nibbles-split, to_bytes-split}

-- The count of each byte, in that byte; and their sum.
weights : ℕ → ℕ → ℕ
weights zero v = 0
weights (suc n) v = weights n (v / 256) * 256 + ones 8 (v % 256)

total : ℕ → ℕ → ℕ
total zero v = 0
total (suc n) v = total n (v / 256) + ones 8 (v % 256)

cut : (v : ℕ) → v ≡ v / 256 * 256 + v % 256
cut v = omega arith

to_pairs-le : (n v : ℕ) → to_pairs n v ≤ v
unfolding to_pairs
to_pairs-le n v = omega arith

-- The two first steps on the lowest byte and on the rest.
pairs_nibbles-split :
    (n v : ℕ)
    → to_nibbles (suc n) (to_pairs (suc n) v)
      ≡ to_nibbles n (to_pairs n (v / 256)) * 256 + to_nibbles 1 (to_pairs 1 (v % 256))
pairs_nibbles-split n v =
    ap (λ (t : ℕ). to_nibbles (suc n) (to_pairs (suc n) t)) (cut v)
    ∙ ap (to_nibbles (suc n)) (to_pairs-split n (v / 256) (v % 256) (omega arith))
    ∙ to_nibbles-split n (to_pairs n (v / 256)) (to_pairs 1 (v % 256))
        (omega (arith, to_pairs-le 1 (v % 256)))

none_at_all : (v : ℕ) → v < 1 → to_nibbles 0 (to_pairs 0 v) ≡ 0
unfolding to_nibbles to_pairs same_bytes
none_at_all zero h = refl
none_at_all (suc v) h = absurd (omega arith)

low_nibble : (n v : ℕ) → v < 256 ^ n → to_nibbles n (to_pairs n v) % 16 ≤ 4
low_nibble zero v h = rw (none_at_all v h) (omega arith)
low_nibble (suc n) v h = omega (arith, pairs_nibbles-split n v, byte_facts (v % 256) (omega arith))

nibbles-le : (n v : ℕ) → v < 256 ^ n → to_nibbles n (to_pairs n v) ≤ same_bytes n 0x44
unfolding same_bytes
nibbles-le zero v h = rw (none_at_all v h) (omega arith)
nibbles-le (suc n) v h = omega (
  arith,
  pairs_nibbles-split n v,
  byte_facts (v % 256) (omega arith),
  nibbles-le n (v / 256) (omega (arith, pow-suc 256 n)),
)

folded : (n v : ℕ) → v < 256 ^ n → to_bytes n (to_nibbles n (to_pairs n v)) ≡ weights n v
unfolding weights to_bytes same_bytes
folded zero v h = rw (none_at_all v h) refl
folded (suc n) v h =
    let facts = byte_facts (v % 256) (omega arith) in
    let rest : v / 256 < 256 ^ n = omega (arith, pow-suc 256 n) in
    rw (pairs_nibbles-split n v) (
      to_bytes-split n _ _ (low_nibble n (v / 256) rest) facts.0 facts.1
      ∙ ap₂ (λ (a b : ℕ). a * 256 + b) (folded n (v / 256) rest) facts.2)

-- The highest byte of a product that wraps.
top_byte :
    (over sum low : ℕ)
    → sum < 256
    → low < 2 ^ 56
    → (over * 2 ^ 64 + (sum * 2 ^ 56 + low)) % 2 ^ 64 / 2 ^ 56 ≡ sum
top_byte over sum low hs hl = omega arith

module _ (a b c d e f g h : ℕ) where
  abbrev word : ℕ
  word =
      (((((((0 * 256 + a) * 256 + b) * 256 + c) * 256 + d) * 256 + e) * 256 + f) * 256 + g) * 256
      + h

  abbrev over : ℕ
  over =
      (g + f + e + d + c + b + a)
      + (f + e + d + c + b + a) * 2 ^ 8
      + (e + d + c + b + a) * 2 ^ 16
      + (d + c + b + a) * 2 ^ 24
      + (c + b + a) * 2 ^ 32
      + (b + a) * 2 ^ 40
      + a * 2 ^ 48

  abbrev low : ℕ
  low =
      h
      + (h + g) * 2 ^ 8
      + (h + g + f) * 2 ^ 16
      + (h + g + f + e) * 2 ^ 24
      + (h + g + f + e + d) * 2 ^ 32
      + (h + g + f + e + d + c) * 2 ^ 40
      + (h + g + f + e + d + c + b) * 2 ^ 48

  abbrev sum : ℕ
  sum = 0 + a + b + c + d + e + f + g + h

  spread : word * 0x0101010101010101 ≡ over * 2 ^ 64 + (sum * 2 ^ 56 + low)
  spread = omega arith

  -- Multiplying by eight ones gathers eight small bytes in the highest one.
  gather :
      a ≤ 8
      → b ≤ 8
      → c ≤ 8
      → d ≤ 8
      → e ≤ 8
      → f ≤ 8
      → g ≤ 8
      → h ≤ 8
      → word * 0x0101010101010101 % 2 ^ 64 / 2 ^ 56 ≡ sum
  gather ha hb hc hd he hf hg hh = rw spread (top_byte over sum low (omega arith) (omega arith))

ones-le : (v : ℕ) → ones 8 (v % 256) ≤ 8
ones-le v = (byte_facts (v % 256) (omega arith)).3

gather_total : (v : ℕ) → weights 8 v * 0x0101010101010101 % 2 ^ 64 / 2 ^ 56 ≡ total 8 v
unfolding weights total
gather_total v =
    gather (ones 8 _) (ones 8 _) (ones 8 _) (ones 8 _) (ones 8 _) (ones 8 _) (ones 8 _) (ones 8 _)
      (ones-le _) (ones-le _) (ones-le _) (ones-le _) (ones-le _) (ones-le _) (ones-le _)
      (ones-le _)

total-le : (n v : ℕ) → total n v ≤ n * 8
unfolding total
total-le zero v = omega arith
total-le (suc n) v = omega (arith, total-le n (v / 256), ones-le v)

-- The wraps of the source are never taken.
pairs_exact :
    (v : ℕ) → v < 2 ^ 64 → u64 (v + 2 ^ 64 - bit_and (v >>> 1) 0x5555555555555555) ≡ to_pairs 8 v
unfolding to_pairs same_bytes
pairs_exact v h = omega (arith, bit_and-le (v / 2) 0x5555555555555555)

nibbles_exact :
    (w : ℕ)
    → to_nibbles 8 w ≤ same_bytes 8 0x44
    → u64 (bit_and w 0x3333333333333333 + bit_and (w >>> 2) 0x3333333333333333) ≡ to_nibbles 8 w
unfolding to_nibbles same_bytes
nibbles_exact w h = omega arith

bytes_exact :
    (x : ℕ) → x ≤ same_bytes 8 0x44 → bit_and (u64 (x + x >>> 4)) 0x0F0F0F0F0F0F0F0F ≡ to_bytes 8 x
unfolding to_bytes same_bytes
bytes_exact x h = ap (λ (t : ℕ). bit_and t 0x0F0F0F0F0F0F0F0F) (omega arith)

lane_popcount-total : (v : ℕ) → v < 2 ^ 64 → lane_popcount v ≡ total 8 v
unfolding lane_popcount
lane_popcount-total v h =
    rw
      (
        pairs_exact v h,
        nibbles_exact (to_pairs 8 v) (nibbles-le 8 v h),
        bytes_exact (to_nibbles 8 (to_pairs 8 v)) (nibbles-le 8 v h),
        folded 8 v h,
        gather_total v,
      )
      (omega (arith, total-le 8 v))

-- Eight digits at a time.
ones_byte :
    (n v : ℕ)
    → ones (suc (suc (suc (suc (suc (suc (suc (suc n)))))))) v ≡ ones n (v / 256) + ones 8 (v % 256)
unfolding ones
ones_byte n v = rw halved (omega arith)
  where
    halved : v / 2 / 2 / 2 / 2 / 2 / 2 / 2 / 2 ≡ v / 256
    halved = omega arith

total-ones : (v : ℕ) → total 8 v ≡ ones 64 v
unfolding total
total-ones v = omega (
  arith,
  ones_byte 56 v,
  ones_byte 48 (v / 256),
  ones_byte 40 (v / 256 / 256),
  ones_byte 32 (v / 256 / 256 / 256),
  ones_byte 24 (v / 256 / 256 / 256 / 256),
  ones_byte 16 (v / 256 / 256 / 256 / 256 / 256),
  ones_byte 8 (v / 256 / 256 / 256 / 256 / 256 / 256),
  ones_byte 0 (v / 256 / 256 / 256 / 256 / 256 / 256 / 256),
  no_ones (v / 256 / 256 / 256 / 256 / 256 / 256 / 256 / 256),
)
  where
    no_ones : (w : ℕ) → ones 0 w ≡ 0
    no_ones w = unfold ones in refl

pub lane_popcount-ones : (v : ℕ) → v < 2 ^ 64 → lane_popcount v ≡ ones 64 v
lane_popcount-ones v h = lane_popcount-total v h ∙ total-ones v

pub ones-snoc : (n v : ℕ) → ones (suc n) v ≡ ones n v + digit v n
unfolding ones digit
ones-snoc zero v = omega arith
ones-snoc (suc n) v = omega (arith, ones-snoc n (v / 2))

pub ones-le_count : (n v : ℕ) → ones n v ≤ n
unfolding ones
ones-le_count zero v = omega arith
ones-le_count (suc n) v = omega (arith, ones-le_count n (v / 2))
