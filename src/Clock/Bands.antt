-- ===== src/Clock/Bands.antt =====
-- The diagnostic band of a state: what its three numbers mean, and their bounds.
use omino.Prelude.{ℕ, zero, suc, ◌+◌, ◌*◌, ◌/◌, ◌%◌, ◌^◌, ◌≤◌, ◌<◌, bit_and}
use omino.Prelude.{◌≡◌, refl, ap₂, ◌∙◌, ◌≢◌, ◌↔◌, inl, inr, arith}
use omino.Prelude.{false}
use omino.Prelude.{leb, ◌==◌, if◌then◌else◌, Bool-cases}
use omino.Prelude.{u32, ◌>>>◌}
use native.Mathlib.Nat.{pow-suc, pow-le-pow_right, add-zero, mod-eq_of_lt}
use native.Mathlib.Decide.{ℕ_discrete}
use omino.Prelude.Bits.Fields.{bit_and-mod}
use omino.Board.Popcount.Bytes.{ones}
use omino.Clock.{
  count_bits, popcount16, count_shifts, bit_length16, count_edges, classify_clock_state,
}

differs : (x : ℕ) → x ≢ 0 → (x == 0) ≡ false
differs x ne = ground arith

count_shifts-suc :
    (rounds x n : ℕ)
    → x ≢ 0
    → x < 2 ^ 16
    → n + 1 < 2 ^ 32
    → count_shifts (suc rounds) x n ≡ count_shifts rounds (x / 2) (n + 1)
unfolding count_shifts
count_shifts-suc rounds x n ne fits small =
    rw (differs x ne) (ap₂ (count_shifts rounds) (omega arith) (omega arith))

count_shifts_lem :
    (rounds x n : ℕ)
    → x < 2 ^ rounds
    → x < 2 ^ 16
    → n + rounds < 2 ^ 32
    → (k : ℕ) × (count_shifts rounds x n ≡ n + k)
      × (k ≤ rounds)
      × (x < 2 ^ k)
      × (x ≢ 0 → 2 ^ k ≤ 2 * x)
      × (x ≡ 0 → k ≡ 0)
unfolding count_shifts
count_shifts_lem zero x n h fits small =
    (0, omega arith, omega arith, h, λ ne. absurd (omega arith), λ e. refl)
count_shifts_lem (suc rounds) x n h fits small = elim (ℕ_discrete x 0) [
  | yes e ↦ (0, ground arith, omega arith, omega arith, λ ne. absurd (ne e), λ _. refl)
  | no ne ↦
      let (k, eq, le, below, above, at_zero) =
        count_shifts_lem rounds (x / 2) (n + 1) (omega (arith, pow-suc 2 rounds)) (omega arith)
          (omega arith) in
      (
        suc k,
        count_shifts-suc rounds x n ne fits (omega arith) ∙ eq ∙ omega arith,
        omega arith,
        omega (arith, pow-suc 2 k),
        λ _. elim (ℕ_discrete (x / 2) 0) [
          | yes z ↦ rw (at_zero z) (omega arith)
          | no nz ↦ omega (arith, pow-suc 2 k, above nz)
        ],
        λ e. absurd (ne e),
      )
]

pow2_mono : (i j : ℕ) → i ≤ j → 2 ^ i ≤ 2 ^ j
pow2_mono i j h = pow-le-pow_right {n = 2} (omega arith) {i = i} {j = j} h

-- For a 16-bit word, 0 included, the width is the bit length: it is at most 16, and at most any
-- number exactly when the word lies below that power of two.
pub bit_length16_lem :
    (x k : ℕ) → x < 2 ^ 16 → (bit_length16 x ≤ 16) × ((bit_length16 x ≤ k) ↔ (x < 2 ^ k))
unfolding bit_length16
bit_length16_lem x k h =
    let (width, eq, le, below, above, at_zero) = count_shifts_lem 16 x 0 h h (omega arith) in
    let exact : count_shifts 16 x 0 ≡ width = eq ∙ omega arith in
    rw exact (
      le,
      ((λ fits. omega (arith, pow2_mono width k fits)), λ small. least k width small at_zero above),
    )
  where
    least :
        (k width : ℕ) → x < 2 ^ k → (x ≡ 0 → width ≡ 0) → (x ≢ 0 → 2 ^ width ≤ 2 * x) → width ≤ k
    least k zero small at_zero above = omega arith
    least k (suc w) small at_zero above = elim (Bool-cases (leb (suc w) k)) [
      | inl fits ↦ ground arith
      | inr wide ↦
          let ne : x ≢ 0 = λ e. absurd (omega (arith, at_zero e)) in
          absurd (omega (arith, above ne, pow-suc 2 w, pow2_mono k w (ground arith)))
    ]

count_bits-suc :
    (rounds v count : ℕ)
    → v ≢ 0
    → v < 2 ^ 16
    → count + 1 < 2 ^ 32
    → count_bits (suc rounds) v count ≡ count_bits rounds (v / 2) (count + v % 2)
unfolding count_bits
count_bits-suc rounds v count ne fits small =
    rw (differs v ne) (ap₂ (count_bits rounds) (omega arith) (omega (arith, bit_and-mod 1 v)))

ones-zero : (n : ℕ) → ones n 0 ≡ 0
unfolding ones
ones-zero zero = refl
ones-zero (suc n) = omega (arith, ones-zero n)

count_bits_lem :
    (rounds v count : ℕ)
    → v < 2 ^ rounds
    → v < 2 ^ 16
    → count + rounds < 2 ^ 32
    → count_bits rounds v count ≡ count + ones rounds v
unfolding count_bits ones
count_bits_lem zero v count h fits small = omega arith
count_bits_lem (suc rounds) v count h fits small = elim (ℕ_discrete v 0) [
  | yes e ↦ rw (e, ones-zero rounds) (omega arith)
  | no ne ↦
      count_bits-suc rounds v count ne fits (omega arith)
      ∙ count_bits_lem rounds (v / 2) (count + v % 2) (omega (arith, pow-suc 2 rounds))
          (omega arith) (omega arith)
      ∙ omega arith
]

-- For a 16-bit word the density is the number of its set bits, counted by position.
pub popcount16-ones : (v : ℕ) → v < 2 ^ 16 → popcount16 v ≡ ones 16 v
unfolding popcount16
popcount16-ones v h = count_bits_lem 16 v 0 h h (omega arith) ∙ omega arith

-- Bit `k` of the word read cyclically.
cyclic_bit : ℕ → ℕ → ℕ
cyclic_bit x k = bit_and (x >>> (k % 16)) 1

cyclic_bit-lt : (x k : ℕ) → cyclic_bit x k < 2
unfolding cyclic_bit
cyclic_bit-lt x k = omega (arith, bit_and-mod 1 (x / 2 ^ (k % 16)))

count_edges-suc :
    (rounds i x t : ℕ)
    → i < 16
    → count_edges (suc rounds) i x t
      ≡ count_edges rounds
          (i + 1)
          x
          (if cyclic_bit x i == cyclic_bit x (i + 1) then t else u32 (t + 1))
unfolding count_edges cyclic_bit
count_edges-suc rounds i x t h = rw (mod-eq_of_lt h) refl

count_edges_lem :
    (rounds i x t : ℕ)
    → i + rounds ≤ 16
    → t + rounds < 2 ^ 32
    → (count_edges rounds i x t ≤ t + rounds)
      × (count_edges rounds i x t % 2 ≡ (t + cyclic_bit x i + cyclic_bit x (i + rounds)) % 2)
count_edges_lem zero i x t h small = rw (add-zero i) (unfold count_edges in omega arith)
count_edges_lem (suc rounds) i x t h small =
    rw (count_edges-suc rounds i x t (omega arith), later)
      (elim (Bool-cases (cyclic_bit x i == cyclic_bit x (i + 1))) [
        | inl e ↦ rw e (
            ground (
              arith,
              count_edges_lem rounds (i + 1) x t (omega arith) (omega arith),
              cyclic_bit-lt x i,
            ))
        | inr ne ↦
            rw (ne, one_more)
              (ground (
                arith,
                count_edges_lem rounds (i + 1) x (t + 1) (omega arith) (omega arith),
                cyclic_bit-lt x i,
                cyclic_bit-lt x (i + 1),
              ))
      ])
  where
    later : i + suc rounds ≡ i + 1 + rounds
    later = omega arith

    one_more : u32 (t + 1) ≡ t + 1
    one_more = omega arith

around : (x : ℕ) → cyclic_bit x (0 + 16) ≡ cyclic_bit x 0
unfolding cyclic_bit
around x = refl

-- The texture of a state is even and at most 16.
pub texture_even :
    (x : ℕ) → ((classify_clock_state x).texture ≤ 16) × ((classify_clock_state x).texture % 2 ≡ 0)
unfolding classify_clock_state
texture_even x =
    let (bounded, parity) = count_edges_lem 16 0 x 0 (omega arith) (omega arith) in
    (bounded, parity ∙ twice)
  where
    twice : (0 + cyclic_bit x 0 + cyclic_bit x (0 + 16)) % 2 ≡ 0
    twice = omega (arith, around x)

-- How many of the `rounds` bits from position `i` differ from the next one, cyclically.
unfoldable pub crossings : ℕ → ℕ → ℕ → ℕ
crossings zero i x = 0
crossings (suc rounds) i x =
    (if x / 2 ^ i % 2 == x / 2 ^ ((i + 1) % 16) % 2 then 0 else 1) + crossings rounds (i + 1) x

count_edges-crossings :
    (rounds i x t : ℕ) → t + rounds < 2 ^ 32 → count_edges rounds i x t ≡ t + crossings rounds i x
unfolding count_edges crossings
count_edges-crossings zero i x t h = omega arith
count_edges-crossings (suc rounds) i x t h =
    let one_more : u32 (t + 1) ≡ t + 1 = omega arith in
    rw (bit_and-mod 1 (x >>> i), bit_and-mod 1 (x >>> ((i + 1) % 16)), one_more)
      (elim (Bool-cases (x / 2 ^ i % 2 == x / 2 ^ ((i + 1) % 16) % 2)) [
        | inl e ↦ rw e (count_edges-crossings rounds (i + 1) x t (omega arith) ∙ omega arith)
        | inr ne ↦
            rw ne (count_edges-crossings rounds (i + 1) x (t + 1) (omega arith) ∙ omega arith)
      ])

-- For any word the texture counts the cyclically neighbouring bits that differ.
pub texture-crossings : (x : ℕ) → (classify_clock_state x).texture ≡ crossings 16 0 x
unfolding classify_clock_state
texture-crossings x = count_edges-crossings 16 0 x 0 (omega arith) ∙ omega arith
