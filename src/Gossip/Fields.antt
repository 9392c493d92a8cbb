-- ===== src/Gossip/Fields.antt =====
-- What is written to a buffer is read back: words byte by byte, and copied bytes.
use omino.Prelude.{ℕ, zero, suc, ◌+◌, ◌-◌, ◌*◌, ◌/◌, ◌%◌, ◌^◌, ◌≤◌, ◌<◌, bit_and, bit_or}
use omino.Prelude.{◌≡◌, refl, ap, ◌∙◌, ◌⊎◌, inl, inr, arith}
use omino.Prelude.{◌&&◌, List}
use omino.Prelude.{ltb, leb, ◌==◌, if◌then◌else◌, Bool-cases}
use omino.Prelude.{u8, ◌<<<◌, ◌>>>◌, length}
use omino.Prelude.{length-set, get_or-set_self, get_or-set_ne}
use omino.Prelude.{set as write}
use omino.Prelude.Words.{pow-add, two_pow_pos}
use omino.Prelude.Bits.Fields.{bit_or-add, bit_or_comm, bit_and-mod}
use native.Mathlib.Decide.{ℕ_discrete}
use native.Mathlib.Nat.{
  mod-lt, div-add-mod', mod-eq_of_lt, mul-add-mod_self_right, pow-le-pow_right, mul-le-mul_right,
}
use omino.Gossip.{byte_at, put_le, get_le, memcpy}

pub byte_at-write :
    (bytes : List ℕ) (i j v : ℕ)
    → i < length bytes
    → byte_at (write bytes i v) j ≡ (if i == j then v else byte_at bytes j)
byte_at-write bytes i j v h = elim (ℕ_discrete i j) [
  | yes e ↦ rw (← e) (ground (arith, get_or-set_self bytes i v 0))
  | no ne ↦ ground (arith, get_or-set_ne bytes i j v 0)
]

pub length-put_le :
    (left i offset value : ℕ) (raw : List ℕ) → length (put_le left i offset value raw) ≡ length raw
unfolding put_le
length-put_le zero i offset value raw = refl
length-put_le (suc left) i offset value raw =
    length-put_le left (i + 1) offset value _ ∙ length-set raw (offset + i) _

pub length-memcpy :
    (count : ℕ) (dst : List ℕ) (to : ℕ) (src : List ℕ) (from : ℕ)
    → length (memcpy count dst to src from) ≡ length dst
unfolding memcpy
length-memcpy zero dst to src from = refl
length-memcpy (suc count) dst to src from =
    length-memcpy count (write dst to (byte_at src from)) (to + 1) src (from + 1)
    ∙ length-set dst to _

-- Byte `k` of a word.
abbrev pub byte_of : ℕ → ℕ → ℕ
byte_of value k = u8 (bit_and (value >>> (k * 8)) 0xFF)

pub put_le_elsewhere :
    (left i offset value j : ℕ) (raw : List ℕ)
    → offset + i + left ≤ length raw
    → (j < offset + i) ⊎ (offset + i + left ≤ j)
    → byte_at (put_le left i offset value raw) j ≡ byte_at raw j
unfolding put_le
put_le_elsewhere zero i offset value j raw fits out = refl
put_le_elsewhere (suc left) i offset value j raw fits out =
    put_le_elsewhere left (i + 1) offset value j _ (rw length-set (omega arith)) (ground arith)
    ∙ get_or-set_ne raw (offset + i) j (byte_of value i) 0 (ground arith)

pub put_le_inside :
    (left i offset value k : ℕ) (raw : List ℕ)
    → offset + i + left ≤ length raw
    → i ≤ k
    → k < i + left
    → byte_at (put_le left i offset value raw) (offset + k) ≡ byte_of value k
unfolding put_le
put_le_inside zero i offset value k raw fits ge lt = absurd (omega arith)
put_le_inside (suc left) i offset value k raw fits ge lt = elim (ℕ_discrete i k) [
  | yes same ↦
      put_le_elsewhere left (i + 1) offset value (offset + k) _ (rw length-set (omega arith))
        (inl (omega arith))
      ∙ rw (← same) (get_or-set_self raw (offset + i) (byte_of value i) 0 (omega arith))
  | no other ↦
      put_le_inside left (i + 1) offset value k _ (rw length-set (omega arith)) (omega arith)
        (omega arith)
]

pub memcpy_lem :
    (count : ℕ) (dst : List ℕ) (to : ℕ) (src : List ℕ) (from j : ℕ)
    → to + count ≤ length dst
    → byte_at (memcpy count dst to src from) j
      ≡ (if leb to j && ltb j (to + count) then byte_at src (from + (j - to)) else byte_at dst j)
unfolding memcpy
memcpy_lem zero dst to src from j fits = ground arith
memcpy_lem (suc count) dst to src from j fits =
    let next =
      memcpy_lem count (write dst to (byte_at src from)) (to + 1) src (from + 1) j
        (rw length-set (omega arith)) in
    let written = byte_at-write dst to j (byte_at src from) (omega arith) in
    elim (ℕ_discrete to j) [
      | yes same ↦
          let first : from + (j - to) ≡ from = omega arith in
          ground (arith, next, written, ap (byte_at src) first)
      | no other ↦ elim (Bool-cases (leb (to + 1) j)) [
        | inl after ↦
            let place : from + 1 + (j - (to + 1)) ≡ from + (j - to) = ground arith in
            ground (arith, next, written, ap (byte_at src) place)
        | inr before ↦ ground (arith, next, written)
      ]
    ]

le_255 : (x : ℕ) → x % 256 ≤ 255
le_255 x = omega arith

-- The value read so far is the word modulo its first bytes.
module _ (v p : ℕ) (pos : 0 < p) where
  abbrev digit_256 : ℕ
  digit_256 = v / p % 256

  upper : v / p * p ≡ v / p / 256 * (256 * p) + digit_256 * p
  upper = omega (arith, ap (λ (t : ℕ). t * p) (div-add-mod' (v / p) 256))

  split_mod : v % (256 * p) ≡ digit_256 * p + v % p
  split_mod =
      ap (λ (t : ℕ). t % (256 * p)) regroup
      ∙ mul-add-mod_self_right (v / p / 256) (256 * p) (digit_256 * p + v % p)
      ∙ mod-eq_of_lt fits
    where
      regroup : v ≡ v / p / 256 * (256 * p) + (digit_256 * p + v % p)
      regroup = omega (arith, upper, div-add-mod' v p)

      fits : digit_256 * p + v % p < 256 * p
      fits = omega (arith, mod-lt v pos, mul-le-mul_right p (le_255 (v / p)))

next_byte :
    (w v i : ℕ)
    → i * 8 + 8 ≤ w
    → bit_or (v % 2 ^ (i * 8)) (byte_of v i <<< (i * 8) % 2 ^ w) ≡ v % 2 ^ ((i + 1) * 8)
next_byte w v i h =
    let p = 2 ^ (i * 8) in
    let q = v / p % 256 in
    let byte : byte_of v i ≡ q = rw (bit_and-mod 8 (v / p)) (omega arith) in
    let width : 2 ^ ((i + 1) * 8) ≡ 256 * p =
      ap (λ (t : ℕ). 2 ^ t) (omega arith) ∙ pow-add 8 (i * 8) in
    let fits : q * p < 2 ^ w = omega (
      arith,
      width,
      two_pow_pos (i * 8),
      mul-le-mul_right p (le_255 (v / p)),
      pow-le-pow_right {n = 2} (omega arith) {i = (i + 1) * 8} {j = w} (omega arith),
    ) in
    rw
      (
        byte,
        mod-eq_of_lt fits,
        width,
        split_mod v p (two_pow_pos (i * 8)),
        bit_or_comm (v % p) (q * p),
      )
      (bit_or-add (i * 8) q (v % p) (mod-lt v (two_pow_pos (i * 8))))

get_le_lem :
    (w left i offset v : ℕ) (raw : List ℕ)
    → (i + left) * 8 ≤ w
    → ((k : ℕ) → i ≤ k → k < i + left → byte_at raw (offset + k) ≡ byte_of v k)
    → get_le w left i offset raw (v % 2 ^ (i * 8)) ≡ v % 2 ^ ((i + left) * 8)
unfolding get_le
get_le_lem w zero i offset v raw h bytes = ap (λ (t : ℕ). v % 2 ^ (t * 8)) (omega arith)
get_le_lem w (suc left) i offset v raw h bytes =
    rw (bytes i (omega arith) (omega arith), next_byte w v i (omega arith))
      (get_le_lem w left (i + 1) offset v raw (omega arith)
          (λ k ge lt. bytes k (omega arith) (omega arith))
        ∙ ap (λ (t : ℕ). v % 2 ^ (t * 8)) (omega arith))

-- A word written at an offset is read back, as long as its bytes are still there.
pub get_le-put_le :
    (w bytes offset v : ℕ) (raw : List ℕ)
    → bytes * 8 ≤ w
    → v < 2 ^ (bytes * 8)
    → ((k : ℕ) → k < bytes → byte_at raw (offset + k) ≡ byte_of v k)
    → get_le w bytes 0 offset raw 0 ≡ v
get_le-put_le w bytes offset v raw h fits stands =
    let read : get_le w bytes 0 offset raw (v % 1) ≡ v % 2 ^ ((0 + bytes) * 8) =
      get_le_lem w bytes 0 offset v raw (omega arith) (λ k ge lt. stands k (omega arith)) in
    rw (mod_one v) at read ∙ ap (λ (t : ℕ). v % 2 ^ (t * 8)) (omega arith) ∙ mod-eq_of_lt fits
  where
    mod_one : (x : ℕ) → x % 1 ≡ 0
    mod_one x = omega arith
