-- ===== src/Delta.antt =====
-- The 16-bit rotations and the delta law, section 8 of src/omnicron-coproduct-partition.c. Words
-- are `uint16_t`, numbers below 2 ^ 16, and a shift is done in `int` before the cast.
pub mod Linear
pub mod Period
use omino.Prelude.{ℕ, zero, suc, ◌+◌, ◌-◌, ◌*◌, ◌/◌, ◌%◌, ◌^◌, ◌≤◌, ◌<◌, bit_and, bit_or, bit_xor}
use omino.Prelude.{◌≡◌, refl, sym, ap, ap₂, ◌∙◌, ◌≢◌, ◌↔◌, ◌⊎◌, inl, inr, arith}
use omino.Prelude.{Bool, true, false, not, ◌&&◌, ◌||◌, Option, none, some, List, [], ◌∷◌, ◌++◌, map}
use omino.Prelude.{
  ltb, leb, ◌==◌, if◌then◌else◌, ==_iff, Bool-cases, Bool-ext, all_below, all_below_sound,
  all_below_sound₂,
}
use omino.Prelude.{u8, u16, u32, u64, ◌<<<◌, ◌>>>◌, length, get_or, take, drop, replicate}
use omino.Prelude.{
  length-set, get_or-set_self, get_or-set_ne, get_or_ext, length-replicate, get_or-replicate,
  length-append, ltb→lt, lt→ltb,
}

unfoldable pub rotl16 : ℕ → ℕ → ℕ
rotl16 x shift = let s = bit_and shift 15 in u16 (bit_or (x <<< s) (x >>> bit_and (16 - s) 15))

unfoldable pub rotr16 : ℕ → ℕ → ℕ
rotr16 x shift = let s = bit_and shift 15 in u16 (bit_or (x >>> s) (x <<< bit_and (16 - s) 15))

abbrev pub delta_c16_const : ℕ
delta_c16_const = 0x5A3C

unfoldable pub delta_c16 : ℕ → ℕ
delta_c16 x =
    let v =
      u16 (bit_xor (bit_xor (bit_xor (rotl16 x 1) (rotl16 x 3)) (rotr16 x 2)) delta_c16_const) in
    u16 (bit_and v 0xFFFF)
