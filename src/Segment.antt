-- ===== src/Segment.antt =====
-- The segment XOR witness, the Polybius diagonals and the closure gate of a scope, section 8 of
-- src/omnicron-coproduct-partition.c. Bytes are numbers below 2 ^ 8.
pub mod Witness
use omino.Prelude.{ℕ, zero, suc, ◌+◌, ◌-◌, ◌*◌, ◌/◌, ◌%◌, ◌^◌, ◌≤◌, ◌<◌, bit_and, bit_or, bit_xor}
use omino.Prelude.{◌≡◌, refl, sym, ap, ap₂, ◌∙◌, ◌≢◌, ◌↔◌, ◌⊎◌, inl, inr, arith}
use omino.Prelude.{Bool, true, false, not, ◌&&◌, ◌||◌, Option, none, some, List, [], ◌∷◌, ◌++◌, map}
use omino.Prelude.{
  ltb, leb, ◌==◌, if◌then◌else◌, ==_iff, Bool-cases, Bool-ext, all_below, all_below_sound,
  all_below_sound₂,
}
use omino.Prelude.{u8, u16, u32, u64, ◌<<<◌, ◌>>>◌, length, get_or, take, drop, replicate}
use omino.Prelude.{
  length-set, get_or-set_self, get_or-set_ne, get_or_ext, length-replicate, get_or-replicate,
  length-append, ltb→lt, lt→ltb,
}

abbrev pub relation_witness : ℕ
relation_witness = 0x1E

abbrev pub sector_prefixes : List ℕ
sector_prefixes = 0x00 ∷ 0x20 ∷ 0x40 ∷ 0x60 ∷ []

unfoldable pub segment_xor_witness : ℕ → ℕ
segment_xor_witness b = u8 (
    bit_xor (bit_xor (bit_xor b (u8 (bit_xor b 0x1A))) (u8 (bit_xor b 0x1B))) (u8 (bit_xor b 0x1F)))

-- `for (i = 0; i < 4; i++) if (!test(i)) return false; return true;`
abbrev pub all_four : (ℕ → Bool) → Bool
all_four test = test 0 && test 1 && test 2 && test 3

unfoldable pub verify_all_segment_witnesses : Bool
unfolding segment_xor_witness
verify_all_segment_witnesses =
    all_four λ i. segment_xor_witness (get_or sector_prefixes i 0) == relation_witness

abbrev pub polybius_d_plus : List ℕ
polybius_d_plus = 0x0 ∷ 0x5 ∷ 0xA ∷ 0xF ∷ []

abbrev pub polybius_d_minus : List ℕ
polybius_d_minus = 0x3 ∷ 0x6 ∷ 0x9 ∷ 0xC ∷ []

-- The loops over a diagonal, from an accumulator.
unfoldable pub polybius_xor_from : ℕ → List ℕ → ℕ
polybius_xor_from x [] = x
polybius_xor_from x (d ∷ ds) = polybius_xor_from (bit_xor x d) ds

unfoldable pub polybius_xor : List ℕ → ℕ
unfolding polybius_xor_from
polybius_xor diagonal = polybius_xor_from 0 diagonal

unfoldable pub polybius_sum_from : ℕ → List ℕ → ℕ
polybius_sum_from s [] = s
polybius_sum_from s (d ∷ ds) = polybius_sum_from (u16 (s + d)) ds

unfoldable pub polybius_sum : List ℕ → ℕ
unfolding polybius_sum_from
polybius_sum diagonal = polybius_sum_from 0 diagonal

unfoldable pub verify_polybius_diagonals : Bool
unfolding polybius_xor polybius_sum
verify_polybius_diagonals =
    let xor_ok = polybius_xor polybius_d_plus == 0 && polybius_xor polybius_d_minus == 0 in
    let sum_ok =
      polybius_sum polybius_d_plus == relation_witness
      && polybius_sum polybius_d_minus == relation_witness in
    xor_ok && sum_ok

unfoldable pub tetragrammatron_scope_closes : ℕ → Bool
tetragrammatron_scope_closes scope =
    if leb 4 scope
    then false
    else segment_xor_witness (get_or sector_prefixes scope 0) == relation_witness
