-- ===== src/Segment/Witness.antt =====
-- The witness of a segment is 0x1E for every prefix, so that a scope closes when it has a sector.
use omino.Prelude.{ℕ, zero, suc, ◌<◌}
use omino.Prelude.{◌≡◌, refl, ◌↔◌, arith}
use omino.Prelude.{Bool, true}
use omino.Prelude.{◌==◌, ==_iff, all_below, all_below_sound}
use omino.Prelude.{get_or}
use omino.Segment.{
  segment_xor_witness, sector_prefixes, relation_witness, tetragrammatron_scope_closes,
}

abbrev witnessed : ℕ → Bool
witnessed b = segment_xor_witness b == relation_witness

all_witnessed : all_below 256 witnessed ≡ true
unfolding all_below segment_xor_witness
all_witnessed = refl

-- The prefix cancels: every byte has the witness 0x1E, not only the four sector prefixes.
pub segment_xor_witness_lem : (b : ℕ) → b < 256 → segment_xor_witness b ≡ relation_witness
segment_xor_witness_lem b h = (==_iff _ _).0 (all_below_sound 256 witnessed b all_witnessed h)

prefix-lt : (scope : ℕ) → get_or sector_prefixes scope 0 < 256
prefix-lt zero = omega arith
prefix-lt (suc zero) = omega arith
prefix-lt (suc (suc zero)) = omega arith
prefix-lt (suc (suc (suc zero))) = omega arith
prefix-lt (suc (suc (suc (suc scope)))) = omega arith

-- The closure gate passes exactly the scopes that have a sector.
pub tetragrammatron_scope_closes_iff :
    (scope : ℕ) → (tetragrammatron_scope_closes scope ≡ true) ↔ (scope < 4)
unfolding tetragrammatron_scope_closes
tetragrammatron_scope_closes_iff scope =
    ground (arith, segment_xor_witness_lem (get_or sector_prefixes scope 0) (prefix-lt scope))
