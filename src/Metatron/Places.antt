-- ===== src/Metatron/Places.antt =====
-- The inscription places: what a step does to the register, and when the closure is granted.
use omino.Prelude.{ℕ, ◌*◌, ◌%◌, ◌^◌, ◌≤◌, ◌<◌, bit_and}
use omino.Prelude.{◌≡◌, refl, ap, ◌↔◌, inl, inr, arith}
use omino.Prelude.{true, false, some}
use omino.Prelude.{ltb, Bool-cases}
use omino.Prelude.{u32, u64, ◌<<<◌}
use omino.Prelude.Bits.Fields.{bit_and-mod}
use omino.Metatron.{
  inscription_ok, carry_overflow, InscriptionPlane, advance_place, confirm_preclosure,
  adjudicate_closure,
}

-- On a 32-bit register, a step that is not triggered changes nothing; a triggered one shifts
-- four places and keeps 20 bits, and it reports a carry exactly when the register had reached 2
-- ^ 12.
pub advance_place_lem :
    (plane : InscriptionPlane)
    → plane.register_accumulation < 2 ^ 32
    → (advance_place (some plane) false ≡ (inscription_ok, some plane))
      × ((advance_place (some plane) true).1
          ≡ some record plane { register_accumulation = 16 * plane.register_accumulation % 2 ^ 20 })
      × (((advance_place (some plane) true).0 ≡ carry_overflow)
          ↔ (2 ^ 12 ≤ plane.register_accumulation))
unfolding advance_place
advance_place_lem plane h =
    let n = plane.register_accumulation in
    let next : u64 (n <<< 4) ≡ 16 * n = omega arith in
    let kept : u32 (bit_and (u64 (n <<< 4)) 0xFFFFF) ≡ 16 * n % 2 ^ 20 =
      omega (arith, bit_and-mod 20 (u64 (n <<< 4))) in
    elim (Bool-cases (ltb 0xFFFF (u64 (n <<< 4)))) [
      | inl carry ↦ rw carry (
        refl,
        ap (λ (r : ℕ). some record plane { register_accumulation = r }) kept,
        ((λ _. ground arith), λ _. refl),
      )
      | inr fits ↦ rw fits (
        refl,
        ap (λ (r : ℕ). some record plane { register_accumulation = r }) kept,
        ((λ e. ground arith), λ high. ground arith),
      )
    ]

-- The relation is closed exactly under the witness 0x18 and the diagonal sum 120.
pub adjudicate_closure_iff :
    (plane : InscriptionPlane) (diagonal_sum : ℕ)
    → ((adjudicate_closure (some plane) diagonal_sum).relation_closed ≡ true)
      ↔ ((plane.permutation_witness ≡ 0x18) × (diagonal_sum ≡ 120))
unfolding adjudicate_closure confirm_preclosure
adjudicate_closure_iff plane diagonal_sum = ground arith
