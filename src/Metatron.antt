-- ===== src/Metatron.antt =====
-- The inscription places and their closure, examples/metatron/metatron_preclosure.c. A null plane is
-- `none`, and the signature of a lock has one constructor for each text.
pub mod Places
use omino.Prelude.{ℕ, bit_and}
use omino.Prelude.{Bool, true, false, not, ◌&&◌, Option, none, some}
use omino.Prelude.{ltb, ◌==◌, if◌then◌else◌}
use omino.Prelude.{u32, u64, ◌<<<◌}

pub data MetatronStatus : Type 0 where
  inscription_ok carry_overflow pattern_fault closure_rejected invalid_plane : MetatronStatus

pub record InscriptionPlane : Type 0 where
  pub register_accumulation : ℕ
  pub active_clock_quadrant : ℕ
  pub permutation_witness : ℕ

-- The status, and the plane after the call.
unfoldable pub advance_place :
    Option InscriptionPlane → Bool → MetatronStatus × Option InscriptionPlane
advance_place none trigger_step = (invalid_plane, none)
advance_place (some plane) trigger_step =
    let next_accum = u64 (plane.register_accumulation <<< 4) in
    let after = record plane { register_accumulation = u32 (bit_and next_accum 0xFFFFF) } in
    if not trigger_step
    then (inscription_ok, some plane)
    else if ltb 0xFFFF next_accum
    then (carry_overflow, some after)
    else (inscription_ok, some after)

unfoldable pub confirm_preclosure : Option InscriptionPlane → MetatronStatus
confirm_preclosure none = invalid_plane
confirm_preclosure (some plane) =
    if not (plane.permutation_witness == 0x18) then pattern_fault else inscription_ok

abbrev pub is_ok : MetatronStatus → Bool
is_ok inscription_ok = true
is_ok _ = false

pub data StatusSignature : Type 0 where
  reject_closed_relation relation_closure_granted_and_locked : StatusSignature

pub record TetragrammatronLock : Type 0 where
  pub relation_closed : Bool
  pub status_signature : StatusSignature

unfoldable pub adjudicate_closure : Option InscriptionPlane → ℕ → TetragrammatronLock
adjudicate_closure plane diagonal_sum =
    if is_ok (confirm_preclosure plane) && diagonal_sum == 120
    then record { relation_closed = true; status_signature = relation_closure_granted_and_locked }
    else record { relation_closed = false; status_signature = reject_closed_relation }
