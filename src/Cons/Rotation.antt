-- ===== src/Cons/Rotation.antt =====
-- The 32-bit rotations are inverse to one another for every shift, and stay within the width.
use omino.Prelude.{ℕ, ◌-◌, ◌*◌, ◌%◌, ◌^◌, ◌<◌, bit_or}
use omino.Prelude.{◌≡◌, refl, ap₂, ◌∙◌, arith}
use omino.Prelude.Bits.Fields.{bit_or_comm, bit_and-mod}
use omino.Prelude.Words.{rotate, rotate-rotate, rotate-lt}
use native.Mathlib.Nat.{div-one}
use native.Mathlib.Decide.{ℕ_discrete}
use omino.Prelude.Bits.Fields.{bit_or_self}
use omino.Cons.{rotl32, rotr32}

-- A shift is taken modulo 32; a proper one rotates by that many places.
rotl32-rotate : (v s : ℕ) → 0 < s % 32 → rotl32 v s ≡ rotate 32 (s % 32) (32 - s % 32) v
unfolding rotl32 rotate
rotl32-rotate v s h = rw (bit_and-mod 5 s, bit_and-mod 5 (32 - s % 32), kept) refl
  where
    kept : (32 - s % 32) % 32 ≡ 32 - s % 32
    kept = omega arith

rotr32-rotate : (v s : ℕ) → 0 < s % 32 → rotr32 v s ≡ rotate 32 (32 - s % 32) (s % 32) v
unfolding rotr32 rotate
rotr32-rotate v s h = rw (bit_and-mod 5 s, bit_and-mod 5 (32 - s % 32), kept) (bit_or_comm _ _)
  where
    kept : (32 - s % 32) % 32 ≡ 32 - s % 32
    kept = omega arith

-- A shift by a multiple of 32 changes nothing.
still : (v s : ℕ) → v < 2 ^ 32 → s % 32 ≡ 0 → (rotl32 v s ≡ v) × (rotr32 v s ≡ v)
unfolding rotl32 rotr32
still v s h e =
    rw (bit_and-mod 5 s, e)
      (ap₂ bit_or whole (div-one v) ∙ bit_or_self v, ap₂ bit_or (div-one v) whole ∙ bit_or_self v)
  where
    whole : v * 1 % 2 ^ 32 ≡ v
    whole = omega arith

pub rotr32-rotl32 : (v s : ℕ) → v < 2 ^ 32 → rotr32 (rotl32 v s) s ≡ v
rotr32-rotl32 v s h = elim (ℕ_discrete (s % 32) 0) [
  | yes e ↦ rw ((still v s h e).0) ((still v s h e).1)
  | no proper ↦
      rw
        (
          rotl32-rotate v s (omega arith),
          rotr32-rotate (rotate 32 (s % 32) (32 - s % 32) v) s (omega arith),
        )
        (rotate-rotate 32 (s % 32) (32 - s % 32) (omega arith) v h)
]

pub rotl32-rotr32 : (v s : ℕ) → v < 2 ^ 32 → rotl32 (rotr32 v s) s ≡ v
rotl32-rotr32 v s h = elim (ℕ_discrete (s % 32) 0) [
  | yes e ↦ rw ((still v s h e).1) ((still v s h e).0)
  | no proper ↦
      rw
        (
          rotr32-rotate v s (omega arith),
          rotl32-rotate (rotate 32 (32 - s % 32) (s % 32) v) s (omega arith),
        )
        (rotate-rotate 32 (32 - s % 32) (s % 32) (omega arith) v h)
]

pub rotl32-lt : (v s : ℕ) → v < 2 ^ 32 → rotl32 v s < 2 ^ 32
rotl32-lt v s h = elim (ℕ_discrete (s % 32) 0) [
  | yes e ↦ rw ((still v s h e).0) h
  | no proper ↦
      rw (rotl32-rotate v s (omega arith)) (rotate-lt 32 (s % 32) (32 - s % 32) (omega arith) v h)
]

pub rotr32-lt : (v s : ℕ) → v < 2 ^ 32 → rotr32 v s < 2 ^ 32
rotr32-lt v s h = elim (ℕ_discrete (s % 32) 0) [
  | yes e ↦ rw ((still v s h e).1) h
  | no proper ↦
      rw (rotr32-rotate v s (omega arith)) (rotate-lt 32 (32 - s % 32) (s % 32) (omega arith) v h)
]
