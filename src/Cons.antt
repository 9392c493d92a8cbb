-- ===== src/Cons.antt =====
-- CONS composition, the fold of section 7 of src/omnicron-coproduct-partition.c. Words are
-- `uint32_t`, numbers below 2 ^ 32; a resolver profile is below 2 ^ 16.
pub mod Rotation
pub mod Recovery
use omino.Prelude.{ℕ, zero, suc, ◌+◌, ◌-◌, ◌*◌, ◌/◌, ◌%◌, ◌^◌, ◌≤◌, ◌<◌, bit_and, bit_or, bit_xor}
use omino.Prelude.{◌≡◌, refl, sym, ap, ap₂, ◌∙◌, ◌≢◌, ◌↔◌, ◌⊎◌, inl, inr, arith}
use omino.Prelude.{Bool, true, false, not, ◌&&◌, ◌||◌, Option, none, some, List, [], ◌∷◌, ◌++◌, map}
use omino.Prelude.{
  ltb, leb, ◌==◌, if◌then◌else◌, ==_iff, Bool-cases, Bool-ext, all_below, all_below_sound,
  all_below_sound₂,
}
use omino.Prelude.{u8, u16, u32, u64, ◌<<<◌, ◌>>>◌, length, get_or, take, drop, replicate}
use omino.Prelude.{
  length-set, get_or-set_self, get_or-set_ne, get_or_ext, length-replicate, get_or-replicate,
  length-append, ltb→lt, lt→ltb,
}

unfoldable pub rotl32 : ℕ → ℕ → ℕ
rotl32 v shift = let s = bit_and shift 31 in bit_or (u32 (v <<< s)) (v >>> bit_and (32 - s) 31)

unfoldable pub rotr32 : ℕ → ℕ → ℕ
rotr32 v shift = let s = bit_and shift 31 in bit_or (v >>> s) (u32 (v <<< bit_and (32 - s) 31))

unfoldable pub cons_profile_salt : ℕ → ℕ
cons_profile_salt resolver_profile = bit_or (u32 (resolver_profile <<< 16)) resolver_profile

-- The order-sensitive fold CONS(car, cdr).
unfoldable pub cons_fold : ℕ → ℕ → ℕ → ℕ
unfolding rotl32 cons_profile_salt
cons_fold car cdr resolver_profile =
    let r1 = rotl32 car 1 in
    let r3 = rotl32 cdr 3 in bit_xor (bit_xor r1 r3) (cons_profile_salt resolver_profile)

unfoldable pub cons_recover_car : ℕ → ℕ → ℕ → ℕ
unfolding rotl32 rotr32 cons_profile_salt
cons_recover_car cons cdr resolver_profile =
    rotr32 (bit_xor (bit_xor cons (rotl32 cdr 3)) (cons_profile_salt resolver_profile)) 1

unfoldable pub cons_recover_cdr : ℕ → ℕ → ℕ → ℕ
unfolding rotl32 rotr32 cons_profile_salt
cons_recover_cdr car cons resolver_profile =
    rotr32 (bit_xor (bit_xor cons (rotl32 car 1)) (cons_profile_salt resolver_profile)) 3

-- A diagnostic value; nothing is recovered from it.
unfoldable pub cons_tracking_square16 : ℕ → ℕ → ℕ
cons_tracking_square16 car16 cdr16 =
    let linear = u32 (car16 * 4 + cdr16 * 2) in bit_and (u32 (linear * linear)) 0xFFFF

unfoldable pub verify_cons_recovery_law : ℕ → ℕ → ℕ → Bool
unfolding cons_fold cons_recover_car cons_recover_cdr
verify_cons_recovery_law car cdr resolver_profile =
    let cons = cons_fold car cdr resolver_profile in
    cons_recover_car cons cdr resolver_profile == car
    && cons_recover_cdr car cons resolver_profile == cdr
