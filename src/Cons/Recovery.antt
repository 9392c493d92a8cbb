-- ===== src/Cons/Recovery.antt =====
-- CONS loses neither of its arguments: each is recovered from the other and the folded word.
use omino.Prelude.{ℕ, ◌^◌, ◌<◌, bit_xor}
use omino.Prelude.{◌≡◌, ap, arith}
use omino.Prelude.{true}
use omino.Prelude.{u32, ◌<<<◌}
use omino.Prelude.Bits.Xor.{
  bit_xor_assoc, bit_xor_comm, bit_xor_cancel, bit_xor-lt, bit_or-lt, bit_xor_left_comm,
  bit_xor_self, bit_xor-zero,
}
use omino.Cons.{rotl32, cons_profile_salt, cons_fold, cons_recover_car, cons_recover_cdr}
use omino.Cons.{verify_cons_recovery_law}
use omino.Cons.Rotation.{rotr32-rotl32, rotl32-rotr32, rotl32-lt}

salt-lt : (profile : ℕ) → profile < 2 ^ 16 → cons_profile_salt profile < 2 ^ 32
unfolding cons_profile_salt
salt-lt profile h = bit_or-lt 32 (u32 (profile <<< 16)) profile (omega arith) (omega arith)

-- The fold stays within 32 bits.
pub cons_fold-lt :
    (car cdr profile : ℕ)
    → car < 2 ^ 32
    → cdr < 2 ^ 32
    → profile < 2 ^ 16
    → cons_fold car cdr profile < 2 ^ 32
unfolding cons_fold
cons_fold-lt car cdr profile hcar hcdr hp =
    bit_xor-lt 32 (bit_xor (rotl32 car 1) (rotl32 cdr 3)) (cons_profile_salt profile)
      (bit_xor-lt 32 (rotl32 car 1) (rotl32 cdr 3) (rotl32-lt car 1 hcar) (rotl32-lt cdr 3 hcdr))
      (salt-lt profile hp)

-- Two of three terms cancel.
leaves_first : (a b c : ℕ) → bit_xor (bit_xor (bit_xor (bit_xor a b) c) b) c ≡ a
leaves_first a b c =
    simp (bit_xor_assoc, bit_xor_left_comm b c, bit_xor_self, bit_xor_cancel, bit_xor-zero)

leaves_second : (a b c : ℕ) → bit_xor (bit_xor (bit_xor (bit_xor a b) c) a) c ≡ b
leaves_second a b c = rw (bit_xor_comm a b) (leaves_first b a c)

-- The fold gives back its first word.
pub cons_recover_car-fold :
    (car cdr profile : ℕ)
    → car < 2 ^ 32
    → cons_recover_car (cons_fold car cdr profile) cdr profile ≡ car
unfolding cons_recover_car cons_fold
cons_recover_car-fold car cdr profile h =
    rw (leaves_first (rotl32 car 1) (rotl32 cdr 3) (cons_profile_salt profile))
      (rotr32-rotl32 car 1 h)

-- The fold gives back its second word.
pub cons_recover_cdr-fold :
    (car cdr profile : ℕ)
    → cdr < 2 ^ 32
    → cons_recover_cdr car (cons_fold car cdr profile) profile ≡ cdr
unfolding cons_recover_cdr cons_fold
cons_recover_cdr-fold car cdr profile h =
    rw (leaves_second (rotl32 car 1) (rotl32 cdr 3) (cons_profile_salt profile))
      (rotr32-rotl32 cdr 3 h)

-- For 32-bit words and a 16-bit profile, the CAR recovered from any word and a CDR folds, with
-- that CDR, to the word.
pub cons_fold-recover_car :
    (cons cdr profile : ℕ)
    → cons < 2 ^ 32
    → cdr < 2 ^ 32
    → profile < 2 ^ 16
    → cons_fold (cons_recover_car cons cdr profile) cdr profile ≡ cons
unfolding cons_fold cons_recover_car
cons_fold-recover_car cons cdr profile hc hd hp =
    rw (rotl32-rotr32 (bit_xor (bit_xor cons (rotl32 cdr 3)) (cons_profile_salt profile)) 1 fits)
      (twice cons (rotl32 cdr 3) (cons_profile_salt profile))
  where
    fits : bit_xor (bit_xor cons (rotl32 cdr 3)) (cons_profile_salt profile) < 2 ^ 32
    fits =
        bit_xor-lt 32 _ _ (bit_xor-lt 32 cons (rotl32 cdr 3) hc (rotl32-lt cdr 3 hd))
          (salt-lt profile hp)

    twice : (a b c : ℕ) → bit_xor (bit_xor (bit_xor (bit_xor a b) c) b) c ≡ a
    twice a b c = leaves_first a b c

-- For all 32-bit words the recovery law that the program checks of itself holds: the fold gives
-- back each word from the other.
pub verify_cons_recovery_law_holds :
    (car cdr profile : ℕ)
    → car < 2 ^ 32
    → cdr < 2 ^ 32
    → verify_cons_recovery_law car cdr profile ≡ true
unfolding verify_cons_recovery_law
verify_cons_recovery_law_holds car cdr profile hcar hcdr =
    ground (
      arith,
      cons_recover_car-fold car cdr profile hcar,
      cons_recover_cdr-fold car cdr profile hcdr,
    )

-- For 32-bit words, with one argument fixed, the fold tells any two values of the other apart.
pub cons_fold_inj :
    (car car' cdr cdr' profile : ℕ)
    → car < 2 ^ 32
    → car' < 2 ^ 32
    → cdr < 2 ^ 32
    → cdr' < 2 ^ 32
    → (cons_fold car cdr profile ≡ cons_fold car' cdr profile → car ≡ car')
      × (cons_fold car cdr profile ≡ cons_fold car cdr' profile → cdr ≡ cdr')
cons_fold_inj car car' cdr cdr' profile h h' k k' = (
  λ e. cc (
    cons_recover_car-fold car cdr profile h,
    cons_recover_car-fold car' cdr profile h',
    ap (λ (w : ℕ). cons_recover_car w cdr profile) e,
  ),
  λ e. cc (
    cons_recover_cdr-fold car cdr profile k,
    cons_recover_cdr-fold car cdr' profile k',
    ap (λ (w : ℕ). cons_recover_cdr car w profile) e,
  ),
)
