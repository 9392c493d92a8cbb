-- ===== src/Hamming.antt =====
-- The Hamming code over the scope quartet and the azimuth byte, section 10 of
-- src/omnicron-coproduct-partition.c. Each field of a quartet is 0 or 1.
pub mod Azimuth
pub mod Correction
pub mod Degrees
use omino.Prelude.{ℕ, zero, suc, ◌+◌, ◌-◌, ◌*◌, ◌/◌, ◌%◌, ◌^◌, ◌≤◌, ◌<◌, bit_and, bit_or, bit_xor}
use omino.Prelude.{◌≡◌, refl, sym, ap, ap₂, ◌∙◌, ◌≢◌, ◌↔◌, ◌⊎◌, inl, inr, arith}
use omino.Prelude.{Bool, true, false, not, ◌&&◌, ◌||◌, Option, none, some, List, [], ◌∷◌, ◌++◌, map}
use omino.Prelude.{
  ltb, leb, ◌==◌, if◌then◌else◌, ==_iff, Bool-cases, Bool-ext, all_below, all_below_sound,
  all_below_sound₂,
}
use omino.Prelude.{u8, u16, u32, u64, ◌<<<◌, ◌>>>◌, length, get_or, take, drop, replicate}
use omino.Prelude.{
  length-set, get_or-set_self, get_or-set_ne, get_or_ext, length-replicate, get_or-replicate,
  length-append, ltb→lt, lt→ltb,
}
use omino.Prelude.{set as write}
use omino.Board.{plane_mirror}
use omino.Clock.{popcount16}

pub record ScopeQuartet : Type 0 where
  pub fs : ℕ
  pub gs : ℕ
  pub rs : ℕ
  pub us : ℕ

pub record EpistemicCheck : Type 0 where
  pub logos : ℕ
  pub nomos : ℕ
  pub pathos : ℕ
  pub omnion : ℕ

infixl 45 ◌⊕◌
abbrev pub ◌⊕◌ : ℕ → ℕ → ℕ
a ⊕ b = bit_xor a b

unfoldable pub compute_epistemic_check : ScopeQuartet → EpistemicCheck
compute_epistemic_check q =
    let logos = u8 (q.fs ⊕ q.gs ⊕ q.us) in
    let nomos = u8 (q.fs ⊕ q.rs ⊕ q.us) in
    let pathos = u8 (q.gs ⊕ q.rs ⊕ q.us) in
    record {
      logos = logos;
      nomos = nomos;
      pathos = pathos;
      omnion = u8 (logos ⊕ nomos ⊕ q.fs ⊕ pathos ⊕ q.gs ⊕ q.rs ⊕ q.us);
    }

-- `bit` has eight entries; the entry 0 is not used.
pub record HammingCodeword : Type 0 where
  pub bit : List ℕ

abbrev pub bit_at : HammingCodeword → ℕ → ℕ
bit_at cw i = get_or cw.bit i 0

unfoldable pub encode_hamming : ScopeQuartet → HammingCodeword
unfolding compute_epistemic_check
encode_hamming q =
    let c = compute_epistemic_check q in
    record { bit = 0 ∷ c.logos ∷ c.nomos ∷ q.fs ∷ c.pathos ∷ q.gs ∷ q.rs ∷ q.us ∷ [] }

unfoldable pub hamming_syndrome : HammingCodeword → ℕ
hamming_syndrome cw =
    let s_logos = u8 (bit_at cw 1 ⊕ bit_at cw 3 ⊕ bit_at cw 5 ⊕ bit_at cw 7) in
    let s_nomos = u8 (bit_at cw 2 ⊕ bit_at cw 3 ⊕ bit_at cw 6 ⊕ bit_at cw 7) in
    let s_pathos = u8 (bit_at cw 4 ⊕ bit_at cw 5 ⊕ bit_at cw 6 ⊕ bit_at cw 7) in
    u8 (bit_or (bit_or s_logos (u8 (s_nomos <<< 1))) (u8 (s_pathos <<< 2)))

pub data HammingStatus : Type 0 where
  hamming_ok corrected_single corrected_extension double_error_detected : HammingStatus

-- `for (i = i; left rounds; i++) parity ^= cw->bit[i];`
unfoldable pub parity_from : ℕ → ℕ → HammingCodeword → ℕ → ℕ
parity_from zero i cw parity = parity
parity_from (suc left) i cw parity = parity_from left (i + 1) cw (u8 (parity ⊕ bit_at cw i))

-- The codeword after the call, and the status.
pub record Checked : Type 0 where
  pub codeword : HammingCodeword
  pub status : HammingStatus

unfoldable pub hamming_secded_check : HammingCodeword → ℕ → Checked
unfolding hamming_syndrome parity_from
hamming_secded_check cw received_omnion =
    let syndrome = hamming_syndrome cw in
    let total_parity = u8 (parity_from 7 1 cw 0 ⊕ received_omnion) in
    if syndrome == 0 && total_parity == 0
    then record { codeword = cw; status = hamming_ok }
    else if not (syndrome == 0) && total_parity == 1
    then record {
      codeword = record { bit = write cw.bit syndrome (u8 (bit_at cw syndrome ⊕ 1)) };
      status = corrected_single;
    }
    else if syndrome == 0 && total_parity == 1
    then record { codeword = cw; status = corrected_extension }
    else record { codeword = cw; status = double_error_detected }

unfoldable pub verify_azimuth_anchors : Bool
unfolding popcount16
verify_azimuth_anchors =
    u8 (0x55 ⊕ 0xAA) == 0xFF && (popcount16 0x55AA == 8 && popcount16 0xAA55 == 8)
