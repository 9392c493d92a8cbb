-- ===== src/Hamming/Correction.antt =====
-- The extended code corrects every single flipped bit and detects every two.
use omino.Prelude.{ℕ, zero, suc, ◌+◌, ◌≤◌, ◌<◌}
use omino.Prelude.{◌≡◌, refl, sym, ap, ap₂, ◌∙◌, arith}
use omino.Prelude.{Bool, true, false, ◌&&◌, ◌||◌, List, [], ◌∷◌}
use omino.Prelude.{◌==◌, all_below, all_below_sound, all_below_sound₂}
use omino.Prelude.{set as write}
use native.Mathlib.Numerals.{add-one}
use omino.Hamming.{
  ScopeQuartet, HammingCodeword, HammingStatus, hamming_ok, corrected_single, corrected_extension,
  double_error_detected, Checked, bit_at, encode_hamming, hamming_secded_check, ◌⊕◌,
  compute_epistemic_check,
}

-- A quartet of bits.
pub record IsQuartet (q : ScopeQuartet) : Type 0 where
  pub fs : q.fs < 2
  pub gs : q.gs < 2
  pub rs : q.rs < 2
  pub us : q.us < 2

-- A codeword received with one entry flipped.
abbrev pub flip : HammingCodeword → ℕ → HammingCodeword
flip cw i = record { bit = write cw.bit i (bit_at cw i ⊕ 1) }

abbrev pub omnion_of : ScopeQuartet → ℕ
omnion_of q = (compute_epistemic_check q).omnion

abbrev number : HammingStatus → ℕ
number hamming_ok = 0
number corrected_single = 1
number corrected_extension = 2
number double_error_detected = 3

abbrev numbered : ℕ → HammingStatus
numbered zero = hamming_ok
numbered (suc zero) = corrected_single
numbered (suc (suc zero)) = corrected_extension
numbered (suc (suc (suc n))) = double_error_detected

numbered-number : (s : HammingStatus) → numbered (number s) ≡ s
numbered-number hamming_ok = refl
numbered-number corrected_single = refl
numbered-number corrected_extension = refl
numbered-number double_error_detected = refl

unfoldable same_bits : List ℕ → List ℕ → Bool
same_bits [] [] = true
same_bits (x ∷ xs) (y ∷ ys) = x == y && same_bits xs ys
same_bits _ _ = false

same_bits_sound : (xs ys : List ℕ) → same_bits xs ys ≡ true → xs ≡ ys
unfolding same_bits
same_bits_sound [] [] h = refl
same_bits_sound [] (y ∷ ys) h = ground arith
same_bits_sound (x ∷ xs) [] h = ground arith
same_bits_sound (x ∷ xs) (y ∷ ys) h = ap₂ ◌∷◌ (ground arith) (same_bits_sound xs ys (ground arith))

unfoldable same_result : Checked → Checked → Bool
same_result a b = number a.status == number b.status && same_bits a.codeword.bit b.codeword.bit

same_result_sound : (a b : Checked) → same_result a b ≡ true → a ≡ b
unfolding same_result
same_result_sound a b h =
    let bits : a.codeword.bit ≡ b.codeword.bit = same_bits_sound _ _ (ground arith) in
    let numbers : number a.status ≡ number b.status = ground arith in
    let status : a.status ≡ b.status =
      sym (numbered-number a.status) ∙ ap numbered numbers ∙ numbered-number b.status in
    ap₂ (λ w s. record { codeword = record { bit = w }; status = s }) bits status

-- A test of every quartet of bits.
unfoldable all_quartets : (ScopeQuartet → Bool) → Bool
all_quartets p = all_below 2 λ fs.
    all_below 2
      λ gs. all_below 2 λ rs. all_below 2 λ us. p (record { fs = fs; gs = gs; rs = rs; us = us })

all_quartets_sound :
    (p : ScopeQuartet → Bool) (q : ScopeQuartet) → all_quartets p ≡ true → IsQuartet q → p q ≡ true
unfolding all_quartets
all_quartets_sound p q h bits =
    all_below_sound₂ 2 2 (λ rs us. p (record { fs = q.fs; gs = q.gs; rs = rs; us = us })) q.rs q.us
      (all_below_sound₂ 2 2
        (λ fs gs.
          all_below 2 λ rs. all_below 2 λ us. p (record { fs = fs; gs = gs; rs = rs; us = us }))
        q.fs q.gs h bits.fs bits.gs)
      bits.rs bits.us

abbrev corrects : ScopeQuartet → ℕ → Bool
corrects q k =
    same_result (hamming_secded_check (flip (encode_hamming q) (k + 1)) (omnion_of q))
      record { codeword = encode_hamming q; status = corrected_single }

abbrev accepts : ScopeQuartet → Bool
accepts q =
    same_result (hamming_secded_check (encode_hamming q) (omnion_of q))
      record { codeword = encode_hamming q; status = hamming_ok }
    && same_result (hamming_secded_check (encode_hamming q) (omnion_of q ⊕ 1))
        record { codeword = encode_hamming q; status = corrected_extension }

abbrev detects : ScopeQuartet → ℕ → ℕ → Bool
detects q k l =
    let received = flip (flip (encode_hamming q) (k + 1)) (l + 1) in
    k == l
    || same_result (hamming_secded_check received (omnion_of q))
        record { codeword = received; status = double_error_detected }

abbrev detects_extension : ScopeQuartet → ℕ → Bool
detects_extension q k =
    let received = flip (encode_hamming q) (k + 1) in
    same_result (hamming_secded_check received (omnion_of q ⊕ 1))
      record { codeword = received; status = double_error_detected }

all_accept : all_quartets accepts ≡ true
unfolding all_quartets all_below same_result same_bits hamming_secded_check encode_hamming
all_accept = refl

all_correct : all_quartets (λ q. all_below 7 (corrects q)) ≡ true
unfolding all_quartets all_below same_result same_bits hamming_secded_check encode_hamming
all_correct = refl

all_detect :
    all_quartets
      (λ q. all_below 7 (detects_extension q) && all_below 7 (λ k. all_below 7 (detects q k)))
    ≡ true
unfolding all_quartets all_below same_result same_bits hamming_secded_check encode_hamming
all_detect = refl

-- For a quartet of bits, a codeword received as it was sent is accepted; where the OMNION bit
-- alone is flipped the check says so and keeps the codeword.
pub hamming_secded_check_accepts :
    (q : ScopeQuartet)
    → IsQuartet q
    → (hamming_secded_check (encode_hamming q) (omnion_of q)
        ≡ record { codeword = encode_hamming q; status = hamming_ok })
      × (hamming_secded_check (encode_hamming q) (omnion_of q ⊕ 1)
          ≡ record { codeword = encode_hamming q; status = corrected_extension })
hamming_secded_check_accepts q bits =
    let h = all_quartets_sound accepts q all_accept bits in
    (same_result_sound _ _ (ground arith), same_result_sound _ _ (ground arith))

-- For a quartet of bits, one flipped entry of the codeword, with the OMNION bit as sent, is
-- corrected: the check restores what was sent and says so.
pub hamming_secded_check_corrects :
    (q : ScopeQuartet) (i : ℕ)
    → IsQuartet q
    → 1 ≤ i
    → i ≤ 7
    → hamming_secded_check (flip (encode_hamming q) i) (omnion_of q)
      ≡ record { codeword = encode_hamming q; status = corrected_single }
hamming_secded_check_corrects q zero bits pos h = absurd (omega arith)
hamming_secded_check_corrects q (suc k) bits pos h = same_result_sound _ _ (
    rw (← add-one k) (
      all_below_sound 7 (corrects q) k
        (all_quartets_sound (λ x. all_below 7 (corrects x)) q all_correct bits) (omega arith)))

-- For a quartet of bits, two flipped bits, of the codeword or one of it and the OMNION bit, are
-- reported as a double error, and the codeword is left as received.
pub hamming_secded_check_detects :
    (q : ScopeQuartet) (i j : ℕ)
    → IsQuartet q
    → 1 ≤ i
    → i < j
    → j ≤ 7
    → let one = flip (encode_hamming q) i in
      let two = flip one j in
      (hamming_secded_check one (omnion_of q ⊕ 1)
        ≡ record { codeword = one; status = double_error_detected })
      × (hamming_secded_check two (omnion_of q)
          ≡ record { codeword = two; status = double_error_detected })
hamming_secded_check_detects q zero j bits pos lt h = absurd (omega arith)
hamming_secded_check_detects q (suc k) zero bits pos lt h = absurd (omega arith)
hamming_secded_check_detects q (suc k) (suc l) bits pos lt h =
    let both =
      all_quartets_sound
        (λ x. all_below 7 (detects_extension x) && all_below 7 (λ a. all_below 7 (detects x a))) q
        all_detect bits in
    let one = all_below_sound 7 (detects_extension q) k (ground arith) (omega arith) in
    let two = all_below_sound₂ 7 7 (detects q) k l (ground arith) (omega arith) (omega arith) in
    (
      same_result_sound _ _ (rw (← add-one k) one),
      same_result_sound _ _ (rw (← add-one k, ← add-one l) (ground arith)),
    )
