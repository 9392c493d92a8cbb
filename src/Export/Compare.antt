-- ===== src/Export/Compare.antt =====
-- What the comparison of two export images decides.
use omino.Prelude.{ℕ, zero, suc, ◌+◌, ◌≤◌, ◌<◌}
use omino.Prelude.{◌≡◌, refl, ap, ◌∙◌, ◌≢◌, ◌↔◌, ◌⊎◌, inl, inr, arith}
use omino.Prelude.{◌||◌, some, List}
use omino.Prelude.{ltb, ◌==◌, ==_iff, Bool-cases}
use omino.Prelude.{get_or}
use omino.Export.{export_ok, byte_mismatch, BinaryExportImage, compare_from, binary_export_compare}

-- The bytes from `i` on, `left` of them.
abbrev Agree : List ℕ → List ℕ → ℕ → ℕ → Type 0
Agree a b i left = (k : ℕ) → i ≤ k → k < i + left → get_or a k 0 ≡ get_or b k 0

from_first :
    (a b : List ℕ) (i n : ℕ)
    → get_or a i 0 ≡ get_or b i 0
    → Agree a b (i + 1) n
    → Agree a b i (suc n)
from_first a b i n first agree k low high = elim (Bool-cases (i == k)) [
  | inl here ↦ rw (← (==_iff i k).0 here) first
  | inr there ↦ agree k (ground arith) (omega arith)
]

-- Every byte agrees, or the first one that does not is reported.
compare_from_cases :
    (left i : ℕ) (a b : List ℕ)
    → (Agree a b i left × (compare_from left i a b ≡ (export_ok, i + left)))
      ⊎ ((k : ℕ) × (k < left)
          × Agree a b i k
          × (get_or a (i + k) 0 ≢ get_or b (i + k) 0)
          × (compare_from left i a b ≡ (byte_mismatch, i + k)))
unfolding compare_from
compare_from_cases zero i a b =
    inl ((λ k low high. absurd (omega arith)), ap (λ (n : ℕ). (export_ok, n)) (omega arith))
compare_from_cases (suc left) i a b = elim (Bool-cases (get_or a i 0 == get_or b i 0)) [
  | inr apart ↦
      let here : i + 0 ≡ i = omega arith in
      inr (
        0,
        omega arith,
        (λ k low high. absurd (omega arith)),
        rw here (λ e. ground (arith, (==_iff _ _).1 e)),
        rw (apart, here) refl,
      )
  | inl same ↦
      let first = (==_iff _ _).0 same in
      elim (compare_from_cases left (i + 1) a b) [
        | inl (agree, result) ↦ inl (
          from_first a b i left first agree,
          rw same (result ∙ ap (λ (n : ℕ). (export_ok, n)) (omega arith)),
        )
        | inr (k, lt, agree, differ, result) ↦
            let there : i + 1 + k ≡ i + suc k = omega arith in
            inr (
              suc k,
              omega arith,
              from_first a b i k first agree,
              rw (← there) differ,
              rw same (result ∙ ap (λ (n : ℕ). (byte_mismatch, n)) there),
            )
      ]
]

-- What the caller of the comparison learns.
pub record Compared (a b : BinaryExportImage) : Type 0 where
  pub short : (a.stream_length ≤ 64) × (b.stream_length ≤ 64)
  pub lengths : a.stream_length ≡ b.stream_length
  pub hashes : a.signature_hash ≡ b.signature_hash
  pub bytes : Agree a.binary_data b.binary_data 0 a.stream_length

-- Two images compare equal exactly when neither is longer than 64 bytes and their lengths, their
-- hashes and all bytes below the length agree; a byte mismatch comes with the index of the first
-- byte that differs.
pub binary_export_compare_iff :
    (a b : BinaryExportImage)
    → (((binary_export_compare (some a) (some b)).0 ≡ export_ok) ↔ Compared a b)
      × ((binary_export_compare (some a) (some b)).0 ≡ byte_mismatch
          → (k : ℕ) × (binary_export_compare (some a) (some b) ≡ (byte_mismatch, some k))
            × Agree a.binary_data b.binary_data 0 k
            × (get_or a.binary_data k 0 ≢ get_or b.binary_data k 0))
unfolding binary_export_compare
binary_export_compare_iff a b =
    elim (Bool-cases (ltb 64 a.stream_length || ltb 64 b.stream_length)) [
      | inl long ↦
          rw long
            ((λ ok. ground arith, λ c. (let (p, q) = c.short in ground arith)), λ e. ground arith)
      | inr short ↦ rw short (elim (Bool-cases (a.stream_length == b.stream_length)) [
        | inr unlike ↦
            rw unlike
              ((λ ok. ground arith, λ c. (let e = c.lengths in ground arith)), λ e. ground arith)
        | inl lengths ↦ rw lengths (elim (Bool-cases (a.signature_hash == b.signature_hash)) [
          | inr other ↦
              rw other
                ((λ ok. ground arith, λ c. (let e = c.hashes in ground arith)), λ e. ground arith)
          | inl hashes ↦
              rw hashes (elim (compare_from_cases a.stream_length 0 a.binary_data b.binary_data) [
                | inl (agree, result) ↦ rw result (
                  (
                    λ _. record {
                      short = (ground arith, ground arith);
                      lengths = ground arith;
                      hashes = ground arith;
                      bytes = agree;
                    },
                    λ c. refl,
                  ),
                  λ e. ground arith,
                )
                | inr (k, lt, agree, differ, result) ↦
                    let first_bytes : Agree a.binary_data b.binary_data 0 (0 + k) =
                      (λ j low high. agree j low (omega arith)) in
                    rw result (
                      (
                        λ ok. ground arith,
                        λ c. absurd (differ (c.bytes (0 + k) (omega arith) (omega arith))),
                      ),
                      λ e. (0 + k, refl, first_bytes, differ),
                    )
              ])
        ])
      ])
    ]
