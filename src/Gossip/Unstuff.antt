-- ===== src/Gossip/Unstuff.antt =====
-- What the decoder does with one stuffed block.
use omino.Prelude.{ℕ, suc, ◌+◌, ◌-◌, ◌≤◌}
use omino.Prelude.{◌≡◌, refl, sym, ap, ap₂, ◌∙◌, arith}
use omino.Prelude.{false, ◌||◌, List, [], ◌∷◌, ◌++◌}
use omino.Prelude.{leb, ◌==◌}
use omino.Prelude.{length}
use omino.Prelude.{length-append}
use mathlib.Core.List.{append-nil, append_assoc}
use omino.Cobs.{IsBlock, empty, byte}
use omino.Cobs.Buffers.{write-append, get_or-append}
use omino.Gossip.{
  byte_at, raw_frame_size, Decoding, going, emit, copy_block, end_block, decode_block,
}

-- The variables behind the piece `pre` of the wire and the piece `out` of the raw frame.
abbrev pub behind : List ℕ → List ℕ → List ℕ → Decoding
behind pre out rest = record { raw = out ++ rest; src_idx = length pre; dst_idx = length out }

pub decoding_ext :
    {r r' : List ℕ} {s s' d d' : ℕ}
    → r ≡ r'
    → s ≡ s'
    → d ≡ d'
    → Path Decoding
        record { raw = r; src_idx = s; dst_idx = d }
        record { raw = r'; src_idx = s'; dst_idx = d' }
decoding_ext p q r = rw (p, q, r) refl

pub length-snoc : (xs : List ℕ) (x : ℕ) → length (xs ++ x ∷ []) ≡ length xs + 1
length-snoc xs x = length-append xs (x ∷ [])

pub snoc-append : (xs ys : List ℕ) (x : ℕ) → xs ++ x ∷ [] ++ ys ≡ xs ++ (x ∷ ys)
snoc-append xs ys x = append_assoc xs (x ∷ []) ys

emit-behind :
    (pre out rest : List ℕ) (b next : ℕ)
    → Path Decoding
        (record (emit (behind pre out (next ∷ rest)) b) { src_idx = length pre + 1 })
        (behind (pre ++ b ∷ []) (out ++ b ∷ []) rest)
emit-behind pre out rest b next =
    decoding_ext (write-append out rest next b ∙ sym (snoc-append out rest b))
      (sym (length-snoc pre b)) (sym (length-snoc out b))

module _ (wire : List ℕ) (target : ℕ) where
  copy_block_lem :
      {block : List ℕ} (pre post out rest : List ℕ)
      → IsBlock block
      → wire ≡ pre ++ (block ++ post)
      → length pre + length block ≤ target
      → length out + length block ≤ 64
      → length block ≤ length rest
      → (left : List ℕ) × (length left + length block ≡ length rest)
        × (copy_block (length block) wire target (behind pre out rest)
            ≡ going (behind (pre ++ block) (out ++ block) left))
  unfolding copy_block
  copy_block_lem pre post out rest empty at inside fits room =
      (rest, omega arith, ap going (rw (append-nil pre, append-nil out) refl))
  copy_block_lem pre post out [] (byte ne t) at inside fits room = absurd (omega arith)
  copy_block_lem pre post out (next ∷ rest) (byte {b} {bs} ne t) at inside fits room =
      let reads : byte_at wire (length pre) ≡ b = rw at (get_or-append pre (bs ++ post) b 0) in
      let goes : (leb target (length pre) || leb raw_frame_size (length out)) ≡ false =
        ground arith in
      let not_zero : (b == 0) ≡ false = ground arith in
      let (left, sizes, copied) =
        copy_block_lem (pre ++ b ∷ []) post (out ++ b ∷ []) rest t
          (at ∙ sym (snoc-append pre (bs ++ post) b)) (omega (arith, length-snoc pre b))
          (omega (arith, length-snoc out b)) (omega arith) in
      (
        left,
        omega arith,
        rw (goes, reads, not_zero, emit-behind pre out rest b next)
            (copied
              ∙ ap₂ (λ p o. going (behind p o left)) (snoc-append pre bs b) (snoc-append out bs b)),
      )

  read_code :
      (block pre post out rest left : List ℕ)
      → wire ≡ pre ++ (suc (length block) ∷ (block ++ post))
      → copy_block (length block) wire target (behind (pre ++ suc (length block) ∷ []) out rest)
        ≡ going (behind (pre ++ suc (length block) ∷ [] ++ block) (out ++ block) left)
      → decode_block wire target (behind pre out rest)
        ≡ end_block
            (suc (length block))
            target
            (behind (pre ++ (suc (length block) ∷ block)) (out ++ block) left)
  unfolding decode_block
  read_code block pre post out rest left at copied =
      let code = suc (length block) in
      let reads : byte_at wire (length pre) ≡ code =
        rw at (get_or-append pre (block ++ post) code 0) in
      let past_code : Path Decoding (record (behind pre out rest) { src_idx = length pre + 1 })
          (behind (pre ++ code ∷ []) out rest) =
        decoding_ext refl (sym (length-snoc pre code)) refl in
      let rounds : code - 1 ≡ length block = omega arith in
      let not_zero : (code == 0) ≡ false = ground arith in
      rw (reads, not_zero, rounds, past_code, copied)
        (ap (λ p. end_block code target (behind p (out ++ block) left))
          (snoc-append pre block code))

  -- One block: its code, its bytes, and what ends it.
  pub decode_block_lem :
      {block : List ℕ} (pre post out rest : List ℕ)
      → IsBlock block
      → wire ≡ pre ++ (suc (length block) ∷ (block ++ post))
      → length pre + suc (length block) ≤ target
      → length out + length block ≤ 64
      → length block ≤ length rest
      → (left : List ℕ) × (length left + length block ≡ length rest)
        × (decode_block wire target (behind pre out rest)
            ≡ end_block
                (suc (length block))
                target
                (behind (pre ++ (suc (length block) ∷ block)) (out ++ block) left))
  unfolding decode_block
  decode_block_lem {block} pre post out rest is_block at inside fits room =
      let code = suc (length block) in
      let (left, sizes, copied) =
        copy_block_lem (pre ++ code ∷ []) post out rest is_block
          (at ∙ sym (snoc-append pre (block ++ post) code)) (omega (arith, length-snoc pre code))
          fits room in
      (left, sizes, read_code block pre post out rest left at copied)
