-- ===== src/Gossip/Deframe.antt =====
-- The decoder undoes stuffing: on the stuffed form of some blocks its loops give back the blocks
-- with zeros between them.
use omino.Prelude.{ℕ, zero, suc, ◌+◌, ◌≤◌, ◌<◌}
use omino.Prelude.{◌≡◌, refl, sym, ap, ◌∙◌, arith}
use omino.Prelude.{true, false, ◌&&◌, some, List, [], ◌∷◌, ◌++◌}
use omino.Prelude.{ltb, leb}
use omino.Prelude.{length}
use omino.Prelude.{length-append, lt→ltb}
use mathlib.Core.List.{append-nil, append_assoc}
use omino.Cobs.{stuffed, joined, AreBlocks, no_blocks, block_then}
use omino.Cobs.Buffers.{write-append}
use omino.Gossip.{raw_frame_size, Decoding, Progress, going, end_block, decode_block, decode_blocks}
use omino.Gossip.Unstuff.{behind, decoding_ext, length-snoc, snoc-append, decode_block_lem}

nothing : (xs : List ℕ) → length xs ≡ 0 → xs ≡ []
nothing [] h = refl
nothing (x ∷ xs) h = absurd (omega arith)

one_more : (xs : List ℕ) → 0 < length xs → (x : ℕ) × (rest : List ℕ) × (xs ≡ x ∷ rest)
one_more [] h = absurd (omega arith)
one_more (x ∷ xs) h = (x, xs, refl)

module _ (wire : List ℕ) (target : ℕ) where
  end_last : (code : ℕ) (d : Decoding) → target ≤ d.src_idx → end_block code target d ≡ going d
  unfolding end_block
  end_last code d h =
      (let last : (ltb code 0xFF && ltb d.src_idx target) ≡ false = ground arith in rw last refl)

  end_inner :
      (code : ℕ) (pre out rest : List ℕ) (next : ℕ)
      → code < 255
      → length pre < target
      → length out < 64
      → end_block code target (behind pre out (next ∷ rest))
        ≡ going (behind pre (out ++ 0 ∷ []) rest)
  unfolding end_block
  end_inner code pre out rest next short inside fits =
      let inner : (ltb code 0xFF && ltb (length pre) target) ≡ true = ground arith in
      let room : leb raw_frame_size (length out) ≡ false = ground arith in
      rw (inner, room)
        (ap going (
          decoding_ext (write-append out rest next 0 ∙ sym (snoc-append out rest 0)) refl
            (sym (length-snoc out 0))))

  decode_step :
      (fuel : ℕ) (d e : Decoding)
      → d.src_idx < target
      → decode_block wire target d ≡ going e
      → decode_blocks (suc fuel) wire target (going d) ≡ decode_blocks fuel wire target (going e)
  unfolding decode_blocks
  decode_step fuel d e h step =
      let more : ltb d.src_idx target ≡ true = lt→ltb d.src_idx target h in rw (more, step) refl

  decode_done :
      (fuel : ℕ) (d : Decoding)
      → target ≤ d.src_idx
      → decode_blocks fuel wire target (going d) ≡ some (going d)
  unfolding decode_blocks
  decode_done zero d h = (let over : ltb d.src_idx target ≡ false = ground arith in rw over refl)
  decode_done (suc fuel) d h =
      (let over : ltb d.src_idx target ≡ false = ground arith in rw over refl)

  -- The variables once all blocks are read.
  abbrev pub read : List ℕ → List (List ℕ) → Progress
  read out blocks = going record {
    raw = out ++ joined blocks;
    src_idx = target;
    dst_idx = length (out ++ joined blocks);
  }

  pub decode_blocks_lem :
      {blocks : List (List ℕ)} (fuel : ℕ) (pre post out rest : List ℕ)
      → AreBlocks blocks
      → wire ≡ pre ++ (stuffed blocks ++ post)
      → length pre + length (stuffed blocks) ≡ target
      → length (joined blocks) ≡ length rest
      → length out + length rest ≤ 64
      → length (stuffed blocks) ≤ fuel
      → decode_blocks fuel wire target (going (behind pre out rest)) ≡ some (read out blocks)
  unfolding stuffed joined
  decode_blocks_lem fuel pre post out [] no_blocks at ends whole fits enough =
      decode_done fuel (behind pre out []) (omega arith)
      ∙ ap some (ap going (decoding_ext refl (omega arith) (ap length (sym (append-nil out)))))
  decode_blocks_lem fuel pre post out (x ∷ rest) no_blocks at ends whole fits enough =
      absurd (omega arith)
  decode_blocks_lem zero pre post out rest (block_then is_block short _) at ends whole fits enough =
      absurd (omega arith)
  decode_blocks_lem (suc fuel) pre post out rest (block_then {b} is_block short no_blocks) at ends
        whole fits enough =
      let code = suc (length b) in
      let unit = append-nil b in
      let (left, sizes, stepped) =
        decode_block_lem wire target pre post out rest is_block
          (at ∙ ap (λ xs. pre ++ (code ∷ (xs ++ post))) unit) (omega (arith, ap length unit))
          (omega arith) (omega arith) in
      let over : length (pre ++ (code ∷ b)) ≡ target =
        omega (arith, length-append pre (code ∷ b), ap length unit) in
      let last = behind (pre ++ (code ∷ b)) (out ++ b) left in
      decode_step fuel (behind pre out rest) last (omega (arith, ap length unit))
        (stepped ∙ end_last code last (omega arith))
      ∙ decode_done fuel last (omega arith)
      ∙ ap some (
          ap going (
            decoding_ext
              (ap (λ l. out ++ b ++ l) (nothing left (omega arith)) ∙ append-nil (out ++ b)) over
              refl))
  decode_blocks_lem (suc fuel) pre post out rest
        (block_then {b} is_block short (block_then {b = c} {bs = cs} is_next next_short more)) at
        ends whole fits enough =
      let code = suc (length b) in
      let later = stuffed (c ∷ cs) in
      let behind_block = append_assoc b later post in
      let all = length-append b later in
      let whole' = length-append b (0 ∷ joined (c ∷ cs)) in
      let at' = at ∙ ap (λ xs. pre ++ (code ∷ xs)) behind_block in
      let (left, sizes, stepped) =
        decode_block_lem wire target pre (later ++ post) out rest is_block at' (omega arith)
          (omega arith) (omega arith) in
      let (next, others, e) = one_more left (omega arith) in
      let passed = length-append pre (code ∷ b) in
      let written = length-append out b in
      let o = out ++ b ++ 0 ∷ [] in
      decode_step fuel (behind pre out rest) (behind (pre ++ (code ∷ b)) o others) (omega arith) (
        stepped
        ∙ ap (λ l. end_block code target (behind (pre ++ (code ∷ b)) (out ++ b) l)) e
        ∙ end_inner code (pre ++ (code ∷ b)) (out ++ b) others next (omega arith) (omega arith)
            (omega arith))
      ∙ decode_blocks_lem fuel (pre ++ (code ∷ b)) post o others
          (block_then is_next next_short more)
          (at' ∙ sym (append_assoc pre (code ∷ b) (later ++ post))) (omega arith)
          (omega (arith, ap length e)) (omega (arith, ap length e, length-snoc (out ++ b) 0))
          (omega arith)
      ∙ ap (λ xs. some (going record { raw = xs; src_idx = target; dst_idx = length xs }))
          (snoc-append (out ++ b) (joined (c ∷ cs)) 0 ∙ append_assoc out b (0 ∷ joined (c ∷ cs)))
