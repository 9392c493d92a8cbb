-- ===== src/Gossip/Decode.antt =====
-- The decoder returns on every input, and hands out only a packet of the local step.
use omino.Prelude.{ℕ, zero, suc, ◌+◌, ◌-◌, ◌≤◌}
use omino.Prelude.{◌≡◌, refl, ap, ◌≢◌, ◌⊎◌, inl, inr, arith}
use omino.Prelude.{false, not, ◌&&◌, ◌||◌, some, List}
use omino.Prelude.{ltb, leb, ◌==◌, Bool-cases}
use omino.Prelude.{replicate}
use omino.Gossip.{
  gossip_ok, corrupt_frame, zero_leak, GossipPacket, byte_at, raw_frame_size, Decoding, Progress,
  going, failed, emit, copy_block, end_block, ◌>=>◌, decode_block, decode_blocks, Decoded, verify,
  decode_and_verify, unpack_raw, zero_packet, wire_frame_max,
}
use mathlib.Core.Option.{map as option_map}

-- The loops fail, with an error, or they have not gone back from `n`.
abbrev Advances : ℕ → Progress → Type 0
Advances n (going d) = n ≤ d.src_idx
Advances n (failed status) = status ≢ gossip_ok

pub corrupt_error : corrupt_frame ≢ gossip_ok
corrupt_error e = ground arith

pub leak_error : zero_leak ≢ gossip_ok
leak_error e = ground arith

-- Where the variables may be behind.
Advances-mono : (m n : ℕ) (p : Progress) → m ≤ n → Advances n p → Advances m p
Advances-mono m n (going d) h a = omega arith
Advances-mono m n (failed status) h a = a

copy_block-Advances :
    (left : ℕ) (wire : List ℕ) (target : ℕ) (d : Decoding)
    → Advances d.src_idx (copy_block left wire target d)
unfolding copy_block
copy_block-Advances zero wire target d = omega arith
copy_block-Advances (suc left) wire target d =
    let next : Decoding = record (emit d (byte_at wire d.src_idx)) { src_idx = d.src_idx + 1 } in
    elim (Bool-cases (leb target d.src_idx || leb raw_frame_size d.dst_idx)) [
      | inl full ↦ rw full corrupt_error
      | inr room ↦ rw room (elim (Bool-cases (byte_at wire d.src_idx == 0)) [
        | inl leak ↦ rw leak leak_error
        | inr byte ↦ rw byte (
            Advances-mono d.src_idx (d.src_idx + 1) (copy_block left wire target next) (omega arith)
              (copy_block-Advances left wire target next))
      ])
    ]

end_block-Advances : (code target : ℕ) (d : Decoding) → Advances d.src_idx (end_block code target d)
unfolding end_block
end_block-Advances code target d = elim (Bool-cases (ltb code 0xFF && ltb d.src_idx target)) [
  | inr last ↦ rw last (omega arith)
  | inl open_block ↦ rw open_block (elim (Bool-cases (leb raw_frame_size d.dst_idx)) [
    | inl full ↦ rw full corrupt_error
    | inr room ↦ rw room (omega arith)
  ])
]

bind-Advances :
    (n : ℕ) (p : Progress) (k : Decoding → Progress)
    → Advances n p
    → ((d : Decoding) → Advances d.src_idx (k d))
    → Advances n (p >=> k)
bind-Advances n (going d) k a h = Advances-mono n d.src_idx (k d) a (h d)
bind-Advances n (failed status) k a h = a

-- A round of the outer loop reads at least the code of a block.
decode_block-Advances :
    (wire : List ℕ) (target : ℕ) (d : Decoding)
    → Advances (d.src_idx + 1) (decode_block wire target d)
unfolding decode_block
decode_block-Advances wire target d =
    let inside = record d { src_idx = d.src_idx + 1 } in
    let code = byte_at wire d.src_idx in
    elim (Bool-cases (code == 0)) [
      | inl leak ↦ rw leak leak_error
      | inr block ↦ rw block (
          bind-Advances (d.src_idx + 1) (copy_block (code - 1) wire target inside)
            (end_block code target) (copy_block-Advances (code - 1) wire target inside)
            (end_block-Advances code target))
    ]

decode_blocks_returns :
    (fuel : ℕ) (wire : List ℕ) (target n : ℕ) (p : Progress)
    → Advances n p
    → target ≤ fuel + n
    → (q : Progress) × (decode_blocks fuel wire target p ≡ some q) × Advances 0 q
unfolding decode_blocks
decode_blocks_returns zero wire target n (failed status) a h = (failed status, refl, a)
decode_blocks_returns (suc fuel) wire target n (failed status) a h = (failed status, refl, a)
decode_blocks_returns zero wire target n (going d) a h =
    (going d, (let done : ltb d.src_idx target ≡ false = ground arith in rw done refl), omega arith)
decode_blocks_returns (suc fuel) wire target n (going d) a h =
    elim (Bool-cases (ltb d.src_idx target)) [
      | inr done ↦ (going d, rw done refl, omega arith)
      | inl more ↦
          let (q, returns, advances) =
            decode_blocks_returns fuel wire target (d.src_idx + 1) (decode_block wire target d)
              (decode_block-Advances wire target d) (omega arith) in
          (q, rw more returns, advances)
    ]

verify_lem :
    (local_accumulator : ℕ) (old : GossipPacket) (p : Progress)
    → Advances 0 p
    → let out = verify local_accumulator old p in
      ((out.status ≡ gossip_ok) × (out.packet.step_accumulator ≡ local_accumulator))
      ⊎ ((out.status ≢ gossip_ok) × (out.packet ≡ old))
unfolding verify
verify_lem local_accumulator old (failed status) a = inr (a, refl)
verify_lem local_accumulator old (going d) a =
    let candidate = unpack_raw d.raw zero_packet in
    elim (Bool-cases (d.dst_idx == raw_frame_size)) [
      | inr short ↦ rw short (inr (corrupt_error, refl))
      | inl whole ↦ rw whole (elim (Bool-cases (candidate.step_accumulator == local_accumulator)) [
        | inr other ↦ rw other (inr ((λ e. ground arith), refl))
        | inl same ↦ rw same (inl (refl, ground arith))
      ])
    ]

-- On every buffer, length and local step the decoder returns within its fuel; it either accepts,
-- and then hands out a packet of the local step, or reports an error and leaves the packet of
-- its caller as it was.
pub decode_and_verify_returns :
    (wire : List ℕ) (wire_len local_accumulator : ℕ) (old : GossipPacket)
    → (out : Decoded) × (decode_and_verify wire wire_len local_accumulator old ≡ some out)
      × (((out.status ≡ gossip_ok) × (out.packet.step_accumulator ≡ local_accumulator))
          ⊎ ((out.status ≢ gossip_ok) × (out.packet ≡ old)))
unfolding decode_and_verify
decode_and_verify_returns wire wire_len local_accumulator old =
    let start : Decoding = record { raw = replicate raw_frame_size 0; src_idx = 0; dst_idx = 0 } in
    let bad =
      ltb wire_len 2 || ltb wire_frame_max wire_len || not (byte_at wire (wire_len - 1) == 0) in
    elim (Bool-cases bad) [
      | inl refused ↦ (
        record { packet = old; status = corrupt_frame },
        rw refused refl,
        inr (corrupt_error, refl),
      )
      | inr accepted ↦
          let (q, returns, advances) =
            decode_blocks_returns (wire_len - 1) wire (wire_len - 1) 0 (going start) (omega arith)
              (omega arith) in
          (
            verify local_accumulator old q,
            rw accepted (ap (option_map (verify local_accumulator old)) returns),
            verify_lem local_accumulator old q advances,
          )
    ]
