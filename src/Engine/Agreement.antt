-- ===== src/Engine/Agreement.antt =====
-- The gossip decoder and the bounded decoder on one wire.
use omino.Prelude.{ℕ, zero, suc, ◌+◌, ◌-◌}
use omino.Prelude.{◌≡◌, refl, sym, ap, ◌∙◌, ◌≢◌, inl, inr, arith}
use omino.Prelude.{not, ◌&&◌, ◌||◌, Option, none, some, List}
use omino.Prelude.{ltb, leb, ◌==◌, Bool-cases}
use omino.Prelude.{replicate}
use mathlib.Core.Option.{map as option_map}
use omino.Engine.{
  eal_ok, BoundedDecoding, going, copy_bytes, end_bytes, decode_code, decode_codes, finish,
  cobs_decode_bounded,
}
use omino.Engine.{Progress as Result, ◌>=>◌ as ◌>>>>◌}
use omino.Gossip.{
  gossip_ok, corrupt_frame, sync_mismatch, GossipPacket, byte_at, raw_frame_size, wire_frame_max,
  Decoding, Progress, emit, copy_block, end_block, decode_block, decode_blocks, verify,
  decode_and_verify, unpack_raw, zero_packet,
}
use omino.Gossip.{going as running, failed as refused, ◌>=>◌}
use omino.Gossip.{Decoded as Received}
use omino.Gossip.Decode.{corrupt_error, leak_error}

-- The variables of the bounded loops that stand for those of the gossip loops.
abbrev seen : Decoding → BoundedDecoding
seen d = record { dst = d.raw; src_idx = d.src_idx; dst_idx = d.dst_idx }

-- The gossip loops fail, with an error, or the bounded loops are where they are.
abbrev Agree : Progress → Result → Type 0
Agree (running d) q = q ≡ going (seen d)
Agree (refused status) q = status ≢ gossip_ok

copy_block-Agree :
    (left : ℕ) (wire : List ℕ) (target : ℕ) (d : Decoding)
    → Agree (copy_block left wire target d) (copy_bytes left wire target raw_frame_size (seen d))
unfolding copy_bytes copy_block
copy_block-Agree zero wire target d = refl
copy_block-Agree (suc left) wire target d =
    elim (Bool-cases (leb target d.src_idx || leb raw_frame_size d.dst_idx)) [
      | inl full ↦ rw full corrupt_error
      | inr room ↦ rw room (elim (Bool-cases (byte_at wire d.src_idx == 0)) [
        | inl leak ↦ rw leak leak_error
        | inr byte ↦ rw byte (
            copy_block-Agree left wire target
              (record (emit d (byte_at wire d.src_idx)) { src_idx = d.src_idx + 1 }))
      ])
    ]

end_block-Agree :
    (code target : ℕ) (d : Decoding)
    → Agree (end_block code target d) (end_bytes code target raw_frame_size (seen d))
unfolding end_bytes end_block
end_block-Agree code target d = elim (Bool-cases (ltb code 0xFF && ltb d.src_idx target)) [
  | inr last ↦ rw last refl
  | inl open_block ↦ rw open_block (elim (Bool-cases (leb raw_frame_size d.dst_idx)) [
    | inl full ↦ rw full corrupt_error
    | inr room ↦ rw room refl
  ])
]

bind-Agree :
    (p : Progress) (q : Result) (k : Decoding → Progress) (l : BoundedDecoding → Result)
    → Agree p q
    → ((d : Decoding) → Agree (k d) (l (seen d)))
    → Agree (p >=> k) (q >>>> l)
bind-Agree (running d) q k l a h = rw a (h d)
bind-Agree (refused status) q k l a h = a

decode_block-Agree :
    (wire : List ℕ) (target : ℕ) (d : Decoding)
    → Agree (decode_block wire target d) (decode_code wire target raw_frame_size (seen d))
unfolding decode_block decode_code
decode_block-Agree wire target d =
    let code = byte_at wire d.src_idx in
    let inside = record d { src_idx = d.src_idx + 1 } in
    elim (Bool-cases (code == 0)) [
      | inl leak ↦ rw leak leak_error
      | inr block ↦ rw block (
          bind-Agree (copy_block (code - 1) wire target inside)
            (copy_bytes (code - 1) wire target raw_frame_size (seen inside)) (end_block code target)
            (end_bytes code target raw_frame_size) (copy_block-Agree (code - 1) wire target inside)
            (end_block-Agree code target))
    ]

-- The gossip decoder fails, with an error, or the bounded decoder ends where it does.
abbrev Ends : Option Progress → Option Result → Type 0
Ends none o = o ≡ o
Ends (some (running d)) o = o ≡ some (going (seen d))
Ends (some (refused status)) o = status ≢ gossip_ok

decode_blocks-Ends :
    (fuel : ℕ) (wire : List ℕ) (target : ℕ) (p : Progress) (q : Result)
    → Agree p q
    → Ends (decode_blocks fuel wire target p) (decode_codes fuel wire target raw_frame_size q)
unfolding decode_blocks decode_codes
decode_blocks-Ends zero wire target (refused status) q a = a
decode_blocks-Ends (suc fuel) wire target (refused status) q a = a
decode_blocks-Ends zero wire target (running d) q a =
    rw a (elim (Bool-cases (ltb d.src_idx target)) [
      | inl more ↦ rw more refl
      | inr done ↦ rw done refl
    ])
decode_blocks-Ends (suc fuel) wire target (running d) q a =
    rw a (elim (Bool-cases (ltb d.src_idx target)) [
      | inr done ↦ rw done refl
      | inl more ↦ rw more (
          decode_blocks-Ends fuel wire target (decode_block wire target d)
            (decode_code wire target raw_frame_size (seen d)) (decode_block-Agree wire target d))
    ])

sync_error : sync_mismatch ≢ gossip_ok
sync_error e = ground arith

-- A whole frame, and what the bounded decoder makes of it.
verify-whole :
    (local_accumulator : ℕ) (old : GossipPacket) (d : Decoding)
    → (verify local_accumulator old (running d)).status ≡ gossip_ok
    → (d.dst_idx ≡ raw_frame_size)
      × ((verify local_accumulator old (running d)).packet ≡ unpack_raw d.raw zero_packet)
unfolding verify
verify-whole local_accumulator old d =
    let candidate = unpack_raw d.raw zero_packet in
    elim (Bool-cases (d.dst_idx == raw_frame_size)) [
      | inr short ↦ rw short (λ ok. absurd (corrupt_error ok))
      | inl whole ↦
          let full : d.dst_idx ≡ raw_frame_size = ground arith in
          rw whole (elim (Bool-cases (candidate.step_accumulator == local_accumulator)) [
            | inr other ↦ rw other (λ ok. absurd (sync_error ok))
            | inl same ↦ rw same (λ ok. (full, refl))
          ])
    ]

agreement :
    (local_accumulator : ℕ) (old : GossipPacket) (o : Option Progress) (q : Option Result)
    (out : Received)
    → Ends o q
    → option_map (verify local_accumulator old) o ≡ some out
    → out.status ≡ gossip_ok
    → (raw : List ℕ) × (option_map finish q
        ≡ some record { dst = raw; dst_len = raw_frame_size; status = eal_ok })
      × (out.packet ≡ unpack_raw raw zero_packet)
unfolding verify
agreement local_accumulator old none q out ends accepts ok = ground arith
agreement local_accumulator old (some (running d)) q out ends accepts ok =
    let same : verify local_accumulator old (running d) ≡ out = ground arith in
    let (full, packet) = verify-whole local_accumulator old d (ap (λ r. r.status) same ∙ ok) in
    (d.raw, rw ends (rw full refl), ap (λ r. r.packet) (sym same) ∙ packet)
agreement local_accumulator old (some (refused status)) q out ends accepts ok =
    let same : verify local_accumulator old (refused status) ≡ out = ground arith in
    absurd (ends (ap (λ r. r.status) same ∙ ok))

-- Where the gossip decoder accepts a wire, the bounded decoder on the wire without its last
-- byte, with a zeroed buffer of 64 bytes, returns 64 bytes without an error, and they unpack to
-- the packet that the gossip decoder handed out.
pub decode_and_verify-cobs_decode_bounded :
    (wire : List ℕ) (wire_len local_accumulator : ℕ) (old : GossipPacket) (out : Received)
    → decode_and_verify wire wire_len local_accumulator old ≡ some out
    → out.status ≡ gossip_ok
    → (raw : List ℕ) × (cobs_decode_bounded wire
          (wire_len - 1)
          (replicate raw_frame_size 0)
          raw_frame_size
        ≡ some record { dst = raw; dst_len = raw_frame_size; status = eal_ok })
      × (out.packet ≡ unpack_raw raw zero_packet)
unfolding decode_and_verify cobs_decode_bounded
decode_and_verify-cobs_decode_bounded wire wire_len local_accumulator old out =
    let start : Decoding = record { raw = replicate raw_frame_size 0; src_idx = 0; dst_idx = 0 } in
    let bad =
      ltb wire_len 2 || ltb wire_frame_max wire_len || not (byte_at wire (wire_len - 1) == 0) in
    elim (Bool-cases bad) [
      | inl rejected ↦ rw rejected (λ accepts ok.
          let refusal : Received = record { packet = old; status = corrupt_frame } in
          let same : refusal ≡ out = ground arith in
          absurd (corrupt_error (ap (λ r. r.status) same ∙ ok)))
      | inr accepted ↦ rw accepted (
          agreement local_accumulator old
            (decode_blocks (wire_len - 1) wire (wire_len - 1) (running start))
            (decode_codes (wire_len - 1) wire (wire_len - 1) raw_frame_size (going (seen start)))
            out
            (decode_blocks-Ends (wire_len - 1) wire (wire_len - 1) (running start)
              (going (seen start)) refl))
    ]
