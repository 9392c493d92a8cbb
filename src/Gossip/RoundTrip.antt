-- ===== src/Gossip/RoundTrip.antt =====
-- A packet that was sent is received.
use omino.Prelude.{ℕ, ◌≤◌}
use omino.Prelude.{◌≡◌, refl, sym, ap, ◌∙◌, inl, inr, arith}
use omino.Prelude.{true, some, List, [], ◌∷◌, ◌++◌}
use omino.Prelude.{◌==◌, if◌then◌else◌, ==_iff, Bool-cases}
use omino.Prelude.{length, replicate}
use omino.Prelude.{length-replicate}
use omino.Cobs.{split, stuffed, joined, joined-split, length-stuffed-split, split-AreBlocks, empty}
use omino.Cobs.Buffers.{get_or-append}
use omino.Gossip.{
  GossipPacket, byte_at, pack_raw, unpack_raw, encode_frame, going, verify, Decoded,
  decode_and_verify, zero_packet, gossip_ok, sync_mismatch, raw_frame_size,
}
use mathlib.Core.Option.{map as option_map}
use omino.Gossip.Encode.{encode_frame-Sent}
use omino.Gossip.Deframe.{decode_blocks_lem}
use omino.Gossip.Packing.{IsPacket, length-pack_raw, unpack_raw-pack_raw}

-- What the receiver hands out: the packet if it is of the local step.
abbrev pub received : GossipPacket → ℕ → GossipPacket → Decoded
received p local_accumulator old =
    if p.step_accumulator == local_accumulator
    then record { packet = p; status = gossip_ok }
    else record { packet = old; status = sync_mismatch }

module _ (p old : GossipPacket) (local_accumulator : ℕ) (fits : IsPacket p) where
  verify_whole :
      (raw : List ℕ) (n : ℕ)
      → raw ≡ pack_raw p
      → verify local_accumulator old (going record { raw = raw; src_idx = n; dst_idx = length raw })
        ≡ received p local_accumulator old
  unfolding verify
  verify_whole raw n e =
      let whole : (length raw == raw_frame_size) ≡ true =
        (==_iff _ _).1 (ap length e ∙ length-pack_raw p fits) in
      let packet : unpack_raw raw zero_packet ≡ p =
        rw e (
          unpack_raw-pack_raw p zero_packet fits (length-replicate 32 0) (length-replicate 16 0)) in
      rw (whole, packet)
        (elim (Bool-cases (p.step_accumulator == local_accumulator)) [
          | inl same ↦ rw same refl
          | inr other ↦ rw other refl
        ])

  decode_sent :
      (wire left : List ℕ) (wire_len : ℕ)
      → wire ≡ stuffed (split [] (pack_raw p)) ++ (0 ∷ left)
      → wire_len ≡ 66
      → decode_and_verify wire wire_len local_accumulator old
        ≡ some (received p local_accumulator old)
  unfolding decode_and_verify
  decode_sent wire left wire_len at len =
      let blocks = split [] (pack_raw p) in
      let frame = stuffed blocks in
      let raw = length-pack_raw p fits in
      let size : length frame ≡ 65 = omega (arith, raw, length-stuffed-split [] (pack_raw p)) in
      let ended : byte_at wire 65 ≡ 0 = rw (← size, at) (get_or-append frame left 0 0) in
      let decoded =
        decode_blocks_lem wire 65 65 [] (0 ∷ left) [] (replicate 64 0)
          (split-AreBlocks [] (pack_raw p) empty (omega arith)) at (omega arith)
          (ap length (joined-split [] (pack_raw p)) ∙ raw ∙ sym (length-replicate 64 0))
          (rw length-replicate (omega arith)) (omega arith) in
      rw (len, ended)
        (ap (option_map (verify local_accumulator old)) decoded
          ∙ ap some (verify_whole (joined blocks) 65 (joined-split [] (pack_raw p))))

-- A packet whose fields fit their widths, framed into a buffer of 66 bytes at least, is sent
-- without an error; decoding the wire gives the packet back when its step is the local one, and
-- otherwise a sync mismatch that leaves the packet of the caller as it was.
pub decode_and_verify-encode_frame :
    (p old : GossipPacket) (buf : List ℕ) (cap local_accumulator : ℕ)
    → IsPacket p
    → 66 ≤ length buf
    → 66 ≤ cap
    → let sent = encode_frame (some p) buf cap in
      (sent.status ≡ gossip_ok)
      × (decode_and_verify sent.wire sent.wire_len local_accumulator old
          ≡ some (received p local_accumulator old))
decode_and_verify-encode_frame p old buf cap local_accumulator fits room wide =
    let sent = encode_frame-Sent p buf cap (length-pack_raw p fits) room wide in
    (sent.status, decode_sent p old local_accumulator fits _ sent.left _ sent.wire sent.wire_len)
