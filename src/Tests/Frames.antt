-- ===== src/Tests/Frames.antt =====
-- A gossip packet on the wire.
use omino.Prelude.{◌≡◌, refl, ◌≢◌, ◌⊎◌, arith}
use omino.Prelude.{some, ◌∷◌}
use omino.Prelude.{replicate}
use omino.Gossip.{
  GossipPacket, gossip_ok, Decoded, Encoded, zero_packet, pack_raw, unpack_raw, encode_frame,
  encode_bytes, encode_byte, put_le, get_le, memcpy, decode_and_verify, decode_blocks, decode_block,
  copy_block, end_block, verify,
}
use omino.Gossip.Packing.{IsPacket}
use omino.Gossip.Decode.{decode_and_verify_returns}

abbrev pub outgoing : GossipPacket
outgoing = record zero_packet {
  source_node_id = 0xE5F32C3;
  step_accumulator = 94832047;
  omnion_phase = 1;
  board_matrix = 0x80 ∷ replicate 31 0;
}

pub outgoing-IsPacket : IsPacket outgoing
unfolding replicate
outgoing-IsPacket = record { node = omega arith; step = omega arith; board = refl; digest = refl }

abbrev pub sent : Encoded
sent = encode_frame (some outgoing) (replicate 66 0) 66

decode_and_verify_returns_example :
    (out : Decoded) × (decode_and_verify sent.wire sent.wire_len 94832047 zero_packet ≡ some out)
    × (((out.status ≡ gossip_ok) × (out.packet.step_accumulator ≡ 94832047))
        ⊎ ((out.status ≢ gossip_ok) × (out.packet ≡ zero_packet)))
decode_and_verify_returns_example =
    decode_and_verify_returns sent.wire sent.wire_len 94832047 zero_packet

-- The frame decodes to the packet that was sent.
pub frame_roundtrip :
    decode_and_verify sent.wire sent.wire_len 94832047 zero_packet
    ≡ some record { packet = outgoing; status = gossip_ok }
unfolding replicate encode_frame encode_bytes encode_byte pack_raw unpack_raw put_le get_le memcpy
    decode_and_verify decode_blocks decode_block copy_block end_block verify
frame_roundtrip = refl
