-- ===== src/Gossip.antt =====
-- Gossip packets and their frames, examples/esp32/esp32_p2p_gossip.c. Buffers are lists of bytes of
-- their C length; a byte is a number below 2 ^ 8.
pub mod Encode
pub mod Decode
pub mod Unstuff
pub mod Deframe
pub mod RoundTrip
pub mod Fields
pub mod Packing
use omino.Prelude.{ℕ, zero, suc, ◌+◌, ◌-◌, ◌*◌, ◌/◌, ◌%◌, ◌^◌, ◌≤◌, ◌<◌, bit_and, bit_or, bit_xor}
use omino.Prelude.{◌≡◌, refl, sym, ap, ap₂, ◌∙◌, ◌≢◌, ◌↔◌, ◌⊎◌, inl, inr, arith}
use omino.Prelude.{Bool, true, false, not, ◌&&◌, ◌||◌, Option, none, some, List, [], ◌∷◌, ◌++◌, map}
use omino.Prelude.{
  ltb, leb, ◌==◌, if◌then◌else◌, ==_iff, Bool-cases, Bool-ext, all_below, all_below_sound,
  all_below_sound₂,
}
use omino.Prelude.{u8, u16, u32, u64, ◌<<<◌, ◌>>>◌, length, get_or, take, drop, replicate}
use omino.Prelude.{
  length-set, get_or-set_self, get_or-set_ne, get_or_ext, length-replicate, get_or-replicate,
  length-append, ltb→lt, lt→ltb,
}
use omino.Prelude.{set as write}
use mathlib.Core.Option.{map as option_map}

pub data GossipStatus : Type 0 where
  gossip_ok corrupt_frame zero_leak sync_mismatch : GossipStatus

-- `board_matrix` has 32 bytes and `transport_digest` 16.
pub record GossipPacket : Type 0 where
  pub source_node_id : ℕ
  pub step_accumulator : ℕ
  pub omnion_phase : ℕ
  pub board_matrix : List ℕ
  pub transport_digest : List ℕ

abbrev pub raw_frame_size : ℕ
raw_frame_size = 64

abbrev pub wire_frame_max : ℕ
wire_frame_max = 66

abbrev pub byte_at : List ℕ → ℕ → ℕ
byte_at bytes i = get_or bytes i 0

-- `for (i = i; left rounds; i++) dst[i] = (uint8_t)((value >> (i * 8)) & 0xFF);` with `dst` at
-- `offset` of a buffer.
unfoldable pub put_le : ℕ → ℕ → ℕ → ℕ → List ℕ → List ℕ
put_le zero i offset value raw = raw
put_le (suc left) i offset value raw =
    put_le left (i + 1) offset value
      (write raw (offset + i) (u8 (bit_and (value >>> (i * 8)) 0xFF)))

abbrev pub put_u32_le : ℕ → ℕ → List ℕ → List ℕ
put_u32_le offset value raw = put_le 4 0 offset value raw

abbrev pub put_u64_le : ℕ → ℕ → List ℕ → List ℕ
put_u64_le offset value raw = put_le 8 0 offset value raw

-- `for (i = i; left rounds; i++) value |= (uintW_t)src[i] << (i * 8);` for the width `w`.
unfoldable pub get_le : ℕ → ℕ → ℕ → ℕ → List ℕ → ℕ → ℕ
get_le w zero i offset raw value = value
get_le w (suc left) i offset raw value =
    get_le w left (i + 1) offset raw (bit_or value (byte_at raw (offset + i) <<< (i * 8) % 2 ^ w))

abbrev pub get_u32_le : ℕ → List ℕ → ℕ
get_u32_le offset raw = get_le 32 4 0 offset raw 0

abbrev pub get_u64_le : ℕ → List ℕ → ℕ
get_u64_le offset raw = get_le 64 8 0 offset raw 0

-- `memcpy(&dst[to], &src[from], count)`.
unfoldable pub memcpy : ℕ → List ℕ → ℕ → List ℕ → ℕ → List ℕ
memcpy zero dst to src from = dst
memcpy (suc count) dst to src from =
    memcpy count (write dst to (byte_at src from)) (to + 1) src (from + 1)

unfoldable pub pack_raw : GossipPacket → List ℕ
pack_raw packet =
    let zeros = replicate raw_frame_size 0 in
    let with_id = put_u32_le 0 packet.source_node_id zeros in
    let with_step = put_u64_le 4 packet.step_accumulator with_id in
    let with_phase = write with_step 12 packet.omnion_phase in
    let with_board = memcpy 32 with_phase 16 packet.board_matrix 0 in
    memcpy 16 with_board 48 packet.transport_digest 0

unfoldable pub unpack_raw : List ℕ → GossipPacket → GossipPacket
unpack_raw raw packet = record {
  source_node_id = get_u32_le 0 raw;
  step_accumulator = get_u64_le 4 raw;
  omnion_phase = byte_at raw 12;
  board_matrix = memcpy 32 packet.board_matrix 0 raw 16;
  transport_digest = memcpy 16 packet.transport_digest 0 raw 48;
}

-- The variables of the encoding loop.
pub record Encoding : Type 0 where
  pub out : List ℕ
  pub dst_idx : ℕ
  pub code_idx : ℕ
  pub code : ℕ

-- The body of the loop over the bytes of the raw frame.
unfoldable pub encode_byte : ℕ → Encoding → Encoding
encode_byte byte e =
    if byte == 0
    then record {
      out = write e.out e.code_idx e.code;
      dst_idx = e.dst_idx + 1;
      code_idx = e.dst_idx;
      code = 1;
    }
    else record e {
      out = write e.out e.dst_idx byte;
      dst_idx = e.dst_idx + 1;
      code = u8 (e.code + 1);
    }

unfoldable pub encode_bytes : List ℕ → Encoding → Encoding
encode_bytes [] e = e
encode_bytes (byte ∷ rest) e = encode_bytes rest (encode_byte byte e)

-- The buffer after the call, the length returned, and the status.
pub record Encoded : Type 0 where
  pub wire : List ℕ
  pub wire_len : ℕ
  pub status : GossipStatus

-- `esp32_gossip_encode_frame` with a buffer `out_wire_buf` and a packet that may be null.
unfoldable pub encode_frame : Option GossipPacket → List ℕ → ℕ → Encoded
encode_frame none out_wire_buf out_wire_cap = record {
  wire = out_wire_buf;
  wire_len = 0;
  status = corrupt_frame;
}
encode_frame (some packet) out_wire_buf out_wire_cap =
    if ltb out_wire_cap wire_frame_max
    then record { wire = out_wire_buf; wire_len = 0; status = corrupt_frame }
    else let e =
        encode_bytes (pack_raw packet)
          record { out = write out_wire_buf 0 0; dst_idx = 1; code_idx = 0; code = 1 } in
      record {
        wire = write (write e.out e.code_idx e.code) e.dst_idx 0;
        wire_len = e.dst_idx + 1;
        status = gossip_ok;
      }

-- The variables of the decoding loops.
pub record Decoding : Type 0 where
  pub raw : List ℕ
  pub src_idx : ℕ
  pub dst_idx : ℕ

-- A loop goes on with its variables, or the function returns an error.
pub data Progress : Type 0 where
  going : Decoding → Progress
  failed : GossipStatus → Progress

-- `raw[dst_idx++] = byte;`
abbrev pub emit : Decoding → ℕ → Decoding
emit d byte = record d { raw = write d.raw d.dst_idx byte; dst_idx = d.dst_idx + 1 }

-- The inner loop, with `left` rounds to go.
unfoldable pub copy_block : ℕ → List ℕ → ℕ → Decoding → Progress
copy_block zero wire target d = going d
copy_block (suc left) wire target d =
    let rest =
      copy_block left wire target
        (record (emit d (byte_at wire d.src_idx)) { src_idx = d.src_idx + 1 }) in
    if leb target d.src_idx || leb raw_frame_size d.dst_idx
    then failed corrupt_frame
    else if byte_at wire d.src_idx == 0
    then failed zero_leak
    else rest

-- The zero that ends a block, unless the block is full or the last one.
unfoldable pub end_block : ℕ → ℕ → Decoding → Progress
end_block code target d =
    if ltb code 0xFF && ltb d.src_idx target
    then if leb raw_frame_size d.dst_idx then failed corrupt_frame else going (emit d 0)
    else going d

infixl 5 ◌>=>◌
abbrev pub ◌>=>◌ : Progress → (Decoding → Progress) → Progress
going d >=> next = next d
failed status >=> next = failed status

-- One round of the outer loop.
unfoldable pub decode_block : List ℕ → ℕ → Decoding → Progress
decode_block wire target d =
    let code = byte_at wire d.src_idx in
    if code == 0
    then failed zero_leak
    else copy_block (code - 1) wire target (record d { src_idx = d.src_idx + 1 })
      >=> end_block code target

-- The outer loop on fuel: `none` means that the fuel ran out.
unfoldable pub decode_blocks : ℕ → List ℕ → ℕ → Progress → Option Progress
decode_blocks fuel wire target (failed status) = some (failed status)
decode_blocks zero wire target (going d) = if ltb d.src_idx target then none else some (going d)
decode_blocks (suc fuel) wire target (going d) =
    let rest = decode_blocks fuel wire target (decode_block wire target d) in
    if ltb d.src_idx target then rest else some (going d)

-- The packet after the call, and the status.
pub record Decoded : Type 0 where
  pub packet : GossipPacket
  pub status : GossipStatus

abbrev pub zero_packet : GossipPacket
zero_packet = record {
  source_node_id = 0;
  step_accumulator = 0;
  omnion_phase = 0;
  board_matrix = replicate 32 0;
  transport_digest = replicate 16 0;
}

-- What follows the loops.
unfoldable pub verify : ℕ → GossipPacket → Progress → Decoded
verify local_accumulator out_packet (failed status) = record {
  packet = out_packet;
  status = status;
}
verify local_accumulator out_packet (going d) =
    let candidate = unpack_raw d.raw zero_packet in
    if not (d.dst_idx == raw_frame_size)
    then record { packet = out_packet; status = corrupt_frame }
    else if not (candidate.step_accumulator == local_accumulator)
    then record { packet = out_packet; status = sync_mismatch }
    else record { packet = candidate; status = gossip_ok }

-- `esp32_gossip_decode_and_verify` on pointers that are not null.
unfoldable pub decode_and_verify : List ℕ → ℕ → ℕ → GossipPacket → Option Decoded
decode_and_verify wire_buf wire_len local_accumulator out_packet =
    if ltb wire_len 2 || ltb wire_frame_max wire_len || not (byte_at wire_buf (wire_len - 1) == 0)
    then some record { packet = out_packet; status = corrupt_frame }
    else let target_decode_len = wire_len - 1 in
      option_map (verify local_accumulator out_packet) (
        decode_blocks target_decode_len wire_buf target_decode_len
          (going record { raw = replicate raw_frame_size 0; src_idx = 0; dst_idx = 0 }))
