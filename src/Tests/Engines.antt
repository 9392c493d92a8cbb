-- ===== src/Tests/Engines.antt =====
-- The address engine, and the wire of the gossip packets under both decoders.
use omino.Prelude.{ℕ, ◌+◌, ◌-◌, ◌*◌, ◌/◌, ◌%◌, ◌^◌, ◌≤◌, ◌<◌}
use omino.Prelude.{◌≡◌, refl, ◌⊎◌, arith}
use omino.Prelude.{true, false, some, List, [], ◌∷◌}
use omino.Prelude.{ltb, all_below, all_below_sound}
use omino.Prelude.{length, get_or, replicate}
use omino.Prelude.{length-replicate, ltb→lt}
use omino.Engine.{
  eal_ok, band_breach, Decoded, cobs_decode_bounded, OmiAddress128, parse_hex_frame, parse_segments,
  parse_hex_segment, hex_digits, hex_value, ReconciledEngineState, reconcile_interface,
  decode_codes, decode_code, copy_bytes, end_bytes,
}
use omino.Engine.Bounded.{cobs_decode_bounded_returns}
use omino.Prelude.{map, ◌↔◌}
use omino.Prelude.{set as write}
use omino.Engine.Case.{lower}
use omino.Engine.Texts.{parse_hex_frame_iff}
use omino.Engine.Hex.{AreWords, frame_text, segment_text, hex_digit}
use omino.Engine.Reconcile.{reconcile_interface_lem}
use omino.Engine.Agreement.{decode_and_verify-cobs_decode_bounded}
use omino.Gossip.{zero_packet, gossip_ok, decode_and_verify, unpack_raw}
use omino.Gossip.RoundTrip.{received, decode_and_verify-encode_frame}
use omino.Tests.Frames.{outgoing, outgoing-IsPacket, sent, frame_roundtrip}

abbrev stuffed_wire : List ℕ
stuffed_wire = 3 ∷ 0x11 ∷ 0x22 ∷ 2 ∷ 0x33 ∷ []

cobs_decode_bounded_returns_example :
    (out : Decoded) × (cobs_decode_bounded stuffed_wire 5 (replicate 8 0) 4 ≡ some out)
    × (out.dst_len ≤ 4)
    × ((out.status ≡ eal_ok) ⊎ (out.dst_len ≡ 0))
    × (length out.dst ≡ length {A = ℕ} (replicate 8 0))
    × ((j : ℕ) → 4 ≤ j → get_or out.dst j 0 ≡ get_or (replicate 8 0) j 0)
cobs_decode_bounded_returns_example = cobs_decode_bounded_returns stuffed_wire 5 (replicate 8 0) 4

-- Two blocks give their bytes with a zero between them.
two_blocks :
    cobs_decode_bounded stuffed_wire 5 (replicate 8 0) 4
    ≡ some
        record { dst = 0x11 ∷ 0x22 ∷ 0 ∷ 0x33 ∷ 0 ∷ 0 ∷ 0 ∷ 0 ∷ []; dst_len = 4; status = eal_ok }
unfolding cobs_decode_bounded decode_codes decode_code copy_bytes end_bytes replicate
two_blocks = refl

abbrev segments : List ℕ
segments = 0xCAFE ∷ 0x0001 ∷ 0xFFFF ∷ 0 ∷ 0x1234 ∷ 0xABCD ∷ 7 ∷ 0x8000 ∷ []

segments-AreWords : AreWords segments
unfolding AreWords
segments-AreWords i h =
    ltb→lt _ _ (all_below_sound 8 (λ k. ltb (get_or segments k 0) (2 ^ 16)) i passed h)
  where
    passed : all_below 8 (λ k. ltb (get_or segments k 0) (2 ^ 16)) ≡ true
    passed = unfold all_below in refl

abbrev blank : OmiAddress128
blank = record { segments = replicate 8 0 }

-- The text of the segments, with its first digit in upper case.
abbrev shouted : List ℕ
shouted = write (frame_text segments) 0 b'C'

parse_hex_frame_iff_example :
    (parse_hex_frame shouted blank ≡ (true, record { segments = segments }))
    ↔ ((length segments ≡ 8) × AreWords segments × (map lower shouted ≡ frame_text segments))
parse_hex_frame_iff_example = parse_hex_frame_iff shouted segments blank (length-replicate 8 0)

shouted-lower : map lower shouted ≡ frame_text segments
unfolding frame_text segment_text hex_digit lower
shouted-lower = refl

shouted_parsed : parse_hex_frame shouted blank ≡ (true, record { segments = segments })
shouted_parsed =
    (parse_hex_frame_iff shouted segments blank (length-replicate 8 0)).1
      (refl, segments-AreWords, shouted-lower)

-- What is written before the character that is refused stays.
refused_frame :
    parse_hex_frame (0x30 ∷ 0x30 ∷ 0x30 ∷ 0x37 ∷ replicate 35 0x67) blank
    ≡ (false, record { segments = 7 ∷ replicate 7 0 })
unfolding parse_hex_frame parse_segments parse_hex_segment hex_digits hex_value replicate
refused_frame = refl

abbrev before : ReconciledEngineState
before = record {
  x_omi = 9;
  y_imo = 9;
  parabolic_evaluation = 9;
  active_surface_band = 9;
  is_centroid = true;
}

reconcile_interface_lem_example :
    let addr : OmiAddress128 = record { segments = segments } in
    (0x1B ≤ 0x7F
      → reconcile_interface addr 0x1B before ≡ (
        eal_ok,
        record {
          x_omi = 0xCAFE;
          y_imo = 1;
          parabolic_evaluation = (4 * 0xCAFE + 2 * 1) * (4 * 0xCAFE + 2 * 1) % 2 ^ 32;
          active_surface_band = (0x1B - 1) / 32;
          is_centroid = false;
        },
      ))
    × (0x7F < 0x1B
        → reconcile_interface addr 0x1B before
          ≡ (band_breach, record before { x_omi = 0xCAFE; y_imo = 1 }))
reconcile_interface_lem_example =
    reconcile_interface_lem (record { segments = segments }) 0x1B before (omega arith) (omega arith)

decode_and_verify-encode_frame_example :
    (sent.status ≡ gossip_ok)
    × (decode_and_verify sent.wire sent.wire_len 94832047 zero_packet
        ≡ some (received outgoing 94832047 zero_packet))
decode_and_verify-encode_frame_example =
    decode_and_verify-encode_frame outgoing zero_packet (replicate 66 0) 66 94832047
      outgoing-IsPacket (omega (arith, length-replicate {A = ℕ} 66 0)) (omega arith)

decode_and_verify-cobs_decode_bounded_example :
    (raw : List ℕ) × (cobs_decode_bounded sent.wire (sent.wire_len - 1) (replicate 64 0) 64
      ≡ some record { dst = raw; dst_len = 64; status = eal_ok })
    × (outgoing ≡ unpack_raw raw zero_packet)
decode_and_verify-cobs_decode_bounded_example =
    decode_and_verify-cobs_decode_bounded sent.wire sent.wire_len 94832047 zero_packet
      (record { packet = outgoing; status = gossip_ok }) frame_roundtrip refl
