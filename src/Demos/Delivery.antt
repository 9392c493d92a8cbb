-- ===== src/Demos/Delivery.antt =====
-- The emulated exchange of one packet, at any step.
use omino.Prelude.{ℕ, ◌^◌, ◌≤◌, ◌<◌}
use omino.Prelude.{◌≡◌, refl, arith}
use omino.Prelude.{true, some, List}
use omino.Prelude.{◌==◌, ==_iff}
use omino.Prelude.{length, replicate}
use omino.Gossip.{GossipPacket}
use omino.Gossip.Packing.{IsPacket, length-pack_raw}
use omino.Gossip.Encode.{encode_frame-Sent}
use omino.Gossip.RoundTrip.{decode_and_verify-encode_frame}
use omino.Demos.{demo_packet, success, app_main_gossip_test}

demo_packet-IsPacket : (local_step : ℕ) → local_step < 2 ^ 64 → IsPacket (demo_packet local_step)
unfolding replicate
demo_packet-IsPacket local_step h = record {
  node = omega arith;
  step = h;
  board = refl;
  digest = refl;
}

-- At every 64-bit step, with a wire of 66 bytes at least, the emulated gossip main reports a frame
-- of 66 bytes, the node and the step, whatever its two uninitialised variables hold.
pub app_main_gossip_test_lem :
    (local_step : ℕ) (incoming : GossipPacket) (wire : List ℕ)
    → local_step < 2 ^ 64
    → 66 ≤ length wire
    → app_main_gossip_test local_step incoming wire ≡ some (success 66 0xE5F32C3 local_step)
unfolding app_main_gossip_test
app_main_gossip_test_lem local_step incoming wire h room =
    let p = demo_packet local_step in
    let fits = demo_packet-IsPacket local_step h in
    let (_, delivered) =
      decode_and_verify-encode_frame p incoming wire 66 local_step fits room (omega arith) in
    let sent = encode_frame-Sent p wire 66 (length-pack_raw p fits) room (omega arith) in
    let own : (local_step == local_step) ≡ true = (==_iff _ _).1 refl in
    rw (delivered, own, sent.wire_len) refl
