-- ===== src/Demos.antt =====
-- The emulated mains of the programs under examples, as runs to the values that they print and the
-- exit code. The texts around the values are not modelled, and a variable that the C code does not
-- initialise is an argument.
pub mod Delivery
use omino.Prelude.{ℕ, zero, suc, ◌+◌, ◌-◌, ◌*◌, ◌/◌, ◌%◌, ◌^◌, ◌≤◌, ◌<◌, bit_and, bit_or, bit_xor}
use omino.Prelude.{◌≡◌, refl, sym, ap, ap₂, ◌∙◌, ◌≢◌, ◌↔◌, ◌⊎◌, inl, inr, arith}
use omino.Prelude.{Bool, true, false, not, ◌&&◌, ◌||◌, Option, none, some, List, [], ◌∷◌, ◌++◌, map}
use omino.Prelude.{
  ltb, leb, ◌==◌, if◌then◌else◌, ==_iff, Bool-cases, Bool-ext, all_below, all_below_sound,
  all_below_sound₂,
}
use omino.Prelude.{u8, u16, u32, u64, ◌<<<◌, ◌>>>◌, length, get_or, take, drop, replicate}
use omino.Prelude.{
  length-set, get_or-set_self, get_or-set_ne, get_or_ext, length-replicate, get_or-replicate,
  length-append, ltb→lt, lt→ltb,
}
use mathlib.Core.Option.{map as option_map}
use omino.Prelude.{set as write, ◌>>=◌}
use omino.Boot.{
  BootStatus, boot_ok, BootstrapFrame, BootResolution, gauge_preheader, envelope_parse,
  resolve_candidate,
}
use omino.Gossip.{
  GossipPacket, GossipStatus, gossip_ok, zero_packet, encode_frame, decode_and_verify,
}
use omino.Media.{MediaStreamChunk, MediaHardwareGate, arbitrate_media_bus}
use omino.Export.{
  ExportStatus, export_ok, BinaryExportImage, meta_compile_to_eal, meta_compile_to_first_form,
  binary_export_compare,
}
use omino.Metatron.{InscriptionPlane, advance_place, TetragrammatronLock, adjudicate_closure}
use omino.Radix.{
  RadixStatus, radix_ok, BaseMetricSeedModel, init_base_metric_model, inject_radix_digit,
}
use omino.Epistemic.{
  OmnicronStatus, omnicron_ok, EpistemicQuadrant, OmnicronResolution, resolve_byte_surface,
  resolve_epistemic_quadrant,
}

-- What is printed of a resolution: nothing behind an error.
abbrev pub when_boot_ok {ℓ} : {A : Type ℓ} → BootStatus × Option A → Option A
when_boot_ok (boot_ok, out) = out
when_boot_ok (status, out) = none

-- A zeroed envelope with the preheader and one scope byte.
abbrev pub boot_envelope : List ℕ
boot_envelope = write (gauge_preheader ++ replicate 56 0) 0x20 0x05

-- The first scope, and the energy.
unfoldable pub app_main_boot_test : Option ℕ × Option ℕ
app_main_boot_test = (
  option_map (λ (f : BootstrapFrame). get_or f.active_scopes 0 0)
      (when_boot_ok (envelope_parse boot_envelope 64)),
  option_map (λ (r : BootResolution). r.address_energy_bqf)
      (when_boot_ok (resolve_candidate 0 15 0 true)),
)

abbrev pub demo_packet : ℕ → GossipPacket
demo_packet local_step = record zero_packet {
  source_node_id = 0xE5F32C3;
  step_accumulator = local_step;
  omnion_phase = 1;
  board_matrix = write (replicate 32 0) 0 0x80;
}

-- The length of the frame, and the node and the step of an accepted packet, or the status.
pub data GossipOutcome : Type 0 where
  success : ℕ → ℕ → ℕ → GossipOutcome
  rejection : ℕ → GossipStatus → GossipOutcome

abbrev pub gossip_outcome : ℕ → GossipPacket → GossipStatus → GossipOutcome
gossip_outcome wire_len incoming gossip_ok =
    success wire_len incoming.source_node_id incoming.step_accumulator
gossip_outcome wire_len incoming status = rejection wire_len status

unfoldable pub app_main_gossip_test : ℕ → GossipPacket → List ℕ → Option GossipOutcome
app_main_gossip_test local_step incoming wire =
    let sent = encode_frame (some (demo_packet local_step)) wire 66 in
    decode_and_verify sent.wire sent.wire_len local_step incoming >>= λ out.
    some (gossip_outcome sent.wire_len out.packet out.status)

-- The gate that is printed; the exit code is 0 when it is open.
unfoldable pub media_main : MediaHardwareGate × ℕ
media_main =
    let gate = arbitrate_media_bus (
      some record {
        chunk_sequence_id = 204;
        media_carrier_hash = 0xAAAA5555;
        requested_effect = 10;
        is_attestation_locked = true;
      }) in
    (gate, if gate.allow_hardware_bus then 0 else 1)

-- The three hashes, and the exit code.
unfoldable pub export_main : ℕ × ℕ × ℕ × ℕ
export_main =
    let eal_centroid = meta_compile_to_eal 0 0 in
    let void_form = meta_compile_to_first_form in
    let eal_active = meta_compile_to_eal 15 30 in
    (
      eal_centroid.signature_hash,
      void_form.signature_hash,
      eal_active.signature_hash,
      elim (binary_export_compare (some eal_centroid) (some void_form)).0 [ export_ok ↦ 0 | _ ↦ 1 ],
    )

-- The register and the lock; the exit code is 0 when the relation is closed.
unfoldable pub metatron_main : Option ℕ × TetragrammatronLock × ℕ
metatron_main =
    let plane : InscriptionPlane = record {
      register_accumulation = 0x0001;
      active_clock_quadrant = 1;
      permutation_witness = 0x18;
    } in
    let first = (advance_place (some plane) true).1 in
    let second = (advance_place first true).1 in
    let lock = adjudicate_closure second 120 in
    let register = option_map (λ (p : InscriptionPlane). p.register_accumulation) second in
    (register, lock, if lock.relation_closed then 0 else 1)

-- A model of a base with two digits injected; `none` is the exit code 1.
unfoldable pub two_digits : ℕ → ℕ → ℕ → Option BaseMetricSeedModel
two_digits base first second = elim (init_base_metric_model base).0 [
  | radix_ok ↦
      option_map
        (λ (m : BaseMetricSeedModel). (inject_radix_digit (inject_radix_digit m first).1 second).1)
        (init_base_metric_model base).1
  | _ ↦ none
]

-- The two accumulators, when the exit code is 0.
unfoldable pub radix_main : Option (ℕ × ℕ)
radix_main = do
  hex_model ← two_digits 16 0x0A 0x0F
  dec_model ← two_digits 10 7 2
  some (hex_model.current_accumulator, dec_model.current_accumulator)

-- What is printed behind an accepted byte, and behind an accepted quadrant.
unfoldable pub app_main_omnicron : Option (ℕ × Bool) × Option ℕ
app_main_omnicron =
    let (st, res) = resolve_byte_surface 0x3F in
    let quadrant : EpistemicQuadrant = record {
      car_visibility = 1;
      cdr_visibility = 0;
      local_field_x = 15;
      local_field_y = 4;
    } in
    let (st', res') = resolve_epistemic_quadrant quadrant res in
    (
      elim st [ omnicron_ok ↦ some (res.active_band, res.is_delineation) | _ ↦ none ],
      elim st' [ omnicron_ok ↦ some res'.address_energy | _ ↦ none ],
    )
