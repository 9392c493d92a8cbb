-- ===== src/Media.antt =====
-- The hardware gate of media chunks, examples/media/omi_media_bridge.c. A null chunk is `none`, and
-- `action_log` has one constructor for each message.
use omino.Prelude.{ℕ, ◌≤◌}
use omino.Prelude.{◌≡◌, ◌≢◌, ◌↔◌, arith}
use omino.Prelude.{Bool, true, false, not, Option, none, some}
use omino.Prelude.{◌==◌, if◌then◌else◌}

pub data ActionLog : Type 0 where
  reject_unauthorized_effect reject_null_chunk reject_unattested_carrier reject_empty_carrier_hash
        reject_out_of_band_effect_class authorize_p2p_media_stream authorize_gpu_webgl_render
        authorize_local_sensor_capture authorize_format_transcode :
      ActionLog

pub record MediaStreamChunk : Type 0 where
  pub chunk_sequence_id : ℕ
  pub media_carrier_hash : ℕ
  pub requested_effect : ℕ
  pub is_attestation_locked : Bool

pub record MediaHardwareGate : Type 0 where
  pub local_bridge_word : ℕ
  pub storage_offset : ℕ
  pub allow_hardware_bus : Bool
  pub action_log : ActionLog

abbrev pub closed_gate : ActionLog → MediaHardwareGate
closed_gate log = record {
  local_bridge_word = 0x0000;
  storage_offset = 0x00;
  allow_hardware_bus = false;
  action_log = log;
}

abbrev pub open_gate : ℕ → ℕ → ActionLog → MediaHardwareGate
open_gate word offset log = record {
  local_bridge_word = word;
  storage_offset = offset;
  allow_hardware_bus = true;
  action_log = log;
}

unfoldable pub arbitrate_media_bus : Option MediaStreamChunk → MediaHardwareGate
arbitrate_media_bus none = closed_gate reject_null_chunk
arbitrate_media_bus (some chunk) =
    if not chunk.is_attestation_locked
    then closed_gate reject_unattested_carrier
    else if chunk.media_carrier_hash == 0
    then closed_gate reject_empty_carrier_hash
    else if chunk.requested_effect == 8
    then open_gate 0x1A55 0x18 authorize_p2p_media_stream
    else if chunk.requested_effect == 10
    then open_gate 0x1B55 0x1C authorize_gpu_webgl_render
    else if chunk.requested_effect == 11
    then open_gate 0x1C55 0x20 authorize_local_sensor_capture
    else if chunk.requested_effect == 9
    then open_gate 0x1D55 0x24 authorize_format_transcode
    else closed_gate reject_out_of_band_effect_class

-- The bus opens exactly for an attested chunk with a carrier hash other than 0 and one of the
-- effects 8 to 11.
pub arbitrate_media_bus-allow_iff :
    (chunk : MediaStreamChunk)
    → ((arbitrate_media_bus (some chunk)).allow_hardware_bus ≡ true) ↔ (
        (chunk.is_attestation_locked ≡ true)
        × (chunk.media_carrier_hash ≢ 0)
        × (8 ≤ chunk.requested_effect)
        × (chunk.requested_effect ≤ 11))
unfolding arbitrate_media_bus
arbitrate_media_bus-allow_iff chunk = ground arith
