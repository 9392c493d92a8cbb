-- ===== src/Harness/Clocks.antt =====
-- Sections 10 and 11 of `main`: the Hamming code with the azimuth bytes, and the clocks, over a
-- `double`.
use omino.Prelude.{ℕ, zero, suc, bit_xor}
use omino.Prelude.{Bool, List, [], ◌∷◌}
use omino.Prelude.{u8}
use omino.Prelude.{set as write}
use omino.Double.{Double}
use omino.Hamming.{
  ScopeQuartet, EpistemicCheck, compute_epistemic_check, HammingCodeword, encode_hamming, bit_at,
  HammingStatus, hamming_secded_check, verify_azimuth_anchors,
}
use omino.Hamming.Degrees.{azimuth_degrees, verify_omnion_azimuth_mirror}
use omino.Clock.{
  omnion_azimuth_byte, verify_r0_involution, ClockState, make_clock, clock_tick, minute_hand,
  hour_hand, centroid_state, centroid_resolution, process_centroid_alignment, ClockBand,
  ClockSyncPeer, clock_sync_peer_init, clock_sync_peer_tick, clock_sync_check_diagnostic,
  clock_sync_check_resolved,
}
use omino.Clock.Centroid.{GeometricVector, resolve_vector_to_centroid, verify_centroid_alignment}

-- An azimuth byte and its angle.
pub record Azimuth {ℓ} (W : Type ℓ) : Type ℓ where
  pub byte : ℕ
  pub degrees : W

unfoldable pub azimuth_line {ℓ} : {W : Type ℓ} ⦃d : Double W⦄ → ℕ → Azimuth W
azimuth_line byte = record { byte = byte; degrees = azimuth_degrees byte }

pub record HammingReport {ℓ} (W : Type ℓ) : Type ℓ where
  pub check : EpistemicCheck
  pub clean_status : HammingStatus
  pub corrected_status : HammingStatus
  pub recovered : ℕ
  pub anchors : ℕ
  pub anchors_pass : Bool
  pub quarter : Azimuth W
  pub three_quarters : Azimuth W
  pub reference : Azimuth W
  pub antipodal : Azimuth W
  pub mirror_passes : Bool

-- `bit` is the entry that is flipped before the second check.
unfoldable pub hamming_section {ℓ} :
    {W : Type ℓ} ⦃d : Double W⦄ → ScopeQuartet → ℕ → HammingReport W
hamming_section {W = W} quartet bit =
    let check = compute_epistemic_check quartet in
    let codeword = encode_hamming quartet in
    let clean = hamming_secded_check codeword check.omnion in
    let corrupted : HammingCodeword = record {
      bit = write clean.codeword.bit bit (u8 (bit_xor (bit_at clean.codeword bit) 1));
    } in
    let corrected = hamming_secded_check corrupted check.omnion in
    record {
      check = check;
      clean_status = clean.status;
      corrected_status = corrected.status;
      recovered = bit_at corrected.codeword bit;
      anchors = u8 (bit_xor 0x55 0xAA);
      anchors_pass = verify_azimuth_anchors;
      quarter = azimuth_line 0x40;
      three_quarters = azimuth_line 0xC0;
      reference = azimuth_line (omnion_azimuth_byte check.omnion);
      antipodal = azimuth_line (omnion_azimuth_byte (u8 (bit_xor check.omnion 1)));
      mirror_passes = verify_omnion_azimuth_mirror W;
    }

-- A state with its two hands.
pub record TickLine : Type 0 where
  pub state : ℕ
  pub band : ClockBand
  pub minute : ℕ
  pub hour : ℕ

-- The loop over the ticks, with `left` to go.
unfoldable pub tick_lines : ℕ → ClockState → List TickLine
tick_lines zero clk = []
tick_lines (suc left) clk =
    let next = clock_tick clk in
    record {
      state = next.state;
      band = next.band;
      minute = minute_hand next.state;
      hour = hour_hand next.state;
    }
    ∷ tick_lines left next

pub record SyncReport : Type 0 where
  pub diagnostic : Bool
  pub resolved : Bool
  pub left_state : ℕ
  pub right_state : ℕ

-- `for (step = 0; step < left; step++) omi_clock_sync_peer_tick(&p);`
unfoldable pub tick_peer : ℕ → ClockSyncPeer → ClockSyncPeer
tick_peer zero p = p
tick_peer (suc left) p = tick_peer left (clock_sync_peer_tick p)

-- Both checks on the peers of two seeds after some ticks each.
unfoldable pub sync_section : ℕ → ℕ → ℕ → SyncReport
sync_section steps seed seed' =
    let local_peer = tick_peer steps (clock_sync_peer_init seed) in
    let remote_peer = tick_peer steps (clock_sync_peer_init seed') in
    record {
      diagnostic = clock_sync_check_diagnostic local_peer remote_peer;
      resolved = clock_sync_check_resolved local_peer remote_peer 0;
      left_state = local_peer.clock.state;
      right_state = remote_peer.clock.state;
    }

pub record ClockReport {ℓ} (W : Type ℓ) : Type ℓ where
  pub involution : Bool
  pub centroid_band : ClockBand
  pub ticks : List TickLine
  pub alignment : Bool
  pub vectors : List (GeometricVector W)
  pub centroid_states : ℕ × ℕ
  pub resolutions : ℕ × ℕ
  pub azimuths : ℕ × ℕ
  pub same_seed : SyncReport
  pub different_seed : SyncReport

unfoldable pub clock_section {ℓ} : (W : Type ℓ) ⦃d : Double W⦄ → ClockReport W
clock_section W =
    let clk = make_clock 0x0000 in
    record {
      involution = verify_r0_involution 0x5C23;
      centroid_band = clk.band;
      ticks = tick_lines 3 clk;
      alignment = verify_centroid_alignment W;
      vectors =
          resolve_vector_to_centroid 0x0007 0
          ∷ resolve_vector_to_centroid 0x3030 0
          ∷ resolve_vector_to_centroid 0x8008 1
          ∷ [];
      centroid_states = (centroid_state 0, centroid_state 1);
      resolutions = (centroid_resolution 0x1234 0, centroid_resolution 0x1234 1);
      azimuths = (
        (process_centroid_alignment 0x0000 0).current_azimuth,
        (process_centroid_alignment 0x0000 1).current_azimuth,
      );
      same_seed = sync_section 3 0x1234 0x1234;
      different_seed = sync_section 3 0x1234 0xFFFF;
    }
