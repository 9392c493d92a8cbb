-- ===== src/Clock.antt =====
-- The algorithmic clock, the OMNION centroid and the sync checks: sections 10.3 and 11 of
-- src/omnicron-coproduct-partition.c. A state is a `uint16_t`, an `int32_t` is its bit pattern.
pub mod Bands
pub mod Catchup
pub mod Centroid
pub mod Diagnostic
pub mod Period
pub mod Sync
use omino.Prelude.{ℕ, zero, suc, ◌+◌, ◌-◌, ◌*◌, ◌/◌, ◌%◌, ◌^◌, ◌≤◌, ◌<◌, bit_and, bit_or, bit_xor}
use omino.Prelude.{◌≡◌, refl, sym, ap, ap₂, ◌∙◌, ◌≢◌, ◌↔◌, ◌⊎◌, inl, inr, arith}
use omino.Prelude.{Bool, true, false, not, ◌&&◌, ◌||◌, Option, none, some, List, [], ◌∷◌, ◌++◌, map}
use omino.Prelude.{
  ltb, leb, ◌==◌, if◌then◌else◌, ==_iff, Bool-cases, Bool-ext, all_below, all_below_sound,
  all_below_sound₂,
}
use omino.Prelude.{u8, u16, u32, u64, ◌<<<◌, ◌>>>◌, length, get_or, take, drop, replicate}
use omino.Prelude.{
  length-set, get_or-set_self, get_or-set_ne, get_or_ext, length-replicate, get_or-replicate,
  length-append, ltb→lt, lt→ltb,
}
use omino.Delta.{rotl16, rotr16}

unfoldable pub r0_reflection : ℕ → ℕ
r0_reflection x = u16 (bit_xor x 0xAAAA)

unfoldable pub r1_rotation : ℕ → ℕ
r1_rotation x = rotl16 x 1

unfoldable pub r2_rotation : ℕ → ℕ
r2_rotation x = rotl16 x 3

unfoldable pub r3_rotation : ℕ → ℕ
r3_rotation x = rotr16 x 2

unfoldable pub clock_oscillate : ℕ → ℕ
clock_oscillate x =
    let r1 = rotl16 x 1 in
    let r2 = rotl16 x 3 in let r3 = rotr16 x 2 in u16 (bit_xor (bit_xor (bit_xor r1 r2) r3) 0x1D1D)

unfoldable pub minute_hand : ℕ → ℕ
minute_hand x = r0_reflection (r1_rotation x)

unfoldable pub hour_hand : ℕ → ℕ
hour_hand x = r0_reflection (r1_rotation (r2_rotation x))

unfoldable pub epoch_hand : ℕ → ℕ
epoch_hand x = r0_reflection (r1_rotation (r2_rotation (r3_rotation x)))

unfoldable pub verify_r0_involution : ℕ → Bool
verify_r0_involution sample = r0_reflection (r0_reflection sample) == sample

-- The diagnostic view of a state.
pub record ClockBand : Type 0 where
  pub width : ℕ
  pub density : ℕ
  pub texture : ℕ

-- `while (v) { count += v & 1; v >>= 1; }`, with `rounds` to go.
unfoldable pub count_bits : ℕ → ℕ → ℕ → ℕ
count_bits zero v count = count
count_bits (suc rounds) v count =
    let rest = count_bits rounds (u16 (v >>> 1)) (u32 (count + bit_and v 1)) in
    if v == 0 then count else rest

-- A 16-bit word is 0 after 16 rounds.
unfoldable pub popcount16 : ℕ → ℕ
unfolding count_bits
popcount16 v = count_bits 16 v 0

-- `while (x) { x >>= 1; n++; }`, with `rounds` to go.
unfoldable pub count_shifts : ℕ → ℕ → ℕ → ℕ
count_shifts zero x n = n
count_shifts (suc rounds) x n =
    let rest = count_shifts rounds (u16 (x >>> 1)) (u32 (n + 1)) in if x == 0 then n else rest

unfoldable pub bit_length16 : ℕ → ℕ
unfolding count_shifts
bit_length16 x = count_shifts 16 x 0

-- The loop over the 16 neighbouring pairs of bits at `i`, with `rounds` to go.
unfoldable pub count_edges : ℕ → ℕ → ℕ → ℕ → ℕ
count_edges zero i x texture = texture
count_edges (suc rounds) i x texture =
    let bit_i = bit_and (x >>> i) 1 in
    let bit_j = bit_and (x >>> ((i + 1) % 16)) 1 in
    count_edges rounds (i + 1) x (if bit_i == bit_j then texture else u32 (texture + 1))

unfoldable pub classify_clock_state : ℕ → ClockBand
unfolding popcount16 bit_length16 count_edges
classify_clock_state x = record {
  width = bit_length16 x;
  density = popcount16 x;
  texture = count_edges 16 0 x 0;
}

pub record ClockState : Type 0 where
  pub state : ℕ
  pub band : ClockBand

unfoldable pub make_clock : ℕ → ClockState
make_clock x = record { state = x; band = classify_clock_state x }

unfoldable pub clock_tick : ClockState → ClockState
clock_tick cs = make_clock (clock_oscillate cs.state)

-- The argument is not used.
unfoldable pub centroid_state : ℕ → ℕ
centroid_state omnion = 0x0000

unfoldable pub centroid_delta : ℕ → ℕ → ℕ
unfolding centroid_state
centroid_delta current_state omnion = u16 (bit_xor current_state (centroid_state omnion))

unfoldable pub centroid_resolution : ℕ → ℕ → ℕ
unfolding centroid_delta
centroid_resolution current_state omnion = centroid_delta current_state omnion

-- OMNION as one of two antipodal orientations.
unfoldable pub omnion_azimuth_byte : ℕ → ℕ
omnion_azimuth_byte omnion = u8 (bit_and omnion 0x01 <<< 7)

pub record OrientedOmnionClock : Type 0 where
  pub state_word : ℕ
  pub step_accumulator : ℕ
  pub current_azimuth : ℕ

unfoldable pub process_centroid_alignment : ℕ → ℕ → OrientedOmnionClock
unfolding omnion_azimuth_byte
process_centroid_alignment current_state omnion = record {
  state_word = current_state;
  step_accumulator = 0;
  current_azimuth = omnion_azimuth_byte omnion;
}

pub record ClockSyncPeer : Type 0 where
  pub clock : ClockState
  pub step_accumulator : ℕ

unfoldable pub clock_sync_peer_init : ℕ → ClockSyncPeer
clock_sync_peer_init seed = record { clock = make_clock seed; step_accumulator = 0 }

unfoldable pub clock_sync_peer_tick : ClockSyncPeer → ClockSyncPeer
clock_sync_peer_tick p = record {
  clock = clock_tick p.clock;
  step_accumulator = u64 (p.step_accumulator + 1);
}

pub record ClockBandDelta : Type 0 where
  pub width_delta : ℕ
  pub density_delta : ℕ
  pub texture_delta : ℕ

-- The band of state 0, and the wrapping differences from it.
abbrev pub centroid_band : ClockBand
centroid_band = record { width = 0; density = 0; texture = 0 }

unfoldable pub band_delta_from_centroid : ClockBand → ClockBandDelta
band_delta_from_centroid band = record {
  width_delta = u32 (u32 band.width + 2 ^ 32 - centroid_band.width);
  density_delta = u32 (u32 band.density + 2 ^ 32 - centroid_band.density);
  texture_delta = u32 (u32 band.texture + 2 ^ 32 - centroid_band.texture);
}

unfoldable pub clock_sync_check_diagnostic : ClockSyncPeer → ClockSyncPeer → Bool
unfolding band_delta_from_centroid
clock_sync_check_diagnostic local remote =
    let local_delta = band_delta_from_centroid local.clock.band in
    let remote_delta = band_delta_from_centroid remote.clock.band in
    local_delta.width_delta == remote_delta.width_delta
    && local_delta.density_delta == remote_delta.density_delta
    && local_delta.texture_delta == remote_delta.texture_delta

unfoldable pub clock_sync_check_resolved : ClockSyncPeer → ClockSyncPeer → ℕ → Bool
unfolding centroid_resolution
clock_sync_check_resolved local remote omnion =
    let local_sync = centroid_resolution local.clock.state omnion in
    let remote_sync = centroid_resolution remote.clock.state omnion in local_sync == remote_sync
