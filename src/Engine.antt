-- ===== src/Engine.antt =====
-- The address engine, examples/esp32/esp32_omi_core.c. Characters and bytes are numbers below
-- 2 ^ 8; a text is the list of its characters without the final zero. Null pointers are not values
-- of the model.
pub mod Agreement
pub mod Bounded
pub mod Case
pub mod Hex
pub mod Reconcile
pub mod Texts
use omino.Prelude.{ℕ, zero, suc, ◌+◌, ◌-◌, ◌*◌, ◌/◌, ◌%◌, ◌^◌, ◌≤◌, ◌<◌, bit_and, bit_or, bit_xor}
use omino.Prelude.{◌≡◌, refl, sym, ap, ap₂, ◌∙◌, ◌≢◌, ◌↔◌, ◌⊎◌, inl, inr, arith}
use omino.Prelude.{Bool, true, false, not, ◌&&◌, ◌||◌, Option, none, some, List, [], ◌∷◌, ◌++◌, map}
use omino.Prelude.{
  ltb, leb, ◌==◌, if◌then◌else◌, ==_iff, Bool-cases, Bool-ext, all_below, all_below_sound,
  all_below_sound₂,
}
use omino.Prelude.{u8, u16, u32, u64, ◌<<<◌, ◌>>>◌, length, get_or, take, drop, replicate}
use omino.Prelude.{
  length-set, get_or-set_self, get_or-set_ne, get_or_ext, length-replicate, get_or-replicate,
  length-append, ltb→lt, lt→ltb,
}
use omino.Prelude.{set as write}
use mathlib.Core.Option.{map as option_map}
use omino.Prelude.{◌>>=◌}

pub data EalStatus : Type 0 where
  eal_ok frame_truncated eal_zero_leak band_breach quadratic_mismatch : EalStatus

-- `segments` has eight entries.
pub record OmiAddress128 : Type 0 where
  pub segments : List ℕ

pub record ReconciledEngineState : Type 0 where
  pub x_omi : ℕ
  pub y_imo : ℕ
  pub parabolic_evaluation : ℕ
  pub active_surface_band : ℕ
  pub is_centroid : Bool

-- The variables of the loops of `esp32_cobs_decode_bounded`.
pub record BoundedDecoding : Type 0 where
  pub dst : List ℕ
  pub src_idx : ℕ
  pub dst_idx : ℕ

-- A loop goes on, or the function returns 0 with an error; the bytes written stay.
pub data Progress : Type 0 where
  going : BoundedDecoding → Progress
  failed : EalStatus → List ℕ → Progress

abbrev pub store : BoundedDecoding → ℕ → BoundedDecoding
store d byte = record d { dst = write d.dst d.dst_idx byte; dst_idx = d.dst_idx + 1 }

-- The inner loop, with `left` rounds to go.
unfoldable pub copy_bytes : ℕ → List ℕ → ℕ → ℕ → BoundedDecoding → Progress
copy_bytes zero src src_len dst_cap d = going d
copy_bytes (suc left) src src_len dst_cap d =
    let rest =
      copy_bytes left src src_len dst_cap
        (record (store d (get_or src d.src_idx 0)) { src_idx = d.src_idx + 1 }) in
    if leb src_len d.src_idx || leb dst_cap d.dst_idx then failed frame_truncated d.dst else rest

-- The zero behind a block, unless the block is full or the last one.
unfoldable pub end_bytes : ℕ → ℕ → ℕ → BoundedDecoding → Progress
end_bytes code src_len dst_cap d =
    if ltb code 0xFF && ltb d.src_idx src_len
    then if leb dst_cap d.dst_idx then failed frame_truncated d.dst else going (store d 0)
    else going d

infixl 5 ◌>=>◌
abbrev pub ◌>=>◌ : Progress → (BoundedDecoding → Progress) → Progress
going d >=> next = next d
failed status dst >=> next = failed status dst

-- One round of the outer loop.
unfoldable pub decode_code : List ℕ → ℕ → ℕ → BoundedDecoding → Progress
decode_code src src_len dst_cap d =
    let code = get_or src d.src_idx 0 in
    if code == 0
    then failed eal_zero_leak d.dst
    else copy_bytes (code - 1) src src_len dst_cap (record d { src_idx = d.src_idx + 1 })
      >=> end_bytes code src_len dst_cap

-- The outer loop on fuel: `none` means that the fuel ran out.
unfoldable pub decode_codes : ℕ → List ℕ → ℕ → ℕ → Progress → Option Progress
decode_codes fuel src src_len dst_cap (failed status dst) = some (failed status dst)
decode_codes zero src src_len dst_cap (going d) =
    if ltb d.src_idx src_len then none else some (going d)
decode_codes (suc fuel) src src_len dst_cap (going d) =
    let rest = decode_codes fuel src src_len dst_cap (decode_code src src_len dst_cap d) in
    if ltb d.src_idx src_len then rest else some (going d)

-- The buffer after the call, the length returned, and the status.
pub record Decoded : Type 0 where
  pub dst : List ℕ
  pub dst_len : ℕ
  pub status : EalStatus

abbrev pub finish : Progress → Decoded
finish (going d) = record { dst = d.dst; dst_len = d.dst_idx; status = eal_ok }
finish (failed status dst) = record { dst = dst; dst_len = 0; status = status }

-- Each round reads one byte at least, so `src_len` rounds are enough.
unfoldable pub cobs_decode_bounded : List ℕ → ℕ → List ℕ → ℕ → Option Decoded
cobs_decode_bounded src src_len dst dst_cap = option_map finish (
    decode_codes src_len src src_len dst_cap (going record { dst = dst; src_idx = 0; dst_idx = 0 }))

unfoldable pub evaluate_parabolic_form : ℕ → ℕ → ℕ
evaluate_parabolic_form x y =
    let linear_root = u32 (u32 (x <<< 2) + u32 (y <<< 1)) in u32 (linear_root * linear_root)

-- `none` is the -1 of the C function.
unfoldable pub hex_value : ℕ → Option ℕ
hex_value c =
    if leb b'0' c && leb c b'9'
    then some (c - b'0')
    else if leb b'a' c && leb c b'f'
    then some (10 + (c - b'a'))
    else if leb b'A' c && leb c b'F'
    then some (10 + (c - b'A'))
    else none

-- The loop of `esp32_parse_hex_segment` at `i`, with `left` rounds to go.
unfoldable pub hex_digits : ℕ → ℕ → List ℕ → ℕ → ℕ → Option ℕ
hex_digits zero i text offset value = some value
hex_digits (suc left) i text offset value = hex_value (get_or text (offset + i) 0) >>= λ nibble.
    hex_digits left (i + 1) text offset (u16 (bit_or (value <<< 4) nibble))

-- The text starts at `offset`; `none` is the result false, and then nothing is written.
unfoldable pub parse_hex_segment : List ℕ → ℕ → Option ℕ
parse_hex_segment text offset = hex_digits 4 0 text offset 0

-- The loop over the segments at `i`: the result, and the segments written so far.
unfoldable pub parse_segments : ℕ → ℕ → List ℕ → List ℕ → Bool × List ℕ
parse_segments zero i text segments = (true, segments)
parse_segments (suc left) i text segments = elim (parse_hex_segment text (i * 5)) [
  | none ↦ (false, segments)
  | some value ↦
      let written = write segments i value in
      let rest = parse_segments left (i + 1) text written in
      if ltb i 7 && not (get_or text (i * 5 + 4) 0 == b'-') then (false, written) else rest
]

-- The result, and the address after the call.
unfoldable pub parse_hex_frame : List ℕ → OmiAddress128 → Bool × OmiAddress128
parse_hex_frame hex_str out_addr =
    if not (length hex_str == 39)
    then (false, out_addr)
    else let (ok, segments) = parse_segments 8 0 hex_str out_addr.segments in
      (ok, record { segments = segments })

-- The band of a token; `none` is the last branch.
unfoldable pub surface_band : ℕ → Option ℕ
surface_band mux_token =
    if leb mux_token 0x20
    then some 0
    else if leb mux_token 0x40
    then some 1
    else if leb mux_token 0x60
    then some 2
    else if leb mux_token 0x7F
    then some 3
    else none

-- The status, and the state after the call: the coordinates are written before the band is known.
unfoldable pub reconcile_interface :
    OmiAddress128 → ℕ → ReconciledEngineState → EalStatus × ReconciledEngineState
reconcile_interface addr mux_token out_state =
    let x = get_or addr.segments 0 0 in
    let y = get_or addr.segments 1 0 in
    let placed = record out_state { x_omi = x; y_imo = y } in
    elim (surface_band mux_token) [
      | none ↦ (band_breach, placed)
      | some band ↦ (
        eal_ok,
        record {
          x_omi = x;
          y_imo = y;
          parabolic_evaluation = evaluate_parabolic_form x y;
          active_surface_band = band;
          is_centroid = x == 0 && (y == 0 && evaluate_parabolic_form x y == 0);
        },
      )
    ]

-- What the emulated main prints: an error of the parser, a status, or a state.
pub data Outcome : Type 0 where
  parse_failed : Outcome
  rejected : EalStatus → Outcome
  resolved : ReconciledEngineState → Outcome

abbrev pub outcome : EalStatus → ReconciledEngineState → Outcome
outcome eal_ok state = resolved state
outcome status state = rejected status

-- `app_main_emulated` on an address and a token, with the two variables that it does not
-- initialise.
unfoldable pub app_main_emulated : List ℕ → ℕ → OmiAddress128 → ReconciledEngineState → Outcome
app_main_emulated address mux_token frame state =
    let (parsed, addr) = parse_hex_frame address frame in
    let (status, after) = reconcile_interface addr mux_token state in
    if not parsed then parse_failed else outcome status after
