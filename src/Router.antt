-- ===== src/Router.antt =====
-- The CAR/CDR quadrant router, section 6 of src/omnicron-coproduct-partition.c. A byte is a number
-- below 2 ^ 8 and an address one below 2 ^ 16.
pub mod Decode
use omino.Prelude.{ℕ, zero, suc, ◌+◌, ◌-◌, ◌*◌, ◌/◌, ◌%◌, ◌^◌, ◌≤◌, ◌<◌, bit_and, bit_or, bit_xor}
use omino.Prelude.{◌≡◌, refl, sym, ap, ap₂, ◌∙◌, ◌≢◌, ◌↔◌, ◌⊎◌, inl, inr, arith}
use omino.Prelude.{Bool, true, false, not, ◌&&◌, ◌||◌, Option, none, some, List, [], ◌∷◌, ◌++◌, map}
use omino.Prelude.{
  ltb, leb, ◌==◌, if◌then◌else◌, ==_iff, Bool-cases, Bool-ext, all_below, all_below_sound,
  all_below_sound₂,
}
use omino.Prelude.{u8, u16, u32, u64, ◌<<<◌, ◌>>>◌, length, get_or, take, drop, replicate}
use omino.Prelude.{
  length-set, get_or-set_self, get_or-set_ne, get_or_ext, length-replicate, get_or-replicate,
  length-append, ltb→lt, lt→ltb,
}

pub data BusRoute : Type 0 where
  local_car remote_cdr : BusRoute

pub record Quadrant16 : Type 0 where
  pub top_left : ℕ
  pub top_right : ℕ
  pub bottom_right : ℕ
  pub bottom_left : ℕ

-- The corners of the 8 selector rectangles, clockwise from the top left one.
abbrev pub selector_table : List (List ℕ)
selector_table =
    (0x00 ∷ 0x07 ∷ 0x37 ∷ 0x30 ∷ [])
    ∷ (0x08 ∷ 0x0F ∷ 0x3F ∷ 0x38 ∷ [])
    ∷ (0x40 ∷ 0x47 ∷ 0x77 ∷ 0x70 ∷ [])
    ∷ (0x48 ∷ 0x4F ∷ 0x7F ∷ 0x78 ∷ [])
    ∷ (0x80 ∷ 0x87 ∷ 0xB7 ∷ 0xB0 ∷ [])
    ∷ (0x88 ∷ 0x8F ∷ 0xBF ∷ 0xB8 ∷ [])
    ∷ (0xC0 ∷ 0xC7 ∷ 0xF7 ∷ 0xF0 ∷ [])
    ∷ (0xC8 ∷ 0xCF ∷ 0xFF ∷ 0xF8 ∷ [])
    ∷ []

-- `OMI_SELECTOR_TABLE[selector][corner]`; every index in the code is within the table.
unfoldable pub selector_corner : ℕ → ℕ → ℕ
selector_corner selector corner = get_or (get_or selector_table selector []) corner 0

unfoldable pub nibble_interleave : ℕ → ℕ
nibble_interleave v = u16 (bit_or (u16 (bit_and v 0xF0) <<< 8) (u16 (bit_and v 0x0F) <<< 4))

unfoldable pub nibble_compress : ℕ → ℕ
nibble_compress address = u8 (bit_or (bit_and (address >>> 8) 0xF0) (bit_and (address >>> 4) 0x0F))

unfoldable pub forward_map_quadrant : ℕ → Quadrant16
unfolding selector_corner nibble_interleave
forward_map_quadrant selector_idx =
    let idx = u8 (bit_and selector_idx 0x07) in
    record {
      top_left = nibble_interleave (selector_corner idx 0);
      top_right = nibble_interleave (selector_corner idx 1);
      bottom_right = nibble_interleave (selector_corner idx 2);
      bottom_left = nibble_interleave (selector_corner idx 3);
    }

-- The selector bit that tells the two buses apart.
unfoldable pub route_of : ℕ → BusRoute
route_of selector = if bit_and selector 0x04 == 0 then local_car else remote_cdr

-- The route, and the selector index that the C function writes through its pointer.
unfoldable pub reverse_route : ℕ → record { route : BusRoute; selector_idx : ℕ }
unfolding nibble_compress route_of
reverse_route address =
    let compressed = nibble_compress address in
    let row = u8 (bit_and compressed 0xF0) in
    let col = u8 (bit_and compressed 0x0F) in
    let band = u8 (bit_and (row >>> 6) 0x03) in
    let right_half = u8 (bit_and (col >>> 3) 0x01) in
    let selector_idx = u8 (bit_or (band <<< 1) right_half) in
    record { route = route_of selector_idx; selector_idx = selector_idx }

abbrev pub same_route : BusRoute → BusRoute → Bool
same_route local_car local_car = true
same_route remote_cdr remote_cdr = true
same_route _ _ = false

-- `for (i = from; i < from + rounds; i++) if (!test(i)) return false; return true;`
abbrev pub each : ℕ → ℕ → (ℕ → Bool) → Bool
each zero from test = true
each (suc rounds) from test =
    let rest = each rounds (from + 1) test in if test from then rest else false

unfoldable pub verify_car_cdr_mirror : Bool
unfolding selector_corner
verify_car_cdr_mirror =
    each 4 0 λ i. u8 (bit_xor (selector_corner i 0) 0x80) == selector_corner (i + 4) 0

unfoldable pub verify_selector_roundtrip : Bool
unfolding selector_corner nibble_interleave nibble_compress
verify_selector_roundtrip = each 8 0 λ selector. each 4 0 λ corner.
    let compressed = selector_corner selector corner in
    nibble_compress (nibble_interleave compressed) == compressed

-- An address decodes to the selector, and to its bus.
unfoldable pub decodes_to : ℕ → ℕ → Bool
unfolding reverse_route nibble_interleave route_of
decodes_to byte selector =
    let decoded = reverse_route (nibble_interleave byte) in
    decoded.selector_idx == selector && same_route decoded.route (route_of selector)

unfoldable pub verify_quadrant_corner_decode : Bool
unfolding decodes_to selector_corner
verify_quadrant_corner_decode =
    each 8 0 λ selector. each 4 0 λ corner. decodes_to (selector_corner selector corner) selector

abbrev pub representative : List ℕ
representative = 0x21 ∷ 0x2A ∷ 0x51 ∷ 0x5A ∷ 0x91 ∷ 0x9A ∷ 0xD1 ∷ 0xDA ∷ []

unfoldable pub verify_quadrant_interior_decode : Bool
unfolding decodes_to
verify_quadrant_interior_decode =
    each 8 0 λ selector. decodes_to (get_or representative selector 0) selector

unfoldable pub verify_selector_bus_split : Bool
unfolding reverse_route nibble_interleave selector_corner
verify_selector_bus_split = each 8 0 λ selector.
    let decoded = reverse_route (nibble_interleave (selector_corner selector 0)) in
    decoded.selector_idx == selector
    && same_route decoded.route (if ltb selector 4 then local_car else remote_cdr)
