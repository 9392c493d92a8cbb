-- ===== src/Router/Decode.antt =====
-- What the router decodes: the two nibble maps are inverse, and an address is routed to the one
-- rectangle of the table that holds it.
use omino.Prelude.{ℕ, ◌+◌, ◌*◌, ◌/◌, ◌%◌, ◌^◌, ◌≤◌, ◌<◌, bit_and, bit_xor}
use omino.Prelude.{◌≡◌, refl, ◌≢◌, ◌↔◌, arith}
use omino.Prelude.{Bool, true, false, not, ◌&&◌}
use omino.Prelude.{ltb, leb, ◌==◌, ==_iff, all_below, all_below_sound, all_below_sound₂}
use omino.Router.{BusRoute, local_car, remote_cdr, same_route, selector_corner}
use omino.Router.{nibble_interleave, nibble_compress, forward_map_quadrant, reverse_route}
use omino.Board.{plane_mirror}

compress-lt : (address : ℕ) → nibble_compress address < 256
unfolding nibble_compress
compress-lt address = omega arith

abbrev roundtrips : ℕ → Bool
roundtrips v = nibble_compress (nibble_interleave v) == v

bytes_roundtrip : all_below 256 roundtrips ≡ true
unfolding all_below nibble_compress nibble_interleave
bytes_roundtrip = refl

-- Compressing an interleaved byte gives the byte back.
pub nibble_compress-interleave : (v : ℕ) → v < 256 → nibble_compress (nibble_interleave v) ≡ v
nibble_compress-interleave v h = (==_iff _ v).0 (all_below_sound 256 roundtrips v bytes_roundtrip h)

abbrev masks : ℕ → ℕ → Bool
masks hi lo = nibble_interleave (nibble_compress (hi * 256 + lo)) == bit_and (hi * 256 + lo) 0xF0F0

addresses_mask : all_below 256 (λ hi. all_below 256 (masks hi)) ≡ true
unfolding all_below nibble_compress nibble_interleave
addresses_mask = refl

-- For a 16-bit address, interleaving its compressed byte keeps the two nibbles that it is routed
-- by and clears the others.
pub nibble_interleave-compress :
    (address : ℕ)
    → address < 2 ^ 16
    → nibble_interleave (nibble_compress address) ≡ bit_and address 0xF0F0
nibble_interleave-compress address h = rw (cut) (
    (==_iff _ _).0 (
      all_below_sound₂ 256 256 masks (address / 256) (address % 256) addresses_mask (omega arith)
        (omega arith)))
  where
    cut : address ≡ address / 256 * 256 + address % 256
    cut = omega arith

-- The byte lies between the top left and the bottom right corner of the selector's rectangle.
abbrev pub in_rectangle : ℕ → ℕ → Bool
in_rectangle selector v =
    let top = selector_corner selector 0 in
    let bottom = selector_corner selector 2 in
    leb (top / 16) (v / 16)
    && leb (v / 16) (bottom / 16)
    && leb (top % 16) (v % 16)
    && leb (v % 16) (bottom % 16)

abbrev same : Bool → Bool → Bool
same true b = b
same false b = not b

same_eq : (a b : Bool) → same a b ≡ true → a ≡ b
same_eq a b h = ground arith

-- The router reads nothing of an address but the compressed byte.
reads_byte :
    (address : ℕ)
    → reverse_route address ≡ reverse_route (nibble_interleave (nibble_compress address))
unfolding reverse_route
reads_byte address =
    rw (nibble_compress-interleave (nibble_compress address) (compress-lt address)) refl

abbrev routed_well : ℕ → Bool
routed_well v =
    let r = reverse_route (nibble_interleave v) in
    ltb r.selector_idx 8
    && same (same_route r.route remote_cdr) (leb 128 v)
    && same (leb 4 r.selector_idx) (leb 128 v)

abbrev placed_well : ℕ → ℕ → Bool
placed_well v selector =
    same ((reverse_route (nibble_interleave v)).selector_idx == selector) (in_rectangle selector v)

all_routed : all_below 256 routed_well ≡ true
unfolding all_below reverse_route nibble_interleave
all_routed = refl

all_placed : all_below 256 (λ v. all_below 8 (placed_well v)) ≡ true
unfolding all_below reverse_route nibble_interleave selector_corner
all_placed = refl

placed :
    (v selector : ℕ)
    → v < 256
    → selector < 8
    → ((reverse_route (nibble_interleave v)).selector_idx == selector) ≡ in_rectangle selector v
placed v selector hv hs =
    same_eq ((reverse_route (nibble_interleave v)).selector_idx == selector)
      (in_rectangle selector v) (all_below_sound₂ 256 8 placed_well v selector all_placed hv hs)

-- For a selector below 8, an address is given that selector exactly when its compressed byte
-- lies in the rectangle that the corners of the selector table span.
pub reverse_route-rectangle :
    (address selector : ℕ)
    → selector < 8
    → ((reverse_route address).selector_idx ≡ selector)
      ↔ (in_rectangle selector (nibble_compress address) ≡ true)
reverse_route-rectangle address selector h =
    rw (reads_byte address)
      (ground (arith, placed (nibble_compress address) selector (compress-lt address) h))

same_route_iff : (r : BusRoute) → (same_route r remote_cdr ≡ true) ↔ (r ≡ remote_cdr)
same_route_iff local_car = ground arith
same_route_iff remote_cdr = ground arith

-- Every address has one of the 8 selectors. It goes to the remote bus exactly when its compressed
-- byte is in the upper half of the plane, which is when its selector is 4 or more.
pub reverse_route-bus :
    (address : ℕ)
    → ((reverse_route address).selector_idx < 8)
      × (((reverse_route address).route ≡ remote_cdr) ↔ (128 ≤ nibble_compress address))
      × ((4 ≤ (reverse_route address).selector_idx) ↔ (128 ≤ nibble_compress address))
reverse_route-bus address = rw (reads_byte address) (
    ground (
      arith,
      same_route_iff (reverse_route (nibble_interleave (nibble_compress address))).route,
      all_below_sound 256 routed_well (nibble_compress address) all_routed (compress-lt address),
    ))

abbrev mirrored : ℕ → Bool
mirrored v =
    let r = reverse_route (nibble_interleave v) in
    let m = reverse_route (nibble_interleave (plane_mirror v)) in
    m.selector_idx == bit_xor r.selector_idx 4 && not (same_route r.route m.route)

all_mirrored : all_below 256 mirrored ≡ true
unfolding all_below reverse_route nibble_interleave plane_mirror
all_mirrored = refl

same_route_self : (r : BusRoute) → same_route r r ≡ true
same_route_self local_car = refl
same_route_self remote_cdr = refl

-- For a byte, the mirror of the plane exchanges the buses: it flips bit 2 of the selector, and
-- changes the route.
pub reverse_route-mirror :
    (v : ℕ)
    → v < 256
    → ((reverse_route (nibble_interleave (plane_mirror v))).selector_idx
        ≡ bit_xor (reverse_route (nibble_interleave v)).selector_idx 4)
      × ((reverse_route (nibble_interleave (plane_mirror v))).route
          ≢ (reverse_route (nibble_interleave v)).route)
reverse_route-mirror v h = ground (
  arith,
  all_below_sound 256 mirrored v all_mirrored h,
  same_route_self (reverse_route (nibble_interleave v)).route,
)

abbrev corners_back : ℕ → Bool
corners_back idx =
    let q = forward_map_quadrant idx in
    let selector = idx % 8 in
    (reverse_route q.top_left).selector_idx == selector
    && (reverse_route q.top_right).selector_idx == selector
    && (reverse_route q.bottom_right).selector_idx == selector
    && (reverse_route q.bottom_left).selector_idx == selector

all_corners_back : all_below 256 corners_back ≡ true
unfolding all_below reverse_route forward_map_quadrant
all_corners_back = refl

-- For a byte index, the four corners of its forward-mapped quadrant are routed back to its
-- selector, the index modulo 8.
pub reverse_route-forward_map :
    (idx : ℕ)
    → idx < 256
    → ((reverse_route (forward_map_quadrant idx).top_left).selector_idx ≡ idx % 8)
      × ((reverse_route (forward_map_quadrant idx).top_right).selector_idx ≡ idx % 8)
      × ((reverse_route (forward_map_quadrant idx).bottom_right).selector_idx ≡ idx % 8)
      × ((reverse_route (forward_map_quadrant idx).bottom_left).selector_idx ≡ idx % 8)
reverse_route-forward_map idx h =
    ground (arith, all_below_sound 256 corners_back idx all_corners_back h)
