-- ===== src/Harness/Laws.antt =====
-- Sections 7 to 9 of `main`: the delta law and the segment witnesses, the mirror of the plane, and
-- the quadrant router.
use omino.Prelude.{ℕ}
use omino.Prelude.{Bool, List, map}
use omino.Prelude.{◌==◌}
use omino.Board.{plane_mirror}
use omino.Delta.{delta_c16}
use omino.Segment.{
  sector_prefixes, segment_xor_witness, relation_witness, verify_all_segment_witnesses,
  verify_polybius_diagonals,
}
use omino.UnionFind.{ValidationResult}
use omino.Validation.{validate_equivalence}
use omino.Router.{
  BusRoute, Quadrant16, reverse_route, forward_map_quadrant, nibble_compress, selector_corner,
  verify_selector_roundtrip, verify_quadrant_corner_decode, verify_quadrant_interior_decode,
  verify_selector_bus_split, verify_car_cdr_mirror,
}
use omino.Harness.{rules, reference_to}

-- The witness of a sector, and whether it passes.
unfoldable pub sector_line : ℕ → record { witness : ℕ; passes : Bool }
sector_line prefix =
    let witness = segment_xor_witness prefix in
    record { witness = witness; passes = witness == relation_witness }

pub record DeltaReport : Type 0 where
  pub delta_out : ℕ
  pub sectors : List (record { witness : ℕ; passes : Bool })
  pub all_witnesses : Bool
  pub diagonals : Bool
  pub bad_validation : ValidationResult

unfoldable pub delta_section : DeltaReport
delta_section =
    let bad_scope_ref = record (reference_to rules) { scope = 9 } in
    record {
      delta_out = delta_c16 0x1234;
      sectors = map sector_line sector_prefixes;
      all_witnesses = verify_all_segment_witnesses;
      diagonals = verify_polybius_diagonals;
      bad_validation = validate_equivalence bad_scope_ref bad_scope_ref;
    }

pub record MirrorReport : Type 0 where
  pub mirrored : ℕ
  pub restored : ℕ
  pub passes : Bool

unfoldable pub mirror_section : ℕ → MirrorReport
mirror_section sample =
    let mirrored = plane_mirror sample in
    let restored = plane_mirror mirrored in
    record { mirrored = mirrored; restored = restored; passes = restored == sample }

pub record RouterReport : Type 0 where
  pub selector_idx : ℕ
  pub route : BusRoute
  pub bounds : Quadrant16
  pub compressed : ℕ
  pub round_trip : Bool
  pub selector_round_trip : Bool
  pub corners : Bool
  pub interiors : Bool
  pub bus_split : Bool
  pub mirror : Bool

unfoldable pub router_section : ℕ → RouterReport
router_section sample_address =
    let routed = reverse_route sample_address in
    let bounds = forward_map_quadrant routed.selector_idx in
    let compressed = nibble_compress bounds.top_left in
    record {
      selector_idx = routed.selector_idx;
      route = routed.route;
      bounds = bounds;
      compressed = compressed;
      round_trip = compressed == selector_corner routed.selector_idx 0;
      selector_round_trip = verify_selector_roundtrip;
      corners = verify_quadrant_corner_decode;
      interiors = verify_quadrant_interior_decode;
      bus_split = verify_selector_bus_split;
      mirror = verify_car_cdr_mirror;
    }
