-- ===== src/Tests/Words.antt =====
-- The boards, the router, the fold, the codes and the clock on concrete words.
use omino.Prelude.{ℕ, ◌%◌, ◌^◌, ◌≤◌, ◌<◌, bit_xor}
use omino.Prelude.{◌≡◌, refl, ◌≢◌, ◌↔◌, arith}
use omino.Prelude.{true, ◌&&◌, ◌||◌}
use omino.Prelude.{◌==◌}
use omino.Prelude.{replicate}
use omino.Board.{Board256, IsBoard, clear, plane_mirror, popcount}
use omino.Board.{set as board_set, test as board_test}
use omino.Board.Plane.{clear-IsBoard, set-IsBoard, test-set}
use omino.Board.Popcount.{members, popcount-members}
use omino.Router.{
  nibble_interleave, nibble_compress, reverse_route, forward_map_quadrant, verify_car_cdr_mirror,
  verify_selector_roundtrip, verify_quadrant_corner_decode, verify_quadrant_interior_decode,
  verify_selector_bus_split,
}
use omino.Router.Decode.{
  in_rectangle, reverse_route-rectangle, reverse_route-mirror, reverse_route-forward_map,
}
use omino.Cons.{verify_cons_recovery_law}
use omino.Cons.Recovery.{verify_cons_recovery_law_holds}
use omino.Segment.{verify_all_segment_witnesses, verify_polybius_diagonals}
use omino.Clock.{
  bit_length16, clock_sync_peer_init, clock_sync_check_resolved, clock_sync_check_diagnostic,
  clock_oscillate, make_clock, classify_clock_state,
}
use omino.Delta.Period.{iterate}
use omino.Clock.Bands.{bit_length16_lem}
use omino.Clock.Diagnostic.{SameBand, clock_sync_check_diagnostic-advance}
use omino.Clock.Sync.{advance, clock_sync_check_resolved-advance}
use omino.Validation.{ContributionRef, validate_equivalence}
use omino.UnionFind.{resolved_match}
use omino.Validation.Decision.{AreEquivalent, validate_equivalence_iff, validate_equivalence_equiv}
use omino.Hamming.{
  ScopeQuartet, encode_hamming, hamming_secded_check, corrected_single, double_error_detected, ◌⊕◌,
}
use omino.Hamming.Correction.{
  IsQuartet, flip, omnion_of, hamming_secded_check_corrects, hamming_secded_check_detects,
}

abbrev low : Board256
low = board_set clear 0x21

abbrev high : Board256
high = board_set clear 0xE1

low-IsBoard : IsBoard low
low-IsBoard = set-IsBoard clear 0x21 clear-IsBoard (omega arith)

high-IsBoard : IsBoard high
high-IsBoard = set-IsBoard clear 0xE1 clear-IsBoard (omega arith)

test-set_example : board_test (board_set low 0xE1) 0x21 ≡ (0xE1 == 0x21 || board_test low 0x21)
test-set_example = test-set low 0xE1 0x21 low-IsBoard (omega arith) (omega arith)

popcount-members_example : popcount low ≡ members 256 low
popcount-members_example = popcount-members low low-IsBoard

reverse_route-rectangle_example :
    ((reverse_route 0xD0A0).selector_idx ≡ 7) ↔ (in_rectangle 7 (nibble_compress 0xD0A0) ≡ true)
reverse_route-rectangle_example = reverse_route-rectangle 0xD0A0 7 (omega arith)

reverse_route-mirror_example :
    ((reverse_route (nibble_interleave (plane_mirror 0x21))).selector_idx
      ≡ bit_xor (reverse_route (nibble_interleave 0x21)).selector_idx 4)
    × ((reverse_route (nibble_interleave (plane_mirror 0x21))).route
        ≢ (reverse_route (nibble_interleave 0x21)).route)
reverse_route-mirror_example = reverse_route-mirror 0x21 (omega arith)

reverse_route-forward_map_example :
    ((reverse_route (forward_map_quadrant 13).top_left).selector_idx ≡ 13 % 8)
    × ((reverse_route (forward_map_quadrant 13).top_right).selector_idx ≡ 13 % 8)
    × ((reverse_route (forward_map_quadrant 13).bottom_right).selector_idx ≡ 13 % 8)
    × ((reverse_route (forward_map_quadrant 13).bottom_left).selector_idx ≡ 13 % 8)
reverse_route-forward_map_example = reverse_route-forward_map 13 (omega arith)

verify_cons_recovery_law_holds_example : verify_cons_recovery_law 0x12345678 0x55667788 1 ≡ true
verify_cons_recovery_law_holds_example =
    verify_cons_recovery_law_holds 0x12345678 0x55667788 1 (omega arith) (omega arith)

bit_length16_lem_example :
    (bit_length16 0x1234 ≤ 16) × ((bit_length16 0x1234 ≤ 12) ↔ (◌<◌ 0x1234 (2 ^ 12)))
bit_length16_lem_example = bit_length16_lem 0x1234 12 (omega arith)

clock_sync_check_resolved-advance_example :
    (clock_sync_check_resolved
        (advance 5 (clock_sync_peer_init 0x000B))
        (advance 5 (clock_sync_peer_init 0x000D))
        1
      ≡ true)
    ↔ (◌≡◌ {A = ℕ} 0x000B 0x000D)
clock_sync_check_resolved-advance_example =
    clock_sync_check_resolved-advance 5 0x000B 0x000D 1 (omega arith) (omega arith)

clock_sync_check_diagnostic-advance_example :
    (clock_sync_check_diagnostic
        (advance 3 (clock_sync_peer_init 0x0009))
        (advance 0 (clock_sync_peer_init 0x000A))
      ≡ true)
    ↔ SameBand (iterate 3 clock_oscillate 0x0009) (iterate 0 clock_oscillate 0x000A)
clock_sync_check_diagnostic-advance_example =
    clock_sync_check_diagnostic-advance 3 0 0x0009 0x000A (omega arith) (omega arith)

-- Different states of one band, which the exact check tells apart.
one_band :
    clock_sync_check_diagnostic (clock_sync_peer_init 0x0009) (clock_sync_peer_init 0x000A) ≡ true
unfolding clock_sync_check_diagnostic clock_sync_peer_init make_clock classify_clock_state
one_band = refl

abbrev reference : ContributionRef
reference = record {
  source_id = 1;
  car = 0x12345678;
  cdr = 0x55667788;
  resolver_profile = 1;
  scope = 2;
  flags = 0;
  source_digest = replicate 32 0;
}

abbrev elsewhere : ContributionRef
elsewhere = record reference { source_id = 2; scope = 5 }

validate_equivalence_iff_example :
    (((validate_equivalence reference reference).valid ≡ true) ↔ AreEquivalent reference reference)
    × (((validate_equivalence reference reference).valid ≡ true)
        ↔ ((validate_equivalence reference reference).reason ≡ resolved_match))
validate_equivalence_iff_example = validate_equivalence_iff reference reference

validate_equivalence_equiv_example :
    (((validate_equivalence reference reference).valid ≡ true) ↔ (reference.scope < 4))
    × ((validate_equivalence reference elsewhere).valid ≡ true
        → (validate_equivalence elsewhere reference).valid ≡ true)
    × ((validate_equivalence reference elsewhere).valid ≡ true
        → (validate_equivalence elsewhere reference).valid ≡ true
        → (validate_equivalence reference reference).valid ≡ true)
validate_equivalence_equiv_example = validate_equivalence_equiv reference elsewhere reference

abbrev quartet : ScopeQuartet
quartet = record { fs = 1; gs = 0; rs = 1; us = 1 }

quartet-IsQuartet : IsQuartet quartet
quartet-IsQuartet = record {
  fs = omega arith;
  gs = omega arith;
  rs = omega arith;
  us = omega arith;
}

hamming_secded_check_corrects_example :
    hamming_secded_check (flip (encode_hamming quartet) 5) (omnion_of quartet)
    ≡ record { codeword = encode_hamming quartet; status = corrected_single }
hamming_secded_check_corrects_example =
    hamming_secded_check_corrects quartet 5 quartet-IsQuartet (omega arith) (omega arith)

hamming_secded_check_detects_example :
    (hamming_secded_check (flip (encode_hamming quartet) 2) (omnion_of quartet ⊕ 1)
      ≡ record { codeword = flip (encode_hamming quartet) 2; status = double_error_detected })
    × (hamming_secded_check (flip (flip (encode_hamming quartet) 2) 6) (omnion_of quartet)
        ≡ record {
          codeword = flip (flip (encode_hamming quartet) 2) 6;
          status = double_error_detected;
        })
hamming_secded_check_detects_example =
    hamming_secded_check_detects quartet 2 6 quartet-IsQuartet (omega arith) (omega arith)
      (omega arith)

-- The self-checks of the source that take no argument.
router_checks :
    (verify_car_cdr_mirror
      && (verify_selector_roundtrip
          && (verify_quadrant_corner_decode
              && (verify_quadrant_interior_decode && verify_selector_bus_split))))
    ≡ true
unfolding verify_car_cdr_mirror verify_selector_roundtrip verify_quadrant_corner_decode
    verify_quadrant_interior_decode verify_selector_bus_split
router_checks = refl

segment_checks : (verify_all_segment_witnesses && verify_polybius_diagonals) ≡ true
unfolding verify_all_segment_witnesses verify_polybius_diagonals
segment_checks = refl
