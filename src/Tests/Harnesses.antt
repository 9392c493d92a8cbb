-- ===== src/Tests/Harnesses.antt =====
-- The sections of `main` on its own data, and the theorems on them.
use omino.Prelude.{ℕ, ◌+◌, ◌<◌}
use omino.Prelude.{◌≡◌, refl, ◌↔◌, arith}
use omino.Prelude.{Bool, true, false, not, ◌&&◌, some, [], ◌∷◌}
use omino.Prelude.{leb, ◌*◌, ◌==◌}
use omino.Prelude.{replicate}
use mathlib.Core.Option.{map as option_map}
use omino.Double.{root, whole_degrees, whole_degrees-IsDouble}
use omino.Board.{plane_mirror, clear}
use omino.Board.{set as board_set, test as board_test}
use omino.Cons.{cons_fold}
use omino.Blackboard.{
  Status, ok, error_not_validated, CoproductBlackboard, BoardContribution, init, inject, admit,
  name_fibers, preflight, append_fibers, append_contributor, cons_result, make_contribution,
  blackboard_union,
}
use omino.Blackboard.Invariant.{IsBlackboard}
use omino.UnionFind.Union.{SameClass}
use omino.Validation.{validate_equivalence}
use omino.Harness.{
  blackboard_sections, show_lawful_union, CoproductReport, UnionReport, rules, facts,
  show_coproduct, show_union, reference_to,
}
use omino.Harness.Coproduct.{show_coproduct_lem}
use omino.Harness.Unions.{show_union_lem}
use omino.Hamming.Degrees.{
  azimuth_degrees, verify_omnion_azimuth_mirror, azimuth_degrees-plane_mirror,
}
use omino.Clock.{clock_sync_peer_init, clock_sync_check_resolved}
use omino.Clock.Sync.{advance}
use omino.Clock.Catchup.{clock_sync_check_resolved_catches_up}
use omino.Clock.Centroid.{resolve_vector_to_centroid, resolve_vector_to_centroid-mirror}
use omino.Harness.Clocks.{sync_section, tick_peer}
use omino.Harness.Laws.{mirror_section}
use omino.Tests.Store.{two, two_injected, two-IsBlackboard}
use omino.Tests.Store.{rules as left, facts as right}

abbrev both : CoproductBlackboard
both = (admit (admit init rules).after facts).after

rules_bit : rules.board ≡ board_set clear 0x48
unfolding make_contribution
rules_bit = refl

facts_bit : facts.board ≡ board_set clear 0x48
unfolding make_contribution
facts_bit = refl

show_coproduct_lem_example :
    show_coproduct rules facts 0x48
    ≡ some (
      both,
      record {
        left_status = ok;
        left_index = 0;
        right_status = ok;
        right_index = 1;
        fiber_count = 2;
        fiber_origins = rules ∷ facts ∷ [];
        occupancy_popcount = 1;
        conflict_popcount = 1;
        forward = cons_result both 0 1 1;
        backward = cons_result both 1 0 1;
        order_sensitive = not (cons_fold rules.car facts.cdr 1 == cons_fold facts.car rules.cdr 1);
      },
    )
show_coproduct_lem_example = show_coproduct_lem rules facts 0x48 (omega arith) rules_bit facts_bit

show_union_lem_example :
    let validation = validate_equivalence (reference_to left) (reference_to right) in
    (united : CoproductBlackboard) × (after : CoproductBlackboard) × (report : UnionReport)
    × (show_union two left right 0 1 ≡ some (after, report))
    × (blackboard_union two 0 1 validation ≡ some (united, report.status))
    × IsBlackboard after
    × ((report.same_class ≡ true) ↔ SameClass united.equivalence.parent 0 1)
    × (validation.valid ≡ true → report.same_class ≡ true)
show_union_lem_example =
    show_union_lem two left right 0 1 two-IsBlackboard (rw two_injected (omega arith))
      (rw two_injected (omega arith))

azimuth_degrees-plane_mirror_example :
    (azimuth_degrees (plane_mirror 0x4B) ≡ azimuth_degrees 0x4B + 180)
    × (verify_omnion_azimuth_mirror ℕ ≡ true)
azimuth_degrees-plane_mirror_example =
    azimuth_degrees-plane_mirror whole_degrees-IsDouble 0x4B (omega arith)

resolve_vector_to_centroid-mirror_example :
    let reference = resolve_vector_to_centroid {W = ℕ} 0x8008 0 in
    let antipodal = resolve_vector_to_centroid {W = ℕ} 0x8008 1 in
    (reference.relative_address ≡ 0x8008)
    × (antipodal.relative_address ≡ 0x8008)
    × (reference.radial_distance ≡ root (0x80 * 0x80 + 0x08 * 0x08))
    × (antipodal.radial_distance ≡ reference.radial_distance)
    × (reference.azimuth_angle ≡ 60)
    × (antipodal.azimuth_angle ≡ reference.azimuth_angle + 180)
    × (leb 180 antipodal.azimuth_angle ≡ true)
    × (leb antipodal.azimuth_angle 270 ≡ true)
resolve_vector_to_centroid-mirror_example =
    resolve_vector_to_centroid-mirror whole_degrees-IsDouble 0x8008 (omega arith)

clock_sync_check_resolved_catches_up_example :
    (k : ℕ) × (k < 8)
    × (clock_sync_check_resolved
          (advance k (advance 5 (clock_sync_peer_init 0x1234)))
          (advance 2 (clock_sync_peer_init 0x1234))
          1
        ≡ true)
clock_sync_check_resolved_catches_up_example =
    clock_sync_check_resolved_catches_up 5 2 0x1234 1 (omega arith)

abbrev outcome : CoproductReport × UnionReport × UnionReport × ℕ → Status × Bool × Status × Bool × ℕ
outcome (_, rejected, lawful, retained) =
    (rejected.status, rejected.same_class, lawful.status, lawful.same_class, retained)

-- The rules and the facts stay apart, the two combinators become one class, and four contributions
-- are retained.
sections_1_to_6 :
    option_map outcome blackboard_sections ≡ some (error_not_validated, false, ok, true, 4)
unfolding blackboard_sections show_coproduct show_union show_lawful_union inject admit preflight
    append_fibers append_contributor init name_fibers make_contribution board_test board_set
    replicate omino.Blackboard.blackboard_cons blackboard_union validate_equivalence reference_to
    omino.Segment.tetragrammatron_scope_closes omino.Segment.segment_xor_witness cons_fold
    omino.UnionFind.find omino.UnionFind.init omino.UnionFind.union_validated omino.UnionFind.unite
    omino.UnionFind.link
sections_1_to_6 = refl

section_8 : (mirror_section 0x48).passes ≡ true
unfolding mirror_section plane_mirror
section_8 = refl

section_11 :
    ((sync_section 3 0x1234 0x1234).resolved && not (sync_section 3 0x1234 0xFFFF).resolved) ≡ true
unfolding sync_section tick_peer clock_sync_check_resolved omino.Clock.clock_sync_peer_tick
    omino.Clock.clock_tick omino.Clock.make_clock omino.Clock.clock_oscillate omino.Delta.rotl16
    clock_sync_peer_init omino.Delta.rotr16
section_11 = refl
