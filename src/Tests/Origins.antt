-- ===== src/Tests/Origins.antt =====
-- The abstract view of a blackboard on two orders of injection, and the comparison of images.
use omino.Prelude.{ℕ, ◌+◌, ◌*◌, ◌≤◌, ◌<◌}
use omino.Prelude.{◌≡◌, refl, ◌≢◌, ◌↔◌, arith}
use omino.Prelude.{some, List, [], ◌∷◌, length}
use omino.Prelude.{ltb}
use omino.Prelude.{get_or}
use mathlib.Core.Quot
use mathlib.Core.List.{Permᴰ, Memᴰ}
use omino.Board.{test as board_test}
use omino.Blackboard.{BoardContribution, CoproductBlackboard, init, inject, fiber_at}
use omino.Blackboard.Admission.{HasRoom}
use omino.Blackboard.Origins.{origins, add_origin, claim_count, claims_at, origins-inject}
use omino.Blackboard.Order.{injections, Fits, run-order}
use omino.Blackboard.Runs.{Call, injecting, run, IsCall}
use omino.Export.{
  export_ok, byte_mismatch, binary_export_compare, meta_compile_to_eal, meta_compile_to_first_form,
}
use omino.Export.Compare.{Compared, binary_export_compare_iff}
use omino.Export.Compiled.{meta_compile_to_eal-compare}
use omino.Tests.Store.{rules, facts, rules-IsBoard, facts-IsBoard, one, one-IsBlackboard}

origins-inject_example :
    let after = (inject one (some facts)).after in
    (HasRoom one facts → origins after ≡ add_origin facts (origins one))
    × (¬ HasRoom one facts → origins after ≡ origins one)
    × (board_test after.occupancy 0x41 ≡ ltb 0 (claims_at 0x41 (origins after)))
    × (board_test after.conflict 0x41 ≡ ltb 1 (claims_at 0x41 (origins after)))
origins-inject_example = origins-inject one facts 0x41 one-IsBlackboard facts-IsBoard (omega arith)

-- Two contributions in the two orders.
abbrev in_order : List Call
in_order = injecting rules ∷ injecting facts ∷ []

abbrev in_reverse : List Call
in_reverse = injecting facts ∷ injecting rules ∷ []

in_order-IsCall : (c : Call) → Memᴰ c in_order → IsCall c
in_order-IsCall c (Memᴰ.head e) = rw e rules-IsBoard
in_order-IsCall c (Memᴰ.tail (Memᴰ.head e)) = rw e facts-IsBoard
in_order-IsCall c (Memᴰ.tail (Memᴰ.tail m)) = elim m [ ]

in_reverse-IsCall : (c : Call) → Memᴰ c in_reverse → IsCall c
in_reverse-IsCall c (Memᴰ.head e) = rw e facts-IsBoard
in_reverse-IsCall c (Memᴰ.tail (Memᴰ.head e)) = rw e rules-IsBoard
in_reverse-IsCall c (Memᴰ.tail (Memᴰ.tail m)) = elim m [ ]

reversed : Permᴰ (injections in_order) (injections in_reverse)
unfolding injections
reversed = Permᴰ.swap refl refl

claim_count-le : (p : ℕ) (cs : List BoardContribution) → claim_count p cs ≤ length cs
claim_count-le p [] = omega arith
claim_count-le p (c ∷ cs) = ground (arith, claim_count-le p cs)

in_order-Fits : Fits (injections in_order)
unfolding injections
in_order-Fits = record {
  slots = omega arith;
  fibers = λ p h. omega (arith, claim_count-le p (rules ∷ facts ∷ []));
}

run-order_example :
    (after : CoproductBlackboard) × (after' : CoproductBlackboard) × (run init in_order
      ≡ some after)
    × (run init in_reverse ≡ some after')
    × (origins after ≡ Quot.mk (injections in_order))
    × (origins after ≡ origins after')
    × ((fiber_at after.fibers 0x41).contribution_count
        ≡ (fiber_at after'.fibers 0x41).contribution_count)
    × (board_test after.occupancy 0x41 ≡ board_test after'.occupancy 0x41)
    × (board_test after.conflict 0x41 ≡ board_test after'.conflict 0x41)
run-order_example =
    run-order in_order in_reverse 0x41 in_order-IsCall in_reverse-IsCall reversed in_order-Fits
      (omega arith)

binary_export_compare_iff_example :
    let a = meta_compile_to_eal 1 0 in
    let b = meta_compile_to_eal 0 3 in
    (((binary_export_compare (some a) (some b)).0 ≡ export_ok) ↔ Compared a b)
    × ((binary_export_compare (some a) (some b)).0 ≡ byte_mismatch
        → (k : ℕ) × (binary_export_compare (some a) (some b) ≡ (byte_mismatch, some k))
          × ((j : ℕ) → 0 ≤ j → j < 0 + k → get_or a.binary_data j 0 ≡ get_or b.binary_data j 0)
          × (get_or a.binary_data k 0 ≢ get_or b.binary_data k 0))
binary_export_compare_iff_example =
    binary_export_compare_iff (meta_compile_to_eal 1 0) (meta_compile_to_eal 0 3)

meta_compile_to_eal-compare_example :
    let image = meta_compile_to_eal 1 0 in
    (((binary_export_compare (some image) (some (meta_compile_to_eal 0 2))).0 ≡ export_ok)
      ↔ (2 * 1 + 0 ≡ 2 * 0 + 2))
    × (((binary_export_compare (some image) (some meta_compile_to_first_form)).0 ≡ export_ok)
        ↔ (◌≡◌ {A = ℕ} 1 0 × ◌≡◌ {A = ℕ} 0 0))
meta_compile_to_eal-compare_example =
    meta_compile_to_eal-compare 1 0 0 2 (omega arith) (omega arith) (omega arith) (omega arith)
