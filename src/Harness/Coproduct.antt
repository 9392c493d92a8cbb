-- ===== src/Harness/Coproduct.antt =====
-- Sections 1 to 4 of `main` on any two contributions to one coordinate.
use omino.Prelude.{ℕ, zero, suc, ◌≤◌, ◌<◌}
use omino.Prelude.{◌≡◌, refl, sym, ap, ◌∙◌, arith}
use omino.Prelude.{Bool, true, false, not, ◌&&◌, ◌||◌, some, List, [], ◌∷◌}
use omino.Prelude.{leb, ◌==◌, all_below, all_below_sound}
use omino.Prelude.{length, replicate}
use omino.Board.{IsBoard, clear, popcount, lane_popcount}
use omino.Board.{set as board_set, test as board_test, or as board_or, and as board_and}
use omino.Board.Plane.{clear-IsBoard, set-IsBoard, test-set}
use omino.Blackboard.{
  ok, BoardContribution, CoproductBlackboard, init, admit, fiber_at, contribution_at,
  blackboard_cons, cons_result,
}
use omino.Blackboard.Invariant.{claimants, IsBlackboard, init-IsBlackboard}
use omino.Blackboard.Admission.{HasRoom, inject-admit}
use omino.Blackboard.Injection.{admit-IsBlackboard}
use omino.Blackboard.Claims.{length-claimants, length-claimants-suc}
use omino.Cons.{cons_fold}
use omino.Harness.{CoproductReport, fiber_lines, show_coproduct}

length-claimants-le : (n : ℕ) (cs : List BoardContribution) (p : ℕ) → length (claimants n cs p) ≤ n
unfolding claimants
length-claimants-le zero cs p = omega arith
length-claimants-le (suc n) cs p =
    let grown = length-claimants-suc cs p n in
    let before = length-claimants-le n cs p in ground arith

-- A blackboard with fewer than eight contributions has room.
few-HasRoom :
    (bb : CoproductBlackboard) (c : BoardContribution)
    → IsBlackboard bb
    → bb.contribution_count < 8
    → HasRoom bb c
few-HasRoom bb c valid few = record {
  contribution = omega arith;
  fibers = λ p h claimed.
      let count = length-claimants bb valid p h in
      let most = length-claimants-le bb.contribution_count bb.contributions p in omega arith;
}

abbrev one_bit : ℕ → Bool
one_bit p =
    let s = board_set clear p in
    popcount (board_or (board_or clear s) s) == 1
    && popcount (board_or (board_or clear (board_and clear s)) (board_and (board_or clear s) s))
      == 1

all_one_bit : all_below 256 one_bit ≡ true
unfolding all_below board_set popcount lane_popcount board_or board_and
all_one_bit = refl

module _ (left right : BoardContribution) (p : ℕ) (in_plane : p < 256)
    (left_bit : left.board ≡ board_set clear p) (right_bit : right.board ≡ board_set clear p) where
  abbrev first : CoproductBlackboard
  first = (admit init left).after

  abbrev both : CoproductBlackboard
  both = (admit first right).after

  claims : board_test (board_set clear p) p ≡ true
  claims = test-set clear p p clear-IsBoard in_plane in_plane ∙ ground arith

  bit-IsBoard : IsBoard (board_set clear p)
  bit-IsBoard = set-IsBoard clear p clear-IsBoard in_plane

  init-HasRoom : HasRoom init left
  init-HasRoom = few-HasRoom init left init-IsBlackboard (unfold init in omega arith)

  first-IsBlackboard : IsBlackboard first
  first-IsBlackboard =
      admit-IsBlackboard init left init-IsBlackboard (rw left_bit bit-IsBoard) init-HasRoom

  first_count : first.contribution_count ≡ 1
  unfolding admit init
  first_count = refl

  first-HasRoom : HasRoom first right
  first-HasRoom = few-HasRoom first right first-IsBlackboard (omega (arith, first_count))

  both-IsBlackboard : IsBlackboard both
  both-IsBlackboard =
      admit-IsBlackboard first right first-IsBlackboard (rw right_bit bit-IsBoard) first-HasRoom

  both_count : both.contribution_count ≡ 2
  unfolding admit init
  both_count = refl

  at_left : contribution_at both.contributions 0 ≡ left
  unfolding admit init replicate
  at_left = refl

  at_right : contribution_at both.contributions 1 ≡ right
  unfolding admit init replicate
  at_right = refl

  both_claim : claimants 2 both.contributions p ≡ 0 ∷ 1 ∷ []
  unfolding claimants
  both_claim = rw (at_left, at_right, left_bit, right_bit, claims) refl

  counted : (fiber_at both.fibers p).contribution_count ≡ 2
  counted =
      sym (length-claimants both both-IsBlackboard p in_plane)
      ∙ rw both_count (ap length both_claim)

  listed : fiber_lines both p ≡ left ∷ right ∷ []
  unfolding fiber_lines
  listed =
      rw ((both-IsBlackboard.fiber p in_plane).listed, both_count, both_claim, at_left, at_right)
        refl

  one_bit_of : one_bit p ≡ true
  one_bit_of = all_below_sound 256 one_bit p all_one_bit in_plane

  occupied : popcount both.occupancy ≡ 1
  unfolding admit init
  occupied = rw (left_bit, right_bit) (ground (arith, one_bit_of))

  conflicted : popcount both.conflict ≡ 1
  unfolding admit init
  conflicted = rw (left_bit, right_bit) (ground (arith, one_bit_of))

  composed :
      (i j : ℕ) → i < 2 → j < 2 → (blackboard_cons both i j 1).1 ≡ some (cons_result both i j 1)
  unfolding blackboard_cons
  composed i j hi hj =
      let count = both_count in
      let in_range : (leb both.contribution_count i || leb both.contribution_count j) ≡ false =
        rw count (ground arith) in
      rw in_range refl

  left_reported : ((admit init left).out_index ≡ some 0) × ((admit init left).status ≡ ok)
  unfolding admit init
  left_reported = (refl, refl)

  right_reported : ((admit first right).out_index ≡ some 1) × ((admit first right).status ≡ ok)
  unfolding admit init
  right_reported = (refl, refl)

  words :
      ((cons_result both 0 1 1).resolved_word ≡ cons_fold left.car right.cdr 1)
      × ((cons_result both 1 0 1).resolved_word ≡ cons_fold right.car left.cdr 1)
  unfolding cons_result
  words = rw (at_left, at_right) (refl, refl)

  abbrev report : CoproductReport
  report = record {
    left_status = ok;
    left_index = 0;
    right_status = ok;
    right_index = 1;
    fiber_count = 2;
    fiber_origins = left ∷ right ∷ [];
    occupancy_popcount = 1;
    conflict_popcount = 1;
    forward = cons_result both 0 1 1;
    backward = cons_result both 1 0 1;
    order_sensitive = not (cons_fold left.car right.cdr 1 == cons_fold right.car left.cdr 1);
  }

  -- Sections 1 to 4 of main, on any two contributions that claim one coordinate below 256 and no
  -- other: both are injected, at indices 0 and 1, the fiber lists both in order, one coordinate
  -- is occupied and one in conflict, both compositions are those of the blackboard, and the
  -- order matters exactly when their two folds differ.
  pub show_coproduct_lem : show_coproduct left right p ≡ some (both, report)
  unfolding show_coproduct
  show_coproduct_lem =
      rw
        (
          inject-admit init left init-HasRoom,
          inject-admit first right first-HasRoom,
          left_reported.0,
          left_reported.1,
          right_reported.0,
          right_reported.1,
          composed 0 1 (omega arith) (omega arith),
          composed 1 0 (omega arith) (omega arith),
          counted,
          listed,
          occupied,
          conflicted,
          words.0,
          words.1,
        )
        refl
