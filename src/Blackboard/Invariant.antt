-- ===== src/Blackboard/Invariant.antt =====
-- The well-formedness of a blackboard: each fiber lists the contributors that claim its coordinate,
-- in the order of injection, and the two boards say which fibers have one and more than one.
use omino.Prelude.{ℕ, zero, suc, ◌+◌, ◌≤◌, ◌<◌}
use omino.Prelude.{◌≡◌, refl, sym, ◌∙◌, arith}
use omino.Prelude.{true, ◌&&◌, List, [], ◌∷◌, ◌++◌}
use omino.Prelude.{ltb, leb, if◌then◌else◌}
use omino.Prelude.{length, take, replicate}
use omino.Prelude.{length-replicate, get_or-replicate}
use omino.Board.{IsBoard}
use omino.Board.{test as board_test}
use omino.Board.Plane.{clear-IsBoard, test-clear}
use omino.Blackboard.{
  BoardContribution, CoproductBlackboard, fiber_at, contribution_at, init, zero_fiber,
  zero_contribution, zero_union_find,
}
use omino.Blackboard.Fibers.{length-name_fibers, name_fibers_lem}
use omino.UnionFind.Forest.{IsForest}
use omino.UnionFind.Init.{init-IsForest, size-init}

-- The contributions below `n` whose boards claim coordinate `p`, in the order of injection.
unfoldable pub claimants : ℕ → List BoardContribution → ℕ → List ℕ
claimants zero contributions p = []
claimants (suc n) contributions p =
    claimants n contributions p
    ++ (if board_test (contribution_at contributions n).board p then n ∷ [] else [])

-- What a fiber and the two boards say of coordinate `p`.
pub record IsFiberAt (bb : CoproductBlackboard) (p : ℕ) : Type 0 where
  pub visible : (fiber_at bb.fibers p).visible_coordinate ≡ p
  pub slots : length (fiber_at bb.fibers p).contributor_index ≡ 8
  pub depth : (fiber_at bb.fibers p).contribution_count ≤ 8
  pub listed :
      take (fiber_at bb.fibers p).contribution_count (fiber_at bb.fibers p).contributor_index
      ≡ claimants bb.contribution_count bb.contributions p
  pub occupied : board_test bb.occupancy p ≡ ltb 0 (fiber_at bb.fibers p).contribution_count
  pub conflicted : board_test bb.conflict p ≡ ltb 1 (fiber_at bb.fibers p).contribution_count

pub record IsBlackboard (bb : CoproductBlackboard) : Type 0 where
  pub fiber_slots : length bb.fibers ≡ 256
  pub slots : length bb.contributions ≡ 256
  pub capacity : bb.contribution_count ≤ 256
  pub occupancy_board : IsBoard bb.occupancy
  pub conflict_board : IsBoard bb.conflict
  pub boards : (i : ℕ) → IsBoard (contribution_at bb.contributions i).board
  pub fiber : (p : ℕ) → p < 256 → IsFiberAt bb p
  pub forest : IsForest bb.equivalence
  pub elements : bb.equivalence.size ≡ 256

pub init_fiber :
    (p : ℕ) → p < 256 → fiber_at init.fibers p ≡ record zero_fiber { visible_coordinate = p }
unfolding init
init_fiber p h =
    let named =
      name_fibers_lem 256 0 p (replicate 256 zero_fiber) (sym (length-replicate 256 zero_fiber))
        (length-replicate 256 zero_fiber) in
    rw (named, get_or-replicate 256 p zero_fiber, in_range) refl
  where
    in_range : (leb 0 p && ltb p (0 + 256)) ≡ true
    in_range = ground arith

init-IsFiberAt : (p : ℕ) → p < 256 → IsFiberAt init p
unfolding init claimants
init-IsFiberAt p h =
    let e = init_fiber p h in
    record {
      visible = rw e refl;
      slots = rw e (length-replicate 8 0);
      depth = rw e (omega arith);
      listed = rw e refl;
      occupied = rw (e, test-clear p h) refl;
      conflicted = rw (e, test-clear p h) refl;
    }

-- A blackboard is well-formed once it is initialised.
pub init-IsBlackboard : IsBlackboard init
unfolding init
init-IsBlackboard = record {
  fiber_slots = length-name_fibers 256 0 _ ∙ length-replicate 256 zero_fiber;
  slots = length-replicate 256 zero_contribution;
  capacity = omega arith;
  occupancy_board = clear-IsBoard;
  conflict_board = clear-IsBoard;
  boards = λ i. rw get_or-replicate clear-IsBoard;
  fiber = init-IsFiberAt;
  forest =
      init-IsForest zero_union_find 256 (length-replicate 256 0) (length-replicate 256 0)
        (omega arith);
  elements =
      size-init zero_union_find 256 (length-replicate 256 0) (length-replicate 256 0) (omega arith);
}
