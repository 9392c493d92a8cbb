-- ===== src/Blackboard/Composition.antt =====
-- CONS composition and union of contributions of a well-formed blackboard.
use omino.Prelude.{ℕ, zero, suc, ◌%◌, ◌^◌, ◌≤◌, ◌<◌, bit_and}
use omino.Prelude.{◌≡◌, refl, sym, ap, ◌∙◌, ◌↔◌, ◌⊎◌, inl, inr, arith}
use omino.Prelude.{true, false, ◌&&◌, ◌||◌, none, some}
use omino.Prelude.{ltb, leb, if◌then◌else◌, Bool-cases}
use omino.Prelude.{u16}
use native.Mathlib.Decide.{ℕ_discrete}
use omino.Prelude.Bits.Fields.{bit_and-mod}
use omino.Board.{Board256, IsBoard, popcount}
use omino.Board.{test as board_test, and as board_and}
use omino.Board.Plane.{test-and, and-IsBoard}
use omino.Board.Popcount.{members, popcount-members}
use omino.Cons.{cons_fold, cons_recover_car, cons_recover_cdr}
use omino.Cons.Recovery.{cons_recover_car-fold, cons_recover_cdr-fold}
use omino.Router.{reverse_route}
use omino.UnionFind.Forest.{IsForest}
use omino.UnionFind.{UnionFind, ValidationResult, union_validated}
use omino.UnionFind.Union.{SameClass, Joined}
use omino.UnionFind.Classes.{union_validated-classes}
use omino.Blackboard.{
  CoproductBlackboard, contribution_at, blackboard_cons, blackboard_union, ConsResult, cons_result,
  ok, error_invalid_index, error_not_validated,
}
use omino.Blackboard.Invariant.{IsBlackboard}

-- Composition succeeds exactly when both indices are in range, and it reports an invalid index
-- exactly when it writes no result.
pub blackboard_cons-ok_iff :
    (bb : CoproductBlackboard) (i j profile : ℕ)
    → (((blackboard_cons bb i j profile).0 ≡ ok)
        ↔ ((i < bb.contribution_count) × (j < bb.contribution_count)))
      × (((blackboard_cons bb i j profile).0 ≡ error_invalid_index)
          ↔ ((blackboard_cons bb i j profile).1 ≡ none))
unfolding blackboard_cons
blackboard_cons-ok_iff bb i j profile = ground arith

-- A board with a member has a coordinate, and conversely.
members_some :
    (n : ℕ) (b : Board256) → 1 ≤ members n b → (p : ℕ) × (p < n) × (board_test b p ≡ true)
unfolding members
members_some zero b h = absurd (omega arith)
members_some (suc n) b h = elim (Bool-cases (board_test b n)) [
  | inl claimed ↦ (n, omega arith, claimed)
  | inr free ↦ let (p, lt, claimed) = members_some n b (ground arith) in (p, omega arith, claimed)
]

members_of : (n : ℕ) (b : Board256) (p : ℕ) → p < n → board_test b p ≡ true → 1 ≤ members n b
unfolding members
members_of zero b p h claimed = absurd (omega arith)
members_of (suc n) b p h claimed = elim (ℕ_discrete p n) [
  | yes same ↦ rw (← same, claimed) (omega arith)
  | no other ↦ omega (arith, members_of n b p (omega arith) claimed)
]

low_half : (w : ℕ) → u16 (bit_and w 0xFFFF) ≡ w % 2 ^ 16
low_half w = rw (bit_and-mod 16 w) (omega arith)

-- Two boards overlap at a coordinate exactly when their intersection is not empty.
overlap_iff :
    (a b : Board256)
    → IsBoard a
    → IsBoard b
    → (ltb 0 (popcount (board_and a b)) ≡ true)
      ↔ ((p : ℕ) × (p < 256) × (board_test a p ≡ true) × (board_test b p ≡ true))
overlap_iff a b va vb = rw (popcount-members (board_and a b) (and-IsBoard a b va vb)) (
  λ some_member.
      let (p, h, claimed) = members_some 256 (board_and a b) (ground arith) in
      let both : (board_test a p && board_test b p) ≡ true = sym (test-and a b p h) ∙ claimed in
      (p, h, ground arith, ground arith),
  λ (p, h, x, y).
      let both : board_test (board_and a b) p ≡ true = test-and a b p h ∙ rw (x, y) refl in
      let one = members_of 256 (board_and a b) p h both in ground arith,
)

-- On a well-formed blackboard, with indices in range and a CAR and a CDR of 32 bits, composition
-- succeeds; the resolved word gives back the CAR of the left contribution and the CDR of the
-- right one, the visible coordinate is its low byte, the route and selector are those of its low
-- half, and the conflict flag says that the two boards share a coordinate.
pub blackboard_cons_resolves :
    (bb : CoproductBlackboard) (i j profile : ℕ)
    → IsBlackboard bb
    → i < bb.contribution_count
    → j < bb.contribution_count
    → (contribution_at bb.contributions i).car < 2 ^ 32
    → (contribution_at bb.contributions j).cdr < 2 ^ 32
    → let left = contribution_at bb.contributions i in
      let right = contribution_at bb.contributions j in
      (out : ConsResult) × (blackboard_cons bb i j profile ≡ (ok, some out))
      × (cons_recover_car out.resolved_word right.cdr profile ≡ left.car)
      × (cons_recover_cdr left.car out.resolved_word profile ≡ right.cdr)
      × (out.visible_coordinate ≡ out.resolved_word % 256)
      × (out.selector_idx ≡ (reverse_route (out.resolved_word % 2 ^ 16)).selector_idx)
      × (out.route ≡ (reverse_route (out.resolved_word % 2 ^ 16)).route)
      × ((out.conflict ≡ true) ↔ (
          (p : ℕ) × (p < 256)
          × (board_test left.board p ≡ true)
          × (board_test right.board p ≡ true)))
unfolding blackboard_cons cons_result
blackboard_cons_resolves bb i j profile valid hi hj car_fits cdr_fits =
    let left = contribution_at bb.contributions i in
    let right = contribution_at bb.contributions j in
    let word = cons_fold left.car right.cdr profile in
    let no_error : (leb bb.contribution_count i || leb bb.contribution_count j) ≡ false =
      ground arith in
    (
      cons_result bb i j profile,
      rw no_error refl,
      cons_recover_car-fold left.car right.cdr profile car_fits,
      cons_recover_cdr-fold left.car right.cdr profile cdr_fits,
      (rw (bit_and-mod 8 word) (omega arith)),
      ap (λ w. (reverse_route w).selector_idx) low,
      ap (λ w. (reverse_route w).route) low,
      overlap_iff left.board right.board (valid.boards i) (valid.boards j),
    )
  where
    low :
        u16 (
          bit_and
            (cons_fold
              (contribution_at bb.contributions i).car
              (contribution_at bb.contributions j).cdr
              profile)
            0xFFFF)
        ≡ cons_fold
            (contribution_at bb.contributions i).car
            (contribution_at bb.contributions j).cdr
            profile
          % 2 ^ 16
    low = low_half (
        cons_fold (contribution_at bb.contributions i).car (contribution_at bb.contributions j).cdr
          profile)

pub union_returns :
    (bb : CoproductBlackboard) (l r : ℕ) (validation : ValidationResult) (after : UnionFind)
    → validation.valid ≡ true
    → l < bb.contribution_count
    → r < bb.contribution_count
    → union_validated bb.equivalence l r (some validation) ≡ some (after, true)
    → blackboard_union bb l r validation ≡ some (record bb { equivalence = after }, ok)
unfolding blackboard_union
union_returns bb l r validation after accepted hl hr returns =
    let no_error : (leb bb.contribution_count l || leb bb.contribution_count r) ≡ false =
      ground arith in
    rw (returns, accepted, no_error) refl

-- Another forest of the same elements.
pub equivalence-IsBlackboard :
    (bb : CoproductBlackboard) (after : UnionFind)
    → IsBlackboard bb
    → IsForest after
    → after.size ≡ 256
    → IsBlackboard (record bb { equivalence = after })
equivalence-IsBlackboard bb after valid forest size = record {
  fiber_slots = valid.fiber_slots;
  slots = valid.slots;
  capacity = valid.capacity;
  occupancy_board = valid.occupancy_board;
  conflict_board = valid.conflict_board;
  boards = valid.boards;
  fiber = λ p h.
      (let f = valid.fiber p h in
        record {
          visible = f.visible;
          slots = f.slots;
          depth = f.depth;
          listed = f.listed;
          occupied = f.occupied;
          conflicted = f.conflicted;
        });
  forest = forest;
  elements = size;
}

-- On a well-formed blackboard the union of two injected contributions under a valid result
-- succeeds, leaves a well-formed blackboard with the same contributions, and joins exactly the
-- classes of the two: two elements below 256 are in one class afterwards exactly when they were
-- before or stood in the two joined classes.
pub blackboard_union-classes :
    (bb : CoproductBlackboard) (l r x y : ℕ) (validation : ValidationResult)
    → IsBlackboard bb
    → validation.valid ≡ true
    → l < bb.contribution_count
    → r < bb.contribution_count
    → x < 256
    → y < 256
    → (after : CoproductBlackboard) × (blackboard_union bb l r validation ≡ some (after, ok))
      × IsBlackboard after
      × (after.contributions ≡ bb.contributions)
      × (SameClass after.equivalence.parent x y ↔ Joined bb.equivalence.parent l r x y)
blackboard_union-classes bb l r x y validation valid accepted hl hr hx hy =
    let (after, returns, forest, size, classes) =
      union_validated-classes bb.equivalence l r validation valid.forest accepted
        (rw valid.elements (let h = valid.capacity in omega arith))
        (rw valid.elements (let h = valid.capacity in omega arith)) in
    (
      record bb { equivalence = after },
      union_returns bb l r validation after accepted hl hr returns,
      equivalence-IsBlackboard bb after valid forest (size ∙ valid.elements),
      refl,
      classes x y (rw valid.elements hx) (rw valid.elements hy),
    )

-- Without a valid result, or with an index out of range, a union changes nothing, and its status
-- says which, the result being examined first.
pub blackboard_union_refused :
    (bb : CoproductBlackboard) (l r : ℕ) (validation : ValidationResult)
    → (validation.valid ≡ false) ⊎ (bb.contribution_count ≤ l) ⊎ (bb.contribution_count ≤ r)
    → blackboard_union bb l r validation
      ≡ some (bb, if validation.valid then error_invalid_index else error_not_validated)
unfolding blackboard_union
blackboard_union_refused bb l r validation h = ground arith
