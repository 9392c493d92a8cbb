-- ===== src/Blackboard/Injection.antt =====
-- Injection keeps a blackboard well-formed, succeeds exactly when there is room, and otherwise
-- changes nothing.
use omino.Prelude.{ℕ, ◌+◌, ◌<◌}
use omino.Prelude.{◌≡◌, refl, ◌∙◌, ◌⊎◌, inl, inr, arith}
use omino.Prelude.{none, some, List, [], ◌∷◌, ◌++◌}
use omino.Prelude.{leb, if◌then◌else◌, Bool-cases}
use omino.Prelude.{◌&&◌, ◌||◌}
use omino.Prelude.{length}
use omino.Prelude.{length-set, get_or-set_self, get_or-set_ne}
use omino.Prelude.{set as write}
use omino.Board.{IsBoard}
use omino.Board.{test as board_test, and as board_and}
use native.Mathlib.Decide.{ℕ_discrete}
use omino.Board.Plane.{or-IsBoard, and-IsBoard}
use omino.Blackboard.{
  BoardContribution, CoproductBlackboard, contribution_at, zero_contribution, preflight, inject,
  admit, ok, error_capacity, fiber_at,
}
use omino.Blackboard.Fibers.{length-append_fibers}
use omino.Blackboard.Invariant.{IsBlackboard}
use omino.Blackboard.Admission.{
  HasRoom, room_iff, inject-admit, next-IsFiberAt, contributors, next_listed, next_occupied,
  next_conflicted,
}

-- Without room for the contribution, or in a fiber that it claims, injection reports a capacity
-- error, writes no index and changes nothing.
pub inject_refused :
    (bb : CoproductBlackboard) (c : BoardContribution)
    → ¬ HasRoom bb c
    → inject bb (some c) ≡ record { after = bb; status = error_capacity; out_index = none }
unfolding inject
inject_refused bb c full = elim (Bool-cases (leb 256 bb.contribution_count)) [
  | inl no_slot ↦ rw no_slot refl
  | inr slot ↦ rw slot (elim (Bool-cases (preflight 256 0 c.board bb.fibers)) [
    | inl passed ↦ absurd (full ((room_iff bb c).0 (slot, passed)))
    | inr failed ↦ rw failed refl
  ])
]

HasRoom-dec : (bb : CoproductBlackboard) (c : BoardContribution) → HasRoom bb c ⊎ ¬ HasRoom bb c
HasRoom-dec bb c = elim (Bool-cases (leb 256 bb.contribution_count)) [
  | inl no_slot ↦ inr λ room. (let h = room.contribution in ground arith)
  | inr slot ↦ elim (Bool-cases (preflight 256 0 c.board bb.fibers)) [
    | inl passed ↦ inl ((room_iff bb c).0 (slot, passed))
    | inr failed ↦ inr λ room. (let both = (room_iff bb c).1 room in ground (arith, both.1))
  ]
]

write_boards :
    (cs : List BoardContribution) (k i : ℕ) (c : BoardContribution)
    → IsBoard c.board
    → ((j : ℕ) → IsBoard (contribution_at cs j).board)
    → k < length cs
    → IsBoard (contribution_at (write cs k c) i).board
write_boards cs k i c board boards h = elim (ℕ_discrete k i) [
  | yes same ↦ rw (← same, get_or-set_self cs k c zero_contribution h) board
  | no other ↦ rw (get_or-set_ne cs k i c zero_contribution other) (boards i)
]

pub admit-IsBlackboard :
    (bb : CoproductBlackboard) (c : BoardContribution)
    → IsBlackboard bb
    → IsBoard c.board
    → HasRoom bb c
    → IsBlackboard (admit bb c).after
unfolding admit
admit-IsBlackboard bb c valid board room =
    let lt = room.contribution in
    let slot : bb.contribution_count < length bb.contributions = omega (arith, valid.slots) in
    record {
      fiber_slots =
          length-append_fibers 256 0 c.board bb.contribution_count bb.fibers ∙ valid.fiber_slots;
      slots = length-set bb.contributions bb.contribution_count c ∙ valid.slots;
      capacity = omega arith;
      occupancy_board = or-IsBoard bb.occupancy c.board valid.occupancy_board board;
      conflict_board =
          or-IsBoard bb.conflict (board_and bb.occupancy c.board) valid.conflict_board
            (and-IsBoard bb.occupancy c.board valid.occupancy_board board);
      boards = λ i. write_boards bb.contributions bb.contribution_count i c board valid.boards slot;
      fiber = λ p h. next-IsFiberAt bb c valid room p h;
      forest = valid.forest;
      elements = valid.elements;
    }

-- Injection, whether it succeeds or not, leaves a well-formed blackboard.
pub inject-IsBlackboard :
    (bb : CoproductBlackboard) (c : BoardContribution)
    → IsBlackboard bb
    → IsBoard c.board
    → IsBlackboard (inject bb (some c)).after
inject-IsBlackboard bb c valid board = elim (HasRoom-dec bb c) [
  | inl room ↦ rw (inject-admit bb c room) (admit-IsBlackboard bb c valid board room)
  | inr full ↦ rw (inject_refused bb c full) valid
]

-- On a well-formed blackboard with room, injection succeeds and reports the next free index; the
-- contribution stands there, and an earlier one and the equivalence are as before; at a
-- coordinate below 256 the fiber lists the index behind those that it listed exactly when the
-- board claims the coordinate, which is occupied when it was or the board claims it, and in
-- conflict when it was or it was occupied and the board claims it.
pub inject_admitted :
    (bb : CoproductBlackboard) (c : BoardContribution) (j p : ℕ)
    → IsBlackboard bb
    → HasRoom bb c
    → j < bb.contribution_count
    → p < 256
    → let i = inject bb (some c) in
      (i.status ≡ ok)
      × (i.out_index ≡ some bb.contribution_count)
      × (i.after.contribution_count ≡ bb.contribution_count + 1)
      × (contribution_at i.after.contributions bb.contribution_count ≡ c)
      × (contribution_at i.after.contributions j ≡ contribution_at bb.contributions j)
      × (i.after.equivalence ≡ bb.equivalence)
      × (contributors (fiber_at i.after.fibers p)
          ≡ contributors (fiber_at bb.fibers p)
            ++ (if board_test c.board p then bb.contribution_count ∷ [] else []))
      × (board_test i.after.occupancy p ≡ (board_test bb.occupancy p || board_test c.board p))
      × (board_test i.after.conflict p
          ≡ (board_test bb.conflict p || (board_test bb.occupancy p && board_test c.board p)))
unfolding admit
inject_admitted bb c j p valid room earlier in_plane = rw (inject-admit bb c room) (
  refl,
  refl,
  (let h = room.contribution in omega arith),
  get_or-set_self bb.contributions bb.contribution_count c zero_contribution
      (let h = room.contribution in omega (arith, valid.slots)),
  get_or-set_ne bb.contributions bb.contribution_count j c zero_contribution (omega arith),
  refl,
  next_listed bb c valid room p in_plane,
  next_occupied bb c valid room p in_plane,
  next_conflicted bb c valid room p in_plane,
)
