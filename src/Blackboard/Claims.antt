-- ===== src/Blackboard/Claims.antt =====
-- How many contributions claim a coordinate, and how many a fiber lists.
use omino.Prelude.{ℕ, zero, suc, ◌+◌, ◌≤◌, ◌<◌}
use omino.Prelude.{◌≡◌, refl, ap, ◌∙◌, inl, inr, arith}
use omino.Prelude.{List, [], ◌∷◌}
use omino.Prelude.{if◌then◌else◌, Bool-cases}
use omino.Prelude.{length, take}
use omino.Prelude.{length-append}
use omino.Board.{test as board_test}
use omino.Blackboard.{BoardContribution, CoproductBlackboard, fiber_at, contribution_at}
use omino.Blackboard.Invariant.{claimants, IsBlackboard}

pub length-take : {A : Type 0} (k : ℕ) (xs : List A) → k ≤ length xs → length (take k xs) ≡ k
length-take zero xs h = refl
length-take (suc k) [] h = absurd (omega arith)
length-take (suc k) (x ∷ xs) h = ap suc (length-take k xs (omega arith))

module _ (cs : List BoardContribution) (p : ℕ) where
  pub length-claimants-suc :
      (n : ℕ)
      → length (claimants (suc n) cs p)
        ≡ length (claimants n cs p) + (if board_test (contribution_at cs n).board p then 1 else 0)
  unfolding claimants
  length-claimants-suc n =
      length-append (claimants n cs p) _
      ∙ elim (Bool-cases (board_test (contribution_at cs n).board p)) [
        | inl claimed ↦ rw claimed refl
        | inr free ↦ rw free refl
      ]

module _ (bb : CoproductBlackboard) (valid : IsBlackboard bb) (p : ℕ) (in_plane : p < 256) where
  pub length-claimants :
      length (claimants bb.contribution_count bb.contributions p)
      ≡ (fiber_at bb.fibers p).contribution_count
  length-claimants =
      let f = valid.fiber p in_plane in rw (← f.listed) (length-take _ _ (rw f.slots f.depth))
