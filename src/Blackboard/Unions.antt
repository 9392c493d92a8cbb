-- ===== src/Blackboard/Unions.antt =====
-- Union of contributions: its status and what it leaves alone, on every branch.
use omino.Prelude.{ℕ, ◌<◌}
use omino.Prelude.{◌≡◌, refl, ◌∙◌, ◌↔◌, ◌⊎◌, inl, inr, arith}
use omino.Prelude.{true, false, ◌||◌, some}
use omino.Prelude.{leb, Bool-cases}
use omino.UnionFind.{ValidationResult}
use omino.UnionFind.Classes.{union_validated-classes}
use omino.Blackboard.{
  CoproductBlackboard, blackboard_union, ok, error_invalid_index, error_not_validated, Status,
}
use omino.Blackboard.Invariant.{IsBlackboard}
use omino.Blackboard.Composition.{union_returns, equivalence-IsBlackboard, blackboard_union_refused}

-- On a well-formed blackboard a union of contributions, whatever the indices and the result,
-- returns and leaves a well-formed blackboard: it succeeds exactly when the result is valid and
-- both indices are in range, and the error is a missing validation exactly when the result is
-- not valid. With an error nothing has changed, and in no case have the contributions, their
-- number, the fibers and the two boards.
pub blackboard_union_lem :
    (bb : CoproductBlackboard) (l r : ℕ) (validation : ValidationResult)
    → IsBlackboard bb
    → (after : CoproductBlackboard) × (status : Status) × (blackboard_union bb l r validation
        ≡ some (after, status))
      × IsBlackboard after
      × ((status ≡ ok)
          ↔ ((validation.valid ≡ true) × (l < bb.contribution_count) × (r < bb.contribution_count)))
      × ((status ≡ error_not_validated) ↔ (validation.valid ≡ false))
      × ((status ≡ ok) ⊎ (after ≡ bb))
      × (after.contributions ≡ bb.contributions)
      × (after.contribution_count ≡ bb.contribution_count)
      × (after.fibers ≡ bb.fibers)
      × (after.occupancy ≡ bb.occupancy)
      × (after.conflict ≡ bb.conflict)
blackboard_union_lem bb l r validation valid = elim (Bool-cases validation.valid) [
  | inr refused ↦ (
    bb,
    error_not_validated,
    blackboard_union_refused bb l r validation (inl refused) ∙ rw refused refl,
    valid,
    ((λ e. cc), λ (v, a, b). cc),
    ((λ _. refused), λ _. refl),
    inr refl,
    refl,
    refl,
    refl,
    refl,
    refl,
  )
  | inl accepted ↦ elim (Bool-cases (leb bb.contribution_count l || leb bb.contribution_count r)) [
    | inl outside ↦ (
      bb,
      error_invalid_index,
      blackboard_union_refused bb l r validation (ground arith) ∙ rw accepted refl,
      valid,
      ((λ e. cc), λ (_, hl, hr). ground arith),
      ((λ e. cc), λ e. cc),
      inr refl,
      refl,
      refl,
      refl,
      refl,
      refl,
    )
    | inr inside ↦
        let (after, returns, forest, size, classes) =
          union_validated-classes bb.equivalence l r validation valid.forest accepted
            (rw valid.elements (let h = valid.capacity in ground arith))
            (rw valid.elements (let h = valid.capacity in ground arith)) in
        (
          record bb { equivalence = after },
          ok,
          union_returns bb l r validation after accepted (ground arith) (ground arith) returns,
          equivalence-IsBlackboard bb after valid forest (size ∙ valid.elements),
          ((λ _. (accepted, ground arith, ground arith)), λ _. refl),
          ((λ e. cc), λ e. cc),
          inl refl,
          refl,
          refl,
          refl,
          refl,
          refl,
        )
  ]
]
