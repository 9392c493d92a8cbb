-- ===== src/Validation/Decision.antt =====
-- What a validation decides: a partial equivalence on the references.
use omino.Prelude.{◌≤◌, ◌<◌}
use omino.Prelude.{◌≡◌, ◌≢◌, ◌↔◌, ◌⊎◌, arith}
use omino.Prelude.{true}
use omino.Cons.{cons_fold}
use omino.Segment.Witness.{tetragrammatron_scope_closes_iff}
use omino.UnionFind.{
  none_given, resolved_match, scope_mismatch, scope_out_of_range, resolver_mismatch, no_match,
}
use omino.Validation.{ContributionRef, validate_equivalence}

-- What a valid result says of the two references.
pub record AreEquivalent (left right : ContributionRef) : Type 0 where
  pub same_scope : left.scope ≡ right.scope
  pub has_sector : left.scope < 4
  pub same_profile : left.resolver_profile ≡ right.resolver_profile
  pub same_fold :
      cons_fold left.car left.cdr left.resolver_profile
      ≡ cons_fold right.car right.cdr right.resolver_profile

-- A validation result is valid exactly when the scopes are equal and have a sector, the resolver
-- profiles are equal, and the two folds are equal; and exactly then its reason is a resolved
-- match.
pub validate_equivalence_iff :
    (left right : ContributionRef)
    → (((validate_equivalence left right).valid ≡ true) ↔ AreEquivalent left right)
      × (((validate_equivalence left right).valid ≡ true)
          ↔ ((validate_equivalence left right).reason ≡ resolved_match))
unfolding validate_equivalence
validate_equivalence_iff left right = (
  ground (arith, tetragrammatron_scope_closes_iff left.scope),
  ground (arith, tetragrammatron_scope_closes_iff left.scope),
)

-- The reason of a validation result names the first gate that fails, in the order scope, sector,
-- profile, fold; and the folds are reported whenever the three gates before the last one pass.
pub validate_equivalence_reason :
    (left right : ContributionRef)
    → let out = validate_equivalence left right in
      ((out.reason ≡ scope_mismatch) ↔ (left.scope ≢ right.scope))
      × ((out.reason ≡ scope_out_of_range) ↔ ((left.scope ≡ right.scope) × (4 ≤ left.scope)))
      × ((out.reason ≡ resolver_mismatch) ↔ (
          (left.scope ≡ right.scope)
          × (left.scope < 4)
          × (left.resolver_profile ≢ right.resolver_profile)))
      × (out.reason ≢ none_given)
      × (((out.reason ≡ resolved_match) ⊎ (out.reason ≡ no_match))
          → (out.resolved_left ≡ cons_fold left.car left.cdr left.resolver_profile)
            × (out.resolved_right ≡ cons_fold right.car right.cdr right.resolver_profile))
unfolding validate_equivalence
validate_equivalence_reason left right = (
  ground (arith, tetragrammatron_scope_closes_iff left.scope),
  ground (arith, tetragrammatron_scope_closes_iff left.scope),
  ground (arith, tetragrammatron_scope_closes_iff left.scope),
  ground (arith, tetragrammatron_scope_closes_iff left.scope),
  ground (arith, tetragrammatron_scope_closes_iff left.scope),
)

-- Validity is symmetric and transitive, and holds of a reference with itself exactly when its
-- scope is below 4.
pub validate_equivalence_equiv :
    (a b c : ContributionRef)
    → (((validate_equivalence a a).valid ≡ true) ↔ (a.scope < 4))
      × ((validate_equivalence a b).valid ≡ true → (validate_equivalence b a).valid ≡ true)
      × ((validate_equivalence a b).valid ≡ true
          → (validate_equivalence b c).valid ≡ true
          → (validate_equivalence a c).valid ≡ true)
validate_equivalence_equiv a b c = (
  ground (arith, (validate_equivalence_iff a a).0),
  ground (arith, (validate_equivalence_iff a b).0, (validate_equivalence_iff b a).0),
  ground (
    arith,
    (validate_equivalence_iff a b).0,
    (validate_equivalence_iff b c).0,
    (validate_equivalence_iff a c).0,
  ),
)
