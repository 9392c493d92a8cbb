-- ===== src/Harness/Unions.antt =====
-- Sections 5 and 6 of `main`: a union and the classes that it reports.
use omino.Prelude.{ℕ, ◌<◌}
use omino.Prelude.{◌≡◌, refl, ◌∙◌, ◌↔◌, inl, inr, arith}
use omino.Prelude.{true, some}
use omino.Prelude.{◌==◌, ==_iff, Bool-cases}
use omino.UnionFind.{UnionFind, ValidationResult}
use omino.UnionFind.Forest.{IsForest, Root, Root-unique}
use omino.UnionFind.Find.{Found, find_returns}
use omino.UnionFind.Union.{SameClass}
use omino.UnionFind.Classes.{rooted}
use omino.Validation.{validate_equivalence}
use omino.Blackboard.{
  Status, ok, error_not_validated, BoardContribution, CoproductBlackboard, blackboard_union,
}
use omino.Blackboard.Invariant.{IsBlackboard}
use omino.Blackboard.Composition.{
  blackboard_union-classes, blackboard_union_refused, equivalence-IsBlackboard,
}
use omino.Harness.{UnionReport, reference_to, show_union}

-- Looking for `x`, `y`, `x` and `y` again.
module _ (uf : UnionFind) (x y : ℕ) (forest : IsForest uf) (hx : x < uf.size)
    (hy : y < uf.size) where
  first : Found uf x
  first = find_returns uf x forest hx

  second : Found (record uf { parent = first.parent }) y
  second = find_returns (record uf { parent = first.parent }) y first.forest hy

  third : Found (record uf { parent = second.parent }) x
  third = find_returns (record uf { parent = second.parent }) x second.forest hx

  fourth : Found (record uf { parent = third.parent }) y
  fourth = find_returns (record uf { parent = third.parent }) y third.forest hy

  third_root : third.root ≡ first.root
  third_root =
      Root-unique second.parent third.root first.root third.is_root
        (second.keeps first.root x (first.keeps first.root x first.is_root))

  fourth_root : fourth.root ≡ second.root
  fourth_root =
      Root-unique third.parent fourth.root second.root fourth.is_root
        (third.keeps second.root y (second.keeps second.root y second.is_root))

  second_root : Root uf.parent second.root y
  second_root =
      let (s, of_y) = rooted uf y forest hy in
      rw (← Root-unique first.parent s second.root (first.keeps s y of_y) second.is_root) of_y

  same_root : (third.root == fourth.root ≡ true) ↔ SameClass uf.parent x y
  same_root =
      rw (third_root, fourth_root)
        (
          (λ e.
              (second.root, rw (← (==_iff first.root second.root).0 e) first.is_root, second_root)),
          λ (r, of_x, of_y). (==_iff first.root second.root).1 (
              Root-unique uf.parent first.root r first.is_root of_x
              ∙ Root-unique uf.parent r second.root of_y second_root),
        )

union_total :
    (bb : CoproductBlackboard) (l r : ℕ) (validation : ValidationResult)
    → IsBlackboard bb
    → l < bb.contribution_count
    → r < bb.contribution_count
    → (united : CoproductBlackboard) × (status : Status) × (blackboard_union bb l r validation
        ≡ some (united, status))
      × IsBlackboard united
      × (validation.valid ≡ true → SameClass united.equivalence.parent l r)
union_total bb l r validation valid hl hr = elim (Bool-cases validation.valid) [
  | inr refused ↦ (
    bb,
    error_not_validated,
    blackboard_union_refused bb l r validation (inl refused) ∙ rw refused refl,
    valid,
    λ accepted. ground arith,
  )
  | inl accepted ↦
      let cap = valid.capacity in
      let (after, returns, well, same, joined) =
        blackboard_union-classes bb l r l r validation valid accepted hl hr (omega arith)
          (omega arith) in
      let of_l = rooted bb.equivalence l valid.forest (rw valid.elements (omega arith)) in
      let of_r = rooted bb.equivalence r valid.forest (rw valid.elements (omega arith)) in
      (
        after,
        ok,
        returns,
        well,
        λ _. joined.1 (inr (inl ((of_l.0, of_l.1, of_l.1), (of_r.0, of_r.1, of_r.1)))),
      )
]

-- Section 5 of main, on a well-formed blackboard and two indices in range: the union and the
-- four searches return, with the status of the union and a well-formed blackboard, and the
-- report says that the two are in one class exactly when they are after the union, which a valid
-- result makes them.
pub show_union_lem :
    (bb : CoproductBlackboard) (left right : BoardContribution) (l r : ℕ)
    → IsBlackboard bb
    → l < bb.contribution_count
    → r < bb.contribution_count
    → let validation = validate_equivalence (reference_to left) (reference_to right) in
      (united : CoproductBlackboard) × (after : CoproductBlackboard) × (report : UnionReport)
      × (show_union bb left right l r ≡ some (after, report))
      × (blackboard_union bb l r validation ≡ some (united, report.status))
      × IsBlackboard after
      × ((report.same_class ≡ true) ↔ SameClass united.equivalence.parent l r)
      × (validation.valid ≡ true → report.same_class ≡ true)
unfolding show_union
show_union_lem bb left right l r valid hl hr =
    let validation = validate_equivalence (reference_to left) (reference_to right) in
    let (united, status, returns, well, joins) = union_total bb l r validation valid hl hr in
    let cap = valid.capacity in
    let hl' : l < united.equivalence.size = rw well.elements (omega arith) in
    let hr' : r < united.equivalence.size = rw well.elements (omega arith) in
    let agree = same_root united.equivalence l r well.forest hl' hr' in
    let f₁ = first united.equivalence l r well.forest hl' hr' in
    let f₂ = second united.equivalence l r well.forest hl' hr' in
    let f₃ = third united.equivalence l r well.forest hl' hr' in
    let f₄ = fourth united.equivalence l r well.forest hl' hr' in
    (
      united,
      record united { equivalence = record united.equivalence { parent = f₄.parent } },
      record {
        validation = validation;
        status = status;
        left_class = f₁.root;
        right_class = f₂.root;
        same_class = f₃.root == f₄.root;
      },
      rw (returns, f₁.returns, f₂.returns, f₃.returns, f₄.returns) refl,
      returns,
      equivalence-IsBlackboard united (record united.equivalence { parent = f₄.parent }) well
          f₄.forest well.elements,
      agree,
      λ accepted. agree.1 (joins accepted),
    )
