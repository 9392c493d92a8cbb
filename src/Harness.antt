-- ===== src/Harness.antt =====
-- `main`, section 12 of src/omnicron-coproduct-partition.c, as a run of the components: each
-- section is a function to the record of the values that it prints. The texts around the values are
-- not modelled. `none` stands for a read of an index that no call has written.
pub mod Coproduct
pub mod Laws
pub mod Program
pub mod Unions
pub mod Clocks
use omino.Prelude.{ℕ, zero, suc, ◌+◌, ◌-◌, ◌*◌, ◌/◌, ◌%◌, ◌^◌, ◌≤◌, ◌<◌, bit_and, bit_or, bit_xor}
use omino.Prelude.{◌≡◌, refl, sym, ap, ap₂, ◌∙◌, ◌≢◌, ◌↔◌, ◌⊎◌, inl, inr, arith}
use omino.Prelude.{Bool, true, false, not, ◌&&◌, ◌||◌, Option, none, some, List, [], ◌∷◌, ◌++◌, map}
use omino.Prelude.{
  ltb, leb, ◌==◌, if◌then◌else◌, ==_iff, Bool-cases, Bool-ext, all_below, all_below_sound,
  all_below_sound₂,
}
use omino.Prelude.{u8, u16, u32, u64, ◌<<<◌, ◌>>>◌, length, get_or, take, drop, replicate}
use omino.Prelude.{
  length-set, get_or-set_self, get_or-set_ne, get_or_ext, length-replicate, get_or-replicate,
  length-append, ltb→lt, lt→ltb,
}
use omino.Prelude.{◌>>=◌}
use omino.Board.{popcount}
use omino.UnionFind.{ValidationResult, find}
use omino.Validation.{ContributionRef, validate_equivalence}
use omino.Blackboard.{
  Status, BoardContribution, CoproductBlackboard, ConsResult, init, inject, fiber_at,
  contribution_at, blackboard_cons, blackboard_union, make_contribution,
}

-- The values of sections 1 to 4.
pub record CoproductReport : Type 0 where
  pub left_status : Status
  pub left_index : ℕ
  pub right_status : Status
  pub right_index : ℕ
  pub fiber_count : ℕ
  pub fiber_origins : List BoardContribution
  pub occupancy_popcount : ℕ
  pub conflict_popcount : ℕ
  pub forward : ConsResult
  pub backward : ConsResult
  pub order_sensitive : Bool

-- The contributions behind a coordinate.
unfoldable pub fiber_lines : CoproductBlackboard → ℕ → List BoardContribution
fiber_lines bb coordinate =
    let fiber = fiber_at bb.fibers coordinate in
    map (contribution_at bb.contributions) (take fiber.contribution_count fiber.contributor_index)

-- Sections 1 to 4 on two contributions, at the coordinate of the fiber that is inspected.
unfoldable pub show_coproduct :
    BoardContribution → BoardContribution → ℕ → Option (CoproductBlackboard × CoproductReport)
show_coproduct left right coordinate =
    let first = inject init (some left) in
    let second = inject first.after (some right) in
    let bb = second.after in
    do
      left_index ← first.out_index
      right_index ← second.out_index
      forward ← (blackboard_cons bb left_index right_index 1).1
      backward ← (blackboard_cons bb right_index left_index 1).1
      some (
        bb,
        record {
          left_status = first.status;
          left_index = left_index;
          right_status = second.status;
          right_index = right_index;
          fiber_count = (fiber_at bb.fibers coordinate).contribution_count;
          fiber_origins = fiber_lines bb coordinate;
          occupancy_popcount = popcount bb.occupancy;
          conflict_popcount = popcount bb.conflict;
          forward = forward;
          backward = backward;
          order_sensitive = not (forward.resolved_word == backward.resolved_word);
        },
      )

-- The reference to a contribution; what the initialiser leaves out is zero.
unfoldable pub reference_to : BoardContribution → ContributionRef
reference_to c = record {
  source_id = c.source_id;
  car = c.car;
  cdr = c.cdr;
  resolver_profile = c.resolver_profile;
  scope = c.scope;
  flags = 0;
  source_digest = replicate 32 0;
}

-- The values of section 5, and of section 6.
pub record UnionReport : Type 0 where
  pub validation : ValidationResult
  pub status : Status
  pub left_class : ℕ
  pub right_class : ℕ
  pub same_class : Bool

-- The four calls of `omi_find` are made in the order of the text.
unfoldable pub show_union :
    CoproductBlackboard
    → BoardContribution
    → BoardContribution
    → ℕ
    → ℕ
    → Option (CoproductBlackboard × UnionReport)
show_union bb left right left_index right_index =
    let validation = validate_equivalence (reference_to left) (reference_to right) in
    do
      (united, status) ← blackboard_union bb left_index right_index validation
      (uf₁, left_class) ← find united.equivalence left_index
      (uf₂, right_class) ← find uf₁ right_index
      (uf₃, left_again) ← find uf₂ left_index
      (uf₄, right_again) ← find uf₃ right_index
      some (
        record united { equivalence = uf₄ },
        record {
          validation = validation;
          status = status;
          left_class = left_class;
          right_class = right_class;
          same_class = left_again == right_again;
        },
      )

-- Section 6: two contributions that differ in their source only are injected and united.
unfoldable pub show_lawful_union :
    CoproductBlackboard → BoardContribution → ℕ → Option (CoproductBlackboard × UnionReport)
show_lawful_union bb combinators source_id =
    let closures = record combinators { source_id = source_id } in
    let first = inject bb (some combinators) in
    let second = inject first.after (some closures) in
    do
      comb_idx ← first.out_index
      clos_idx ← second.out_index
      show_union second.after combinators closures comb_idx clos_idx

abbrev pub rules : BoardContribution
rules = make_contribution 0x52554C45 0x12345678 0x89ABCDEF 0 1 0x48

abbrev pub facts : BoardContribution
facts = make_contribution 0x46414354 0x11223344 0x55667788 0 1 0x48

abbrev pub combinators : BoardContribution
combinators = make_contribution 0x434F4D42 0xAAAAAAAA 0x55555555 1 2 0x10

-- Sections 1 to 6, and the number of contributions that the last lines print.
unfoldable pub blackboard_sections : Option (CoproductReport × UnionReport × UnionReport × ℕ)
blackboard_sections = do
  (coproduct, report) ← show_coproduct rules facts 0x48
  (rejected, union_report) ← show_union coproduct rules facts report.left_index report.right_index
  (united, lawful_report) ← show_lawful_union rejected combinators 0x434C4F53
  some (report, union_report, lawful_report, united.contribution_count)
