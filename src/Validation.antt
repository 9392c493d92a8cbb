-- ===== src/Validation.antt =====
-- `omi_blackboard_validate_equivalence`, section 9 of src/omnicron-coproduct-partition.c, with
-- `OmiContributionRef`. The function always returns `OMI_OK` and does not read the blackboard, so
-- its result is the value that it writes through `out`.
pub mod Decision
use omino.Prelude.{ℕ, zero, suc, ◌+◌, ◌-◌, ◌*◌, ◌/◌, ◌%◌, ◌^◌, ◌≤◌, ◌<◌, bit_and, bit_or, bit_xor}
use omino.Prelude.{◌≡◌, refl, sym, ap, ap₂, ◌∙◌, ◌≢◌, ◌↔◌, ◌⊎◌, inl, inr, arith}
use omino.Prelude.{Bool, true, false, not, ◌&&◌, ◌||◌, Option, none, some, List, [], ◌∷◌, ◌++◌, map}
use omino.Prelude.{
  ltb, leb, ◌==◌, if◌then◌else◌, ==_iff, Bool-cases, Bool-ext, all_below, all_below_sound,
  all_below_sound₂,
}
use omino.Prelude.{u8, u16, u32, u64, ◌<<<◌, ◌>>>◌, length, get_or, take, drop, replicate}
use omino.Prelude.{
  length-set, get_or-set_self, get_or-set_ne, get_or_ext, length-replicate, get_or-replicate,
  length-append, ltb→lt, lt→ltb,
}
use omino.Cons.{cons_fold}
use omino.Segment.{tetragrammatron_scope_closes}
use omino.UnionFind.{
  ValidationReason, none_given, resolved_match, scope_mismatch, scope_out_of_range,
  resolver_mismatch, no_match, ValidationResult,
}

pub record ContributionRef : Type 0 where
  pub source_id : ℕ
  pub car : ℕ
  pub cdr : ℕ
  pub resolver_profile : ℕ
  pub scope : ℕ
  pub flags : ℕ
  pub source_digest : List ℕ

-- `memset(out, 0, sizeof(*out))`.
abbrev pub cleared : ValidationResult
cleared = record { valid = false; reason = none_given; resolved_left = 0; resolved_right = 0 }

unfoldable pub validate_equivalence : ContributionRef → ContributionRef → ValidationResult
validate_equivalence left right =
    if not (left.scope == right.scope)
    then record cleared { valid = false; reason = scope_mismatch }
    else if not (tetragrammatron_scope_closes left.scope)
    then record cleared { valid = false; reason = scope_out_of_range }
    else if not (left.resolver_profile == right.resolver_profile)
    then record cleared { valid = false; reason = resolver_mismatch }
    else let resolved_left = cons_fold left.car left.cdr left.resolver_profile in
      let resolved_right = cons_fold right.car right.cdr right.resolver_profile in
      let out = record cleared { resolved_left = resolved_left; resolved_right = resolved_right } in
      if resolved_left == resolved_right
      then record out { valid = true; reason = resolved_match }
      else record out { valid = false; reason = no_match }
