-- ===== src/Blackboard.antt =====
-- The coproduct blackboard, sections 2, 4, 5, 7 and 9 of src/omnicron-coproduct-partition.c:
-- contributions, the fibers behind the coordinates of the plane, injection, CONS composition and
-- validated union of contributions. Arrays are lists of their C length; a null pointer is `none`.
pub mod Fibers
pub mod Invariant
pub mod Claims
pub mod Admission
pub mod Injection
pub mod Composition
pub mod Unions
pub mod Runs
pub mod Origins
pub mod History
pub mod Order
pub mod Refinement
use omino.Prelude.{ℕ, zero, suc, ◌+◌, ◌-◌, ◌*◌, ◌/◌, ◌%◌, ◌^◌, ◌≤◌, ◌<◌, bit_and, bit_or, bit_xor}
use omino.Prelude.{◌≡◌, refl, sym, ap, ap₂, ◌∙◌, ◌≢◌, ◌↔◌, ◌⊎◌, inl, inr, arith}
use omino.Prelude.{Bool, true, false, not, ◌&&◌, ◌||◌, Option, none, some, List, [], ◌∷◌, ◌++◌, map}
use omino.Prelude.{
  ltb, leb, ◌==◌, if◌then◌else◌, ==_iff, Bool-cases, Bool-ext, all_below, all_below_sound,
  all_below_sound₂,
}
use omino.Prelude.{u8, u16, u32, u64, ◌<<<◌, ◌>>>◌, length, get_or, take, drop, replicate}
use omino.Prelude.{
  length-set, get_or-set_self, get_or-set_ne, get_or_ext, length-replicate, get_or-replicate,
  length-append, ltb→lt, lt→ltb,
}
use omino.Prelude.{set as write}
use omino.Board.{Board256, clear, popcount}
use omino.Board.{set as board_set, test as board_test, or as board_or, and as board_and}
use omino.Cons.{cons_fold}
use omino.Router.{BusRoute, reverse_route}
use omino.Prelude.{◌>>=◌}
use omino.UnionFind.{UnionFind, ValidationResult, union_validated, is_valid, max_contributions}
use omino.UnionFind.{init as uf_init}

pub data Status : Type 0 where
  ok error_capacity error_invalid_index error_not_validated : Status

pub record BoardContribution : Type 0 where
  pub source_id : ℕ
  pub car : ℕ
  pub cdr : ℕ
  pub board : Board256
  pub resolver_profile : ℕ
  pub scope : ℕ
  pub contribution_type : ℕ
  pub digest : List ℕ

-- `contributor_index` has eight entries, and `contribution_count` of them are in use.
pub record BlackboardFiber : Type 0 where
  pub visible_coordinate : ℕ
  pub contribution_count : ℕ
  pub contributor_index : List ℕ

pub record CoproductBlackboard : Type 0 where
  pub occupancy : Board256
  pub conflict : Board256
  pub fibers : List BlackboardFiber
  pub contributions : List BoardContribution
  pub contribution_count : ℕ
  pub equivalence : UnionFind

abbrev pub plane_size : ℕ
plane_size = 256

abbrev pub max_fiber_contributors : ℕ
max_fiber_contributors = 8

-- A contribution, a fiber and a union-find of zero bytes.
abbrev pub zero_contribution : BoardContribution
zero_contribution = record {
  source_id = 0;
  car = 0;
  cdr = 0;
  board = clear;
  resolver_profile = 0;
  scope = 0;
  contribution_type = 0;
  digest = replicate 32 0;
}

abbrev pub zero_fiber : BlackboardFiber
zero_fiber = record {
  visible_coordinate = 0;
  contribution_count = 0;
  contributor_index = replicate max_fiber_contributors 0;
}

abbrev pub zero_union_find : UnionFind
zero_union_find = record {
  parent = replicate max_contributions 0;
  rank = replicate max_contributions 0;
  size = 0;
}

abbrev pub fiber_at : List BlackboardFiber → ℕ → BlackboardFiber
fiber_at fibers p = get_or fibers p zero_fiber

abbrev pub contribution_at : List BoardContribution → ℕ → BoardContribution
contribution_at contributions i = get_or contributions i zero_contribution

-- `for (p = p; left rounds; p++) fibers[p].visible_coordinate = (uint8_t)p;`
unfoldable pub name_fibers : ℕ → ℕ → List BlackboardFiber → List BlackboardFiber
name_fibers zero p fibers = fibers
name_fibers (suc left) p fibers =
    name_fibers left (p + 1)
      (write fibers p (record (fiber_at fibers p) { visible_coordinate = u8 p }))

unfoldable pub init : CoproductBlackboard
init = record {
  occupancy = clear;
  conflict = clear;
  fibers = name_fibers plane_size 0 (replicate plane_size zero_fiber);
  contributions = replicate max_contributions zero_contribution;
  contribution_count = 0;
  equivalence = uf_init zero_union_find max_contributions;
}

-- The loop of the preflight check: false is its `return OMI_ERROR_CAPACITY`.
unfoldable pub preflight : ℕ → ℕ → Board256 → List BlackboardFiber → Bool
preflight zero p board fibers = true
preflight (suc left) p board fibers =
    let rest = preflight left (p + 1) board fibers in
    if not (board_test board (u8 p))
    then rest
    else if leb max_fiber_contributors (fiber_at fibers p).contribution_count
    then false
    else rest

unfoldable pub append_contributor : BlackboardFiber → ℕ → BlackboardFiber
append_contributor fiber index = record fiber {
  contributor_index = write fiber.contributor_index fiber.contribution_count (u16 index);
  contribution_count = u32 (fiber.contribution_count + 1);
}

-- The loop that appends the contributor to each fiber that its board claims.
unfoldable pub append_fibers : ℕ → ℕ → Board256 → ℕ → List BlackboardFiber → List BlackboardFiber
append_fibers zero p board index fibers = fibers
append_fibers (suc left) p board index fibers = append_fibers left (p + 1) board index (
    if not (board_test board (u8 p))
    then fibers
    else write fibers p (append_contributor (fiber_at fibers p) index))

-- The state after the call, the status, and what is written through `out_index`.
pub record Injected : Type 0 where
  pub after : CoproductBlackboard
  pub status : Status
  pub out_index : Option ℕ

abbrev refuse : CoproductBlackboard → Status → Injected
refuse bb status = record { after = bb; status = status; out_index = none }

-- The part of `omi_blackboard_inject` after its capacity checks.
unfoldable pub admit : CoproductBlackboard → BoardContribution → Injected
admit bb contribution =
    let index = bb.contribution_count in
    let overlap = board_and bb.occupancy contribution.board in
    record {
      after = record bb {
        contributions = write bb.contributions index contribution;
        conflict = board_or bb.conflict overlap;
        occupancy = board_or bb.occupancy contribution.board;
        fibers = append_fibers plane_size 0 contribution.board index bb.fibers;
        contribution_count = u32 (bb.contribution_count + 1);
      };
      status = ok;
      out_index = some index;
    }

-- `omi_blackboard_inject` on a blackboard that is not null.
unfoldable pub inject : CoproductBlackboard → Option BoardContribution → Injected
inject bb none = refuse bb error_invalid_index
inject bb (some contribution) =
    if leb max_contributions bb.contribution_count
    then refuse bb error_capacity
    else if not (preflight plane_size 0 contribution.board bb.fibers)
    then refuse bb error_capacity
    else admit bb contribution

pub record ConsResult : Type 0 where
  pub left_contribution : ℕ
  pub right_contribution : ℕ
  pub resolved_word : ℕ
  pub visible_coordinate : ℕ
  pub overlap_board : Board256
  pub conflict : Bool
  pub route : BusRoute
  pub selector_idx : ℕ

-- What `omi_blackboard_cons` writes through `out` once the indices are in range.
unfoldable pub cons_result : CoproductBlackboard → ℕ → ℕ → ℕ → ConsResult
cons_result bb left_contribution right_contribution resolver_profile =
    let left = contribution_at bb.contributions left_contribution in
    let right = contribution_at bb.contributions right_contribution in
    let resolved_word = cons_fold left.car right.cdr resolver_profile in
    let overlap_board = board_and left.board right.board in
    let routed = reverse_route (u16 (bit_and resolved_word 0xFFFF)) in
    record {
      left_contribution = left_contribution;
      right_contribution = right_contribution;
      resolved_word = resolved_word;
      visible_coordinate = u8 (bit_and resolved_word 0xFF);
      overlap_board = overlap_board;
      conflict = ltb 0 (popcount overlap_board);
      route = routed.route;
      selector_idx = routed.selector_idx;
    }

-- The status, and what is written through `out`.
unfoldable pub blackboard_cons : CoproductBlackboard → ℕ → ℕ → ℕ → Status × Option ConsResult
blackboard_cons bb left_contribution right_contribution resolver_profile =
    if leb bb.contribution_count left_contribution || leb bb.contribution_count right_contribution
    then (error_invalid_index, none)
    else (ok, some (cons_result bb left_contribution right_contribution resolver_profile))

-- `omi_blackboard_union`: the state after the call and the status.
unfoldable pub blackboard_union :
    CoproductBlackboard → ℕ → ℕ → ValidationResult → Option (CoproductBlackboard × Status)
blackboard_union bb left_contribution right_contribution validation =
    if not validation.valid
    then some (bb, error_not_validated)
    else if leb bb.contribution_count left_contribution
        || leb bb.contribution_count right_contribution
    then some (bb, error_invalid_index)
    else union_validated bb.equivalence left_contribution right_contribution (some validation)
      >>= λ (equivalence, joined).
          some (record bb { equivalence = equivalence }, if joined then ok else error_not_validated)

-- `omi_make_contribution`.
unfoldable pub make_contribution : ℕ → ℕ → ℕ → ℕ → ℕ → ℕ → BoardContribution
make_contribution source_id car cdr scope resolver_profile single_bit_position =
    record zero_contribution {
      source_id = source_id;
      car = car;
      cdr = cdr;
      scope = scope;
      resolver_profile = resolver_profile;
      contribution_type = 0;
      board = board_set clear single_bit_position;
    }
