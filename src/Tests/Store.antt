-- ===== src/Tests/Store.antt =====
-- Two contributions injected into a blackboard, composed and united.
use omino.Prelude.{ℕ, ◌+◌, ◌%◌, ◌^◌, ◌<◌}
use omino.Prelude.{◌≡◌, refl, ◌↔◌, ◌⊎◌, arith}
use omino.Prelude.{true, false, ◌&&◌, ◌||◌, none, some, List, [], ◌∷◌, ◌++◌}
use omino.Prelude.{ltb, if◌then◌else◌, all_below, all_below_sound}
use omino.Prelude.{replicate}
use omino.Prelude.{length-replicate, ltb→lt}
use mathlib.Core.List.{Memᴰ}
use omino.Board.{Board256, IsBoard, clear}
use omino.Board.{set as board_set, test as board_test}
use omino.Board.Plane.{clear-IsBoard, set-IsBoard}
use omino.UnionFind.{UnionFind, ValidationResult, resolved_match, find}
use omino.UnionFind.Find.{Found, find_returns}
use omino.UnionFind.History.{Request, Equivalent, Maintains}
use omino.UnionFind.Closure.{replay-Maintains}
use omino.UnionFind.Union.{SameClass, Joined}
use omino.Cons.{cons_recover_car, cons_recover_cdr}
use omino.Router.{reverse_route}
use omino.Blackboard.{
  BoardContribution, CoproductBlackboard, ConsResult, ok, error_capacity, error_not_validated,
  Status, init, inject, admit, preflight, append_fibers, append_contributor, name_fibers, fiber_at,
  contribution_at, make_contribution, blackboard_cons, blackboard_union, zero_union_find,
}
use omino.Blackboard.Invariant.{IsBlackboard, init-IsBlackboard}
use omino.Blackboard.Admission.{HasRoom, contributors}
use omino.Blackboard.Injection.{inject-IsBlackboard, inject_admitted, inject_refused}
use omino.Blackboard.Origins.{retained, claim_count}
use omino.Blackboard.History.{kept_after, keep, has_space}
use omino.Blackboard.Refinement.{requests, run-refines}
use omino.Blackboard.Composition.{blackboard_cons_resolves, blackboard_union-classes}
use omino.Blackboard.Unions.{blackboard_union_lem}
use omino.Blackboard.Runs.{Call, injecting, uniting, IsCall, run, run-IsBlackboard}

abbrev pub rules : BoardContribution
rules = make_contribution 1 0x12345678 0x55667788 2 1 0x41

abbrev pub facts : BoardContribution
facts = make_contribution 2 0x12345678 0x55667788 2 1 0x41

pub rules-IsBoard : IsBoard rules.board
unfolding make_contribution
rules-IsBoard = set-IsBoard clear 0x41 clear-IsBoard (omega arith)

pub facts-IsBoard : IsBoard facts.board
unfolding make_contribution
facts-IsBoard = set-IsBoard clear 0x41 clear-IsBoard (omega arith)

abbrev pub one : CoproductBlackboard
one = (inject init (some rules)).after

abbrev pub two : CoproductBlackboard
two = (inject one (some facts)).after

pub one-IsBlackboard : IsBlackboard one
one-IsBlackboard = inject-IsBlackboard init rules init-IsBlackboard rules-IsBoard

pub two-IsBlackboard : IsBlackboard two
two-IsBlackboard = inject-IsBlackboard one facts one-IsBlackboard facts-IsBoard

pub one_injected : one.contribution_count ≡ 1
unfolding inject admit preflight append_fibers append_contributor init name_fibers make_contribution
    board_test board_set replicate
one_injected = refl

pub two_injected : two.contribution_count ≡ 2
unfolding inject admit preflight append_fibers append_contributor init name_fibers make_contribution
    board_test board_set replicate
two_injected = refl

one_shallow : all_below 256 (λ p. ltb (fiber_at one.fibers p).contribution_count 8) ≡ true
unfolding inject admit preflight append_fibers append_contributor init name_fibers make_contribution
    board_test board_set replicate all_below
one_shallow = refl

both_conflict : board_test two.conflict 0x41 ≡ true
unfolding inject admit preflight append_fibers append_contributor init name_fibers make_contribution
    board_test board_set replicate omino.Board.or omino.Board.and
both_conflict = refl

one-HasRoom : HasRoom one facts
one-HasRoom = record {
  contribution = rw one_injected (omega arith);
  fibers = λ p h claimed.
      ltb→lt _ 8 (
        all_below_sound 256 (λ q. ltb (fiber_at one.fibers q).contribution_count 8) p one_shallow
          h);
}

abbrev matched : ValidationResult
matched = record { valid = true; reason = resolved_match; resolved_left = 7; resolved_right = 7 }

abbrev calls : List Call
calls = injecting rules ∷ uniting 0 1 matched ∷ injecting facts ∷ uniting 0 1 matched ∷ []

calls-IsCall : (c : Call) → Memᴰ c calls → IsCall c
calls-IsCall c (Memᴰ.head e) = rw e rules-IsBoard
calls-IsCall c (Memᴰ.tail (Memᴰ.head e)) = rw e tt
calls-IsCall c (Memᴰ.tail (Memᴰ.tail (Memᴰ.head e))) = rw e facts-IsBoard
calls-IsCall c (Memᴰ.tail (Memᴰ.tail (Memᴰ.tail (Memᴰ.head e)))) = rw e tt
calls-IsCall c (Memᴰ.tail (Memᴰ.tail (Memᴰ.tail (Memᴰ.tail m)))) = elim m [ ]

run-IsBlackboard_example :
    (after : CoproductBlackboard) × (run init calls ≡ some after) × IsBlackboard after
run-IsBlackboard_example = run-IsBlackboard calls calls-IsCall

inject_admitted_example :
    let i = inject one (some facts) in
    (i.status ≡ ok)
    × (i.out_index ≡ some one.contribution_count)
    × (i.after.contribution_count ≡ one.contribution_count + 1)
    × (contribution_at i.after.contributions one.contribution_count ≡ facts)
    × (contribution_at i.after.contributions 0 ≡ contribution_at one.contributions 0)
    × (i.after.equivalence ≡ one.equivalence)
    × (contributors (fiber_at i.after.fibers 0x41)
        ≡ contributors (fiber_at one.fibers 0x41)
          ++ (if board_test facts.board 0x41 then one.contribution_count ∷ [] else []))
    × (board_test i.after.occupancy 0x41
        ≡ (board_test one.occupancy 0x41 || board_test facts.board 0x41))
    × (board_test i.after.conflict 0x41 ≡ (
        board_test one.conflict 0x41
        || (board_test one.occupancy 0x41 && board_test facts.board 0x41)))
inject_admitted_example =
    inject_admitted one facts 0 0x41 one-IsBlackboard one-HasRoom (rw one_injected (omega arith))
      (omega arith)

-- A blackboard whose slots are all taken.
abbrev crowded : CoproductBlackboard
crowded = record init { contribution_count = 256 }

crowded_full : ¬ HasRoom crowded rules
crowded_full room = (let h = room.contribution in omega arith)

inject_refused_example :
    inject crowded (some rules)
    ≡ record { after = crowded; status = error_capacity; out_index = none }
inject_refused_example = inject_refused crowded rules crowded_full

run-refines_example :
    let kept = kept_after [] calls in
    (after : CoproductBlackboard) × (run init calls ≡ some after)
    × (retained after ≡ kept)
    × ((fiber_at after.fibers 0x41).contribution_count ≡ claim_count 0x41 kept)
    × (board_test after.occupancy 0x41 ≡ ltb 0 (claim_count 0x41 kept))
    × (board_test after.conflict 0x41 ≡ ltb 1 (claim_count 0x41 kept))
    × (SameClass after.equivalence.parent 0 1 ↔ Equivalent 256 (requests [] [] calls) 0 1)
run-refines_example =
    run-refines calls 0x41 0 1 calls-IsCall (omega arith) (omega arith) (omega arith)

-- Of the two unions of this run, the first comes before its second contribution.
one_request : requests [] [] calls ≡ record { left = 0; right = 1; witness = some matched } ∷ []
unfolding requests keep has_space all_below make_contribution board_test board_set
one_request = refl

first_word : (contribution_at two.contributions 0).car < 2 ^ 32
unfolding inject admit preflight append_fibers append_contributor init name_fibers make_contribution
    board_test board_set replicate
first_word = omega arith

second_word : (contribution_at two.contributions 1).cdr < 2 ^ 32
unfolding inject admit preflight append_fibers append_contributor init name_fibers make_contribution
    board_test board_set replicate
second_word = omega arith

blackboard_cons_resolves_example :
    (out : ConsResult) × (blackboard_cons two 0 1 1 ≡ (ok, some out))
    × (cons_recover_car out.resolved_word (contribution_at two.contributions 1).cdr 1
        ≡ (contribution_at two.contributions 0).car)
    × (cons_recover_cdr (contribution_at two.contributions 0).car out.resolved_word 1
        ≡ (contribution_at two.contributions 1).cdr)
    × (out.visible_coordinate ≡ out.resolved_word % 256)
    × (out.selector_idx ≡ (reverse_route (out.resolved_word % 2 ^ 16)).selector_idx)
    × (out.route ≡ (reverse_route (out.resolved_word % 2 ^ 16)).route)
    × ((out.conflict ≡ true) ↔ (
        (p : ℕ) × (p < 256)
        × (board_test (contribution_at two.contributions 0).board p ≡ true)
        × (board_test (contribution_at two.contributions 1).board p ≡ true)))
blackboard_cons_resolves_example =
    blackboard_cons_resolves two 0 1 1 two-IsBlackboard (rw two_injected (omega arith))
      (rw two_injected (omega arith)) first_word second_word

blackboard_union-classes_example :
    (after : CoproductBlackboard) × (blackboard_union two 0 1 matched ≡ some (after, ok))
    × IsBlackboard after
    × (after.contributions ≡ two.contributions)
    × (SameClass after.equivalence.parent 0 1 ↔ Joined two.equivalence.parent 0 1 0 1)
blackboard_union-classes_example =
    blackboard_union-classes two 0 1 0 1 matched two-IsBlackboard refl
      (rw two_injected (omega arith)) (rw two_injected (omega arith)) (omega arith) (omega arith)

blackboard_union_lem_example :
    (after : CoproductBlackboard) × (status : Status) × (blackboard_union two 0 5 matched
      ≡ some (after, status))
    × IsBlackboard after
    × ((status ≡ ok)
        ↔ ((matched.valid ≡ true) × (0 < two.contribution_count) × (5 < two.contribution_count)))
    × ((status ≡ error_not_validated) ↔ (matched.valid ≡ false))
    × ((status ≡ ok) ⊎ (after ≡ two))
    × (after.contributions ≡ two.contributions)
    × (after.contribution_count ≡ two.contribution_count)
    × (after.fibers ≡ two.fibers)
    × (after.occupancy ≡ two.occupancy)
    × (after.conflict ≡ two.conflict)
blackboard_union_lem_example = blackboard_union_lem two 0 5 matched two-IsBlackboard

abbrev history : List Request
history =
    record { left = 0; right = 2; witness = some matched }
    ∷ record { left = 1; right = 2; witness = some matched }
    ∷ record { left = 0; right = 1; witness = none }
    ∷ []

replay-Maintains_example : Maintains 3 (omino.UnionFind.init zero_union_find 3) history
replay-Maintains_example =
    replay-Maintains zero_union_find 3 history (length-replicate 256 0) (length-replicate 256 0)
      (omega arith)

find_returns_example : Found two.equivalence 1
find_returns_example =
    find_returns two.equivalence 1 two-IsBlackboard.forest
      (rw two-IsBlackboard.elements (omega arith))
