-- ===== src/Blackboard/Runs.antt =====
-- Histories of injections and unions on one blackboard, from its initialisation.
use omino.Prelude.{ℕ}
use omino.Prelude.{◌≡◌, refl, ap, ◌∙◌, inl, inr, arith}
use omino.Prelude.{◌||◌, Option, some, List, [], ◌∷◌}
use omino.Prelude.{leb, Bool-cases}
use mathlib.Core.List.{Memᴰ}
use omino.Board.{IsBoard}
use omino.Prelude.{◌>>=◌}
use omino.UnionFind.{ValidationResult}
use omino.Blackboard.{BoardContribution, CoproductBlackboard, init, inject, blackboard_union}
use omino.Blackboard.Invariant.{IsBlackboard, init-IsBlackboard}
use omino.Blackboard.Injection.{inject-IsBlackboard}
use omino.Blackboard.Composition.{blackboard_union-classes, blackboard_union_refused}

-- One call that changes the blackboard.
pub data Call : Type 0 where
  injecting : BoardContribution → Call
  uniting : ℕ → ℕ → ValidationResult → Call

unfoldable pub call : CoproductBlackboard → Call → Option CoproductBlackboard
call bb (injecting c) = some (inject bb (some c)).after
call bb (uniting l r validation) = do
  (after, status) ← blackboard_union bb l r validation
  some after

-- The blackboard after the calls, the first one of the list first.
unfoldable pub run : CoproductBlackboard → List Call → Option CoproductBlackboard
run bb [] = some bb
run bb (c ∷ calls) = do after ← call bb c; run after calls

abbrev pub IsCall : Call → Type 0
IsCall (injecting c) = IsBoard c.board
IsCall (uniting l r validation) = Unit

union-IsBlackboard :
    (bb : CoproductBlackboard) (l r : ℕ) (validation : ValidationResult)
    → IsBlackboard bb
    → (after : CoproductBlackboard) × (call bb (uniting l r validation) ≡ some after)
      × IsBlackboard after
unfolding call
union-IsBlackboard bb l r validation valid = elim (Bool-cases validation.valid) [
  | inr refused ↦ (bb, rw (blackboard_union_refused bb l r validation (inl refused)) refl, valid)
  | inl accepted ↦ elim (Bool-cases (leb bb.contribution_count l || leb bb.contribution_count r)) [
    | inl outside ↦ (bb, rw (blackboard_union_refused bb l r validation (ground arith)) refl, valid)
    | inr inside ↦
        let (after, returns, well, same, rest) =
          blackboard_union-classes bb l r 0 0 validation valid accepted (ground arith)
            (ground arith) (omega arith) (omega arith) in
        (after, ap (λ m. m >>= λ r. some r.0) returns, well)
  ]
]

call-IsBlackboard :
    (bb : CoproductBlackboard) (c : Call)
    → IsBlackboard bb
    → IsCall c
    → (after : CoproductBlackboard) × (call bb c ≡ some after) × IsBlackboard after
unfolding call
call-IsBlackboard bb (injecting c) valid board =
    ((inject bb (some c)).after, refl, inject-IsBlackboard bb c valid board)
call-IsBlackboard bb (uniting l r validation) valid _ = union-IsBlackboard bb l r validation valid

runs_from :
    (bb : CoproductBlackboard) (calls : List Call)
    → IsBlackboard bb
    → ((c : Call) → Memᴰ c calls → IsCall c)
    → (after : CoproductBlackboard) × (run bb calls ≡ some after) × IsBlackboard after
unfolding run
runs_from bb [] valid all = (bb, refl, valid)
runs_from bb (c ∷ calls) valid all =
    let (next, called, well) = call-IsBlackboard bb c valid (all c (Memᴰ.head refl)) in
    let (after, ran, good) = runs_from next calls well (λ d m. all d (Memᴰ.tail m)) in
    (after, ap (λ m. m >>= λ b. run b calls) called ∙ ran, good)

-- After any list of injections and unions on an initialised blackboard, each accepted or
-- refused, where every injected board has four 64-bit lanes, every call has returned and the
-- blackboard is well-formed: each fiber lists in order the contributors that claim its
-- coordinate, occupancy and conflict agree with the fibers, and the equivalence is a forest.
pub run-IsBlackboard :
    (calls : List Call)
    → ((c : Call) → Memᴰ c calls → IsCall c)
    → (after : CoproductBlackboard) × (run init calls ≡ some after) × IsBlackboard after
run-IsBlackboard calls all = runs_from init calls init-IsBlackboard all
