-- ===== src/Blackboard/Refinement.antt =====
-- Runs of a blackboard against a specification of two parts: the contributions that are kept, and
-- the least equivalence that the accepted unions ask for.
use omino.Prelude.{ℕ, ◌≤◌, ◌<◌}
use omino.Prelude.{◌≡◌, refl, sym, ap, ◌∙◌, ◌↔◌, ◌⊎◌, inl, inr, arith}
use omino.Prelude.{Bool, true, false, ◌&&◌, Option, none, some, List, [], ◌∷◌}
use omino.Prelude.{ltb, if◌then◌else◌, Bool-cases}
use omino.Prelude.{length, length-replicate, ◌>>=◌}
use mathlib.Core.List.{Memᴰ}
use omino.Board.{test as board_test}
use omino.UnionFind.{UnionFind, ValidationResult, union_validated}
use omino.UnionFind.{init as uf_init}
use omino.UnionFind.History.{Request, replay, Equivalent}
use omino.UnionFind.Closure.{replay-Maintains}
use omino.UnionFind.Union.{SameClass}
use omino.UnionFind.Classes.{union_validated-classes, union_validated_refused}
use omino.Blackboard.{
  BoardContribution, CoproductBlackboard, fiber_at, init, inject, admit, zero_union_find,
}
use omino.Blackboard.Invariant.{IsBlackboard, init-IsBlackboard}
use omino.Blackboard.Composition.{blackboard_union_refused, union_returns}
use omino.Blackboard.Runs.{Call, injecting, uniting, call, run, IsCall}
use omino.Blackboard.Origins.{retained, claim_count}
use omino.Blackboard.History.{keep, kept_after, call-keep, length-retained, run-kept}

abbrev request : ℕ → ℕ → ValidationResult → Request
request l r validation = record { left = l; right = r; witness = some validation }

-- The unions of a run whose indices stood below the number of kept contributions, the latest first.
unfoldable pub requests : List BoardContribution → List Request → List Call → List Request
requests kept older [] = older
requests kept older (injecting c ∷ calls) = requests (keep kept (injecting c)) older calls
requests kept older (uniting l r validation ∷ calls) =
    requests kept
      (if ltb l (length kept) && ltb r (length kept)
        then record { left = l; right = r; witness = some validation } ∷ older
        else older)
      calls

-- The structure behind the result of a call.
abbrev equivalence_of : Option CoproductBlackboard → UnionFind
equivalence_of none = zero_union_find
equivalence_of (some bb) = bb.equivalence

module _ (bb : CoproductBlackboard) (valid : IsBlackboard bb) (l r : ℕ)
    (validation : ValidationResult) where
  call-union_validated :
      l < bb.contribution_count
      → r < bb.contribution_count
      → (after : UnionFind) × (joined : Bool) × (union_validated bb.equivalence l r
            (some validation)
          ≡ some (after, joined))
        × (call bb (uniting l r validation) ≡ some (record bb { equivalence = after }))
  unfolding call
  call-union_validated hl hr = elim (Bool-cases validation.valid) [
    | inl accepted ↦
        let (after, returns, _, _, _) =
          union_validated-classes bb.equivalence l r validation valid.forest accepted
            (rw valid.elements (let h = valid.capacity in omega arith))
            (rw valid.elements (let h = valid.capacity in omega arith)) in
        (
          after,
          true,
          returns,
          ap (λ m. m >>= λ r. some r.0)
              (union_returns bb l r validation after accepted hl hr returns),
        )
    | inr refused ↦ (
      bb.equivalence,
      false,
      union_validated_refused bb.equivalence l r (some validation) (ground arith),
      ap (λ m. m >>= λ r. some r.0) (blackboard_union_refused bb l r validation (inl refused)),
    )
  ]

  call-replay :
      (start : UnionFind) (older : List Request) (after : CoproductBlackboard)
      → replay start older ≡ some bb.equivalence
      → call bb (uniting l r validation) ≡ some after
      → replay start (
          if ltb l (length (retained bb)) && ltb r (length (retained bb))
          then request l r validation ∷ older
          else older)
        ≡ some after.equivalence
  unfolding replay
  call-replay start older after before called =
      rw (length-retained bb valid)
        (elim (Bool-cases (ltb l bb.contribution_count && ltb r bb.contribution_count)) [
          | inl inside ↦
              let (uf, joined, unioned, returns) =
                call-union_validated (ground arith) (ground arith) in
              let same : after.equivalence ≡ uf = ap equivalence_of (sym called ∙ returns) in
              rw (inside, before, unioned, same) refl
          | inr outside ↦
              let same : after.equivalence ≡ bb.equivalence =
                ap equivalence_of (sym called ∙ untouched (ground arith)) in
              rw (outside, before, same) refl
        ])
    where
      untouched :
          (bb.contribution_count ≤ l) ⊎ (bb.contribution_count ≤ r)
          → call bb (uniting l r validation) ≡ some bb
      untouched far =
          unfold call in
          ap (λ m. m >>= λ r. some r.0) (blackboard_union_refused bb l r validation (inr far))

some_inj : {A : Type 0} {a b : A} → some a ≡ some b → a ≡ b
some_inj e = cc

inject-equivalence :
    (bb : CoproductBlackboard) (c : BoardContribution)
    → (inject bb (some c)).after.equivalence ≡ bb.equivalence
unfolding inject admit
inject-equivalence bb c = ground arith

keep-uniting :
    (kept : List BoardContribution) (l r : ℕ) (validation : ValidationResult)
    → keep kept (uniting l r validation) ≡ kept
unfolding keep
keep-uniting kept l r validation = refl

injected :
    (bb : CoproductBlackboard) (c : BoardContribution)
    → call bb (injecting c) ≡ some (inject bb (some c)).after
unfolding call
injected bb c = refl

run-replay :
    (start : UnionFind) (calls : List Call) (bb after : CoproductBlackboard) (older : List Request)
    → IsBlackboard bb
    → ((c : Call) → Memᴰ c calls → IsCall c)
    → replay start older ≡ some bb.equivalence
    → run bb calls ≡ some after
    → replay start (requests (retained bb) older calls) ≡ some after.equivalence
unfolding run requests
run-replay start [] bb after older valid all before ran =
    before ∙ ap (λ (b : CoproductBlackboard). some b.equivalence) (some_inj ran)
run-replay start (injecting c ∷ calls) bb after older valid all before ran =
    let (next, called, well, kept) = call-keep bb valid (injecting c) (all _ (Memᴰ.head refl)) in
    let same : bb.equivalence ≡ next.equivalence =
      sym (inject-equivalence bb c) ∙ ap equivalence_of (sym (injected bb c) ∙ called) in
    rw (← kept) (
      run-replay start calls next after older well (λ d m. all d (Memᴰ.tail m))
        (before ∙ ap (λ (u : UnionFind). some u) same)
        (ap (λ m. m >>= λ b. run b calls) (sym called) ∙ ran))
run-replay start (uniting l r validation ∷ calls) bb after older valid all before ran =
    let (next, called, well, kept) =
      call-keep bb valid (uniting l r validation) (all _ (Memᴰ.head refl)) in
    let unioned = call-replay bb valid l r validation start older next before called in
    let grown : List Request =
      if ltb l (length (retained bb)) && ltb r (length (retained bb))
      then request l r validation ∷ older
      else older in
    let rest =
      run-replay start calls next after grown well (λ d m. all d (Memᴰ.tail m)) unioned
        (ap (λ m. m >>= λ b. run b calls) (sym called) ∙ ran) in
    let same : retained bb ≡ retained next =
      sym (kept ∙ keep-uniting (retained bb) l r validation) in
    ap (λ (k : List BoardContribution). replay start (requests k grown calls)) same ∙ rest

-- After any list of injections and unions on an initialised blackboard, where every injected
-- board has four 64-bit lanes, every call has returned and the retained contributions are in
-- order those that a specification on lists keeps: those that met fewer than 256 kept ones, and
-- fewer than eight that claim any one of their coordinates. A fiber below 256 has as many
-- contributors as kept contributions claim its coordinate, which is occupied when there is one
-- and in conflict when there are two at least. Two elements below 256 are in one class exactly
-- when the unions with a valid result, and with both indices below the number of contributions
-- kept when they were called, make them equivalent.
pub run-refines :
    (calls : List Call) (p x y : ℕ)
    → ((c : Call) → Memᴰ c calls → IsCall c)
    → p < 256
    → x < 256
    → y < 256
    → let kept = kept_after [] calls in
      (after : CoproductBlackboard) × (run init calls ≡ some after)
      × (retained after ≡ kept)
      × ((fiber_at after.fibers p).contribution_count ≡ claim_count p kept)
      × (board_test after.occupancy p ≡ ltb 0 (claim_count p kept))
      × (board_test after.conflict p ≡ ltb 1 (claim_count p kept))
      × (SameClass after.equivalence.parent x y ↔ Equivalent 256 (requests [] [] calls) x y)
unfolding init
run-refines calls p x y all hp hx hy =
    let (after, ran, kept, fiber, occupied, conflicted) = run-kept calls p all hp in
    let forest =
      replay-Maintains zero_union_find 256 (requests [] [] calls) (length-replicate 256 0)
        (length-replicate 256 0) (omega arith) in
    let replayed : replay (uf_init zero_union_find 256) (requests [] [] calls)
        ≡ some after.equivalence =
      run-replay (uf_init zero_union_find 256) calls init after [] init-IsBlackboard all
        (unfold replay in refl) ran in
    let same : forest.after ≡ after.equivalence = some_inj (sym forest.returns ∙ replayed) in
    (after, ran, kept, fiber, occupied, conflicted, rw (← same) (forest.classes x y hx hy))
