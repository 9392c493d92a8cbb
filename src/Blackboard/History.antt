-- ===== src/Blackboard/History.antt =====
-- Runs of a blackboard against a list of contributions: which injections are kept, and what the
-- boards and the fibers say of them.
use omino.Prelude.{ℕ, zero, suc, ◌<◌}
use omino.Prelude.{◌≡◌, refl, ap, ◌∙◌, ◌↔◌, inl, inr, arith}
use omino.Prelude.{Bool, true, not, ◌&&◌, ◌||◌, some, List, [], ◌∷◌, ◌++◌}
use omino.Prelude.{ltb, if◌then◌else◌, Bool-cases, all_below, all_below_sound}
use omino.Prelude.{length, ◌>>=◌}
use mathlib.Core.List.{Memᴰ}
use omino.Board.{test as board_test}
use omino.Blackboard.{BoardContribution, CoproductBlackboard, Injected, fiber_at, init, inject}
use omino.Blackboard.Invariant.{IsBlackboard, init-IsBlackboard}
use omino.Blackboard.Claims.{length-take}
use omino.Blackboard.Admission.{HasRoom}
use omino.Blackboard.Injection.{inject_refused, inject-IsBlackboard}
use omino.Blackboard.Unions.{blackboard_union_lem}
use omino.Blackboard.Runs.{Call, injecting, uniting, call, run, IsCall}
use omino.Blackboard.Origins.{
  retained, claim_count, fiber-claim_count, boards-claim_count, retained-admitted,
}

-- The specification: a contribution is kept when fewer than 256 are, and fewer than eight of those
-- claim each coordinate that it claims.
unfoldable pub has_space : List BoardContribution → BoardContribution → Bool
has_space kept c =
    ltb (length kept) 256
    && all_below 256 (λ p. not (board_test c.board p) || ltb (claim_count p kept) 8)

unfoldable pub keep : List BoardContribution → Call → List BoardContribution
keep kept (injecting c) = if has_space kept c then kept ++ c ∷ [] else kept
keep kept (uniting l r validation) = kept

unfoldable pub kept_after : List BoardContribution → List Call → List BoardContribution
kept_after kept [] = kept
kept_after kept (c ∷ calls) = kept_after (keep kept c) calls

all_below_complete : (n : ℕ) (f : ℕ → Bool) → ((x : ℕ) → x < n → f x ≡ true) → all_below n f ≡ true
unfolding all_below
all_below_complete zero f h = refl
all_below_complete (suc n) f h =
    let top = h n (omega arith) in
    let rest = all_below_complete n f (λ x lt. h x (omega arith)) in rw (top, rest) refl

-- The test of the specification, as a condition.
pub has_space_iff :
    (kept : List BoardContribution) (c : BoardContribution)
    → (has_space kept c ≡ true) ↔ (
        (length kept < 256)
        × ((p : ℕ) → p < 256 → board_test c.board p ≡ true → claim_count p kept < 8))
unfolding has_space
has_space_iff kept c =
    let free = λ (p : ℕ). not (board_test c.board p) || ltb (claim_count p kept) 8 in
    (
      λ e. (
        (ground arith),
        λ p h claimed.
            let all : all_below 256 free ≡ true = ground arith in
            let here : free p ≡ true = all_below_sound 256 free p all h in ground arith,
      ),
      λ (slot, fibers).
          let all : all_below 256 free ≡ true = all_below_complete 256 free λ p h.
            elim (Bool-cases (board_test c.board p)) [
              | inl claimed ↦ (let lt = fibers p h claimed in ground arith)
              | inr passed ↦ rw passed refl
            ] in
          rw all (ground arith),
    )

module _ (bb : CoproductBlackboard) (valid : IsBlackboard bb) where
  pub length-retained : length (retained bb) ≡ bb.contribution_count
  length-retained = length-take _ _ (omega (arith, valid.slots, valid.capacity))

  room-has_space : (c : BoardContribution) → HasRoom bb c ↔ (has_space (retained bb) c ≡ true)
  room-has_space c =
      let spec = has_space_iff (retained bb) c in
      (
        λ room. spec.1 (
          (let lt = room.contribution in omega (arith, length-retained)),
          λ p h claimed.
              (let lt = room.fibers p h claimed in omega (arith, fiber-claim_count bb valid p h)),
        ),
        λ e.
            let (slot, fibers) = spec.0 e in
            record {
              contribution = omega (arith, length-retained);
              fibers = λ p h claimed.
                  (let lt = fibers p h claimed in omega (arith, fiber-claim_count bb valid p h));
            },
      )

  inject-keep :
      (c : BoardContribution)
      → retained (inject bb (some c)).after ≡ keep (retained bb) (injecting c)
  unfolding keep
  inject-keep c = elim (Bool-cases (has_space (retained bb) c)) [
    | inl space ↦ rw space (retained-admitted bb valid c ((room-has_space c).1 space))
    | inr full ↦
        let refused = inject_refused bb c λ room. (let e = (room-has_space c).0 room in cc) in
        rw full (ap (λ (i : Injected). retained i.after) refused)
  ]

  pub call-keep :
      (c : Call)
      → IsCall c
      → (after : CoproductBlackboard) × (call bb c ≡ some after)
        × IsBlackboard after
        × (retained after ≡ keep (retained bb) c)
  unfolding call keep
  call-keep (injecting c) board =
      ((inject bb (some c)).after, refl, inject-IsBlackboard bb c valid board, inject-keep c)
  call-keep (uniting l r validation) _ =
      let (after, status, returns, well, _, _, _, same, count, _, _, _) =
        blackboard_union_lem bb l r validation valid in
      (after, ap (λ m. m >>= λ r. some r.0) returns, well, rw (same, count) refl)

run-keep :
    (bb : CoproductBlackboard) (calls : List Call)
    → IsBlackboard bb
    → ((c : Call) → Memᴰ c calls → IsCall c)
    → (after : CoproductBlackboard) × (run bb calls ≡ some after)
      × IsBlackboard after
      × (retained after ≡ kept_after (retained bb) calls)
unfolding run kept_after
run-keep bb [] valid all = (bb, refl, valid, refl)
run-keep bb (c ∷ calls) valid all =
    let (next, called, well, kept) = call-keep bb valid c (all c (Memᴰ.head refl)) in
    let (after, ran, good, rest) = run-keep next calls well (λ d m. all d (Memᴰ.tail m)) in
    (
      after,
      ap (λ m. m >>= λ b. run b calls) called ∙ ran,
      good,
      rest ∙ ap (λ k. kept_after k calls) kept,
    )

-- What the kept contributions say of a coordinate after a run.
pub run-kept :
    (calls : List Call) (p : ℕ)
    → ((c : Call) → Memᴰ c calls → IsCall c)
    → p < 256
    → let kept = kept_after [] calls in
      (after : CoproductBlackboard) × (run init calls ≡ some after)
      × (retained after ≡ kept)
      × ((fiber_at after.fibers p).contribution_count ≡ claim_count p kept)
      × (board_test after.occupancy p ≡ ltb 0 (claim_count p kept))
      × (board_test after.conflict p ≡ ltb 1 (claim_count p kept))
unfolding init
run-kept calls p all h =
    let (after, ran, well, kept) = run-keep init calls init-IsBlackboard all in
    let (occupied, conflicted) = boards-claim_count after well p h in
    (
      after,
      ran,
      kept,
      fiber-claim_count after well p h ∙ ap (claim_count p) kept,
      occupied ∙ ap (λ k. ltb 0 (claim_count p k)) kept,
      conflicted ∙ ap (λ k. ltb 1 (claim_count p k)) kept,
    )
