-- ===== src/Blackboard/Order.antt =====
-- The order of injection: runs that inject the same contributions in another order.
use omino.Prelude.{ℕ, suc, ◌+◌, ◌≤◌, ◌<◌}
use omino.Prelude.{◌≡◌, refl, sym, ap, ◌∙◌, arith}
use omino.Prelude.{true, some, List, [], ◌∷◌, ◌++◌}
use omino.Prelude.{ltb}
use omino.Prelude.{length, length-append}
use mathlib.Core.Quot
use mathlib.Core.List.{Memᴰ, Permᴰ, append-nil, append_assoc}
use omino.Board.{test as board_test}
use omino.Blackboard.{BoardContribution, CoproductBlackboard, fiber_at, init}
use omino.Blackboard.Runs.{Call, injecting, uniting, run, IsCall}
use omino.Blackboard.Origins.{origins, claim_count, claim_count-append, claim_count-perm}
use omino.Blackboard.History.{has_space, has_space_iff, keep, kept_after, run-kept}

-- The contributions that a run tries to inject.
unfoldable pub injections : List Call → List BoardContribution
injections [] = []
injections (injecting c ∷ calls) = c ∷ injections calls
injections (uniting l r validation ∷ calls) = injections calls

-- At most 256 contributions, at most eight of which claim any one coordinate.
pub record Fits (cs : List BoardContribution) : Type 0 where
  pub slots : length cs ≤ 256
  pub fibers : (p : ℕ) → p < 256 → claim_count p cs ≤ 8

length-perm : {xs ys : List BoardContribution} → Permᴰ xs ys → length xs ≡ length ys
length-perm Permᴰ.nil = refl
length-perm (Permᴰ.cons e rest) = ap suc (length-perm rest)
length-perm (Permᴰ.swap e f) = refl
length-perm (Permᴰ.trans a b) = length-perm a ∙ length-perm b

Fits-perm : (xs ys : List BoardContribution) → Permᴰ xs ys → Fits xs → Fits ys
Fits-perm xs ys perm fits = record {
  slots = omega (arith, length-perm perm, fits.slots);
  fibers = λ p h. omega (arith, claim_count-perm p xs ys perm, fits.fibers p h);
}

Fits-has_space :
    (kept rest : List BoardContribution) (c : BoardContribution)
    → Fits (kept ++ c ∷ rest)
    → has_space kept c ≡ true
Fits-has_space kept rest c fits = (has_space_iff kept c).1 (
  omega (arith, length-append kept (c ∷ rest), fits.slots),
  λ p h claimed.
      let count : claim_count p (c ∷ rest) ≡ 1 + claim_count p rest = rw claimed refl in
      omega (arith, count, claim_count-append p kept (c ∷ rest), fits.fibers p h),
)

-- Nothing is refused when all of the contributions fit together.
kept_after-Fits :
    (calls : List Call) (kept : List BoardContribution)
    → Fits (kept ++ injections calls)
    → kept_after kept calls ≡ kept ++ injections calls
unfolding kept_after injections keep
kept_after-Fits [] kept fits = sym (append-nil kept)
kept_after-Fits (injecting c ∷ calls) kept fits =
    let regroup : (kept ++ c ∷ []) ++ injections calls ≡ kept ++ c ∷ injections calls =
      append_assoc kept (c ∷ []) (injections calls) in
    rw (Fits-has_space kept (injections calls) c fits)
      (kept_after-Fits calls (kept ++ c ∷ []) (rw regroup fits) ∙ regroup)
kept_after-Fits (uniting l r validation ∷ calls) kept fits = kept_after-Fits calls kept fits

-- Two runs on an initialised blackboard that inject the same contributions in different orders,
-- with unions anywhere between, boards of four 64-bit lanes, at most 256 contributions and at
-- most eight that claim any one coordinate, both return and retain all of these contributions,
-- taken up to order; and they agree on the number of contributors, the occupancy and the
-- conflict of every coordinate below 256.
pub run-order :
    (calls calls' : List Call) (p : ℕ)
    → ((c : Call) → Memᴰ c calls → IsCall c)
    → ((c : Call) → Memᴰ c calls' → IsCall c)
    → Permᴰ (injections calls) (injections calls')
    → Fits (injections calls)
    → p < 256
    → (after : CoproductBlackboard) × (after' : CoproductBlackboard) × (run init calls ≡ some after)
      × (run init calls' ≡ some after')
      × (origins after ≡ Quot.mk (injections calls))
      × (origins after ≡ origins after')
      × ((fiber_at after.fibers p).contribution_count
          ≡ (fiber_at after'.fibers p).contribution_count)
      × (board_test after.occupancy p ≡ board_test after'.occupancy p)
      × (board_test after.conflict p ≡ board_test after'.conflict p)
run-order calls calls' p all all' perm fits h =
    let (after, ran, kept, fiber, occupied, conflicted) = run-kept calls p all h in
    let (after', ran', kept', fiber', occupied', conflicted') = run-kept calls' p all' h in
    let list = kept_after-Fits calls [] fits in
    let list' = kept_after-Fits calls' [] (Fits-perm _ _ perm fits) in
    let count : claim_count p (kept_after [] calls) ≡ claim_count p (kept_after [] calls') =
      ap (claim_count p) list ∙ claim_count-perm p _ _ perm ∙ sym (ap (claim_count p) list') in
    let view : origins after ≡ Quot.mk (injections calls) =
      ap (λ (l : List BoardContribution). Quot.mk l) (kept ∙ list) in
    (
      after,
      after',
      ran,
      ran',
      view,
      view ∙ Quot.sound perm ∙ sym (ap (λ (l : List BoardContribution). Quot.mk l) (kept' ∙ list')),
      fiber ∙ count ∙ sym fiber',
      occupied ∙ ap (ltb 0) count ∙ sym occupied',
      conflicted ∙ ap (ltb 1) count ∙ sym conflicted',
    )
