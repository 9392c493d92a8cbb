-- ===== src/Blackboard/Origins.antt =====
-- The abstract view of a blackboard: the contributions that it retains, up to order.
use omino.Prelude.{ℕ, zero, suc, ◌+◌, ◌≤◌, ◌<◌}
use omino.Prelude.{◌≡◌, refl, sym, ap, ap₂, ◌∙◌, arith}
use omino.Prelude.{some, List, [], ◌∷◌, ◌++◌}
use omino.Prelude.{ltb, if◌then◌else◌}
use omino.Prelude.{length, get_or, take}
use omino.Prelude.{set as write}
use mathlib.Core.Quot
use mathlib.Core.Quot.{Quot, Quot-set}
use mathlib.Core.List.{Permᴰ}
use mathlib.Core.List.Permᴰ
use omino.Board.{IsBoard}
use omino.Board.{test as board_test}
use omino.Blackboard.{
  BoardContribution, CoproductBlackboard, fiber_at, contribution_at, zero_contribution, Injected,
  inject, admit,
}
use omino.Blackboard.Invariant.{claimants, IsBlackboard}
use omino.Blackboard.Claims.{length-claimants, length-claimants-suc}
use omino.Blackboard.Admission.{HasRoom, take-write, inject-admit}
use omino.Blackboard.Injection.{inject_refused, inject-IsBlackboard}

abbrev pub Origins : Type 0
Origins = Quot (Permᴰ {A = BoardContribution})

abbrev pub of_list : List BoardContribution → Origins
of_list = Quot.mk

abbrev pub retained : CoproductBlackboard → List BoardContribution
retained bb = take bb.contribution_count bb.contributions

abbrev pub origins : CoproductBlackboard → Origins
origins bb = of_list (retained bb)

-- How many contributions claim a coordinate.
abbrev pub claim_count : ℕ → List BoardContribution → ℕ
claim_count p [] = 0
claim_count p (c ∷ cs) = (if board_test c.board p then 1 else 0) + claim_count p cs

pub claim_count-append :
    (p : ℕ) (xs ys : List BoardContribution)
    → claim_count p (xs ++ ys) ≡ claim_count p xs + claim_count p ys
claim_count-append p [] ys = omega arith
claim_count-append p (x ∷ xs) ys = omega (arith, claim_count-append p xs ys)

pub claim_count-perm :
    (p : ℕ) (xs ys : List BoardContribution) → Permᴰ xs ys → claim_count p xs ≡ claim_count p ys
claim_count-perm p xs ys Permᴰ.nil = refl
claim_count-perm p xs ys (Permᴰ.cons e rest) =
    ap₂ (λ (c : BoardContribution) (n : ℕ). (if board_test c.board p then 1 else 0) + n) e
      (claim_count-perm p _ _ rest)
claim_count-perm p xs ys (Permᴰ.swap e f) = rw (e, f) (omega arith)
claim_count-perm p xs ys (Permᴰ.trans a b) = claim_count-perm p _ _ a ∙ claim_count-perm p _ _ b

unfoldable pub claims_at : ℕ → Origins → ℕ
claims_at p = Quot.lift (hlevel) (claim_count p) (claim_count-perm p)

unfoldable pub add_origin : BoardContribution → Origins → Origins
add_origin c = Quot.lift Quot-set (λ cs. Quot.mk (c ∷ cs)) λ xs ys h. Quot.sound (Permᴰ.cons refl h)

module _ {ℓ} {A : Type ℓ} (d : A) where
  take-suc :
      (n : ℕ) (xs : List A) → n < length xs → take (suc n) xs ≡ take n xs ++ get_or xs n d ∷ []
  take-suc n [] h = absurd (omega arith)
  take-suc zero (x ∷ xs) h = refl
  take-suc (suc n) (x ∷ xs) h = ap (λ (l : List A). x ∷ l) (take-suc n xs (omega arith))

module _ (bb : CoproductBlackboard) (valid : IsBlackboard bb) where
  claim_count-claimants :
      (p n : ℕ)
      → n ≤ length bb.contributions
      → length (claimants n bb.contributions p) ≡ claim_count p (take n bb.contributions)
  unfolding claimants
  claim_count-claimants p zero h = refl
  claim_count-claimants p (suc n) h =
      let last = contribution_at bb.contributions n in
      let grown = length-claimants-suc bb.contributions p n in
      let before = claim_count-claimants p n (omega arith) in
      let split = claim_count-append p (take n bb.contributions) (last ∷ []) in
      rw (take-suc zero_contribution n bb.contributions h) (omega (arith, grown, before, split))

  -- A fiber has as many contributors as there are contributions that claim its coordinate.
  pub fiber-claim_count :
      (p : ℕ) → p < 256 → (fiber_at bb.fibers p).contribution_count ≡ claim_count p (retained bb)
  fiber-claim_count p h =
      sym (length-claimants bb valid p h)
      ∙ claim_count-claimants p bb.contribution_count (omega (arith, valid.slots, valid.capacity))

  pub boards-claim_count :
      (p : ℕ)
      → p < 256
      → (board_test bb.occupancy p ≡ ltb 0 (claim_count p (retained bb)))
        × (board_test bb.conflict p ≡ ltb 1 (claim_count p (retained bb)))
  boards-claim_count p h = (
    rw (valid.fiber p h).occupied (ap (ltb 0) (fiber-claim_count p h)),
    rw (valid.fiber p h).conflicted (ap (ltb 1) (fiber-claim_count p h)),
  )

  boards-origins :
      (p : ℕ)
      → p < 256
      → (board_test bb.occupancy p ≡ ltb 0 (claims_at p (origins bb)))
        × (board_test bb.conflict p ≡ ltb 1 (claims_at p (origins bb)))
  unfolding claims_at
  boards-origins p h = boards-claim_count p h

  pub retained-admitted :
      (c : BoardContribution)
      → HasRoom bb c
      → retained (inject bb (some c)).after ≡ retained bb ++ c ∷ []
  unfolding admit
  retained-admitted c room =
      let lt = room.contribution in
      let k = bb.contribution_count in
      rw (inject-admit bb c room) (
        ap (λ (n : ℕ). take n (write bb.contributions k c)) {y = suc k} (omega arith)
        ∙ take-write bb.contributions k c (omega (arith, valid.slots)))

  admitted-origins :
      (c : BoardContribution)
      → HasRoom bb c
      → origins (inject bb (some c)).after ≡ add_origin c (origins bb)
  unfolding add_origin
  admitted-origins c room =
      let xs = retained bb in
      ap of_list (retained-admitted c room)
      ∙ Quot.sound (Permᴰ.trans (Permᴰ.middle c xs []) (Permᴰ.cons refl (Permᴰ.append-nil xs)))

-- On a well-formed blackboard, an injection of a contribution with a board of four 64-bit lanes
-- adds it to the retained contributions, taken up to order, when there is room, and leaves them
-- otherwise; and after it a coordinate below 256 is occupied exactly when at least one of them
-- claims it, and in conflict exactly when at least two do.
pub origins-inject :
    (bb : CoproductBlackboard) (c : BoardContribution) (p : ℕ)
    → IsBlackboard bb
    → IsBoard c.board
    → p < 256
    → let after = (inject bb (some c)).after in
      (HasRoom bb c → origins after ≡ add_origin c (origins bb))
      × (¬ HasRoom bb c → origins after ≡ origins bb)
      × (board_test after.occupancy p ≡ ltb 0 (claims_at p (origins after)))
      × (board_test after.conflict p ≡ ltb 1 (claims_at p (origins after)))
origins-inject bb c p valid board h =
    let (occupied, conflicted) =
      boards-origins (inject bb (some c)).after (inject-IsBlackboard bb c valid board) p h in
    (
      admitted-origins bb valid c,
      (λ full. ap (λ (i : Injected). origins i.after) (inject_refused bb c full)),
      occupied,
      conflicted,
    )
