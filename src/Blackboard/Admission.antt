-- ===== src/Blackboard/Admission.antt =====
-- When `omi_blackboard_inject` admits a contribution, and what that does to each fiber.
use omino.Prelude.{ℕ, zero, suc, ◌+◌, ◌≤◌, ◌<◌}
use omino.Prelude.{◌≡◌, refl, sym, ap, ◌∙◌, ◌↔◌, inl, inr, arith}
use omino.Prelude.{true, false, ◌&&◌, ◌||◌, some, List, [], ◌∷◌, ◌++◌}
use omino.Prelude.{ltb, leb, if◌then◌else◌, Bool-cases}
use omino.Prelude.{u16, u32, length, take}
use omino.Prelude.{length-set, get_or-set_self, get_or-set_ne}
use omino.Prelude.{set as write}
use mathlib.Core.List.{append-nil}
use omino.Board.{test as board_test, and as board_and}
use omino.Board.Plane.{test-or, test-and}
use omino.Blackboard.{
  BlackboardFiber, BoardContribution, CoproductBlackboard, fiber_at, zero_contribution,
  append_contributor, preflight, inject, admit,
}
use omino.Blackboard.Fibers.{append_fibers_lem, preflight_iff}
use omino.Blackboard.Invariant.{claimants, IsFiberAt, IsBlackboard}

-- The entries of a fiber that are in use.
abbrev pub contributors : BlackboardFiber → List ℕ
contributors f = take f.contribution_count f.contributor_index

-- A slot for the contribution, and one in each fiber that it claims.
pub record HasRoom (bb : CoproductBlackboard) (c : BoardContribution) : Type 0 where
  pub contribution : bb.contribution_count < 256
  pub fibers :
      (p : ℕ)
      → p < 256
      → board_test c.board p ≡ true
      → (fiber_at bb.fibers p).contribution_count < 8

pub take-write {ℓ} :
    {A : Type ℓ} (xs : List A) (k : ℕ) (v : A)
    → k < length xs
    → take (suc k) (write xs k v) ≡ take k xs ++ (v ∷ [])
take-write [] k v h = absurd (omega arith)
take-write (x ∷ xs) zero v h = refl
take-write (x ∷ xs) (suc k) v h = ap (◌∷◌ x) (take-write xs k v (omega arith))

-- A later contribution does not change which of the earlier ones claim a coordinate.
claimants-write :
    (n k p : ℕ) (contributions : List BoardContribution) (c : BoardContribution)
    → n ≤ k
    → claimants n (write contributions k c) p ≡ claimants n contributions p
unfolding claimants
claimants-write zero k p contributions c h = refl
claimants-write (suc n) k p contributions c h =
    rw
      (
        claimants-write n k p contributions c (omega arith),
        get_or-set_ne contributions k n c zero_contribution (omega arith),
      )
      refl

-- The two capacity checks of `inject`.
pub room_iff :
    (bb : CoproductBlackboard) (c : BoardContribution)
    → ((leb 256 bb.contribution_count ≡ false) × (preflight 256 0 c.board bb.fibers ≡ true))
      ↔ HasRoom bb c
room_iff bb c =
    let (sound, complete) = preflight_iff 256 0 c.board bb.fibers (omega arith) in
    (
      λ (open_slot, passed). record {
        contribution = ground arith;
        fibers = λ p h. sound passed p (omega arith) h;
      },
      λ room. ((let lt = room.contribution in ground arith), complete (λ p ge h. room.fibers p h)),
    )

pub inject-admit :
    (bb : CoproductBlackboard) (c : BoardContribution)
    → HasRoom bb c
    → inject bb (some c) ≡ admit bb c
unfolding inject
inject-admit bb c room =
    let (open_slot, passed) = (room_iff bb c).1 room in rw (open_slot, passed) refl

module _ (bb : CoproductBlackboard) (c : BoardContribution) (valid : IsBlackboard bb)
    (room : HasRoom bb c) (p : ℕ) (in_plane : p < 256) where
  abbrev next : CoproductBlackboard
  next = (admit bb c).after

  next_fiber : fiber_at next.fibers p ≡ (
      if board_test c.board p
      then append_contributor (fiber_at bb.fibers p) bb.contribution_count
      else fiber_at bb.fibers p)
  unfolding admit
  next_fiber =
      append_fibers_lem 256 0 p c.board bb.contribution_count bb.fibers (sym valid.fiber_slots)
        valid.fiber_slots
      ∙ rw in_range refl
    where
      in_range : (leb 0 p && ltb p (0 + 256)) ≡ true
      in_range = ground arith

  pub next_claimants :
      claimants next.contribution_count next.contributions p
      ≡ claimants bb.contribution_count bb.contributions p
        ++ (if board_test c.board p then bb.contribution_count ∷ [] else [])
  unfolding admit claimants
  next_claimants =
      let count : u32 (bb.contribution_count + 1) ≡ suc bb.contribution_count =
        (let h = room.contribution in omega arith) in
      let slot : bb.contribution_count < length bb.contributions =
        (let h = room.contribution in omega (arith, valid.slots)) in
      rw
        (
          count,
          claimants-write bb.contribution_count bb.contribution_count p bb.contributions c
              (omega arith),
          get_or-set_self bb.contributions bb.contribution_count c zero_contribution slot,
        )
        refl

  pub next_occupied :
      board_test next.occupancy p ≡ (board_test bb.occupancy p || board_test c.board p)
  unfolding admit
  next_occupied = test-or bb.occupancy c.board p in_plane

  pub next_conflicted :
      board_test next.conflict p
      ≡ (board_test bb.conflict p || (board_test bb.occupancy p && board_test c.board p))
  unfolding admit
  next_conflicted =
      rw
        (
          test-or bb.conflict (board_and bb.occupancy c.board) p in_plane,
          test-and bb.occupancy c.board p in_plane,
        )
        refl

  abbrev old : BlackboardFiber
  old = fiber_at bb.fibers p

  claimed-IsFiberAt : board_test c.board p ≡ true → IsFiberAt next p
  unfolding append_contributor
  claimed-IsFiberAt claimed =
      let f = valid.fiber p in_plane in
      let free = room.fibers p in_plane claimed in
      let e : fiber_at next.fibers p ≡ append_contributor old bb.contribution_count =
        next_fiber ∙ rw claimed refl in
      let count : u32 (old.contribution_count + 1) ≡ suc old.contribution_count = omega arith in
      let index : u16 bb.contribution_count ≡ bb.contribution_count =
        (let h = room.contribution in omega arith) in
      record {
        visible = rw e f.visible;
        slots = rw (e, length-set old.contributor_index) f.slots;
        depth = rw (e, count) (omega arith);
        listed =
            rw
              (
                e,
                count,
                index,
                take-write old.contributor_index old.contribution_count bb.contribution_count
                    (omega (arith, f.slots)),
                next_claimants,
                claimed,
                f.listed,
              )
              refl;
        occupied = rw (e, count, next_occupied, claimed, f.occupied) (ground arith);
        conflicted =
            rw (e, count, next_conflicted, claimed, f.occupied, f.conflicted) (ground arith);
      }

  passed-IsFiberAt : board_test c.board p ≡ false → IsFiberAt next p
  passed-IsFiberAt passed =
      let f = valid.fiber p in_plane in
      let e : fiber_at next.fibers p ≡ old = next_fiber ∙ rw passed refl in
      record {
        visible = rw e f.visible;
        slots = rw e f.slots;
        depth = rw e f.depth;
        listed =
            rw (e, next_claimants, passed, f.listed)
              (sym (append-nil (claimants bb.contribution_count bb.contributions p)));
        occupied = rw (e, next_occupied, passed, f.occupied) (ground arith);
        conflicted = rw (e, next_conflicted, passed, f.occupied, f.conflicted) (ground arith);
      }

  pub next-IsFiberAt : IsFiberAt next p
  next-IsFiberAt = elim (Bool-cases (board_test c.board p)) [
    | inl claimed ↦ claimed-IsFiberAt claimed
    | inr passed ↦ passed-IsFiberAt passed
  ]

  pub next_listed :
      contributors (fiber_at next.fibers p)
      ≡ contributors (fiber_at bb.fibers p)
        ++ (if board_test c.board p then bb.contribution_count ∷ [] else [])
  next_listed =
      let gained = if board_test c.board p then bb.contribution_count ∷ [] else [] in
      let after = next-IsFiberAt in
      let before = valid.fiber p in_plane in
      after.listed ∙ next_claimants ∙ ap (λ (l : List ℕ). l ++ gained) (sym before.listed)
