-- ===== src/Blackboard/Fibers.antt =====
-- What the loops over the 256 fibers do to each of them.
use omino.Prelude.{ℕ, zero, suc, ◌+◌, ◌≤◌, ◌<◌}
use omino.Prelude.{◌≡◌, refl, ap, ◌∙◌, ◌↔◌, inl, inr, arith}
use omino.Prelude.{true, ◌&&◌, List}
use omino.Prelude.{ltb, leb, ◌==◌, if◌then◌else◌, Bool-cases}
use omino.Prelude.{u8, length}
use omino.Prelude.{length-set, get_or-set_self, get_or-set_ne}
use omino.Prelude.{set as write}
use native.Mathlib.Decide.{ℕ_discrete}
use omino.Board.{Board256}
use omino.Board.{test as board_test}
use omino.Blackboard.{
  BlackboardFiber, fiber_at, zero_fiber, name_fibers, preflight, append_contributor, append_fibers,
}

-- The fiber `q` after a round at `p`.
fiber_at-write :
    (fibers : List BlackboardFiber) (p q : ℕ) (f : BlackboardFiber)
    → p < length fibers
    → fiber_at (write fibers p f) q ≡ (if p == q then f else fiber_at fibers q)
fiber_at-write fibers p q f h = elim (ℕ_discrete p q) [
  | yes e ↦ rw (← e) (ground (arith, get_or-set_self fibers p f zero_fiber))
  | no ne ↦ ground (arith, get_or-set_ne fibers p q f zero_fiber)
]

pub length-name_fibers :
    (left p : ℕ) (fibers : List BlackboardFiber)
    → length (name_fibers left p fibers) ≡ length fibers
unfolding name_fibers
length-name_fibers zero p fibers = refl
length-name_fibers (suc left) p fibers = length-name_fibers left (p + 1) _ ∙ length-set fibers p _

-- The fibers that the loop has passed carry their coordinate, the others are as before.
pub name_fibers_lem :
    (left p q : ℕ) (fibers : List BlackboardFiber)
    → p + left ≡ length fibers
    → length fibers ≡ 256
    → fiber_at (name_fibers left p fibers) q ≡ (
        if leb p q && ltb q (p + left)
        then record (fiber_at fibers q) { visible_coordinate = q }
        else fiber_at fibers q)
unfolding name_fibers
name_fibers_lem zero p q fibers e len = ground arith
name_fibers_lem (suc left) p q fibers e len =
    let named = record (fiber_at fibers p) { visible_coordinate = u8 p } in
    let next =
      name_fibers_lem left (p + 1) q (write fibers p named) (rw length-set (omega arith))
        (rw length-set len) in
    let small : u8 p ≡ p = omega arith in
    elim (ℕ_discrete p q) [
      | yes same ↦ ground (
        arith,
        next,
        fiber_at-write fibers p q named (omega arith),
        small,
        ap (fiber_at fibers) same,
      )
      | no other ↦ ground (arith, next, fiber_at-write fibers p q named (omega arith))
    ]

pub length-append_fibers :
    (left p : ℕ) (board : Board256) (index : ℕ) (fibers : List BlackboardFiber)
    → length (append_fibers left p board index fibers) ≡ length fibers
unfolding append_fibers
length-append_fibers zero p board index fibers = refl
length-append_fibers (suc left) p board index fibers =
    length-append_fibers left (p + 1) board index _ ∙ elim (Bool-cases (board_test board (u8 p))) [
      | inl claimed ↦ rw claimed (length-set fibers p _)
      | inr free ↦ rw free refl
    ]

-- Each claimed fiber in the range of the loop gets the contributor, the others are as before.
pub append_fibers_lem :
    (left p q : ℕ) (board : Board256) (index : ℕ) (fibers : List BlackboardFiber)
    → p + left ≡ length fibers
    → length fibers ≡ 256
    → fiber_at (append_fibers left p board index fibers) q ≡ (
        if leb p q && ltb q (p + left) && board_test board q
        then append_contributor (fiber_at fibers q) index
        else fiber_at fibers q)
unfolding append_fibers
append_fibers_lem zero p q board index fibers e len = ground arith
append_fibers_lem (suc left) p q board index fibers e len =
    let appended = append_contributor (fiber_at fibers p) index in
    let small : u8 p ≡ p = omega arith in
    elim (Bool-cases (board_test board p)) [
      | inl claimed ↦
          let next =
            append_fibers_lem left (p + 1) q board index (write fibers p appended)
              (rw length-set (omega arith)) (rw length-set len) in
          rw (small, claimed)
            (elim (ℕ_discrete p q) [
              | yes same ↦ ground (
                arith,
                next,
                fiber_at-write fibers p q appended (omega arith),
                ap (fiber_at fibers) same,
                ap (board_test board) same,
              )
              | no other ↦ ground (arith, next, fiber_at-write fibers p q appended (omega arith))
            ])
      | inr free ↦
          let next = append_fibers_lem left (p + 1) q board index fibers (omega arith) len in
          rw (small, free)
            (elim (ℕ_discrete p q) [
              | yes same ↦ ground (arith, next, ap (board_test board) same)
              | no other ↦ ground (arith, next)
            ])
    ]

-- The preflight check passes exactly when each claimed fiber in its range has a free slot.
pub preflight_iff :
    (left p : ℕ) (board : Board256) (fibers : List BlackboardFiber)
    → p + left ≤ 256
    → (preflight left p board fibers ≡ true) ↔ (
        (q : ℕ)
        → p ≤ q
        → q < p + left
        → board_test board q ≡ true
        → (fiber_at fibers q).contribution_count < 8)
unfolding preflight
preflight_iff zero p board fibers h = (λ _ q ge lt. absurd (omega arith), λ _. refl)
preflight_iff (suc left) p board fibers h =
    let small : u8 p ≡ p = omega arith in
    let (sound, complete) = preflight_iff left (p + 1) board fibers (omega arith) in
    rw small (
      λ passed q ge lt claimed. elim (ℕ_discrete p q) [
        | yes same ↦ rw (← same) (ground (arith, ap (board_test board) same))
        | no other ↦ sound (ground arith) q (omega arith) (omega arith) claimed
      ],
      λ free.
          let rest = complete (λ q ge lt. free q (omega arith) (omega arith)) in
          ground (arith, rest, free p (omega arith) (omega arith)),
    )
