-- ===== src/Clock/Period.antt =====
-- The clock comes back to its state every eight ticks, from every seed.
use omino.Prelude.{ℕ, zero, suc, ◌^◌, ◌<◌}
use omino.Prelude.{◌≡◌, refl, sym, ap, ◌∙◌, arith}
use native.Mathlib.Nat.{mod-eq_of_lt}
use omino.Delta.{rotl16, rotr16}
use omino.Delta.Period.{iterate, linear, law, law-lt, law_period, iterate_cong}
use omino.Clock.{clock_oscillate, ClockState, make_clock, clock_tick}

pub clock_oscillate-law :
    (x : ℕ) → x < 2 ^ 16 → (clock_oscillate x ≡ law 0x1D1D x) × (law 0x1D1D x < 2 ^ 16)
unfolding clock_oscillate law linear
clock_oscillate-law x h =
    let below : law 0x1D1D x < 2 ^ 16 = law-lt 0x1D1D x (omega arith) h in
    (mod-eq_of_lt below, below)

pub clock_oscillate_period : (x : ℕ) → x < 2 ^ 16 → iterate 8 clock_oscillate x ≡ x
clock_oscillate_period x h =
    (iterate_cong clock_oscillate (law 0x1D1D) clock_oscillate-law 8 x h).0
    ∙ law_period 0x1D1D x (omega arith) h cancels
  where
    cancels : iterate 8 (law 0x1D1D) 0 ≡ 0
    cancels = unfold law linear rotl16 rotr16 in refl

pub clock_oscillate-lt : (x : ℕ) → x < 2 ^ 16 → clock_oscillate x < 2 ^ 16
clock_oscillate-lt x h = let (e, below) = clock_oscillate-law x h in rw e below

-- Equal states after a tick were equal before it.
pub clock_oscillate_inj :
    (x y : ℕ) → x < 2 ^ 16 → y < 2 ^ 16 → clock_oscillate x ≡ clock_oscillate y → x ≡ y
clock_oscillate_inj x y hx hy e =
    sym (clock_oscillate_period x hx) ∙ seven ∙ clock_oscillate_period y hy
  where
    first_steps : (n : ℕ) → iterate (suc n) clock_oscillate x ≡ iterate (suc n) clock_oscillate y
    first_steps zero = e
    first_steps (suc n) = ap clock_oscillate (first_steps n)

    seven : iterate 8 clock_oscillate x ≡ iterate 8 clock_oscillate y
    seven = first_steps 7

-- `n` ticks of a clock.
unfoldable pub ticks : ℕ → ClockState → ClockState
ticks zero cs = cs
ticks (suc n) cs = clock_tick (ticks n cs)

pub ticks-make_clock : (n x : ℕ) → ticks n (make_clock x) ≡ make_clock (iterate n clock_oscillate x)
unfolding ticks clock_tick make_clock
ticks-make_clock zero x = refl
ticks-make_clock (suc n) x = ap clock_tick (ticks-make_clock n x)

-- Eight ticks give a clock made from a 16-bit state back, with its state and its band.
pub ticks_period : (x : ℕ) → x < 2 ^ 16 → ticks 8 (make_clock x) ≡ make_clock x
ticks_period x h = ticks-make_clock 8 x ∙ ap make_clock (clock_oscillate_period x h)
