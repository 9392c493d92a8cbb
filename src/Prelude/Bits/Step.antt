-- ===== src/Prelude/Bits/Step.antt =====
-- The native bit operations recurse on binary digits with fuel. One equation for each of them, on
-- the lowest digit, takes the place of the fuel.
use Prim.Native.Nat.{ℕ, zero, suc, ◌+◌, ◌-◌, ◌*◌, ◌/◌, ◌%◌, ◌≤◌, ◌<◌, min, max}
use Prim.Native.Nat.{bit_and, bit_or, bit_xor, digits, bitwise, differ}
use Prim.Native.Nat.{bit_and-bitwise, bit_or-bitwise, bit_xor-bitwise}
use mathlib.Core.Path.{◌≡◌, refl, ◌∙◌}
use native.Mathlib.Omega.{arith}

module _ (rest : ℕ → ℕ) (op : ℕ → ℕ → ℕ) where
  -- Past the size of `x`, one more unit of fuel changes nothing.
  one_more : (x y fuel : ℕ) → x ≤ fuel → digits rest op (suc fuel) x y ≡ digits rest op fuel x y
  one_more zero y zero h = refl
  one_more zero y (suc fuel) h = refl
  one_more (suc x) y zero h = absurd (omega arith)
  one_more (suc x) y (suc fuel) h = rw (one_more (suc x / 2) (y / 2) fuel (omega arith))

  more_fuel :
      (extra x y fuel : ℕ) → x ≤ fuel → digits rest op (extra + fuel) x y ≡ digits rest op fuel x y
  more_fuel zero x y fuel h = rw zero_first
    where
      zero_first : zero + fuel ≡ fuel
      zero_first = omega arith
  more_fuel (suc extra) x y fuel h =
      rw suc_first (one_more x y (extra + fuel) (omega arith) ∙ more_fuel extra x y fuel h)
    where
      suc_first : suc extra + fuel ≡ suc (extra + fuel)
      suc_first = omega arith

  enough : (x y fuel : ℕ) → x ≤ fuel → digits rest op fuel x y ≡ bitwise rest op x y
  enough x y fuel h = rw (← split) at (more_fuel (fuel - x) x y x (omega arith))
    where
      split : fuel ≡ fuel - x + x
      split = omega arith

pub bit_or_step : (a b : ℕ) → bit_or a b ≡ bit_or (a / 2) (b / 2) * 2 + max (a % 2) (b % 2)
bit_or_step zero b = rw (bit_or-bitwise 0 b, bit_or-bitwise 0 (b / 2)) (omega arith)
bit_or_step (suc a) b =
    rw (bit_or-bitwise (suc a) b, bit_or-bitwise (suc a / 2) (b / 2))
      (omega (arith, enough (λ y. y) max (suc a / 2) (b / 2) a (omega arith)))

pub bit_and_step : (a b : ℕ) → bit_and a b ≡ bit_and (a / 2) (b / 2) * 2 + min (a % 2) (b % 2)
bit_and_step zero b = rw (bit_and-bitwise 0 b, bit_and-bitwise 0 (b / 2)) (omega arith)
bit_and_step (suc a) b =
    rw (bit_and-bitwise (suc a) b, bit_and-bitwise (suc a / 2) (b / 2))
      (omega (arith, enough (λ y. zero) min (suc a / 2) (b / 2) a (omega arith)))

-- On two digits `differ` is addition without the carry.
differ_mod_two : (a b : ℕ) → a < 2 → b < 2 → differ a b ≡ (a + b) % 2
differ_mod_two zero zero p q = refl
differ_mod_two zero (suc zero) p q = refl
differ_mod_two (suc zero) zero p q = refl
differ_mod_two (suc zero) (suc zero) p q = refl
differ_mod_two (suc (suc a)) b p q = absurd (omega arith)
differ_mod_two a (suc (suc b)) p q = absurd (omega arith)

pub bit_xor_step : (a b : ℕ) → bit_xor a b ≡ bit_xor (a / 2) (b / 2) * 2 + (a + b) % 2
bit_xor_step zero b = rw (bit_xor-bitwise 0 b, bit_xor-bitwise 0 (b / 2)) (omega arith)
bit_xor_step (suc a) b =
    rw (bit_xor-bitwise (suc a) b, bit_xor-bitwise (suc a / 2) (b / 2))
      (omega (
        arith,
        enough (λ y. y) differ (suc a / 2) (b / 2) a (omega arith),
        differ_mod_two (suc a % 2) (b % 2) (omega arith) (omega arith),
      ))
