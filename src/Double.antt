-- ===== src/Double.antt =====
-- What the code does with a `double`: conversions, arithmetic, comparisons, `sqrt` and `atan2`.
-- The type and its operations are not code of the repository.
use native.Mathlib.Nat.{mul-le-mul, mul-div_cancel}
use omino.Prelude.{
  ℕ, zero, suc, ◌≤◌, ◌<◌, ◌*◌, ◌+◌, ◌-◌, ◌/◌, ◌≡◌, Bool, true, false, refl, arith, ltb, leb,
}
use omino.Prelude.{◌==◌, if◌then◌else◌, ◌^◌, Bool-cases, inl, inr}

pub record Double {ℓ} (W : Type ℓ) : Type ℓ where
  -- The conversion of an integer, and the constant OMI_PI.
  pub whole : ℕ → W
  pub pi : W
  pub add : W → W → W
  pub sub : W → W → W
  pub mul : W → W → W
  pub div : W → W → W
  pub equal : W → W → Bool
  pub less : W → W → Bool
  pub at_least : W → W → Bool
  pub sqrt : W → W
  pub atan2 : W → W → W

-- `x * (180.0 / OMI_PI)`.
abbrev pub in_degrees {ℓ} : {W : Type ℓ} ⦃d : Double W⦄ → W → W
in_degrees ⦃d⦄ x = d.mul x (d.div (d.whole 180) d.pi)

-- Integers below 2 ^ 32 convert exactly; an operation whose exact result is such an integer, or one
-- divided by 256, gives it (IEEE 754). The order is transitive, agrees on integers, is kept by the
-- rounded sum, and excludes its converse. `sqrt` is exact at squares, `atan2` at the origin, and an
-- angle of the first quadrant has between 0 and 90 degrees.
pub record IsDouble {ℓ} (W : Type ℓ) ⦃d : Double W⦄ : Type ℓ where
  pub add_whole : (a b : ℕ) → a + b < 2 ^ 32 → d.add (d.whole a) (d.whole b) ≡ d.whole (a + b)
  pub mul_whole :
      (a b : ℕ)
      → a < 2 ^ 32
      → b < 2 ^ 32
      → a * b < 2 ^ 32
      → d.mul (d.whole a) (d.whole b) ≡ d.whole (a * b)
  pub div_whole :
      (a b : ℕ)
      → 0 < b
      → b < 2 ^ 32
      → a * b < 2 ^ 32
      → d.div (d.whole (a * b)) (d.whole b) ≡ d.whole a
  pub add_div256 :
      (a b : ℕ)
      → a + b * 256 < 2 ^ 32
      → d.add (d.div (d.whole a) (d.whole 256)) (d.whole b)
        ≡ d.div (d.whole (a + b * 256)) (d.whole 256)
  pub equal_whole : (a b : ℕ) → a < 2 ^ 32 → b < 2 ^ 32 → d.equal (d.whole a) (d.whole b) ≡ (a == b)
  pub at_least_whole :
      (a b : ℕ) → a < 2 ^ 32 → b < 2 ^ 32 → d.at_least (d.whole a) (d.whole b) ≡ leb b a
  pub at_least_trans :
      (x y z : W) → d.at_least x y ≡ true → d.at_least y z ≡ true → d.at_least x z ≡ true
  pub at_least-less : (x y : W) → d.at_least x y ≡ true → d.less x y ≡ false
  pub at_least-add :
      (x y : W) (n : ℕ)
      → n < 2 ^ 32
      → d.at_least x y ≡ true
      → d.at_least (d.add x (d.whole n)) (d.add y (d.whole n)) ≡ true
  pub sqrt_whole : (n : ℕ) → n * n < 2 ^ 32 → d.sqrt (d.whole (n * n)) ≡ d.whole n
  pub atan2_origin : in_degrees (d.atan2 (d.whole 0) (d.whole 0)) ≡ d.whole 0
  pub atan2_least :
      (row col : ℕ)
      → row < 256
      → col < 256
      → d.at_least (in_degrees (d.atan2 (d.whole row) (d.whole col))) (d.whole 0) ≡ true
  pub atan2_most :
      (row col : ℕ)
      → row < 256
      → col < 256
      → d.at_least (d.whole 90) (in_degrees (d.atan2 (d.whole row) (d.whole col))) ≡ true

-- The laws can be met: integers, rounded down, with 60 degrees for every angle but 0.
unfoldable pub root : ℕ → ℕ
root zero = 0
root (suc m) = let r = root m in if leb ((r + 1) * (r + 1)) (suc m) then r + 1 else r

square_mono : (a b : ℕ) → a ≤ b → a * a ≤ b * b
square_mono a b h = mul-le-mul h h

root_lem : (m : ℕ) → (root m * root m ≤ m) × (m < (root m + 1) * (root m + 1))
unfolding root
root_lem zero = (omega arith, omega arith)
root_lem (suc m) =
    let (low, high) = root_lem m in
    let r = root m in
    elim (Bool-cases (leb ((r + 1) * (r + 1)) (suc m))) [
      | inl more ↦ rw more (ground arith, omega arith)
      | inr same ↦ rw same (omega arith, ground arith)
    ]

root-square : (n : ℕ) → root (n * n) ≡ n
root-square n =
    let r = root (n * n) in
    let (low, high) = root_lem (n * n) in
    elim (Bool-cases (ltb r n)) [
      | inl less ↦ absurd (omega (arith, square_mono (r + 1) n (ground arith)))
      | inr most ↦ elim (Bool-cases (ltb n r)) [
        | inl more ↦ absurd (omega (arith, square_mono (n + 1) r (ground arith)))
        | inr least ↦ ground arith
      ]
    ]

instance abbrev pub whole_degrees : Double ℕ
whole_degrees = record {
  whole = λ n. n;
  pi = 3;
  add = ◌+◌;
  sub = ◌-◌;
  mul = ◌*◌;
  div = ◌/◌;
  equal = ◌==◌;
  less = ltb;
  at_least = λ a b. leb b a;
  sqrt = root;
  atan2 = λ row col. if row == 0 then 0 else 1;
}

below_quadrant : (row : ℕ) → (if row == 0 then 0 else 1) * (180 / 3) ≤ 60
below_quadrant row = elim (Bool-cases (row == 0)) [
  | inl here ↦ rw here (omega arith)
  | inr there ↦ rw there (omega arith)
]

pub whole_degrees-IsDouble : IsDouble ℕ
whole_degrees-IsDouble = record {
  add_whole = λ a b h. refl;
  mul_whole = λ a b h k l. refl;
  div_whole = λ a b h _ _. mul-div_cancel a h;
  add_div256 = λ a b h. omega arith;
  equal_whole = λ a b h k. refl;
  at_least_whole = λ a b h k. refl;
  at_least_trans = λ x y z h k. ground arith;
  at_least-less = λ x y h. ground arith;
  at_least-add = λ x y n h k. ground arith;
  sqrt_whole = λ n _. root-square n;
  atan2_origin = refl;
  atan2_least = λ row col h k. ground arith;
  atan2_most = λ row col h k. ground (arith, below_quadrant row);
}
