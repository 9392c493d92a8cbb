-- ===== src/UnionFind/Forest.antt =====
-- Forests of parents: the root of an element, the ranks that bound every chain, and the number of
-- roots, which bounds the ranks.
use omino.Prelude.{ℕ, zero, suc, ◌+◌, ◌≤◌, ◌<◌}
use omino.Prelude.{◌≡◌, refl, sym, ◌∙◌, ◌≢◌, ◌⊎◌, inl, inr, arith}
use omino.Prelude.{List}
use omino.Prelude.{ltb, ◌==◌, if◌then◌else◌}
use omino.Prelude.{length}
use omino.Prelude.{get_or-set_self, get_or-set_ne}
use omino.Prelude.{set as write}
use native.Mathlib.Decide.{ℕ_discrete}
use omino.UnionFind.{UnionFind, at}

-- The chain of parents from `x` ends at `r`.
pub data Root (p : List ℕ) (r : ℕ) : ℕ → Type 0 where
  stop : {x : ℕ} → x ≡ r → at p r ≡ r → Root p r x
  up : {x : ℕ} → at p x ≢ x → Root p r (at p x) → Root p r x

pub Root-top : {p : List ℕ} {r x : ℕ} → Root p r x → at p r ≡ r
Root-top (stop e t) = t
Root-top (up ne c) = Root-top c

-- A chain has one end.
pub Root-unique : (p : List ℕ) (r s : ℕ) {x : ℕ} → Root p r x → Root p s x → r ≡ s
Root-unique p r s (stop e t) (stop e' t') = sym e ∙ e'
Root-unique p r s (stop e t) (up ne c) = absurd (ne (rw e t))
Root-unique p r s (up ne c) (stop e t) = absurd (ne (rw e t))
Root-unique p r s (up ne c) (up ne' c') = Root-unique p r s c c'

-- Where a parent differs from `x`, the chain goes through it.
pub Root-parent : (p : List ℕ) (r : ℕ) {x : ℕ} → Root p r x → at p x ≢ x → Root p r (at p x)
Root-parent p r (stop e t) ne = absurd (ne (rw e t))
Root-parent p r (up _ c) ne = c

-- The number of roots below `n`.
pub roots : ℕ → List ℕ → ℕ
roots zero p = 0
roots (suc n) p = roots n p + (if at p n == n then 1 else 0)

pub record IsForest (uf : UnionFind) : Type 0 where
  pub parents : length uf.parent ≡ 256
  pub ranks : length uf.rank ≡ 256
  pub capacity : uf.size ≤ 256
  pub in_range : (i : ℕ) → i < uf.size → at uf.parent i < uf.size
  pub rises :
      (i : ℕ) → i < uf.size → at uf.parent i ≢ i → at uf.rank i < at uf.rank (at uf.parent i)
  pub ranked : (i : ℕ) → i < uf.size → at uf.rank i + roots uf.size uf.parent ≤ uf.size

pub at-write :
    (xs : List ℕ) (i j v : ℕ)
    → i < length xs
    → at (write xs i v) j ≡ (if i == j then v else at xs j)
at-write xs i j v h = elim (ℕ_discrete i j) [
  | yes e ↦ rw (← e) (ground (arith, get_or-set_self xs i v 0))
  | no ne ↦ ground (arith, get_or-set_ne xs i j v 0)
]

-- A write that leaves the entry a root, or not one, keeps the count.
pub roots_kept :
    (n : ℕ) (p : List ℕ) (i v : ℕ)
    → i < length p
    → at p i ≢ i
    → v ≢ i
    → roots n (write p i v) ≡ roots n p
unfolding roots
roots_kept zero p i v h a b = refl
roots_kept (suc n) p i v h a b =
    ground (arith, at-write p i n v h, roots_kept n p i v h a b, ℕ_discrete i n)

-- A write that ends a root takes one off the count.
pub roots_fall :
    (n : ℕ) (p : List ℕ) (i v : ℕ)
    → i < length p
    → at p i ≡ i
    → v ≢ i
    → roots n (write p i v) + (if ltb i n then 1 else 0) ≡ roots n p
unfolding roots
roots_fall zero p i v h a b = ground arith
roots_fall (suc n) p i v h a b = ground (arith, at-write p i n v h, roots_fall n p i v h a b)

pub roots_pos : (n : ℕ) (p : List ℕ) (i : ℕ) → i < n → at p i ≡ i → 1 ≤ roots n p
unfolding roots
roots_pos zero p i h a = absurd (omega arith)
roots_pos (suc n) p i h a = elim (ℕ_discrete i n) [
  | yes e ↦ rw (← e, a) (ground arith)
  | no ne ↦ omega (arith, roots_pos n p i (omega arith) a)
]

-- Where every element is its own parent, all are roots.
pub all_roots : (n : ℕ) (p : List ℕ) → ((j : ℕ) → j < n → at p j ≡ j) → roots n p ≡ n
unfolding roots
all_roots zero p h = refl
all_roots (suc n) p h =
    rw (h n (omega arith), all_roots n p (λ j lt. h j (omega arith))) (ground arith)

-- Along a chain the rank rises.
pub rank-le-Root :
    (uf : UnionFind) (r : ℕ) {x : ℕ}
    → IsForest uf
    → x < uf.size
    → Root uf.parent r x
    → (r < uf.size) × ((x ≡ r) ⊎ (at uf.rank x < at uf.rank r))
rank-le-Root uf r f h (stop e t) = (rw (← e) h, inl e)
rank-le-Root uf r {x} f h (up ne c) =
    let (below, above) = rank-le-Root uf r f (f.in_range x h) c in
    (below, inr (ground (arith, f.rises x h ne)))

-- A rank never passes the number of elements.
pub rank-le_size : (uf : UnionFind) (i : ℕ) → IsForest uf → i < uf.size → at uf.rank i ≤ uf.size
rank-le_size uf i f h = omega (arith, f.ranked i h)
