-- ===== src/UnionFind/Find.antt =====
-- `omi_find` on a forest: it returns, with the root of the element, and compresses the path
-- without moving any element to another class.
use omino.Prelude.{ℕ, zero, suc, ◌+◌, ◌<◌}
use omino.Prelude.{◌≡◌, refl, ap, ◌∙◌, ◌≢◌, arith}
use omino.Prelude.{some, List}
use omino.Prelude.{length}
use omino.Prelude.{length-set, get_or-set_ne}
use omino.Prelude.{set as write}
use native.Mathlib.Decide.{ℕ_discrete}
use omino.UnionFind.{UnionFind, at, climb, compress, find, find_fuel}
use omino.UnionFind.Forest.{Root, stop, up, Root-top, Root-unique, Root-parent, IsForest}
use omino.UnionFind.Forest.{at-write, roots_kept, rank-le-Root, rank-le_size}

-- From an element the climb ends at its root.
climb_returns :
    (fuel : ℕ) (uf : UnionFind) (x : ℕ)
    → IsForest uf
    → x < uf.size
    → uf.size < fuel + at uf.rank x
    → (r : ℕ) × (climb fuel uf.parent x ≡ some r) × Root uf.parent r x
unfolding climb
climb_returns zero uf x f h enough = absurd (omega (arith, rank-le_size uf x f h))
climb_returns (suc fuel) uf x f h enough = elim (ℕ_discrete (at uf.parent x) x) [
  | yes top ↦ (x, ground arith, stop refl top)
  | no ne ↦
      let (r, e, c) =
        climb_returns fuel uf (at uf.parent x) f (f.in_range x h) (omega (arith, f.rises x h ne)) in
      (r, ground arith, up ne c)
]

-- One write of the compression: `x` is pointed at its root.
module _ (uf : UnionFind) (r x : ℕ) (f : IsForest uf) (h : x < uf.size) (c : Root uf.parent r x)
    (away : at uf.parent x ≢ r) where
  abbrev pointed : UnionFind
  pointed = record uf { parent = write uf.parent x r }

  x_ne : x ≢ r
  x_ne e = away (ap (at uf.parent) e ∙ Root-top c)

  not_top : at uf.parent x ≢ x
  not_top e = x_ne (Root-unique uf.parent x r (stop refl e) c)

  in_array : x < length uf.parent
  in_array = omega (arith, f.parents, f.capacity)

  pointed-Root : (s : ℕ) {y : ℕ} → Root uf.parent s y → Root pointed.parent s y
  pointed-Root s (stop e t) = stop e (ground (arith, at-write uf.parent x s r in_array, not_top))
  pointed-Root s (up {x = y} ne d) = elim (ℕ_discrete x y) [
    | yes e ↦
        let same = Root-unique uf.parent r s c (rw (← e) at (up ne d)) in
        rw (← e) (
          up (ground (arith, at-write uf.parent x x r in_array, x_ne)) (
            stop (ground (arith, at-write uf.parent x x r in_array))
              (ground (arith, at-write uf.parent x s r in_array, x_ne, Root-top c))))
    | no other ↦
        up (ground (arith, at-write uf.parent x y r in_array))
          (rw (get_or-set_ne uf.parent x y r 0 other) (pointed-Root s d))
  ]

  pointed-IsForest : IsForest pointed
  pointed-IsForest = record {
    parents = rw length-set f.parents;
    ranks = f.ranks;
    capacity = f.capacity;
    in_range = λ i lt.
        ground (arith, at-write uf.parent x i r in_array, f.in_range i lt, rank-le-Root uf r f h c);
    rises = λ i lt.
        ground
          (arith, at-write uf.parent x i r in_array, f.rises i lt, rank-le-Root uf r f h c, x_ne);
    ranked = λ i lt.
        ground (arith, roots_kept uf.size uf.parent x r in_array not_top, f.ranked i lt, x_ne);
  }

-- The classes of one forest are classes of another.
abbrev pub Keeps : List ℕ → List ℕ → Type 0
Keeps p q = (s y : ℕ) → Root p s y → Root q s y

compress_returns :
    (fuel : ℕ) (uf : UnionFind) (r x : ℕ)
    → IsForest uf
    → x < uf.size
    → Root uf.parent r x
    → uf.size < fuel + at uf.rank x
    → (q : List ℕ) × (compress fuel uf.parent r x ≡ some q)
      × IsForest (record uf { parent = q })
      × Keeps uf.parent q
unfolding compress
compress_returns zero uf r x f h c enough = absurd (omega (arith, rank-le_size uf x f h))
compress_returns (suc fuel) uf r x f h c enough = elim (ℕ_discrete (at uf.parent x) r) [
  | yes done ↦ (uf.parent, ground arith, f, λ s y d. d)
  | no away ↦
      let next = at uf.parent x in
      let onward = Root-parent uf.parent r c (not_top uf r x f h c away) in
      let (q, e, g, keeps) =
        compress_returns fuel (pointed uf r x f h c away) r next
          (pointed-IsForest uf r x f h c away) (f.in_range x h)
          (pointed-Root uf r x f h c away r onward)
          (omega (arith, f.rises x h (not_top uf r x f h c away))) in
      (q, ground arith, g, λ s y d. keeps s y (pointed-Root uf r x f h c away s d))
]

-- What `omi_find` returns for `x`: the state after it, and the root.
pub record Found (uf : UnionFind) (x : ℕ) : Type 0 where
  pub parent : List ℕ
  pub root : ℕ
  pub returns : find uf x ≡ some (record uf { parent = parent }, root)
  pub forest : IsForest (record uf { parent = parent })
  pub is_root : Root uf.parent root x
  pub in_use : root < uf.size
  pub keeps : Keeps uf.parent parent

-- On a forest, for an element in use, find returns within its fuel, with the root of the
-- element; the state after it is a forest again, and every element keeps its root.
pub find_returns : (uf : UnionFind) (x : ℕ) → IsForest uf → x < uf.size → Found uf x
unfolding find
find_returns uf x f h =
    let (r, up_there, c) = climb_returns find_fuel uf x f h (omega (arith, f.capacity)) in
    let (q, back, g, keeps) = compress_returns find_fuel uf r x f h c (omega (arith, f.capacity)) in
    record {
      parent = q;
      root = r;
      returns = ground arith;
      forest = g;
      is_root = c;
      in_use = (rank-le-Root uf r f h c).0;
      keeps = keeps;
    }
