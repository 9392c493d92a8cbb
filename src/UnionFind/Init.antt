-- ===== src/UnionFind/Init.antt =====
-- `omi_uf_init` makes a forest of single elements.
use omino.Prelude.{ℕ, zero, suc, ◌+◌, ◌≤◌, ◌<◌}
use omino.Prelude.{◌≡◌, refl, sym, ◌∙◌, ◌↔◌, arith}
use omino.Prelude.{length}
use omino.Prelude.{length-set, get_or-set_self, get_or-set_ne}
use omino.Prelude.{set as write}
use native.Mathlib.Decide.{ℕ_discrete}
use omino.UnionFind.{UnionFind, at, init_from, init}
use omino.UnionFind.Forest.{stop, Root-unique, all_roots, IsForest}
use omino.UnionFind.Union.{SameClass}

-- The loop of `omi_uf_init` has filled the entries from `i` to `i + left`.
record Filled (left i : ℕ) (uf out : UnionFind) : Type 0 where
  parents : length out.parent ≡ length uf.parent
  ranks : length out.rank ≡ length uf.rank
  size_kept : out.size ≡ uf.size
  inside : (j : ℕ) → i ≤ j → j < i + left → (at out.parent j ≡ j) × (at out.rank j ≡ 0)
  before : (j : ℕ) → j < i → (at out.parent j ≡ at uf.parent j) × (at out.rank j ≡ at uf.rank j)

init_from-Filled :
    (left i : ℕ) (uf : UnionFind)
    → i + left ≤ length uf.parent
    → i + left ≤ length uf.rank
    → Filled left i uf (init_from left i uf)
unfolding init_from
init_from-Filled zero i uf hp hr = record {
  parents = refl;
  ranks = refl;
  size_kept = refl;
  inside = λ j a b. absurd (omega arith);
  before = λ j a. (refl, refl);
}
init_from-Filled (suc left) i uf hp hr =
    let one = record uf { parent = write uf.parent i i; rank = write uf.rank i 0 } in
    let rest =
      init_from-Filled left (i + 1) one (rw length-set (omega arith))
        (rw length-set (omega arith)) in
    record {
      parents = rest.parents ∙ length-set uf.parent i i;
      ranks = rest.ranks ∙ length-set uf.rank i 0;
      size_kept = rest.size_kept;
      inside = λ j a b. elim (ℕ_discrete i j) [
        | yes e ↦
            let (p, q) = rest.before j (omega arith) in
            (
              p ∙ rw (← e) (get_or-set_self uf.parent i i 0 (omega arith)),
              q ∙ rw (← e) (get_or-set_self uf.rank i 0 0 (omega arith)),
            )
        | no ne ↦ rest.inside j (omega arith) (omega arith)
      ];
      before = λ j a.
          let (p, q) = rest.before j (omega arith) in
          (
            p ∙ get_or-set_ne uf.parent i j i 0 (omega arith),
            q ∙ get_or-set_ne uf.rank i j 0 0 (omega arith),
          );
    }

module _ (uf : UnionFind) (size : ℕ) (parents : length uf.parent ≡ 256)
    (ranks : length uf.rank ≡ 256) (capacity : size ≤ 256) where
  filled : Filled size 0 (record uf { size = size }) (init uf size)
  unfolding init
  filled = init_from-Filled size 0 (record uf { size = size }) (omega arith) (omega arith)

  own_parent : (j : ℕ) → j < size → at (init uf size).parent j ≡ j
  own_parent j h = (filled.inside j (omega arith) (omega arith)).0

  -- After initialisation every element is its own root.
  pub init-IsForest : IsForest (init uf size)
  init-IsForest = record {
    parents = filled.parents ∙ parents;
    ranks = filled.ranks ∙ ranks;
    capacity = rw filled.size_kept capacity;
    in_range = λ i h.
        rw filled.size_kept
          (rw (own_parent i (rw filled.size_kept at h)) (rw filled.size_kept at h));
    rises = λ i h ne. absurd (ne (own_parent i (rw filled.size_kept at h)));
    ranked = λ i h.
        let lt : i < size = rw filled.size_kept at h in
        rw (filled.size_kept, all_roots size (init uf size).parent own_parent)
          (omega (arith, (filled.inside i (omega arith) (omega arith)).1));
  }

  pub size-init : (init uf size).size ≡ size
  size-init = filled.size_kept

  pub init-SameClass :
      (x y : ℕ) → x < size → y < size → SameClass (init uf size).parent x y ↔ (x ≡ y)
  init-SameClass x y hx hy = (
    λ (r, a, b).
        Root-unique _ x r (stop refl (own_parent x hx)) a
        ∙ Root-unique _ r y b (stop refl (own_parent y hy)),
    λ e. (x, stop refl (own_parent x hx), stop (sym e) (own_parent x hx)),
  )
