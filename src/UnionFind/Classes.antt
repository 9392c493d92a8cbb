-- ===== src/UnionFind/Classes.antt =====
-- The partition that the forest stands for, and what `omi_union_validated` does to it.
use omino.Prelude.{ℕ, ◌≤◌, ◌<◌}
use omino.Prelude.{◌≡◌, refl, ◌∙◌, ◌≢◌, ◌↔◌, ◌⊎◌, arith}
use omino.Prelude.{true, false, Option, some, List}
use omino.Prelude.{◌==◌, if◌then◌else◌}
use native.Mathlib.Decide.{ℕ_discrete}
use omino.UnionFind.{UnionFind, ValidationResult, link, unite, union_validated, is_valid}
use omino.UnionFind.Forest.{Root, Root-top, Root-unique, IsForest}
use omino.UnionFind.Find.{Found, find_returns}
use omino.UnionFind.Union.{SameClass, Joined, Linked, link_lem}

-- Every element in use has a root.
pub rooted : (uf : UnionFind) (y : ℕ) → IsForest uf → y < uf.size → (s : ℕ) × Root uf.parent s y
rooted uf y f h = let found = find_returns uf y f h in (found.root, found.is_root)

-- A state in which each root `s` has become the root `g s`, elements apart.
module _ (p q : List ℕ) (g : ℕ → ℕ) (moves : (s y : ℕ) → Root p s y → Root q (g s) y) (x y s t : ℕ)
    (of_x : Root p s x) (of_y : Root p t y) where
  same_after : SameClass q x y ↔ (g s ≡ g t)
  same_after = (
    λ (r, a, b).
        Root-unique q (g s) r (moves s x of_x) a ∙ Root-unique q r (g t) b (moves t y of_y),
    λ e. (g t, rw (← e) (moves s x of_x), moves t y of_y),
  )

  same_before : SameClass p x y ↔ (s ≡ t)
  same_before = (
    λ (r, a, b). Root-unique p s r of_x a ∙ Root-unique p r t b of_y,
    λ e. (t, rw (← e) of_x, of_y),
  )

-- `Joined` in terms of the four roots.
module _ (p : List ℕ) (l r x y a b s t : ℕ) (of_l : Root p a l) (of_r : Root p b r)
    (of_x : Root p s x) (of_y : Root p t y) where
  Joined-iff : Joined p l r x y ↔ ((s ≡ t) ⊎ ((s ≡ a) × (b ≡ t) ⊎ (s ≡ b) × (a ≡ t)))
  Joined-iff = ground (
    arith,
    same_before p p (λ i. i) (λ _ _ d. d) x y s t of_x of_y,
    same_before p p (λ i. i) (λ _ _ d. d) x l s a of_x of_l,
    same_before p p (λ i. i) (λ _ _ d. d) r y b t of_r of_y,
    same_before p p (λ i. i) (λ _ _ d. d) x r s b of_x of_r,
    same_before p p (λ i. i) (λ _ _ d. d) l y a t of_l of_y,
  )

-- The outcome of a union of `l` and `r`.
pub record United (uf : UnionFind) (l r : ℕ) : Type 0 where
  pub after : UnionFind
  pub returns : unite uf l r ≡ some (after, true)
  pub forest : IsForest after
  pub size_kept : after.size ≡ uf.size
  pub classes :
      (x y : ℕ) → x < uf.size → y < uf.size → SameClass after.parent x y ↔ Joined uf.parent l r x y

-- The two calls of `omi_find`, made one after the other.
module _ (uf : UnionFind) (l r : ℕ) (f : IsForest uf) (hl : l < uf.size) (hr : r < uf.size) where
  first : Found uf l
  first = find_returns uf l f hl

  second : Found (record uf { parent = first.parent }) r
  second = find_returns (record uf { parent = first.parent }) r first.forest hr

  abbrev compressed : UnionFind
  compressed = record uf { parent = second.parent }

  kept : (s y : ℕ) → Root uf.parent s y → Root second.parent s y
  kept s y d = second.keeps s y (first.keeps s y d)

  root_of_r : Root uf.parent second.root r
  root_of_r =
      let (s, d) = rooted uf r f hr in
      rw (← Root-unique first.parent s second.root (first.keeps s r d) second.is_root) d

  Joined-roots :
      (x y s t : ℕ)
      → Root uf.parent s x
      → Root uf.parent t y
      → Joined uf.parent l r x y
        ↔ ((s ≡ t) ⊎ ((s ≡ first.root) × (second.root ≡ t) ⊎ (s ≡ second.root) × (first.root ≡ t)))
  Joined-roots x y s t of_x of_y =
      Joined-iff uf.parent l r x y first.root second.root s t first.is_root root_of_r of_x of_y

  same_root : first.root ≡ second.root → United uf l r
  same_root e = record {
    after = compressed;
    returns = unfold unite in rw (first.returns, second.returns) (ground arith);
    forest = second.forest;
    size_kept = refl;
    classes = λ x y hx hy.
        let (s, of_x) = rooted uf x f hx in
        let (t, of_y) = rooted uf y f hy in
        ground (
          arith,
          same_after uf.parent second.parent (λ i. i) kept x y s t of_x of_y,
          Joined-roots x y s t of_x of_y,
        );
  }

  joins :
      Linked compressed first.root second.root (link compressed first.root second.root)
      → first.root ≢ second.root
      → United uf l r
  joins linked apart = record {
    after = link compressed first.root second.root;
    returns = unfold unite in rw (first.returns, second.returns) (ground arith);
    forest = linked.forest;
    size_kept = linked.size_kept;
    classes = λ x y hx hy.
        let (s, of_x) = rooted uf x f hx in
        let (t, of_y) = rooted uf y f hy in
        ground (
          arith,
          same_after uf.parent (link compressed first.root second.root).parent
              (λ i. if i == linked.loser then linked.winner else i)
              (λ i z d. linked.moves i z (kept i z d)) x y s t of_x of_y,
          Joined-roots x y s t of_x of_y,
          linked.sides,
        );
  }

  pub unite_lem : United uf l r
  unite_lem = elim (ℕ_discrete first.root second.root) [
    | yes e ↦ same_root e
    | no apart ↦
        joins
          (link_lem compressed first.root second.root second.forest first.in_use second.in_use
            (Root-top (kept first.root l first.is_root))
            (Root-top (second.keeps second.root r second.is_root)) apart)
          apart
  ]

accepted :
    (uf : UnionFind) (l r : ℕ) (witness : ValidationResult)
    → witness.valid ≡ true
    → l < uf.size
    → r < uf.size
    → union_validated uf l r (some witness) ≡ unite uf l r
unfolding union_validated
accepted uf l r witness valid hl hr = ground arith

-- With a valid witness and indices in range, a union returns true, the result is a forest of the
-- same size, and its classes are those before with the classes of `l` and `r` joined.
pub union_validated-classes :
    (uf : UnionFind) (l r : ℕ) (witness : ValidationResult)
    → IsForest uf
    → witness.valid ≡ true
    → l < uf.size
    → r < uf.size
    → (after : UnionFind) × (union_validated uf l r (some witness) ≡ some (after, true))
      × IsForest after
      × (after.size ≡ uf.size)
      × ((x y : ℕ)
          → x < uf.size
          → y < uf.size
          → SameClass after.parent x y ↔ Joined uf.parent l r x y)
union_validated-classes uf l r witness f valid hl hr =
    let u = unite_lem uf l r f hl hr in
    (u.after, accepted uf l r witness valid hl hr ∙ u.returns, u.forest, u.size_kept, u.classes)

-- Without a valid witness, or with an index out of range, a union returns false and changes
-- nothing.
pub union_validated_refused :
    (uf : UnionFind) (l r : ℕ) (witness : Option ValidationResult)
    → (is_valid witness ≡ false) ⊎ (uf.size ≤ l) ⊎ (uf.size ≤ r)
    → union_validated uf l r witness ≡ some (uf, false)
unfolding union_validated
union_validated_refused uf l r witness h = ground arith
