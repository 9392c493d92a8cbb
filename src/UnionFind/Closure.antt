-- ===== src/UnionFind/Closure.antt =====
-- Histories of calls: the forest maintains the least equivalence that holds the accepted pairs.
use omino.Prelude.{ℕ, ◌≤◌, ◌<◌}
use omino.Prelude.{◌≡◌, refl, sym, ◌∙◌, ◌↔◌, inl, inr, arith}
use omino.Prelude.{true, false, Option, none, some, List, [], ◌∷◌}
use omino.Prelude.{Bool-cases}
use omino.Prelude.{length}
use mathlib.Core.List.{Memᴰ}
use mathlib.Core.List.Memᴰ
use omino.UnionFind.{UnionFind, ValidationResult, init, is_valid}
use omino.UnionFind.History.{
  Request, is_accepted, replay, Equivalent, asked, same, back, along, weaken, least, Maintains,
}
use omino.UnionFind.Forest.{Root-unique, IsForest}
use omino.UnionFind.Union.{SameClass, Joined}
use omino.UnionFind.Init.{init-IsForest, size-init, init-SameClass}
use omino.UnionFind.Classes.{rooted, union_validated-classes, union_validated_refused}

valid_some :
    (witness : Option ValidationResult)
    → is_valid witness ≡ true
    → (w : ValidationResult) × (witness ≡ some w) × (w.valid ≡ true)
valid_some none h = cc
valid_some (some w) h = (w, refl, h)

-- The latest call, after a history that ended in `before`.
module _ (size : ℕ) (start : UnionFind) (q : Request) (older : List Request)
    (before : Maintains size start older) where
  open before use {after as uf, forest, size_kept, classes}

  SameClass-joined : (p : List ℕ) (x y z : ℕ) → SameClass p x y → SameClass p y z → SameClass p x z
  SameClass-joined p x y z (r, a, b) (s, c, d) = (r, a, rw (Root-unique p r s b c) d)

  -- A union after which the classes of `q` are joined.
  module _ (out : UnionFind) (out_forest : IsForest out) (out_size : out.size ≡ uf.size)
      (ok : is_accepted size q ≡ true)
      (joins : (x y : ℕ)
        → x < uf.size
        → y < uf.size
        → SameClass out.parent x y ↔ Joined uf.parent q.left q.right x y) where
    left_in : q.left < size
    left_in = ground arith

    right_in : q.right < size
    right_in = ground arith

    old :
        (x y : ℕ) → x < size → y < size → SameClass uf.parent x y → Equivalent size (q ∷ older) x y
    old x y hx hy d = weaken size q older ((classes x y hx hy).0 d)

    now : Equivalent size (q ∷ older) q.left q.right
    now = asked q (Memᴰ.head refl) ok refl refl

    in_relation :
        (x y : ℕ)
        → x < size
        → y < size
        → Joined uf.parent q.left q.right x y
        → Equivalent size (q ∷ older) x y
    in_relation x y hx hy (inl d) = old x y hx hy d
    in_relation x y hx hy (inr (inl (a, b))) =
        along (old x q.left hx left_in a) (along now (old q.right y right_in hy b))
    in_relation x y hx hy (inr (inr (a, b))) =
        along (old x q.right hx right_in a) (along (back now) (old q.left y left_in hy b))

    itself_after : (x y : ℕ) → x < size → x ≡ y → SameClass out.parent x y
    itself_after x y h e =
        let (r, d) = rooted out x out_forest (rw (out_size, size_kept) h) in (r, d, rw e at d)

    itself_before : (x : ℕ) → x < size → SameClass uf.parent x x
    itself_before x h = let (r, d) = rooted uf x forest (rw size_kept h) in (r, d, d)

    holds_after :
        (a : Request)
        → Memᴰ a (q ∷ older)
        → is_accepted size a ≡ true
        → SameClass out.parent a.left a.right
    holds_after a m good = elim (Memᴰ.cases_cons m) [
      | inl e ↦ rw e (
          (joins q.left q.right (rw size_kept left_in) (rw size_kept right_in)).1
            (inr (inl (itself_before q.left left_in, itself_before q.right right_in))))
      | inr earlier ↦
          let a_left : a.left < size = ground arith in
          let a_right : a.right < size = ground arith in
          (joins a.left a.right (rw size_kept a_left) (rw size_kept a_right)).1
            (inl ((classes a.left a.right a_left a_right).1 (asked a earlier good refl refl)))
    ]

    accepted_classes :
        (x y : ℕ) → x < size → y < size → SameClass out.parent x y ↔ Equivalent size (q ∷ older) x y
    accepted_classes x y hx hy = (
      λ d. in_relation x y hx hy ((joins x y (rw size_kept hx) (rw size_kept hy)).0 d),
      least size (q ∷ older) (SameClass out.parent) itself_after (λ a b (r, d, d'). (r, d', d))
          (SameClass-joined out.parent) holds_after hx,
    )

  -- A refused call leaves the classes as they were.
  refused_classes :
      is_accepted size q ≡ false
      → (x y : ℕ) → x < size
      → y < size
      → SameClass uf.parent x y ↔ Equivalent size (q ∷ older) x y
  refused_classes no_good x y hx hy = (
    λ d. weaken size q older ((classes x y hx hy).0 d),
    least size (q ∷ older) (SameClass uf.parent) itself (λ a b (r, d, d'). (r, d', d))
        (SameClass-joined uf.parent) holds hx,
  )
    where
      itself : (x y : ℕ) → x < size → x ≡ y → SameClass uf.parent x y
      itself x y h e = let (r, d) = rooted uf x forest (rw size_kept h) in (r, d, rw e at d)

      holds :
          (a : Request)
          → Memᴰ a (q ∷ older)
          → is_accepted size a ≡ true
          → SameClass uf.parent a.left a.right
      holds a m good = elim (Memᴰ.cases_cons m) [
        | inl e ↦ cc (rw e at good)
        | inr earlier ↦
            (classes a.left a.right (ground arith) (ground arith)).1
              (asked a earlier good refl refl)
      ]

  step : Maintains size start (q ∷ older)
  unfolding replay
  step = elim (Bool-cases (is_accepted size q)) [
    | inl ok ↦
        let (w, e, good) = valid_some q.witness (ground arith) in
        let (out, returns, out_forest, out_size, joins) =
          union_validated-classes uf q.left q.right w forest good (ground arith) (ground arith) in
        record {
          after = out;
          returns = rw (before.returns, e, returns) refl;
          forest = out_forest;
          size_kept = out_size ∙ size_kept;
          classes = accepted_classes out out_forest out_size ok joins;
        }
    | inr no_good ↦ record {
      after = uf;
      returns =
          rw (before.returns, union_validated_refused uf q.left q.right q.witness (ground arith))
            refl;
      forest = forest;
      size_kept = size_kept;
      classes = refused_classes no_good;
    }
  ]

-- After any history of calls of validated union, accepted or refused, on an initialised
-- structure with arrays of 256 entries and at most 256 elements, every call has returned, and
-- two elements are in one class exactly when the accepted pairs make them equivalent.
pub replay-Maintains :
    (uf : UnionFind) (size : ℕ) (qs : List Request)
    → length uf.parent ≡ 256
    → length uf.rank ≡ 256
    → size ≤ 256
    → Maintains size (init uf size) qs
replay-Maintains uf size [] parents ranks capacity = record {
  after = init uf size;
  returns = unfold replay in refl;
  forest = init-IsForest uf size parents ranks capacity;
  size_kept = size-init uf size parents ranks capacity;
  classes = λ x y hx hy. (
    λ d. same ((init-SameClass uf size parents ranks capacity x y hx hy).0 d),
    λ d. (init-SameClass uf size parents ranks capacity x y hx hy).1 (
        least size [] ◌≡◌ (λ a b _ e. e) (λ a b e. sym e) (λ a b c e e'. e ∙ e')
          (λ q m _. absurd (Memᴰ.not-nil m)) hx d),
  );
}
replay-Maintains uf size (q ∷ older) parents ranks capacity =
    step size (init uf size) q older (replay-Maintains uf size older parents ranks capacity)
