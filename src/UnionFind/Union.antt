-- ===== src/UnionFind/Union.antt =====
-- `omi_union_validated` on a forest: union by rank keeps the forest, and joins exactly the two
-- classes.
use omino.Prelude.{ℕ, ◌+◌, ◌≤◌, ◌<◌}
use omino.Prelude.{◌≡◌, refl, sym, ap, ◌∙◌, ◌≢◌, ◌⊎◌, inl, inr, arith}
use omino.Prelude.{false, List}
use omino.Prelude.{ltb, ◌==◌, if◌then◌else◌, ==_iff, Bool-cases}
use omino.Prelude.{u32, length}
use omino.Prelude.{length-set, get_or-set_self, get_or-set_ne, ltb→lt}
use omino.Prelude.{set as write}
use native.Mathlib.Decide.{ℕ_discrete}
use omino.UnionFind.{UnionFind, at, link}
use omino.UnionFind.Forest.{Root, stop, up, IsForest}
use omino.UnionFind.Forest.{at-write, roots_fall, rank-le_size}

-- Two elements are in one class.
abbrev pub SameClass : List ℕ → ℕ → ℕ → Type 0
SameClass p x y = (r : ℕ) × Root p r x × Root p r y

-- The classes once those of `l` and `r` are joined.
abbrev pub Joined : List ℕ → ℕ → ℕ → ℕ → ℕ → Type 0
Joined p l r x y =
    SameClass p x y ⊎ (SameClass p x l × SameClass p r y ⊎ SameClass p x r × SameClass p l y)

-- Pointing the root `w` at the root `t`.
module _ (p : List ℕ) (w t : ℕ) (in_array : w < length p) (top_w : at p w ≡ w) (top_t : at p t ≡ t)
    (apart : w ≢ t) where
  moved : {y : ℕ} → Root p w y → Root (write p w t) t y
  moved (stop e _) = rw e (
      up (rw (get_or-set_self p w t 0 in_array) (λ q. apart (sym q))) (
        rw (get_or-set_self p w t 0 in_array)
          (stop refl (rw (get_or-set_ne p w t t 0 apart) top_t))))
  moved (up {x = y} ne d) =
      let other : w ≢ y = λ e. ne (rw (← e) top_w) in
      up (rw (get_or-set_ne p w y t 0 other) ne) (rw (get_or-set_ne p w y t 0 other) (moved d))

  stays : (s : ℕ) → s ≢ w → {y : ℕ} → Root p s y → Root (write p w t) s y
  stays s ne (stop e top) = stop e (rw (get_or-set_ne p w s t 0 (λ q. ne (sym q))) top)
  stays s ne (up {x = y} away d) =
      let other : w ≢ y = λ e. away (rw (← e) top_w) in
      up (rw (get_or-set_ne p w y t 0 other) away)
        (rw (get_or-set_ne p w y t 0 other) (stays s ne d))

  linked : (s y : ℕ) → Root p s y → Root (write p w t) (if s == w then t else s) y
  linked s y d = elim (ℕ_discrete s w) [
    | yes e ↦ rw e (rw ((==_iff w w).1 refl) (moved (rw e at d)))
    | no ne ↦ rw (differ_test s w ne) (stays s ne d)
  ]
    where
      differ_test : (a b : ℕ) → a ≢ b → (a == b) ≡ false
      differ_test a b ne = ground arith

-- A link keeps a forest, if the ranks `ranks'` change at most by one more for the winner, and the
-- winner ends up above the loser.
module _ (uf : UnionFind) (f : IsForest uf) (w t : ℕ) (hw : w < uf.size) (ht : t < uf.size)
    (top_w : at uf.parent w ≡ w) (top_t : at uf.parent t ≡ t) (apart : w ≢ t) where
  link-IsForest :
      (ranks' : List ℕ)
      → length ranks' ≡ 256
      → ((i : ℕ) → i ≢ t → at ranks' i ≡ at uf.rank i)
      → at uf.rank t ≤ at ranks' t
      → at ranks' t ≤ at uf.rank t + 1
      → at uf.rank w < at ranks' t
      → IsForest (record uf { parent = write uf.parent w t; rank = ranks' })
  link-IsForest ranks' len others grows by_one above = record {
    parents = rw length-set f.parents;
    ranks = len;
    capacity = f.capacity;
    in_range = λ i lt. ground (arith, at-write uf.parent w i t in_array, f.in_range i lt);
    rises = climbs;
    ranked = λ i lt. ground (
      arith,
      f.ranked i lt,
      others i,
      ℕ_discrete i t,
      roots_fall uf.size uf.parent w t in_array top_w,
    );
  }
    where
      in_array : w < length uf.parent
      in_array = omega (arith, f.parents, f.capacity)

      higher : (j : ℕ) → at uf.rank j ≤ at ranks' j
      higher j = ground (arith, others j, ℕ_discrete j t)

      climbs :
          (i : ℕ)
          → i < uf.size
          → at (write uf.parent w t) i ≢ i
          → at ranks' i < at ranks' (at (write uf.parent w t) i)
      climbs i lt away = elim (ℕ_discrete w i) [
        | yes e ↦ rw (← e, get_or-set_self uf.parent w t 0 in_array) (omega (arith, others w apart))
        | no ne ↦
            let kept = get_or-set_ne uf.parent w i t 0 ne in
            let moves : at uf.parent i ≢ i = λ q. away (kept ∙ q) in
            let below_top : i ≢ t = λ q. moves (ap (at uf.parent) q ∙ top_t ∙ sym q) in
            rw kept (omega (arith, others i below_top, f.rises i lt moves, higher (at uf.parent i)))
      ]

-- What one link of two roots `a` and `b` leads to: `w` is the one that is no root any more.
pub record Linked (uf : UnionFind) (a b : ℕ) (out : UnionFind) : Type 0 where
  pub loser : ℕ
  pub winner : ℕ
  pub sides : ((loser ≡ a) × (winner ≡ b)) ⊎ ((loser ≡ b) × (winner ≡ a))
  pub forest : IsForest out
  pub size_kept : out.size ≡ uf.size
  pub moves : (s y : ℕ) → Root uf.parent s y → Root out.parent (if s == loser then winner else s) y

pub link_lem :
    (uf : UnionFind) (a b : ℕ)
    → IsForest uf
    → a < uf.size
    → b < uf.size
    → at uf.parent a ≡ a
    → at uf.parent b ≡ b
    → a ≢ b
    → Linked uf a b (link uf a b)
unfolding link
link_lem uf a b f ha hb ta tb apart = elim (Bool-cases (ltb (at uf.rank a) (at uf.rank b))) [
  | inl left ↦ rw left (record {
    loser = a;
    winner = b;
    sides = inl (refl, refl);
    forest =
        link-IsForest uf f a b ha hb ta tb apart uf.rank f.ranks (λ i _. refl) (omega arith)
          (omega arith) (ltb→lt _ _ left);
    size_kept = refl;
    moves = linked uf.parent a b in_a ta tb apart;
  })
  | inr not_left ↦ elim (Bool-cases (ltb (at uf.rank b) (at uf.rank a))) [
    | inl right ↦
        rw (not_left, right)
          (record {
            loser = b;
            winner = a;
            sides = inr (refl, refl);
            forest =
                link-IsForest uf f b a hb ha tb ta back uf.rank f.ranks (λ i _. refl) (omega arith)
                  (omega arith) (ltb→lt _ _ right);
            size_kept = refl;
            moves = linked uf.parent b a in_b tb ta back;
          })
    | inr not_right ↦
        rw (not_left, not_right)
          (record {
            loser = b;
            winner = a;
            sides = inr (refl, refl);
            forest =
                link-IsForest uf f b a hb ha tb ta back (write uf.rank a (u32 (at uf.rank a + 1)))
                  (rw length-set f.ranks) (λ i ne. get_or-set_ne uf.rank a i _ 0 (λ q. ne (sym q)))
                  (rw bumped (omega arith)) (rw bumped (omega arith)) (rw bumped (ground arith));
            size_kept = refl;
            moves = linked uf.parent b a in_b tb ta back;
          })
  ]
]
  where
    back : b ≢ a
    back e = apart (sym e)

    in_a : a < length uf.parent
    in_a = omega (arith, f.parents, f.capacity)

    in_b : b < length uf.parent
    in_b = omega (arith, f.parents, f.capacity)

    bumped : at (write uf.rank a (u32 (at uf.rank a + 1))) a ≡ at uf.rank a + 1
    bumped =
        get_or-set_self uf.rank a _ 0 (omega (arith, f.ranks, f.capacity))
        ∙ omega (arith, rank-le_size uf a f ha, f.capacity)
