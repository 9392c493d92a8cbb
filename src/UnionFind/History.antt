-- ===== src/UnionFind/History.antt =====
-- Histories of calls of `omi_union_validated`, and the equivalence that a history asks for.
use omino.Prelude.{ℕ, ◌<◌}
use omino.Prelude.{◌≡◌, ◌↔◌, arith}
use omino.Prelude.{Bool, true, ◌&&◌, Option, some, List, [], ◌∷◌}
use omino.Prelude.{ltb}
use mathlib.Core.List.{Memᴰ}
use omino.Prelude.{◌>>=◌}
use omino.UnionFind.{UnionFind, ValidationResult, union_validated, is_valid}
use omino.UnionFind.Forest.{IsForest}
use omino.UnionFind.Union.{SameClass}

-- One call of `omi_union_validated`.
pub record Request : Type 0 where
  pub left : ℕ
  pub right : ℕ
  pub witness : Option ValidationResult

-- The guards of the call pass.
abbrev pub is_accepted : ℕ → Request → Bool
is_accepted size q = is_valid q.witness && ltb q.left size && ltb q.right size

-- The state after a history of calls, the latest one first.
unfoldable pub replay : UnionFind → List Request → Option UnionFind
replay uf [] = some uf
replay uf (q ∷ older) = do
  before ← replay uf older
  (after, _) ← union_validated before q.left q.right q.witness
  some after

-- The least equivalence that holds the accepted pairs.
pub data Equivalent (size : ℕ) (qs : List Request) : ℕ → ℕ → Type 0 where
  asked :
      {x y : ℕ} (q : Request)
      → Memᴰ q qs
      → is_accepted size q ≡ true
      → x ≡ q.left
      → y ≡ q.right
      → Equivalent size qs x y
  same : {x y : ℕ} → x ≡ y → Equivalent size qs x y
  back : {x y : ℕ} → Equivalent size qs x y → Equivalent size qs y x
  along : {x y z : ℕ} → Equivalent size qs x y → Equivalent size qs y z → Equivalent size qs x z

pub weaken :
    (size : ℕ) (q : Request) (qs : List Request) {x y : ℕ}
    → Equivalent size qs x y
    → Equivalent size (q ∷ qs) x y
weaken size q qs (asked a m ok ex ey) = asked a (Memᴰ.tail m) ok ex ey
weaken size q qs (same e) = same e
weaken size q qs (back d) = back (weaken size q qs d)
weaken size q qs (along d d') = along (weaken size q qs d) (weaken size q qs d')

-- Equivalent elements are both in use, or neither is.
both_in_use :
    (size : ℕ) (qs : List Request) {x y : ℕ} → Equivalent size qs x y → (x < size) ↔ (y < size)
both_in_use size qs (asked q m ok ex ey) = ground arith
both_in_use size qs (same e) = ground arith
both_in_use size qs (back d) = ground (arith, both_in_use size qs d)
both_in_use size qs (along d d') = ground (arith, both_in_use size qs d, both_in_use size qs d')

-- The relation `Same` is an equivalence on the elements in use, and holds each accepted pair.
module _ (size : ℕ) (qs : List Request) (Same : ℕ → ℕ → Type 0)
    (itself : (x y : ℕ) → x < size → x ≡ y → Same x y) (turned : (x y : ℕ) → Same x y → Same y x)
    (joined : (x y z : ℕ) → Same x y → Same y z → Same x z)
    (holds : (q : Request) → Memᴰ q qs → is_accepted size q ≡ true → Same q.left q.right) where
  pub least : {x y : ℕ} → x < size → Equivalent size qs x y → Same x y
  least h (asked q m ok ex ey) = rw (ex, ey) (holds q m ok)
  least h (same e) = itself _ _ h e
  least h (back {x} {y} d) = turned _ _ (least ((both_in_use size qs d).1 h) d)
  least h (along {x} {y} {z} d d') =
      joined x y z (least h d) (least ((both_in_use size qs d).0 h) d')

-- What holds of the state after a history.
pub record Maintains (size : ℕ) (start : UnionFind) (qs : List Request) : Type 0 where
  pub after : UnionFind
  pub returns : replay start qs ≡ some after
  pub forest : IsForest after
  pub size_kept : after.size ≡ size
  pub classes :
      (x y : ℕ) → x < size → y < size → SameClass after.parent x y ↔ Equivalent size qs x y
