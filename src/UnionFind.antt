-- ===== src/UnionFind.antt =====
-- The validated union-find, section 3 of src/omnicron-coproduct-partition.c. The two arrays have a
-- fixed capacity, and `size` of their entries are in use. A `while` loop takes fuel: `none` means
-- that it ran out, which `Find` shows does not happen to a forest.
pub mod Forest
pub mod Find
pub mod Union
pub mod Classes
pub mod Init
pub mod History
pub mod Closure
use omino.Prelude.{ℕ, zero, suc, ◌+◌, ◌-◌, ◌*◌, ◌/◌, ◌%◌, ◌^◌, ◌≤◌, ◌<◌, bit_and, bit_or, bit_xor}
use omino.Prelude.{◌≡◌, refl, sym, ap, ap₂, ◌∙◌, ◌≢◌, ◌↔◌, ◌⊎◌, inl, inr, arith}
use omino.Prelude.{Bool, true, false, not, ◌&&◌, ◌||◌, Option, none, some, List, [], ◌∷◌, ◌++◌, map}
use omino.Prelude.{
  ltb, leb, ◌==◌, if◌then◌else◌, ==_iff, Bool-cases, Bool-ext, all_below, all_below_sound,
  all_below_sound₂,
}
use omino.Prelude.{u8, u16, u32, u64, ◌<<<◌, ◌>>>◌, length, get_or, take, drop, replicate}
use omino.Prelude.{
  length-set, get_or-set_self, get_or-set_ne, get_or_ext, length-replicate, get_or-replicate,
  length-append, ltb→lt, lt→ltb,
}
use omino.Prelude.{set as write, ◌>>=◌}

pub record UnionFind : Type 0 where
  pub parent : List ℕ
  pub rank : List ℕ
  pub size : ℕ

pub data ValidationReason : Type 0 where
  none_given resolved_match scope_mismatch scope_out_of_range resolver_mismatch no_match :
      ValidationReason

pub record ValidationResult : Type 0 where
  pub valid : Bool
  pub reason : ValidationReason
  pub resolved_left : ℕ
  pub resolved_right : ℕ

abbrev pub max_contributions : ℕ
max_contributions = 256

abbrev pub at : List ℕ → ℕ → ℕ
at xs i = get_or xs i 0

-- The loop of `omi_uf_init` at `i`, with `left` rounds to go.
unfoldable pub init_from : ℕ → ℕ → UnionFind → UnionFind
init_from zero i uf = uf
init_from (suc left) i uf =
    init_from left (i + 1) (record uf { parent = write uf.parent i i; rank = write uf.rank i 0 })

unfoldable pub init : UnionFind → ℕ → UnionFind
unfolding init_from
init uf size = init_from size 0 (record uf { size = size })

-- `while (parent[root] != root) root = parent[root];`
unfoldable pub climb : ℕ → List ℕ → ℕ → Option ℕ
climb zero parent root = none
climb (suc fuel) parent root =
    let above = climb fuel parent (at parent root) in
    if at parent root == root then some root else above

-- The second loop of `omi_find`, which points what it passes to the root.
unfoldable pub compress : ℕ → List ℕ → ℕ → ℕ → Option (List ℕ)
compress zero parent root element = none
compress (suc fuel) parent root element =
    let rest = compress fuel (write parent element root) root (at parent element) in
    if at parent element == root then some parent else rest

-- One more than the capacity: a chain of parents visits no entry twice.
abbrev pub find_fuel : ℕ
find_fuel = 257

unfoldable pub find : UnionFind → ℕ → Option (UnionFind × ℕ)
unfolding climb compress
find uf element = do
  root ← climb find_fuel uf.parent element
  parent ← compress find_fuel uf.parent root element
  some (record uf { parent = parent }, root)

-- Union by rank of two distinct roots.
unfoldable pub link : UnionFind → ℕ → ℕ → UnionFind
link uf root_l root_r =
    if ltb (at uf.rank root_l) (at uf.rank root_r)
    then record uf { parent = write uf.parent root_l root_r }
    else if ltb (at uf.rank root_r) (at uf.rank root_l)
    then record uf { parent = write uf.parent root_r root_l }
    else record uf {
      parent = write uf.parent root_r root_l;
      rank = write uf.rank root_l (u32 (at uf.rank root_l + 1));
    }

-- What `omi_union_validated` does once its guards have passed.
unfoldable pub unite : UnionFind → ℕ → ℕ → Option (UnionFind × Bool)
unite uf left right = do
  (uf₁, root_l) ← find uf left
  (uf₂, root_r) ← find uf₁ right
  some (if root_l == root_r then (uf₂, true) else (link uf₂ root_l root_r, true))

abbrev pub is_valid : Option ValidationResult → Bool
is_valid none = false
is_valid (some witness) = witness.valid

-- The Boolean is the C result; a null witness is `none`.
unfoldable pub union_validated :
    UnionFind → ℕ → ℕ → Option ValidationResult → Option (UnionFind × Bool)
union_validated uf left right witness =
    if not (is_valid witness)
    then some (uf, false)
    else if leb uf.size left || leb uf.size right
    then some (uf, false)
    else unite uf left right
