-- ===== src/Cobs.antt =====
-- Byte stuffing as a function of lists, which describes the frames of
-- examples/esp32/esp32_p2p_gossip.c and examples/esp32/esp32_omi_core.c: the bytes are cut at the
-- zeros, and each block goes behind a code, which is its length and one more.
pub mod Buffers
use omino.Prelude.{ℕ, zero, suc, ◌+◌, ◌-◌, ◌*◌, ◌/◌, ◌%◌, ◌^◌, ◌≤◌, ◌<◌, bit_and, bit_or, bit_xor}
use omino.Prelude.{◌≡◌, refl, sym, ap, ap₂, ◌∙◌, ◌≢◌, ◌↔◌, ◌⊎◌, inl, inr, arith}
use omino.Prelude.{Bool, true, false, not, ◌&&◌, ◌||◌, Option, none, some, List, [], ◌∷◌, ◌++◌, map}
use omino.Prelude.{
  ltb, leb, ◌==◌, if◌then◌else◌, ==_iff, Bool-cases, Bool-ext, all_below, all_below_sound,
  all_below_sound₂,
}
use omino.Prelude.{u8, u16, u32, u64, ◌<<<◌, ◌>>>◌, length, get_or, take, drop, replicate}
use omino.Prelude.{
  length-set, get_or-set_self, get_or-set_ne, get_or_ext, length-replicate, get_or-replicate,
  length-append, ltb→lt, lt→ltb,
}
use mathlib.Core.List.{append-nil, append_assoc}

-- The blocks of `bytes`, the first one behind what is `pending`.
unfoldable pub split : List ℕ → List ℕ → List (List ℕ)
split pending [] = pending ∷ []
split pending (byte ∷ bytes) =
    if byte == 0 then pending ∷ split [] bytes else split (pending ++ byte ∷ []) bytes

unfoldable pub stuffed : List (List ℕ) → List ℕ
stuffed [] = []
stuffed (block ∷ blocks) = suc (length block) ∷ (block ++ stuffed blocks)

-- The blocks with a zero between each two.
unfoldable pub joined : List (List ℕ) → List ℕ
joined [] = []
joined (block ∷ []) = block
joined (block ∷ next ∷ blocks) = block ++ (0 ∷ joined (next ∷ blocks))

-- A block holds no zero, and fewer than 254 bytes.
pub data IsBlock : List ℕ → Type 0 where
  empty : IsBlock []
  byte : {b : ℕ} {bs : List ℕ} → b ≢ 0 → IsBlock bs → IsBlock (b ∷ bs)

pub data AreBlocks : List (List ℕ) → Type 0 where
  no_blocks : AreBlocks []
  block_then :
      {b : List ℕ} {bs : List (List ℕ)}
      → IsBlock b
      → length b < 254
      → AreBlocks bs
      → AreBlocks (b ∷ bs)

IsBlock-snoc : {bs : List ℕ} (b : ℕ) → IsBlock bs → b ≢ 0 → IsBlock (bs ++ b ∷ [])
IsBlock-snoc b empty ne = byte ne empty
IsBlock-snoc b (byte h t) ne = byte h (IsBlock-snoc b t ne)

split_cons :
    (pending bytes : List ℕ)
    → (first : List ℕ) × (rest : List (List ℕ)) × (split pending bytes ≡ first ∷ rest)
unfolding split
split_cons pending [] = (pending, [], refl)
split_cons pending (b ∷ bytes) = elim (Bool-cases (b == 0)) [
  | inl zero_byte ↦ (pending, split [] bytes, rw zero_byte refl)
  | inr other ↦
      let (first, rest, e) = split_cons (pending ++ b ∷ []) bytes in (first, rest, rw other e)
]

joined_cons :
    (block first : List ℕ) (rest blocks : List (List ℕ))
    → blocks ≡ first ∷ rest
    → joined (block ∷ blocks) ≡ block ++ (0 ∷ joined blocks)
unfolding joined
joined_cons block first rest blocks e = rw e refl

-- Cutting loses nothing.
pub joined-split : (pending bytes : List ℕ) → joined (split pending bytes) ≡ pending ++ bytes
unfolding split
joined-split pending [] = unfold joined in sym (append-nil pending)
joined-split pending (b ∷ bytes) = elim (Bool-cases (b == 0)) [
  | inl zero_byte ↦
      let (first, rest, e) = split_cons [] bytes in
      rw zero_byte (
        joined_cons pending first rest (split [] bytes) e
        ∙ rw (joined-split [] bytes)
            (ap (λ x. pending ++ (x ∷ bytes)) (sym ((==_iff b 0).0 zero_byte))))
  | inr other ↦
      rw other (joined-split (pending ++ b ∷ []) bytes ∙ append_assoc pending (b ∷ []) bytes)
]

-- Stuffing adds one byte.
pub length-stuffed-split :
    (pending bytes : List ℕ)
    → length (stuffed (split pending bytes)) ≡ length pending + length bytes + 1
unfolding split stuffed
length-stuffed-split pending [] = rw (append-nil pending) (omega arith)
length-stuffed-split pending (b ∷ bytes) = elim (Bool-cases (b == 0)) [
  | inl zero_byte ↦
      rw
        (zero_byte, length-append pending (stuffed (split [] bytes)), length-stuffed-split [] bytes)
        (omega arith)
  | inr other ↦
      rw (other, length-stuffed-split (pending ++ b ∷ []) bytes, length-append pending (b ∷ []))
        (omega arith)
]

pub split-AreBlocks :
    (pending bytes : List ℕ)
    → IsBlock pending
    → length pending + length bytes < 254
    → AreBlocks (split pending bytes)
unfolding split
split-AreBlocks pending [] p h = block_then p (omega arith) no_blocks
split-AreBlocks pending (b ∷ bytes) p h = elim (Bool-cases (b == 0)) [
  | inl zero_byte ↦
      rw zero_byte (block_then p (omega arith) (split-AreBlocks [] bytes empty (omega arith)))
  | inr other ↦ rw other (
      split-AreBlocks (pending ++ b ∷ []) bytes (IsBlock-snoc b p (ground arith))
        (omega (arith, length-append pending (b ∷ []))))
]
