-- ===== src/Export.antt =====
-- The binary exports, examples/compiler/binary_export_verifier.c. A null image is `none`.
pub mod Compare
pub mod Compiled
use omino.Prelude.{ℕ, zero, suc, ◌+◌, ◌*◌, bit_and, bit_xor}
use omino.Prelude.{◌≡◌, refl}
use omino.Prelude.{true, not, ◌||◌, Option, none, some, List, [], ◌∷◌}
use omino.Prelude.{ltb, ◌==◌, if◌then◌else◌, ==_iff}
use omino.Prelude.{u8, u32, ◌<<<◌, ◌>>>◌, get_or, replicate}

pub data ExportStatus : Type 0 where
  export_ok invalid_image length_mismatch byte_mismatch hash_mismatch : ExportStatus

pub record BinaryExportImage : Type 0 where
  pub binary_data : List ℕ
  pub stream_length : ℕ
  pub signature_hash : ℕ

-- The loop over the first `len` bytes.
unfoldable pub fnv1a32_from : ℕ → List ℕ → ℕ → ℕ
fnv1a32_from hash [] len = hash
fnv1a32_from hash (byte ∷ bytes) zero = hash
fnv1a32_from hash (byte ∷ bytes) (suc len) =
    fnv1a32_from (u32 (bit_xor hash byte * 16777619)) bytes len

unfoldable pub fnv1a32 : List ℕ → ℕ → ℕ
fnv1a32 bytes len = fnv1a32_from 2166136261 bytes len

-- Twelve bytes, and the zeros of the rest of the buffer.
unfoldable pub compiled_bytes : ℕ → List ℕ
compiled_bytes linear_root =
    0xF8
    ∷ 0x00
    ∷ 0x1C
    ∷ 0x1D
    ∷ 0x1E
    ∷ 0x1F
    ∷ 0x20
    ∷ 0xF8
    ∷ u8 (bit_and (linear_root >>> 24) 0xFF)
    ∷ u8 (bit_and (linear_root >>> 16) 0xFF)
    ∷ u8 (bit_and (linear_root >>> 8) 0xFF)
    ∷ u8 (bit_and linear_root 0xFF)
    ∷ replicate 52 0

unfoldable pub meta_compile_to_eal : ℕ → ℕ → BinaryExportImage
meta_compile_to_eal x_omi y_imo =
    let linear_root = u32 (u32 (x_omi <<< 2) + u32 (y_imo <<< 1)) in
    record {
      binary_data = compiled_bytes linear_root;
      stream_length = 12;
      signature_hash = fnv1a32 (compiled_bytes linear_root) 12;
    }

unfoldable pub meta_compile_to_first_form : BinaryExportImage
meta_compile_to_first_form = meta_compile_to_eal 0 0

-- The loop at `i`: the status, and the index written.
unfoldable pub compare_from : ℕ → ℕ → List ℕ → List ℕ → ExportStatus × ℕ
compare_from zero i a b = (export_ok, i)
compare_from (suc left) i a b =
    let rest = compare_from left (i + 1) a b in
    if not (get_or a i 0 == get_or b i 0) then (byte_mismatch, i) else rest

-- The status, and the index when it is written.
unfoldable pub binary_export_compare :
    Option BinaryExportImage → Option BinaryExportImage → ExportStatus × Option ℕ
binary_export_compare (some a) (some b) =
    if ltb 64 a.stream_length || ltb 64 b.stream_length
    then (invalid_image, none)
    else if not (a.stream_length == b.stream_length)
    then (length_mismatch, none)
    else if not (a.signature_hash == b.signature_hash)
    then (hash_mismatch, none)
    else let (status, index) = compare_from a.stream_length 0 a.binary_data b.binary_data in
      (status, some index)
binary_export_compare _ _ = (invalid_image, none)

compare_from_self : (left i : ℕ) (a : List ℕ) → (compare_from left i a a).0 ≡ export_ok
unfolding compare_from
compare_from_self zero i a = refl
compare_from_self (suc left) i a =
    let same : (get_or a i 0 == get_or a i 0) ≡ true = (==_iff _ _).1 refl in
    rw same (compare_from_self left (i + 1) a)
