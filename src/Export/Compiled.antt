-- ===== src/Export/Compiled.antt =====
-- Which compiled images the comparison takes for the same.
use omino.Prelude.{ℕ, ◌+◌, ◌*◌, ◌^◌, ◌<◌, bit_and}
use omino.Prelude.{◌≡◌, refl, ap, ◌↔◌, arith}
use omino.Prelude.{some}
use omino.Prelude.{u8, u32, ◌<<<◌, ◌>>>◌, get_or}
use omino.Prelude.Bits.Fields.{bit_and-mod}
use omino.Export.{
  export_ok, binary_export_compare, meta_compile_to_eal, meta_compile_to_first_form, compiled_bytes,
  fnv1a32,
}
use omino.Export.Compare.{binary_export_compare_iff}

-- The word that is compiled.
linear_root :
    (x y : ℕ) → x < 2 ^ 16 → y < 2 ^ 16 → u32 (u32 (x <<< 2) + u32 (y <<< 1)) ≡ 4 * x + 2 * y
linear_root x y hx hy = omega arith

compiled_root :
    (m n : ℕ)
    → m < 2 ^ 32
    → n < 2 ^ 32
    → ((k : ℕ) → k < 12 → get_or (compiled_bytes m) k 0 ≡ get_or (compiled_bytes n) k 0)
    → m ≡ n
unfolding compiled_bytes
compiled_root m n hm hn same =
    let a : u8 (bit_and (m >>> 24) 0xFF) ≡ u8 (bit_and (n >>> 24) 0xFF) = same 8 (omega arith) in
    let b : u8 (bit_and (m >>> 16) 0xFF) ≡ u8 (bit_and (n >>> 16) 0xFF) = same 9 (omega arith) in
    let c : u8 (bit_and (m >>> 8) 0xFF) ≡ u8 (bit_and (n >>> 8) 0xFF) = same 10 (omega arith) in
    let d : u8 (bit_and m 0xFF) ≡ u8 (bit_and n 0xFF) = same 11 (omega arith) in
    omega (
      arith,
      a,
      b,
      c,
      d,
      bit_and-mod 8 (m >>> 24),
      bit_and-mod 8 (n >>> 24),
      bit_and-mod 8 (m >>> 16),
      bit_and-mod 8 (n >>> 16),
      bit_and-mod 8 (m >>> 8),
      bit_and-mod 8 (n >>> 8),
      bit_and-mod 8 m,
      bit_and-mod 8 n,
    )

same_image_iff :
    (x y x' y' : ℕ)
    → x < 2 ^ 16
    → y < 2 ^ 16
    → x' < 2 ^ 16
    → y' < 2 ^ 16
    → ((binary_export_compare (some (meta_compile_to_eal x y)) (some (meta_compile_to_eal x' y'))).0
        ≡ export_ok)
      ↔ (2 * x + y ≡ 2 * x' + y')
unfolding meta_compile_to_eal
same_image_iff x y x' y' hx hy hx' hy' =
    let a = meta_compile_to_eal x y in
    let b = meta_compile_to_eal x' y' in
    let (decides, _) = binary_export_compare_iff a b in
    let r = linear_root x y hx hy in
    let r' = linear_root x' y' hx' hy' in
    (
      λ ok.
          (let c = decides.0 ok in
            let same =
              compiled_root (u32 (u32 (x <<< 2) + u32 (y <<< 1)))
                (u32 (u32 (x' <<< 2) + u32 (y' <<< 1))) (omega arith) (omega arith)
                (λ k h. c.bytes k (omega arith) (omega arith)) in
            omega (arith, same, r, r')),
      λ e.
          let same : u32 (u32 (x <<< 2) + u32 (y <<< 1)) ≡ u32 (u32 (x' <<< 2) + u32 (y' <<< 1)) =
            omega arith in
          decides.1 record {
            short = (omega arith, omega arith);
            lengths = refl;
            hashes = ap (λ (n : ℕ). fnv1a32 (compiled_bytes n) 12) same;
            bytes = λ k _ _. ap (λ (n : ℕ). get_or (compiled_bytes n) k 0) same;
          },
    )

-- The images compiled from two pairs of 16-bit coordinates compare equal exactly when 2 x + y is
-- the same for both pairs; with the first form an image compares equal at the centroid only.
pub meta_compile_to_eal-compare :
    (x y x' y' : ℕ)
    → x < 2 ^ 16
    → y < 2 ^ 16
    → x' < 2 ^ 16
    → y' < 2 ^ 16
    → let image = meta_compile_to_eal x y in
      (((binary_export_compare (some image) (some (meta_compile_to_eal x' y'))).0 ≡ export_ok)
        ↔ (2 * x + y ≡ 2 * x' + y'))
      × (((binary_export_compare (some image) (some meta_compile_to_first_form)).0 ≡ export_ok)
          ↔ ((x ≡ 0) × (y ≡ 0)))
unfolding meta_compile_to_first_form
meta_compile_to_eal-compare x y x' y' hx hy hx' hy' =
    let (to_root, from_root) = same_image_iff x y 0 0 hx hy (omega arith) (omega arith) in
    (
      same_image_iff x y x' y' hx hy hx' hy',
      (λ ok. (let e = to_root ok in (omega arith, omega arith)), λ (a, b). from_root (omega arith)),
    )
