-- ===== src/Boot/Envelope.antt =====
-- Boot envelopes, as bytes: an independent writer, and the parser on what it writes.
use omino.Prelude.{ℕ, suc, ◌+◌, ◌*◌, ◌/◌, ◌%◌, ◌^◌, ◌<◌, bit_or}
use omino.Prelude.{◌≡◌, refl, sym, ap, ap₂, ◌∙◌, arith}
use omino.Prelude.{true, some, List, [], ◌∷◌, ◌++◌}
use omino.Prelude.{◌==◌, ==_iff}
use omino.Prelude.{u16, u32, ◌<<<◌, length, get_or}
use omino.Prelude.Bits.Fields.{bit_or-add}
use mathlib.Core.Path.{subst}
use omino.Boot.{
  boot_ok, BootstrapFrame, gauge_preheader, read_u16_be, read_u32_be, starts_with, four_scopes,
  envelope_parse,
}

-- The bytes of a word, the highest one first.
abbrev pub bytes16 : ℕ → List ℕ
bytes16 w = w / 256 ∷ w % 256 ∷ []

abbrev pub bytes32 : ℕ → List ℕ
bytes32 w = w / 2 ^ 24 ∷ w / 2 ^ 16 % 256 ∷ w / 2 ^ 8 % 256 ∷ w % 256 ∷ []

abbrev pub scope_bytes : List ℕ → List ℕ
scope_bytes [] = []
scope_bytes (w ∷ ws) = w / 256 ∷ w % 256 ∷ scope_bytes ws

abbrev pub frame_bytes : BootstrapFrame → List ℕ
frame_bytes f =
    scope_bytes f.active_scopes
    ++ (scope_bytes f.carrier_scopes
        ++ (bytes32 f.register_flags
            ++ (bytes32 f.stack_context ++ (bytes32 f.car_pointer ++ bytes32 f.cdr_pointer))))

-- The 24 bytes between the preheader and the frame are not read.
abbrev pub envelope : List ℕ → BootstrapFrame → List ℕ
envelope between f = (gauge_preheader ++ between) ++ frame_bytes f

unfoldable pub AreScopes : List ℕ → Type 0
AreScopes ws = (length ws ≡ 4) × ((i : ℕ) → get_or ws i 0 < 2 ^ 16)

pub record IsFrame (f : BootstrapFrame) : Type 0 where
  pub active : AreScopes f.active_scopes
  pub carrier : AreScopes f.carrier_scopes
  pub flags : f.register_flags < 2 ^ 32
  pub context : f.stack_context < 2 ^ 32
  pub car : f.car_pointer < 2 ^ 32
  pub cdr : f.cdr_pointer < 2 ^ 32

starts_with-append : (prefix rest : List ℕ) → starts_with (prefix ++ rest) prefix ≡ true
unfolding starts_with
starts_with-append [] rest = refl
starts_with-append (p ∷ ps) rest =
    let same : (p == p) ≡ true = (==_iff p p).1 refl in rw same (starts_with-append ps rest)

get_or-skip :
    (prefix rest : List ℕ) (k : ℕ) → get_or (prefix ++ rest) (length prefix + k) 0 ≡ get_or rest k 0
get_or-skip [] rest k = ap (λ (n : ℕ). get_or rest n 0) (omega arith)
get_or-skip (p ∷ ps) rest k =
    ap (λ (n : ℕ). get_or (p ∷ ps ++ rest) n 0) {y = suc (length ps + k)} (omega arith)
    ∙ get_or-skip ps rest k

join16 : (w : ℕ) → w < 2 ^ 16 → u16 (bit_or (u16 (w / 256) <<< 8) (w % 256)) ≡ w
join16 w h = rw (bit_or-add 8 (u16 (w / 256)) (w % 256) (omega arith)) (omega arith)

-- The low field of a word whose high field is aligned.
join : (k q x r : ℕ) → x ≡ q * 2 ^ k → r < 2 ^ k → bit_or x r ≡ x + r
join k q x r e h = rw e (bit_or-add k q r h)

join32 :
    (w : ℕ)
    → w < 2 ^ 32
    → bit_or
        (bit_or
          (bit_or (u32 ((w / 2 ^ 24) <<< 24)) (u32 ((w / 2 ^ 16 % 256) <<< 16)))
          (u32 ((w / 2 ^ 8 % 256) <<< 8)))
        (w % 256)
      ≡ w
join32 w h =
    let a = u32 ((w / 2 ^ 24) <<< 24) in
    let b = u32 ((w / 2 ^ 16 % 256) <<< 16) in
    let c = u32 ((w / 2 ^ 8 % 256) <<< 8) in
    let first : bit_or a b ≡ a + b = join 24 (w / 2 ^ 24) a b (omega arith) (omega arith) in
    let second : bit_or (a + b) c ≡ a + b + c =
      join 16 (w / 2 ^ 16) (a + b) c (omega arith) (omega arith) in
    let third : bit_or (a + b + c) (w % 256) ≡ a + b + c + w % 256 =
      join 8 (w / 2 ^ 8) (a + b + c) (w % 256) (omega arith) (omega arith) in
    rw (first, second, third) (omega arith)

-- Reading behind the first 32 bytes.
module _ (before rest : List ℕ) (half : length before ≡ 32) where
  at_rest : (k : ℕ) → get_or (before ++ rest) (32 + k) 0 ≡ get_or rest k 0
  at_rest k =
      ap (λ (n : ℕ). get_or (before ++ rest) (n + k) 0) (sym half) ∙ get_or-skip before rest k

  read_u16_be-skip : (k : ℕ) → read_u16_be (before ++ rest) (32 + k) ≡ read_u16_be rest k
  unfolding read_u16_be
  read_u16_be-skip k =
      let shifted : 32 + k + 1 ≡ 32 + (k + 1) = omega arith in
      rw (shifted, at_rest k, at_rest (k + 1)) refl

  read_u32_be-skip : (k : ℕ) → read_u32_be (before ++ rest) (32 + k) ≡ read_u32_be rest k
  unfolding read_u32_be
  read_u32_be-skip k =
      let one : 32 + k + 1 ≡ 32 + (k + 1) = omega arith in
      let two : 32 + k + 2 ≡ 32 + (k + 2) = omega arith in
      let three : 32 + k + 3 ≡ 32 + (k + 3) = omega arith in
      rw (one, two, three, at_rest k, at_rest (k + 1), at_rest (k + 2), at_rest (k + 3)) refl

  word_at :
      (k w : ℕ)
      → get_or rest k 0 ≡ w / 256
      → get_or rest (k + 1) 0 ≡ w % 256
      → w < 2 ^ 16
      → read_u16_be (before ++ rest) (32 + k) ≡ w
  unfolding read_u16_be
  word_at k w high low h = read_u16_be-skip k ∙ rw (high, low) (join16 w h)

  long_at :
      (k w : ℕ)
      → get_or rest k 0 ≡ w / 2 ^ 24
      → get_or rest (k + 1) 0 ≡ w / 2 ^ 16 % 256
      → get_or rest (k + 2) 0 ≡ w / 2 ^ 8 % 256
      → get_or rest (k + 3) 0 ≡ w % 256
      → w < 2 ^ 32
      → read_u32_be (before ++ rest) (32 + k) ≡ w
  unfolding read_u32_be
  long_at k w a b c d h = read_u32_be-skip k ∙ rw (a, b, c, d) (join32 w h)

-- The fields of a frame, its scopes written out.
fields_parsed :
    (between : List ℕ) (a₀ a₁ a₂ a₃ c₀ c₁ c₂ c₃ flags context car cdr : ℕ)
    → length between ≡ 24
    → let f : BootstrapFrame = record {
      active_scopes = a₀ ∷ a₁ ∷ a₂ ∷ a₃ ∷ [];
      carrier_scopes = c₀ ∷ c₁ ∷ c₂ ∷ c₃ ∷ [];
      register_flags = flags;
      stack_context = context;
      car_pointer = car;
      cdr_pointer = cdr;
    } in
      IsFrame f → envelope_parse (envelope between f) 64 ≡ (boot_ok, some f)
unfolding envelope_parse four_scopes AreScopes
fields_parsed between a₀ a₁ a₂ a₃ c₀ c₁ c₂ c₃ flags context car cdr size ok =
    let f : BootstrapFrame = record {
      active_scopes = a₀ ∷ a₁ ∷ a₂ ∷ a₃ ∷ [];
      carrier_scopes = c₀ ∷ c₁ ∷ c₂ ∷ c₃ ∷ [];
      register_flags = flags;
      stack_context = context;
      car_pointer = car;
      cdr_pointer = cdr;
    } in
    let half : length (gauge_preheader ++ between) ≡ 32 = omega (arith, size) in
    let word = word_at (gauge_preheader ++ between) (frame_bytes f) half in
    let long = long_at (gauge_preheader ++ between) (frame_bytes f) half in
    rw
      (
        starts_with-append gauge_preheader (between ++ frame_bytes f),
        word 0 a₀ refl refl (ok.active.1 0),
        word 2 a₁ refl refl (ok.active.1 1),
        word 4 a₂ refl refl (ok.active.1 2),
        word 6 a₃ refl refl (ok.active.1 3),
        word 8 c₀ refl refl (ok.carrier.1 0),
        word 10 c₁ refl refl (ok.carrier.1 1),
        word 12 c₂ refl refl (ok.carrier.1 2),
        word 14 c₃ refl refl (ok.carrier.1 3),
        long 16 flags refl refl refl refl ok.flags,
        long 20 context refl refl refl refl ok.context,
        long 24 car refl refl refl refl ok.car,
        long 28 cdr refl refl refl refl ok.cdr,
      )
      refl

AreScopes-length : (ws : List ℕ) → AreScopes ws → length ws ≡ 4
unfolding AreScopes
AreScopes-length ws ok = ok.0

four :
    (ws : List ℕ)
    → length ws ≡ 4
    → (a : ℕ) × (b : ℕ) × (c : ℕ) × (d : ℕ) × (ws ≡ a ∷ b ∷ c ∷ d ∷ [])
four [] h = absurd (omega arith)
four (a ∷ []) h = absurd (omega arith)
four (a ∷ b ∷ []) h = absurd (omega arith)
four (a ∷ b ∷ c ∷ []) h = absurd (omega arith)
four (a ∷ b ∷ c ∷ d ∷ []) h = (a, b, c, d, refl)
four (a ∷ b ∷ c ∷ d ∷ e ∷ ws) h = absurd (omega arith)

-- A frame of four and four 16-bit scopes and four 32-bit fields, written big-endian behind the
-- preheader and any 24 bytes, is parsed back from its 64 bytes.
pub envelope_parse-envelope :
    (between : List ℕ) (f : BootstrapFrame)
    → length between ≡ 24
    → IsFrame f
    → envelope_parse (envelope between f) 64 ≡ (boot_ok, some f)
envelope_parse-envelope between f size ok =
    let (a₀, a₁, a₂, a₃, active) =
      four f.active_scopes (AreScopes-length f.active_scopes ok.active) in
    let (c₀, c₁, c₂, c₃, carrier) =
      four f.carrier_scopes (AreScopes-length f.carrier_scopes ok.carrier) in
    let same : f ≡ record f {
      active_scopes = a₀ ∷ a₁ ∷ a₂ ∷ a₃ ∷ [];
      carrier_scopes = c₀ ∷ c₁ ∷ c₂ ∷ c₃ ∷ [];
    } =
      ap₂ (λ (x y : List ℕ). record f { active_scopes = x; carrier_scopes = y }) active carrier in
    subst
      (λ (g : BootstrapFrame).
        IsFrame g → envelope_parse (envelope between g) 64 ≡ (boot_ok, some g))
      (sym same)
      (fields_parsed between a₀ a₁ a₂ a₃ c₀ c₁ c₂ c₃ f.register_flags f.stack_context f.car_pointer
        f.cdr_pointer size)
      ok
