-- ===== src/Boot.antt =====
-- The boot envelope, examples/esp32/omi_boot_envelope.c. A null pointer is not a value of the model.
pub mod Envelope
use omino.Prelude.{ℕ, ◌+◌, ◌*◌, ◌<◌, bit_or}
use omino.Prelude.{◌≡◌, refl, ◌↔◌, ◌⊎◌, inl, inr, arith}
use omino.Prelude.{Bool, true, false, not, ◌&&◌, ◌||◌, Option, none, some, List, [], ◌∷◌}
use omino.Prelude.{ltb, leb, Bool-cases, ◌==◌, if◌then◌else◌, ==_iff, all_below, all_below_sound₂}
use omino.Prelude.{u16, u32, ◌<<<◌, get_or}

pub data BootStatus : Type 0 where
  boot_ok gauge_mismatch bqf_out_of_bounds secure_rejection invalid_boot_argument : BootStatus

pub record BootstrapFrame : Type 0 where
  pub active_scopes : List ℕ
  pub carrier_scopes : List ℕ
  pub register_flags : ℕ
  pub stack_context : ℕ
  pub car_pointer : ℕ
  pub cdr_pointer : ℕ

pub record BootResolution : Type 0 where
  pub address_energy_bqf : ℕ
  pub active_incidence_face : ℕ
  pub is_centroid_core : Bool

abbrev pub gauge_preheader : List ℕ
gauge_preheader = 0xFF ∷ 0x00 ∷ 0x1C ∷ 0x1D ∷ 0x1E ∷ 0x1F ∷ 0x20 ∷ 0xFF ∷ []

abbrev byte : List ℕ → ℕ → ℕ
byte bytes i = get_or bytes i 0

-- The two readers, at an offset of the buffer.
unfoldable pub read_u16_be : List ℕ → ℕ → ℕ
read_u16_be buf at = u16 (bit_or (u16 (byte buf at) <<< 8) (byte buf (at + 1)))

unfoldable pub read_u32_be : List ℕ → ℕ → ℕ
read_u32_be buf at =
    bit_or
      (bit_or (bit_or (u32 (byte buf at <<< 24)) (u32 (byte buf (at + 1) <<< 16)))
        (u32 (byte buf (at + 2) <<< 8)))
      (byte buf (at + 3))

unfoldable pub boot_calculate_bqf : ℕ → ℕ → ℕ
boot_calculate_bqf x y =
    u32 (u32 (u32 (u32 (60 * x) * x) + u32 (u32 (16 * x) * y)) + u32 (u32 (4 * y) * y))

-- `memcmp(buf, prefix, length of prefix) == 0`.
unfoldable pub starts_with : List ℕ → List ℕ → Bool
starts_with buf [] = true
starts_with [] (p ∷ ps) = false
starts_with (b ∷ bs) (p ∷ ps) = b == p && starts_with bs ps

-- The four words of the loop, from offset `at`.
unfoldable pub four_scopes : List ℕ → ℕ → List ℕ
four_scopes buf at =
    read_u16_be buf at
    ∷ read_u16_be buf (at + 2)
    ∷ read_u16_be buf (at + 4)
    ∷ read_u16_be buf (at + 6)
    ∷ []

-- The status, and the frame when it is written.
unfoldable pub envelope_parse : List ℕ → ℕ → BootStatus × Option BootstrapFrame
envelope_parse envelope_buf envelope_len =
    if not (envelope_len == 64)
    then (invalid_boot_argument, none)
    else if not (starts_with envelope_buf gauge_preheader)
    then (gauge_mismatch, none)
    else (
      boot_ok,
      some record {
        active_scopes = four_scopes envelope_buf 32;
        carrier_scopes = four_scopes envelope_buf 40;
        register_flags = read_u32_be envelope_buf 48;
        stack_context = read_u32_be envelope_buf 52;
        car_pointer = read_u32_be envelope_buf 56;
        cdr_pointer = read_u32_be envelope_buf 60;
      },
    )

-- The status, and the resolution when it is written; a rejection comes after the writes.
unfoldable pub resolve_candidate : ℕ → ℕ → ℕ → Bool → BootStatus × Option BootResolution
resolve_candidate incidence_face x y secure_attestation =
    if leb 4 incidence_face || (leb 240 x || leb 4 y) then (bqf_out_of_bounds, none) else (
      (if not secure_attestation then secure_rejection else boot_ok),
      some record {
        address_energy_bqf = boot_calculate_bqf x y;
        active_incidence_face = incidence_face;
        is_centroid_core = x == 0 && y == 0;
      },
    )

abbrev quadratic : ℕ → ℕ → ℕ
quadratic x y = 60 * x * x + 16 * x * y + 4 * y * y

all_exact : all_below 240 (λ x. all_below 4 (λ y. boot_calculate_bqf x y == quadratic x y)) ≡ true
unfolding all_below boot_calculate_bqf
all_exact = refl

bqf_exact : (x y : ℕ) → x < 240 → y < 4 → boot_calculate_bqf x y ≡ quadratic x y
bqf_exact x y hx hy =
    (==_iff _ _).0
      (all_below_sound₂ 240 4 (λ a b. boot_calculate_bqf a b == quadratic a b) x y all_exact hx hy)

abbrev pub InRange : ℕ → ℕ → ℕ → Type 0
InRange face x y = (face < 4) × (x < 240) × (y < 4)

-- A resolution of a candidate, with the quadratic form computed without overflow.
pub record Resolves (face x y : ℕ) (out : BootResolution) : Type 0 where
  pub face_kept : out.active_incidence_face ≡ face
  pub energy : out.address_energy_bqf ≡ 60 * x * x + 16 * x * y + 4 * y * y
  pub centroid : (out.is_centroid_core ≡ true) ↔ (out.address_energy_bqf ≡ 0)

centroid_test : ℕ → ℕ → Bool
centroid_test x y = if x == 0 && y == 0 then quadratic x y == 0 else ltb 0 (quadratic x y)

all_centroid : all_below 240 (λ x. all_below 4 (centroid_test x)) ≡ true
unfolding all_below centroid_test
all_centroid = refl

-- The centroid is the one candidate of energy 0.
no_energy : (x y : ℕ) → x < 240 → y < 4 → ((x == 0 && y == 0) ≡ true) ↔ (quadratic x y ≡ 0)
unfolding centroid_test
no_energy x y hx hy =
    let tested = all_below_sound₂ 240 4 centroid_test x y all_centroid hx hy in
    elim (Bool-cases (x == 0 && y == 0)) [
      | inl here ↦ (λ _. ground arith, λ _. here)
      | inr there ↦ (λ e. cc, λ e. ground arith)
    ]

module _ (face x y : ℕ) (attested : Bool) where
  out_of_range :
      ¬ InRange face x y → resolve_candidate face x y attested ≡ (bqf_out_of_bounds, none)
  unfolding resolve_candidate
  out_of_range outside = elim (Bool-cases (leb 4 face || (leb 240 x || leb 4 y))) [
    | inl refused ↦ rw refused refl
    | inr passed ↦ absurd (outside (ground arith, ground arith, ground arith))
  ]

  in_range :
      InRange face x y
      → (out : BootResolution) × (resolve_candidate face x y attested
          ≡ ((if attested then boot_ok else secure_rejection), some out))
        × Resolves face x y out
  unfolding resolve_candidate
  in_range (hf, hx, hy) =
      let passed : (leb 4 face || (leb 240 x || leb 4 y)) ≡ false = ground arith in
      let exact = bqf_exact x y hx hy in
      let at_zero = no_energy x y hx hy in
      (
        record {
          address_energy_bqf = boot_calculate_bqf x y;
          active_incidence_face = face;
          is_centroid_core = x == 0 && y == 0;
        },
        rw passed (ground arith),
        record { face_kept = refl; energy = exact; centroid = rw exact at_zero },
      )

  InRange-dec : InRange face x y ⊎ ¬ InRange face x y
  InRange-dec = elim (Bool-cases (leb 4 face || (leb 240 x || leb 4 y))) [
    | inl refused ↦ inr λ (hf, hx, hy). ground arith
    | inr passed ↦ inl (ground arith, ground arith, ground arith)
  ]

-- For any face, x and y: the status is success exactly with a face below 4, x below 240, y below
-- 4 and the secure attestation, a rejection exactly within these ranges without it, and out of
-- bounds exactly outside of them, where alone no resolution is written. A written resolution has
-- the face, the quadratic form computed without overflow, and the centroid flag exactly when
-- that form is 0.
pub resolve_candidate_lem :
    (face x y : ℕ) (attested : Bool)
    → let result = resolve_candidate face x y attested in
      ((result.0 ≡ boot_ok) ↔ (InRange face x y × (attested ≡ true)))
      × ((result.0 ≡ secure_rejection) ↔ (InRange face x y × (attested ≡ false)))
      × ((result.0 ≡ bqf_out_of_bounds) ↔ (¬ InRange face x y))
      × ((result.1 ≡ none) ↔ (¬ InRange face x y))
      × ((result.1 ≡ none)
          ⊎ ((out : BootResolution) × (result.1 ≡ some out) × Resolves face x y out))
resolve_candidate_lem face x y attested = elim (InRange-dec face x y attested) [
  | inr outside ↦ rw (out_of_range face x y attested outside) (
    ((λ e. cc), λ (inside, _). absurd (outside inside)),
    ((λ e. cc), λ (inside, _). absurd (outside inside)),
    ((λ _. outside), λ _. refl),
    ((λ _. outside), λ _. refl),
    inl refl,
  )
  | inl inside ↦
      let (out, returned, resolves) = in_range face x y attested inside in
      rw returned (
        ((λ e. (inside, ground arith)), λ (_, yes_attested). rw yes_attested refl),
        ((λ e. (inside, ground arith)), λ (_, not_attested). rw not_attested refl),
        ((λ e. ground arith), λ outside. absurd (outside inside)),
        ((λ e. cc), λ outside. absurd (outside inside)),
        inr (out, refl, resolves),
      )
]
