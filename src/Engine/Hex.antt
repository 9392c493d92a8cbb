-- ===== src/Engine/Hex.antt =====
-- Address frames, as text: an independent formatter, and the parser on what it writes.
use omino.Prelude.{ℕ, zero, suc, ◌+◌, ◌-◌, ◌*◌, ◌/◌, ◌%◌, ◌^◌, ◌<◌, bit_or}
use omino.Prelude.{◌≡◌, refl, sym, ap, ◌∙◌, ◌≢◌, inl, inr, arith}
use omino.Prelude.{true, some, List, [], ◌∷◌, ◌++◌}
use omino.Prelude.{ltb, ◌==◌, if◌then◌else◌, ==_iff, Bool-cases}
use omino.Prelude.{u16, ◌<<<◌, length, get_or}
use omino.Prelude.{length-set, get_or-set_self, get_or-set_ne, get_or_ext}
use omino.Prelude.{set as write}
use omino.Prelude.Bits.Fields.{bit_or-add}
use omino.Engine.{
  OmiAddress128, hex_value, hex_digits, parse_hex_segment, parse_segments, parse_hex_frame,
}

-- The lower-case digit of a number below 16.
unfoldable pub hex_digit : ℕ → ℕ
hex_digit n = if ltb n 10 then b'0' + n else b'a' + (n - 10)

unfoldable pub segment_text : ℕ → List ℕ
segment_text s =
    hex_digit (s / 4096)
    ∷ hex_digit (s / 256 % 16)
    ∷ hex_digit (s / 16 % 16)
    ∷ hex_digit (s % 16)
    ∷ []

-- Segments with a dash between them.
unfoldable pub frame_text : List ℕ → List ℕ
frame_text [] = []
frame_text (s ∷ []) = segment_text s
frame_text (s ∷ t ∷ rest) = segment_text s ++ b'-' ∷ frame_text (t ∷ rest)

-- Every entry is a 16-bit word.
unfoldable pub AreWords : List ℕ → Type 0
AreWords segments = (i : ℕ) → i < length segments → get_or segments i 0 < 2 ^ 16

hex_value-hex_digit : (n : ℕ) → n < 16 → hex_value (hex_digit n) ≡ some n
unfolding hex_value hex_digit
hex_value-hex_digit n h = ground arith

pub push_nibble : (v n : ℕ) → v < 2 ^ 12 → n < 16 → u16 (bit_or (v <<< 4) n) ≡ v * 16 + n
push_nibble v n hv hn = rw (bit_or-add 4 v n hn) (omega arith)

parse_hex_segment-at :
    (text : List ℕ) (offset s : ℕ)
    → s < 2 ^ 16
    → get_or text offset 0 ≡ hex_digit (s / 4096)
    → get_or text (offset + 1) 0 ≡ hex_digit (s / 256 % 16)
    → get_or text (offset + 2) 0 ≡ hex_digit (s / 16 % 16)
    → get_or text (offset + 3) 0 ≡ hex_digit (s % 16)
    → parse_hex_segment text offset ≡ some s
unfolding parse_hex_segment hex_digits
parse_hex_segment-at text offset s h a b c d =
    rw
      (
        first,
        b,
        c,
        d,
        hex_value-hex_digit (s / 4096) (omega arith),
        hex_value-hex_digit (s / 256 % 16) (omega arith),
        hex_value-hex_digit (s / 16 % 16) (omega arith),
        hex_value-hex_digit (s % 16) (omega arith),
        push_nibble 0 (s / 4096) (omega arith) (omega arith),
        push_nibble (0 * 16 + s / 4096) (s / 256 % 16) (omega arith) (omega arith),
        push_nibble ((0 * 16 + s / 4096) * 16 + s / 256 % 16) (s / 16 % 16) (omega arith)
            (omega arith),
        push_nibble (((0 * 16 + s / 4096) * 16 + s / 256 % 16) * 16 + s / 16 % 16) (s % 16)
            (omega arith) (omega arith),
      )
      (ap some (omega arith))
  where
    first : get_or text (offset + 0) 0 ≡ hex_digit (s / 4096)
    first = ap (λ (n : ℕ). get_or text n 0) (omega arith) ∙ a

-- The text at a segment, and the dash behind it.
pub frame_text-at :
    (segments : List ℕ) (i j : ℕ)
    → i < length segments
    → j < 4
    → get_or (frame_text segments) (i * 5 + j) 0 ≡ get_or (segment_text (get_or segments i 0)) j 0
unfolding frame_text segment_text
frame_text-at [] i j hi hj = absurd (omega arith)
frame_text-at (s ∷ []) zero j hi hj = ap (λ (n : ℕ). get_or (segment_text s) n 0) (omega arith)
frame_text-at (s ∷ []) (suc i) j hi hj = absurd (omega arith)
frame_text-at (s ∷ t ∷ rest) zero zero hi hj = refl
frame_text-at (s ∷ t ∷ rest) zero (suc zero) hi hj = refl
frame_text-at (s ∷ t ∷ rest) zero (suc (suc zero)) hi hj = refl
frame_text-at (s ∷ t ∷ rest) zero (suc (suc (suc zero))) hi hj = refl
frame_text-at (s ∷ t ∷ rest) zero (suc (suc (suc (suc j)))) hi hj = absurd (omega arith)
frame_text-at (s ∷ t ∷ rest) (suc i) j hi hj =
    ap (λ (n : ℕ). get_or (frame_text (s ∷ t ∷ rest)) n 0)
      {y = suc (suc (suc (suc (suc (i * 5 + j)))))} (omega arith)
    ∙ frame_text-at (t ∷ rest) i j (omega arith) hj

pub frame_text-dash :
    (segments : List ℕ) (i : ℕ)
    → suc i < length segments
    → get_or (frame_text segments) (i * 5 + 4) 0 ≡ b'-'
unfolding frame_text segment_text
frame_text-dash [] i hi = absurd (omega arith)
frame_text-dash (s ∷ []) i hi = absurd (omega arith)
frame_text-dash (s ∷ t ∷ rest) zero hi = refl
frame_text-dash (s ∷ t ∷ rest) (suc i) hi =
    ap (λ (n : ℕ). get_or (frame_text (s ∷ t ∷ rest)) n 0)
      {y = suc (suc (suc (suc (suc (i * 5 + 4)))))} (omega arith)
    ∙ frame_text-dash (t ∷ rest) i (omega arith)

pub length-frame_text :
    (s : ℕ) (rest : List ℕ) → length (frame_text (s ∷ rest)) ≡ 5 * length rest + 4
unfolding frame_text segment_text
length-frame_text s [] = refl
length-frame_text s (t ∷ rest) = let shorter = length-frame_text t rest in omega (arith, shorter)

segment_parses :
    (segments : List ℕ) (i : ℕ)
    → i < length segments
    → AreWords segments
    → parse_hex_segment (frame_text segments) (i * 5) ≡ some (get_or segments i 0)
unfolding segment_text AreWords
segment_parses segments i h words =
    parse_hex_segment-at (frame_text segments) (i * 5) (get_or segments i 0) (words i h)
      (ap (λ (n : ℕ). get_or (frame_text segments) n 0) (omega arith)
        ∙ frame_text-at segments i 0 h (omega arith))
      (frame_text-at segments i 1 h (omega arith)) (frame_text-at segments i 2 h (omega arith))
      (frame_text-at segments i 3 h (omega arith))

parse_segments_lem :
    (left i : ℕ) (segments written : List ℕ)
    → left + i ≡ 8
    → length segments ≡ 8
    → AreWords segments
    → length written ≡ 8
    → ((k : ℕ) → k < i → get_or written k 0 ≡ get_or segments k 0)
    → parse_segments left i (frame_text segments) written ≡ (true, segments)
unfolding parse_segments AreWords
parse_segments_lem zero i segments written end eight words size same =
    ap (λ (l : List ℕ). (true, l))
      (get_or_ext 0 written segments (omega arith) (λ k h. same k (omega arith)))
parse_segments_lem (suc left) i segments written end eight words size same =
    let rest =
      parse_segments_lem left (i + 1) segments next (omega arith) eight words
        (length-set written i (get_or segments i 0) ∙ size) filled in
    rw (parse_segments, segment_parses segments i (omega arith) words)
      (elim (Bool-cases (ltb i 7)) [
        | inl inner ↦
            let dash : get_or (frame_text segments) (i * 5 + 4) 0 ≡ b'-' =
              frame_text-dash segments i (ground arith) in
            rw inner (rw dash rest)
        | inr last ↦ rw last rest
      ])
  where
    next : List ℕ
    next = write written i (get_or segments i 0)

    filled : (k : ℕ) → k < i + 1 → get_or next k 0 ≡ get_or segments k 0
    filled k h = elim (Bool-cases (i == k)) [
      | inl here ↦
          let at : i ≡ k = (==_iff i k).0 here in
          ap (λ (n : ℕ). get_or next n 0) (sym at)
          ∙ get_or-set_self written i (get_or segments i 0) 0 (omega arith)
          ∙ ap (λ (n : ℕ). get_or segments n 0) at
      | inr there ↦
          let apart : i ≢ k = (λ e. ground arith) in
          get_or-set_ne written i k (get_or segments i 0) 0 apart ∙ same k (ground arith)
    ]

-- Eight 16-bit segments, written in lower-case hexadecimal digits with a dash between two
-- segments, are parsed back, into an address of eight segments.
pub parse_hex_frame-frame_text :
    (segments : List ℕ) (addr : OmiAddress128)
    → length segments ≡ 8
    → AreWords segments
    → length addr.segments ≡ 8
    → parse_hex_frame (frame_text segments) addr ≡ (true, record { segments = segments })
unfolding parse_hex_frame
parse_hex_frame-frame_text [] addr eight words size = absurd (omega arith)
parse_hex_frame-frame_text (s ∷ rest) addr eight words size =
    let sized : (length (frame_text (s ∷ rest)) == 39) ≡ true =
      (==_iff _ _).1 (length-frame_text s rest ∙ omega arith) in
    rw sized (
      rw
        (parse_segments_lem 8 0 (s ∷ rest) addr.segments refl eight words size
          (λ k h. absurd (omega arith)))
        refl)
