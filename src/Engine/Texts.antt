-- ===== src/Engine/Texts.antt =====
-- Which texts the parser of address frames takes: those of the formatter, in either case.
use omino.Prelude.{ℕ, zero, suc, ◌+◌, ◌*◌, ◌/◌, ◌%◌, ◌^◌, ◌≤◌, ◌<◌, bit_or}
use omino.Prelude.{◌≡◌, refl, sym, ap, ap₂, ◌∙◌, ◌↔◌, inl, inr, arith}
use omino.Prelude.{Bool, true, false, not, ◌&&◌, Option, none, some, List, [], ◌∷◌, map}
use omino.Prelude.{ltb, ◌==◌, ==_iff, Bool-cases}
use omino.Prelude.{u16, ◌<<<◌, length, get_or}
use omino.Prelude.{length-set, get_or-set_self, get_or-set_ne, get_or_ext}
use omino.Prelude.{set as write, ◌>>=◌}
use omino.Engine.{
  OmiAddress128, hex_value, hex_digits, parse_hex_segment, parse_segments, parse_hex_frame,
}
use omino.Engine.Hex.{
  hex_digit, segment_text, frame_text, AreWords, frame_text-at, frame_text-dash, length-frame_text,
  push_nibble, parse_hex_frame-frame_text,
}
use omino.Engine.Case.{
  lower, get_or-lower, length-lower, hex_value_sound, option_cases, parse_hex_frame-lower,
}

bind_some :
    (o : Option ℕ) (k : ℕ → Option ℕ) (s : ℕ)
    → (o >>= k) ≡ some s
    → (n : ℕ) × (o ≡ some n) × (k n ≡ some s)
bind_some none k s e = ground arith
bind_some (some n) k s e = (n, refl, e)

-- The word of four digits.
word_of_digits :
    (a b c d : ℕ)
    → a < 16
    → b < 16
    → c < 16
    → d < 16
    → u16 (bit_or (u16 (bit_or (u16 (bit_or (u16 (bit_or (0 <<< 4) a) <<< 4) b) <<< 4) c) <<< 4) d)
      ≡ ((a * 16 + b) * 16 + c) * 16 + d
word_of_digits a b c d ha hb hc hd =
    rw
      (
        push_nibble 0 a (omega arith) ha,
        push_nibble (0 * 16 + a) b (omega arith) hb,
        push_nibble ((0 * 16 + a) * 16 + b) c (omega arith) hc,
        push_nibble (((0 * 16 + a) * 16 + b) * 16 + c) d (omega arith) hd,
      )
      (omega arith)

digits_lem :
    (a b c d s : ℕ)
    → a < 16
    → b < 16
    → c < 16
    → d < 16
    → some (
        u16
          (bit_or (u16 (bit_or (u16 (bit_or (u16 (bit_or (0 <<< 4) a) <<< 4) b) <<< 4) c) <<< 4) d))
      ≡ some s
    → (s < 2 ^ 16) × (a ≡ s / 4096) × (b ≡ s / 256 % 16) × (c ≡ s / 16 % 16) × (d ≡ s % 16)
digits_lem a b c d s ha hb hc hd e =
    let word = word_of_digits a b c d ha hb hc hd in
    let found : some (((a * 16 + b) * 16 + c) * 16 + d) ≡ some s = ap some (sym word) ∙ e in
    let whole : ((a * 16 + b) * 16 + c) * 16 + d ≡ s = ground arith in
    (omega arith, omega arith, omega arith, omega arith, omega arith)

-- The characters of a segment are its digits.
abbrev Reads : List ℕ → ℕ → ℕ → Type 0
Reads text offset s =
    (lower (get_or text (offset + 0) 0) ≡ hex_digit (s / 4096))
    × (lower (get_or text (offset + 1) 0) ≡ hex_digit (s / 256 % 16))
    × (lower (get_or text (offset + 2) 0) ≡ hex_digit (s / 16 % 16))
    × (lower (get_or text (offset + 3) 0) ≡ hex_digit (s % 16))

parse_hex_segment_sound :
    (text : List ℕ) (offset s : ℕ)
    → parse_hex_segment text offset ≡ some s
    → (s < 2 ^ 16) × Reads text offset s
unfolding parse_hex_segment hex_digits
parse_hex_segment_sound text offset s e =
    let (a, first, after_a) = bind_some (hex_value (get_or text (offset + 0) 0)) _ s e in
    let (b, second, after_b) = bind_some (hex_value (get_or text (offset + 1) 0)) _ s after_a in
    let (c, third, after_c) = bind_some (hex_value (get_or text (offset + 2) 0)) _ s after_b in
    let (d, fourth, after_d) = bind_some (hex_value (get_or text (offset + 3) 0)) _ s after_c in
    let (ha, la) = hex_value_sound _ a first in
    let (hb, lb) = hex_value_sound _ b second in
    let (hc, lc) = hex_value_sound _ c third in
    let (hd, ld) = hex_value_sound _ d fourth in
    let (fits, ea, eb, ec, ed) = digits_lem a b c d s ha hb hc hd after_d in
    (fits, (la ∙ ap hex_digit ea, lb ∙ ap hex_digit eb, lc ∙ ap hex_digit ec, ld ∙ ap hex_digit ed))

-- What the text holds at segment `k`.
abbrev SegmentAt : List ℕ → List ℕ → ℕ → Type 0
SegmentAt text segments k =
    (parse_hex_segment text (k * 5) ≡ some (get_or segments k 0))
    × (k < 7 → get_or text (k * 5 + 4) 0 ≡ b'-')

abbrev ParsedFrom : ℕ → List ℕ → List ℕ → List ℕ → Type 0
ParsedFrom i text written segments =
    (length segments ≡ 8)
    × ((k : ℕ) → k < i → get_or segments k 0 ≡ get_or written k 0)
    × ((k : ℕ) → i ≤ k → k < 8 → SegmentAt text segments k)

extend :
    (i n : ℕ) (text written segments : List ℕ)
    → i < 8
    → length written ≡ 8
    → parse_hex_segment text (i * 5) ≡ some n
    → (ltb i 7 && not (get_or text (i * 5 + 4) 0 == b'-')) ≡ false
    → ParsedFrom (i + 1) text (write written i n) segments
    → ParsedFrom i text written segments
extend i n text written segments inside size good dashed (eight, kept, later) = (
  eight,
  (λ k lt. kept k (omega arith) ∙ get_or-set_ne written i k n 0 (λ e. absurd (omega (arith, e)))),
  λ k low high. elim (Bool-cases (i == k)) [
    | inl here ↦
        let at : i ≡ k = (==_iff i k).0 here in
        let stored : get_or segments i 0 ≡ n =
          kept i (omega arith) ∙ get_or-set_self written i n 0 (omega arith) in
        let found : SegmentAt text segments i =
          (good ∙ ap some (sym stored), λ inner. ground arith) in
        rw (← at) found
    | inr there ↦ later k (ground arith) high
  ],
)

parse_segments_sound :
    (left i : ℕ) (text written segments : List ℕ)
    → left + i ≡ 8
    → length written ≡ 8
    → parse_segments left i text written ≡ (true, segments)
    → ParsedFrom i text written segments
unfolding parse_segments
parse_segments_sound zero i text written segments end size = λ e.
    let same : segments ≡ written = ap (λ (r : Bool × List ℕ). r.1) (sym e) in
    (
      ap length same ∙ size,
      (λ k h. ap (λ (l : List ℕ). get_or l k 0) same),
      λ k low high. absurd (omega arith),
    )
parse_segments_sound (suc left) i text written segments end size =
    elim (option_cases (parse_hex_segment text (i * 5))) [
      | inl bad ↦
          rw (parse_segments, bad)
            (λ e.
              let no : false ≡ true = ap (λ (r : Bool × List ℕ). r.0) e in absurd (ground arith))
      | inr (n, good) ↦ elim (Bool-cases (ltb i 7 && not (get_or text (i * 5 + 4) 0 == b'-'))) [
        | inl broken ↦
            rw (parse_segments, good, broken)
              (λ e.
                let no : false ≡ true = ap (λ (r : Bool × List ℕ). r.0) e in absurd (ground arith))
        | inr dashed ↦
            rw (parse_segments, good, dashed)
              (λ e. extend i n text written segments (omega arith) size good dashed (
                parse_segments_sound left (i + 1) text (write written i n) segments (omega arith)
                  (length-set written i n ∙ size) e))
      ]
    ]

Reads-at :
    (text : List ℕ) (offset s j : ℕ)
    → Reads text offset s
    → j < 4
    → lower (get_or text (offset + j) 0) ≡ get_or (segment_text s) j 0
unfolding segment_text
Reads-at text offset s zero (a, b, c, d) h = a
Reads-at text offset s (suc zero) (a, b, c, d) h = b
Reads-at text offset s (suc (suc zero)) (a, b, c, d) h = c
Reads-at text offset s (suc (suc (suc zero))) (a, b, c, d) h = d
Reads-at text offset s (suc (suc (suc (suc j)))) r h = absurd (omega arith)

length-frame_text-eight :
    (segments : List ℕ) → length segments ≡ 8 → length (frame_text segments) ≡ 39
length-frame_text-eight [] h = absurd (omega arith)
length-frame_text-eight (s ∷ rest) h = length-frame_text s rest ∙ omega arith

module _ (text written segments : List ℕ) (long : length text ≡ 39)
    (parsed : ParsedFrom 0 text written segments) where
  segment_read :
      (k : ℕ) → k < 8 → (get_or segments k 0 < 2 ^ 16) × Reads text (k * 5) (get_or segments k 0)
  segment_read k h =
      parse_hex_segment_sound text (k * 5) (get_or segments k 0) (parsed.2 k (omega arith) h).0

  words : AreWords segments
  unfolding AreWords
  words k h = (segment_read k (omega (arith, parsed.0))).0

  character :
      (k j : ℕ)
      → k < 8
      → k * 5 + j < 39
      → j < 5
      → get_or (map lower text) (k * 5 + j) 0 ≡ get_or (frame_text segments) (k * 5 + j) 0
  character k j hk inside hj = elim (Bool-cases (ltb j 4)) [
    | inl digit ↦
        let below : j < 4 = ground arith in
        get_or-lower text (k * 5 + j)
        ∙ Reads-at text (k * 5) (get_or segments k 0) j (segment_read k hk).1 below
        ∙ sym (frame_text-at segments k j (omega (arith, parsed.0)) below)
    | inr dash ↦
        let last : j ≡ 4 = ground arith in
        rw last (
          get_or-lower text (k * 5 + 4)
          ∙ ap lower ((parsed.2 k (omega arith) hk).1 (omega (arith, last)))
          ∙ dash_kept
          ∙ sym (frame_text-dash segments k (omega (arith, parsed.0, last))))
  ]
    where
      dash_kept : lower b'-' ≡ b'-'
      dash_kept = unfold lower in refl

  same_text : map lower text ≡ frame_text segments
  same_text =
      get_or_ext 0 (map lower text) (frame_text segments)
        (length-lower text ∙ long ∙ sym (length-frame_text-eight segments parsed.0))
        (λ i h.
          let size = length-lower text in
          let split : i / 5 * 5 + i % 5 ≡ i = omega arith in
          ap (λ (n : ℕ). get_or (map lower text) n 0) (sym split)
          ∙ character (i / 5) (i % 5) (omega arith) (omega arith) (omega arith)
          ∙ ap (λ (n : ℕ). get_or (frame_text segments) n 0) split)

-- The parser of address frames, on an address of eight segments, accepts a text with a result
-- exactly when the result has eight 16-bit segments and the text, with its upper-case digits A
-- to F made lower-case, is what an independent formatter writes for them: four lower-case
-- hexadecimal digits each, with a dash between two segments.
pub parse_hex_frame_iff :
    (text segments : List ℕ) (addr : OmiAddress128)
    → length addr.segments ≡ 8
    → (parse_hex_frame text addr ≡ (true, record { segments = segments }))
      ↔ ((length segments ≡ 8) × AreWords segments × (map lower text ≡ frame_text segments))
parse_hex_frame_iff text segments addr size = (sound, complete)
  where
    sound :
        parse_hex_frame text addr ≡ (true, record { segments = segments })
        → (length segments ≡ 8) × AreWords segments × (map lower text ≡ frame_text segments)
    sound =
        unfold parse_hex_frame in
        elim (Bool-cases (length text == 39)) [
          | inr short ↦ rw short (λ e.
              let no : false ≡ true = ap (λ (r : Bool × OmiAddress128). r.0) e in
              absurd (ground arith))
          | inl long ↦ rw long (λ e.
              let accepted = ap (λ (r : Bool × OmiAddress128). r.0) e in
              let written = ap (λ (r : Bool × OmiAddress128). r.1.segments) e in
              let parsed =
                parse_segments_sound 8 0 text addr.segments segments refl size
                  (ap₂ (λ (a : Bool) (l : List ℕ). (a, l)) accepted written) in
              let full = (==_iff _ _).0 long in
              (
                parsed.0,
                words text addr.segments segments full parsed,
                same_text text addr.segments segments full parsed,
              ))
        ]

    complete :
        (length segments ≡ 8) × AreWords segments × (map lower text ≡ frame_text segments)
        → parse_hex_frame text addr ≡ (true, record { segments = segments })
    complete (eight, fit, same) =
        sym (parse_hex_frame-lower text addr)
        ∙ ap (λ (t : List ℕ). parse_hex_frame t addr) same
        ∙ parse_hex_frame-frame_text segments addr eight fit size
