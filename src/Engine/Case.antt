-- ===== src/Engine/Case.antt =====
-- The parser of address frames does not see the case of a digit.
use omino.Prelude.{ℕ, zero, suc, ◌+◌, ◌*◌, ◌<◌, bit_or}
use omino.Prelude.{◌≡◌, refl, ap, ◌⊎◌, inl, inr, arith}
use omino.Prelude.{◌&&◌, Option, none, some, List, [], ◌∷◌, map}
use omino.Prelude.{leb, ◌==◌, if◌then◌else◌}
use omino.Prelude.{u16, ◌<<<◌, length, get_or}
use omino.Prelude.{set as write}
use omino.Engine.{
  OmiAddress128, hex_value, hex_digits, parse_hex_segment, parse_segments, parse_hex_frame,
}
use omino.Prelude.{◌>>=◌}
use omino.Engine.Hex.{hex_digit}

-- Upper-case hexadecimal digits as lower-case ones.
unfoldable pub lower : ℕ → ℕ
lower c = if leb b'A' c && leb c b'F' then c + 32 else c

pub get_or-lower : (text : List ℕ) (i : ℕ) → get_or (map lower text) i 0 ≡ lower (get_or text i 0)
unfolding lower
get_or-lower [] i = refl
get_or-lower (c ∷ text) zero = refl
get_or-lower (c ∷ text) (suc i) = get_or-lower text i

pub length-lower : (text : List ℕ) → length (map lower text) ≡ length text
length-lower [] = refl
length-lower (c ∷ text) = ap suc (length-lower text)

hex_value-lower : (c : ℕ) → hex_value (lower c) ≡ hex_value c
unfolding hex_value lower
hex_value-lower c = ground arith

dash-lower : (c : ℕ) → (lower c == b'-') ≡ (c == b'-')
unfolding lower
dash-lower c = ground arith

pub hex_value_sound : (c n : ℕ) → hex_value c ≡ some n → (n < 16) × (lower c ≡ hex_digit n)
unfolding hex_value lower hex_digit
hex_value_sound c n e = ground arith

bind_ext : (o : Option ℕ) (k l : ℕ → Option ℕ) → ((n : ℕ) → k n ≡ l n) → (o >>= k) ≡ (o >>= l)
bind_ext none k l same = refl
bind_ext (some n) k l same = same n

pub option_cases : (o : Option ℕ) → (o ≡ none) ⊎ ((n : ℕ) × (o ≡ some n))
option_cases none = inl refl
option_cases (some n) = inr (n, refl)

-- The parsers do not see the case.
hex_digits-lower :
    (left i : ℕ) (text : List ℕ) (offset value : ℕ)
    → hex_digits left i (map lower text) offset value ≡ hex_digits left i text offset value
unfolding hex_digits
hex_digits-lower zero i text offset value = refl
hex_digits-lower (suc left) i text offset value =
    rw (get_or-lower text (offset + i), hex_value-lower (get_or text (offset + i) 0))
      (bind_ext (hex_value (get_or text (offset + i) 0)) _ _
        (λ n. hex_digits-lower left (i + 1) text offset (u16 (bit_or (value <<< 4) n))))

parse_hex_segment-lower :
    (text : List ℕ) (offset : ℕ)
    → parse_hex_segment (map lower text) offset ≡ parse_hex_segment text offset
unfolding parse_hex_segment
parse_hex_segment-lower text offset = hex_digits-lower 4 0 text offset 0

parse_segments-lower :
    (left i : ℕ) (text segments : List ℕ)
    → parse_segments left i (map lower text) segments ≡ parse_segments left i text segments
unfolding parse_segments
parse_segments-lower zero i text segments = refl
parse_segments-lower (suc left) i text segments =
    let head = parse_hex_segment-lower text (i * 5) in
    elim (option_cases (parse_hex_segment text (i * 5))) [
      | inl bad ↦ rw (parse_segments, head, bad) refl
      | inr (n, good) ↦
          let rest = parse_segments-lower left (i + 1) text (write segments i n) in
          rw
            (
              parse_segments,
              head,
              good,
              get_or-lower text (i * 5 + 4),
              dash-lower (get_or text (i * 5 + 4) 0),
              rest,
            )
            refl
    ]

pub parse_hex_frame-lower :
    (text : List ℕ) (addr : OmiAddress128)
    → parse_hex_frame (map lower text) addr ≡ parse_hex_frame text addr
unfolding parse_hex_frame
parse_hex_frame-lower text addr =
    rw (length-lower text, parse_segments-lower 8 0 text addr.segments) refl
