-- ===== src/Engine/Bounded.antt =====
-- The bounded decoder returns on every input, and writes nothing at or behind its capacity.
use omino.Prelude.{ℕ, zero, suc, ◌+◌, ◌-◌, ◌≤◌}
use omino.Prelude.{◌≡◌, refl, ap, ◌∙◌, ◌≢◌, ◌⊎◌, inl, inr, arith}
use omino.Prelude.{false, ◌&&◌, ◌||◌, some, List}
use omino.Prelude.{ltb, leb, ◌==◌, Bool-cases}
use omino.Prelude.{length, get_or}
use omino.Prelude.{length-set, get_or-set_ne}
use mathlib.Core.Option.{map as option_map}
use omino.Engine.{
  eal_ok, frame_truncated, eal_zero_leak, BoundedDecoding, Progress, going, failed, store,
  copy_bytes, end_bytes, ◌>=>◌, decode_code, decode_codes, Decoded, finish, cobs_decode_bounded,
}

module _ (src : List ℕ) (src_len cap : ℕ) (before : List ℕ) where
  -- The bytes from the capacity on are those of the buffer before the call.
  abbrev Kept : List ℕ → Type 0
  Kept dst = (length dst ≡ length before) × ((j : ℕ) → cap ≤ j → get_or dst j 0 ≡ get_or before j 0)

  -- The loops have read up to `n`, and have kept what lies behind the capacity.
  abbrev Bounded : ℕ → Progress → Type 0
  Bounded n (going d) = (n ≤ d.src_idx) × (d.dst_idx ≤ cap) × Kept d.dst
  Bounded n (failed status dst) = (status ≢ eal_ok) × Kept dst

  Bounded-mono : (m n : ℕ) (p : Progress) → m ≤ n → Bounded n p → Bounded m p
  Bounded-mono m n (going d) h (a, b, k) = (omega arith, b, k)
  Bounded-mono m n (failed status dst) h b = b

  truncated_error : frame_truncated ≢ eal_ok
  truncated_error e = ground arith

  leak_error : eal_zero_leak ≢ eal_ok
  leak_error e = ground arith

  store-Bounded :
      (n b : ℕ) (d : BoundedDecoding)
      → leb cap d.dst_idx ≡ false
      → Bounded n (going d)
      → Bounded n (going (store d b))
  store-Bounded n b d room (a, h, (size, same)) = (
    a,
    ground arith,
    (
      length-set d.dst d.dst_idx b ∙ size,
      λ j behind.
          let apart : d.dst_idx ≢ j = (λ e. ground arith) in
          get_or-set_ne d.dst d.dst_idx j b 0 apart ∙ same j behind,
    ),
  )

  copy_bytes-Bounded :
      (left : ℕ) (d : BoundedDecoding)
      → Bounded d.src_idx (going d)
      → Bounded d.src_idx (copy_bytes left src src_len cap d)
  unfolding copy_bytes
  copy_bytes-Bounded zero d b = b
  copy_bytes-Bounded (suc left) d (a, h, kept) =
      let byte = get_or src d.src_idx 0 in
      let next : BoundedDecoding = record (store d byte) { src_idx = d.src_idx + 1 } in
      elim (Bool-cases (leb src_len d.src_idx || leb cap d.dst_idx)) [
        | inl full ↦ rw full (truncated_error, kept)
        | inr fits ↦
            let room : leb cap d.dst_idx ≡ false = ground arith in
            let (a, h, kept) = store-Bounded d.src_idx byte d room (a, h, kept) in
            rw fits (
              Bounded-mono d.src_idx (d.src_idx + 1) (copy_bytes left src src_len cap next)
                (omega arith) (copy_bytes-Bounded left next (omega arith, h, kept)))
      ]

  end_bytes-Bounded :
      (code : ℕ) (d : BoundedDecoding)
      → Bounded d.src_idx (going d)
      → Bounded d.src_idx (end_bytes code src_len cap d)
  unfolding end_bytes
  end_bytes-Bounded code d (a, h, kept) =
      elim (Bool-cases (ltb code 0xFF && ltb d.src_idx src_len)) [
        | inr last ↦ rw last (a, h, kept)
        | inl open_block ↦ rw open_block (elim (Bool-cases (leb cap d.dst_idx)) [
          | inl full ↦ rw full (truncated_error, kept)
          | inr room ↦ rw room (store-Bounded d.src_idx 0 d room (a, h, kept))
        ])
      ]

  bind-Bounded :
      (n : ℕ) (p : Progress) (k : BoundedDecoding → Progress)
      → Bounded n p
      → ((d : BoundedDecoding) → Bounded d.src_idx (going d) → Bounded d.src_idx (k d))
      → Bounded n (p >=> k)
  bind-Bounded n (going d) k (a, b, kept) h =
      Bounded-mono n d.src_idx (k d) a (h d (omega arith, b, kept))
  bind-Bounded n (failed status dst) k b h = b

  decode_code-Bounded :
      (d : BoundedDecoding)
      → Bounded d.src_idx (going d)
      → Bounded (d.src_idx + 1) (decode_code src src_len cap d)
  unfolding decode_code
  decode_code-Bounded d (a, b, kept) =
      let code = get_or src d.src_idx 0 in
      let inside = record d { src_idx = d.src_idx + 1 } in
      elim (Bool-cases (code == 0)) [
        | inl leak ↦ rw leak (leak_error, kept)
        | inr block ↦ rw block (
            bind-Bounded (d.src_idx + 1) (copy_bytes (code - 1) src src_len cap inside)
              (end_bytes code src_len cap)
              (copy_bytes-Bounded (code - 1) inside (omega arith, b, kept))
              (end_bytes-Bounded code))
      ]

  decode_codes_returns :
      (fuel n : ℕ) (p : Progress)
      → Bounded n p
      → src_len ≤ fuel + n
      → (q : Progress) × (decode_codes fuel src src_len cap p ≡ some q) × Bounded 0 q
  unfolding decode_codes
  decode_codes_returns zero n (failed status dst) b h = (failed status dst, refl, b)
  decode_codes_returns (suc fuel) n (failed status dst) b h = (failed status dst, refl, b)
  decode_codes_returns zero n (going d) (a, b, kept) h = (
    going d,
    (let done : ltb d.src_idx src_len ≡ false = ground arith in rw done refl),
    (omega arith, b, kept),
  )
  decode_codes_returns (suc fuel) n (going d) (a, b, kept) h =
      elim (Bool-cases (ltb d.src_idx src_len)) [
        | inr done ↦ (going d, rw done refl, (omega arith, b, kept))
        | inl more ↦
            let (q, returns, bounded) =
              decode_codes_returns fuel (d.src_idx + 1) (decode_code src src_len cap d)
                (decode_code-Bounded d (omega arith, b, kept)) (omega arith) in
            (q, rw more returns, bounded)
      ]

-- What the caller sees behind the loops.
finish-Kept :
    (src : List ℕ) (src_len cap : ℕ) (before : List ℕ) (p : Progress)
    → Bounded src src_len cap before 0 p
    → let out = finish p in
      (out.dst_len ≤ cap)
      × ((out.status ≡ eal_ok) ⊎ (out.dst_len ≡ 0))
      × Kept src src_len cap before out.dst
finish-Kept src src_len cap before (going d) (a, h, kept) = (h, inl refl, kept)
finish-Kept src src_len cap before (failed status dst) (e, kept) = (omega arith, inr refl, kept)

-- On every source, length, buffer and capacity the bounded decoder returns within its fuel; the
-- length that it returns is at most the capacity, and 0 with an error; the buffer keeps its
-- length, and every byte at the capacity or behind it.
pub cobs_decode_bounded_returns :
    (src : List ℕ) (src_len : ℕ) (dst : List ℕ) (dst_cap : ℕ)
    → (out : Decoded) × (cobs_decode_bounded src src_len dst dst_cap ≡ some out)
      × (out.dst_len ≤ dst_cap)
      × ((out.status ≡ eal_ok) ⊎ (out.dst_len ≡ 0))
      × (length out.dst ≡ length dst)
      × ((j : ℕ) → dst_cap ≤ j → get_or out.dst j 0 ≡ get_or dst j 0)
unfolding cobs_decode_bounded
cobs_decode_bounded_returns src src_len dst dst_cap =
    let start : BoundedDecoding = record { dst = dst; src_idx = 0; dst_idx = 0 } in
    let (q, returns, bounded) =
      decode_codes_returns src src_len dst_cap dst src_len 0 (going start)
        (omega arith, omega arith, (refl, λ j behind. refl)) (omega arith) in
    let (short, error, (size, same)) = finish-Kept src src_len dst_cap dst q bounded in
    (finish q, ap (option_map finish) returns, short, error, size, same)
