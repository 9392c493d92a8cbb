-- ===== src/Gossip/Encode.antt =====
-- The encoder writes the stuffed blocks of the raw frame and a zero.
use omino.Prelude.{ℕ, suc, ◌+◌, ◌≤◌, ◌<◌}
use omino.Prelude.{◌≡◌, refl, sym, ap, ap₂, ◌∙◌, inl, inr, arith}
use omino.Prelude.{false, some, List, [], ◌∷◌, ◌++◌}
use omino.Prelude.{ltb, ◌==◌, ==_iff, Bool-cases}
use omino.Prelude.{length}
use omino.Prelude.{length-append}
use omino.Prelude.{set as write}
use mathlib.Core.List.{append-nil, append_assoc}
use omino.Cobs.{split, stuffed, length-stuffed-split}
use omino.Cobs.Buffers.{write-append}
use omino.Gossip.{
  GossipPacket, Encoding, encode_byte, encode_bytes, Encoded, encode_frame, pack_raw, gossip_ok,
  wire_frame_max,
}

-- The buffer holds the finished blocks, a place for the code, the pending block, and the rest.
abbrev placed : List ℕ → ℕ → List ℕ → List ℕ → List ℕ
placed done code pending rest = done ++ (code ∷ (pending ++ rest))

abbrev at_block : List ℕ → ℕ → List ℕ → List ℕ → Encoding
at_block done code pending rest = record {
  out = placed done code pending rest;
  dst_idx = length done + suc (length pending);
  code_idx = length done;
  code = suc (length pending);
}

-- What the two writes behind the loop leave.
abbrev closed : Encoding → List ℕ
closed e = write (write e.out e.code_idx e.code) e.dst_idx 0

regroup :
    (done pending rest : List ℕ) (code : ℕ)
    → placed done code pending rest ≡ done ++ (code ∷ pending) ++ rest
regroup done pending rest code = sym (append_assoc done (code ∷ pending) rest)

length-piece :
    (done pending : List ℕ) (code : ℕ)
    → length (done ++ (code ∷ pending)) ≡ length done + suc (length pending)
length-piece done pending code = length-append done (code ∷ pending)

-- Writing behind the pending block.
write_pending :
    (done pending rest : List ℕ) (code next v : ℕ)
    → write (placed done code pending (next ∷ rest)) (length done + suc (length pending)) v
      ≡ done ++ (code ∷ pending) ++ (v ∷ rest)
write_pending done pending rest code next v =
    ap₂ (λ xs i. write xs i v) (regroup done pending (next ∷ rest) code)
      (sym (length-piece done pending code))
    ∙ write-append (done ++ (code ∷ pending)) rest next v

longer :
    (done pending rest : List ℕ) (code v : ℕ)
    → done ++ (code ∷ pending) ++ (v ∷ rest) ≡ placed done code (pending ++ v ∷ []) rest
longer done pending rest code v =
    append_assoc done (code ∷ pending) (v ∷ rest)
    ∙ ap (λ xs. done ++ (code ∷ xs)) (sym (append_assoc pending (v ∷ []) rest))

encoding_ext :
    {o o' : List ℕ} {d d' i i' c c' : ℕ}
    → o ≡ o'
    → d ≡ d'
    → i ≡ i'
    → c ≡ c'
    → Path Encoding
        record { out = o; dst_idx = d; code_idx = i; code = c }
        record { out = o'; dst_idx = d'; code_idx = i'; code = c' }
encoding_ext p q r s = rw (p, q, r, s) refl

-- A zero ends the pending block, another byte is added to it.
encode_zero :
    (done pending rest : List ℕ) (code next : ℕ)
    → encode_byte 0 (at_block done code pending (next ∷ rest))
      ≡ at_block (done ++ (suc (length pending) ∷ pending)) next [] rest
unfolding encode_byte
encode_zero done pending rest code next =
    encoding_ext
      (write-append done (pending ++ (next ∷ rest)) code (suc (length pending))
        ∙ regroup done pending (next ∷ rest) (suc (length pending)))
      (omega (arith, length-piece done pending (suc (length pending))))
      (sym (length-piece done pending (suc (length pending)))) refl

encode_other :
    (done pending rest : List ℕ) (code next b : ℕ)
    → (b == 0) ≡ false
    → length pending < 254
    → encode_byte b (at_block done code pending (next ∷ rest))
      ≡ at_block done code (pending ++ b ∷ []) rest
unfolding encode_byte
encode_other done pending rest code next b other fits = rw other (
    encoding_ext (write_pending done pending rest code next b ∙ longer done pending rest code b)
      (omega (arith, length-append pending (b ∷ []))) refl
      (omega (arith, length-append pending (b ∷ []))))

-- What the encoder leaves: the blocks, a zero, and the rest of the buffer.
record Framed (done blocks : List ℕ) (e : Encoding) : Type 0 where
  left : List ℕ
  wire : closed e ≡ done ++ blocks ++ (0 ∷ left)
  end : e.dst_idx ≡ length (done ++ blocks)

Framed-move :
    (done piece blocks : List ℕ) (e : Encoding)
    → Framed (done ++ piece) blocks e
    → Framed done (piece ++ blocks) e
Framed-move done piece blocks e framed = record {
  left = framed.left;
  wire = framed.wire ∙ ap (λ xs. xs ++ (0 ∷ framed.left)) (append_assoc done piece blocks);
  end = framed.end ∙ ap length (append_assoc done piece blocks);
}

encode_bytes_lem :
    (bytes done pending rest : List ℕ) (code : ℕ)
    → length bytes < length rest
    → length pending + length bytes < 255
    → Framed done
        (stuffed (split pending bytes))
        (encode_bytes bytes (at_block done code pending rest))
unfolding encode_bytes split stuffed
encode_bytes_lem [] done pending [] code room fits = absurd (omega arith)
encode_bytes_lem [] done pending (next ∷ rest) code room fits =
    let c = suc (length pending) in
    record {
      left = rest;
      wire =
          ap (λ xs. write xs (length done + c) 0)
            (write-append done (pending ++ (next ∷ rest)) code c)
          ∙ write_pending done pending rest c next 0
          ∙ ap (λ xs. done ++ (c ∷ xs) ++ (0 ∷ rest)) (sym (append-nil pending));
      end =
          sym (length-piece done pending c)
          ∙ ap (λ xs. length (done ++ (c ∷ xs))) (sym (append-nil pending));
    }
encode_bytes_lem (b ∷ bytes) done pending [] code room fits = absurd (omega arith)
encode_bytes_lem (b ∷ bytes) done pending (next ∷ rest) code room fits =
    elim (Bool-cases (b == 0)) [
      | inl zero_byte ↦
          let e : b ≡ 0 = (==_iff b 0).0 zero_byte in
          let c = suc (length pending) in
          let framed =
            encode_bytes_lem bytes (done ++ (c ∷ pending)) [] rest next (omega arith)
              (omega arith) in
          rw (zero_byte, e, encode_zero done pending rest code next)
            (Framed-move done (c ∷ pending) (stuffed (split [] bytes)) _ framed)
      | inr other ↦
          rw (other, encode_other done pending rest code next b other (omega arith))
            (encode_bytes_lem bytes done (pending ++ b ∷ []) rest code (omega arith)
              (omega (arith, length-append pending (b ∷ []))))
    ]

-- What the encoder returns for a packet with a raw frame of 64 bytes, on a buffer with room.
pub record Sent (p : GossipPacket) (out : Encoded) : Type 0 where
  pub left : List ℕ
  pub wire : out.wire ≡ stuffed (split [] (pack_raw p)) ++ (0 ∷ left)
  pub wire_len : out.wire_len ≡ 66
  pub status : out.status ≡ gossip_ok

pub encode_frame-Sent :
    (p : GossipPacket) (buf : List ℕ) (cap : ℕ)
    → length (pack_raw p) ≡ 64
    → 66 ≤ length buf
    → 66 ≤ cap
    → Sent p (encode_frame (some p) buf cap)
unfolding encode_frame
encode_frame-Sent p [] cap whole room wide = absurd (omega arith)
encode_frame-Sent p (x ∷ rest) cap whole room wide =
    let framed =
      encode_bytes_lem (pack_raw p) [] [] rest 0 (rw whole (omega arith))
        (rw whole (omega arith)) in
    let fits : ltb cap wire_frame_max ≡ false = ground arith in
    rw fits record {
      left = framed.left;
      wire = framed.wire;
      wire_len = omega (arith, framed.end, length-stuffed-split [] (pack_raw p));
      status = refl;
    }
