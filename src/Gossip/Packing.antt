-- ===== src/Gossip/Packing.antt =====
-- A packet packed into a raw frame is unpacked as it was.
use omino.Prelude.{ℕ, ◌+◌, ◌-◌, ◌^◌, ◌≤◌, ◌<◌}
use omino.Prelude.{◌≡◌, refl, sym, ap, ◌∙◌, ◌⊎◌, inl, arith}
use omino.Prelude.{List}
use omino.Prelude.{length, replicate}
use omino.Prelude.{length-set, get_or-set_self, get_or-set_ne, get_or_ext, length-replicate}
use omino.Prelude.{set as write}
use omino.Gossip.{GossipPacket, byte_at, raw_frame_size, put_le, memcpy, pack_raw, unpack_raw}
use omino.Gossip.Fields.{
  length-put_le, length-memcpy, put_le_elsewhere, put_le_inside, memcpy_lem, get_le-put_le, byte_of,
}

-- A packet within the widths and the lengths of its fields.
pub record IsPacket (p : GossipPacket) : Type 0 where
  pub node : p.source_node_id < 2 ^ 32
  pub step : p.step_accumulator < 2 ^ 64
  pub board : length p.board_matrix ≡ 32
  pub digest : length p.transport_digest ≡ 16

memcpy_outside :
    (count : ℕ) (dst : List ℕ) (to : ℕ) (src : List ℕ) (from j : ℕ)
    → to + count ≤ length dst
    → (j < to) ⊎ (to + count ≤ j)
    → byte_at (memcpy count dst to src from) j ≡ byte_at dst j
memcpy_outside count dst to src from j fits out =
    let copied = memcpy_lem count dst to src from j fits in ground arith

memcpy_inside :
    (count : ℕ) (dst : List ℕ) (to : ℕ) (src : List ℕ) (from k : ℕ)
    → to + count ≤ length dst
    → k < count
    → byte_at (memcpy count dst to src from) (to + k) ≡ byte_at src (from + k)
memcpy_inside count dst to src from k fits lt =
    let copied = memcpy_lem count dst to src from (to + k) fits in
    let place : from + (to + k - to) ≡ from + k = omega arith in
    ground (arith, ap (byte_at src) place)

-- A whole array copied out of a buffer.
memcpy_whole :
    (count : ℕ) (dst src xs : List ℕ) (from : ℕ)
    → length dst ≡ count
    → length xs ≡ count
    → ((k : ℕ) → k < count → byte_at src (from + k) ≡ byte_at xs k)
    → memcpy count dst 0 src from ≡ xs
memcpy_whole count dst src xs from len len' same =
    get_or_ext 0 _ _ (length-memcpy count dst 0 src from ∙ len ∙ sym len') λ i h.
      let lt : i < count = rw (← len, ← length-memcpy count dst 0 src from) h in
      ap (byte_at (memcpy count dst 0 src from)) (omega arith)
      ∙ memcpy_inside count dst 0 src from i (omega arith) lt
      ∙ same i lt

module _ (p : GossipPacket) (fits : IsPacket p) where
  abbrev zeros : List ℕ
  zeros = replicate raw_frame_size 0

  abbrev with_id : List ℕ
  with_id = put_le 4 0 0 p.source_node_id zeros

  abbrev with_step : List ℕ
  with_step = put_le 8 0 4 p.step_accumulator with_id

  abbrev with_phase : List ℕ
  with_phase = write with_step 12 p.omnion_phase

  abbrev with_board : List ℕ
  with_board = memcpy 32 with_phase 16 p.board_matrix 0

  abbrev packed : List ℕ
  packed = memcpy 16 with_board 48 p.transport_digest 0

  length-zeros : length zeros ≡ 64
  length-zeros = length-replicate 64 0

  length-with_id : length with_id ≡ 64
  length-with_id = length-put_le 4 0 0 p.source_node_id zeros ∙ length-zeros

  length-with_step : length with_step ≡ 64
  length-with_step = length-put_le 8 0 4 p.step_accumulator with_id ∙ length-with_id

  length-with_phase : length with_phase ≡ 64
  length-with_phase = length-set with_step 12 p.omnion_phase ∙ length-with_step

  length-with_board : length with_board ≡ 64
  length-with_board = length-memcpy 32 with_phase 16 p.board_matrix 0 ∙ length-with_phase

  before_board : (j : ℕ) → j < 16 → byte_at packed j ≡ byte_at with_phase j
  before_board j h =
      memcpy_outside 16 with_board 48 p.transport_digest 0 j (rw length-with_board (omega arith))
        (inl (omega arith))
      ∙ memcpy_outside 32 with_phase 16 p.board_matrix 0 j (rw length-with_phase (omega arith))
          (inl h)

  id_bytes : (k : ℕ) → k < 4 → byte_at packed (0 + k) ≡ byte_of p.source_node_id k
  id_bytes k h =
      before_board (0 + k) (omega arith)
      ∙ get_or-set_ne with_step 12 (0 + k) p.omnion_phase 0 (omega arith)
      ∙ put_le_elsewhere 8 0 4 p.step_accumulator (0 + k) with_id (rw length-with_id (omega arith))
          (inl (omega arith))
      ∙ put_le_inside 4 0 0 p.source_node_id k zeros (rw length-zeros (omega arith)) (omega arith)
          (omega arith)

  step_bytes : (k : ℕ) → k < 8 → byte_at packed (4 + k) ≡ byte_of p.step_accumulator k
  step_bytes k h =
      before_board (4 + k) (omega arith)
      ∙ get_or-set_ne with_step 12 (4 + k) p.omnion_phase 0 (omega arith)
      ∙ put_le_inside 8 0 4 p.step_accumulator k with_id (rw length-with_id (omega arith))
          (omega arith) (omega arith)

  board_bytes : (k : ℕ) → k < 32 → byte_at packed (16 + k) ≡ byte_at p.board_matrix k
  board_bytes k h =
      memcpy_outside 16 with_board 48 p.transport_digest 0 (16 + k)
        (rw length-with_board (omega arith)) (inl (omega arith))
      ∙ memcpy_inside 32 with_phase 16 p.board_matrix 0 k (rw length-with_phase (omega arith)) h
      ∙ ap (byte_at p.board_matrix) (omega arith)

  digest_bytes : (k : ℕ) → k < 16 → byte_at packed (48 + k) ≡ byte_at p.transport_digest k
  digest_bytes k h =
      memcpy_inside 16 with_board 48 p.transport_digest 0 k (rw length-with_board (omega arith)) h
      ∙ ap (byte_at p.transport_digest) (omega arith)

  phase_byte : byte_at packed 12 ≡ p.omnion_phase
  phase_byte =
      before_board 12 (omega arith)
      ∙ get_or-set_self with_step 12 p.omnion_phase 0 (rw length-with_step (omega arith))

pub length-pack_raw : (p : GossipPacket) → IsPacket p → length (pack_raw p) ≡ 64
unfolding pack_raw
length-pack_raw p fits =
    length-memcpy 16 (with_board p fits) 48 p.transport_digest 0 ∙ length-with_board p fits

-- A packet whose node id fits 32 bits and step 64, with 32 board bytes and 16 digest bytes,
-- packed into a raw frame and unpacked over any packet with arrays of those lengths, is the
-- packet itself.
pub unpack_raw-pack_raw :
    (p old : GossipPacket)
    → IsPacket p
    → length old.board_matrix ≡ 32
    → length old.transport_digest ≡ 16
    → unpack_raw (pack_raw p) old ≡ p
unfolding unpack_raw pack_raw
unpack_raw-pack_raw p old fits board digest =
    rw
      (
        get_le-put_le 32 4 0 p.source_node_id (packed p fits) (omega arith) fits.node
            (id_bytes p fits),
        get_le-put_le 64 8 4 p.step_accumulator (packed p fits) (omega arith) fits.step
            (step_bytes p fits),
        phase_byte p fits,
        memcpy_whole 32 old.board_matrix (packed p fits) p.board_matrix 16 board fits.board
            (board_bytes p fits),
        memcpy_whole 16 old.transport_digest (packed p fits) p.transport_digest 48 digest
            fits.digest (digest_bytes p fits),
      )
      refl
