-- ===== src/Lib.antt =====
-- The omino coproduct partition runtime: src/omnicron-coproduct-partition.c, one file of
-- sections, each of which is a module here, and the programs under examples.
--
-- * Board is section 1: OmiBoard256, four lanes of 64 bits, and omi_board256_clear, set, test,
--   or, and, xor, popcount, with omi_plane_mirror. Board.Plane reads a board coordinate by
--   coordinate, Board.Popcount the count.
-- * UnionFind is section 3: omi_uf_init, omi_find, omi_union_validated. UnionFind.Forest holds
--   the invariant, UnionFind.Closure the comparison of a history of unions with the least
--   equivalence.
-- * Blackboard is sections 2, 4, 5, 7 and 9: the contributions, the fibers, omi_blackboard_init,
--   omi_blackboard_inject, omi_blackboard_cons, omi_blackboard_union and omi_make_contribution.
--   Blackboard.Invariant says what a well-formed blackboard is, Blackboard.Composition and
--   Blackboard.Unions are about the composition and the union of contributions,
--   Blackboard.Fibers what the loops over the fibers do, Blackboard.Origins the view that
--   forgets the order of injection, Blackboard.Runs what holds after any calls,
--   Blackboard.History which injections of a run are kept, by a specification on lists,
--   Blackboard.Refinement the same with the unions of the run, and Blackboard.Order runs that
--   inject in different orders.
-- * Router is section 6: nibble interleaving, OMI_SELECTOR_TABLE, omi_forward_map_quadrant,
--   omi_reverse_route and the self-checks.
-- * Cons is the fold of section 7 with its inverses; Delta and Segment are section 8; Validation
--   is omi_blackboard_validate_equivalence of section 9.
-- * Hamming is section 10: omi_encode_hamming, omi_hamming_syndrome, omi_hamming_secded_check
--   and the azimuth bytes; Hamming.Degrees is their conversion to degrees.
-- * Clock is section 11: omi_clock_oscillate, the bands, the centroid and the peers with their
--   two sync checks. Clock.Centroid is omi_resolve_vector_to_centroid and
--   omi_verify_centroid_alignment, Clock.Period the period of the clock, Clock.Catchup what it
--   means for two peers, Clock.Bands the three numbers of a band, Clock.Diagnostic the check
--   that compares them.
-- * Double is the floating-point type of these two: its operations are parameters, its laws a
--   record that the theorems take, and an instance shows that the laws can hold.
-- * Harness is main: each section is a function to the record of the values that it prints.
--   Harness.Laws has sections 7 to 9, Harness.Clocks 10 and 11, Harness.Program the whole;
--   Harness.Coproduct and Harness.Unions are about sections 1 to 6 on any data.
-- * Engine is examples/esp32/esp32_omi_core.c: esp32_cobs_decode_bounded, esp32_parse_hex_frame,
--   esp32_evaluate_parabolic_form and esp32_reconcile_interface. Engine.Bounded says where the
--   decoder writes, Engine.Agreement compares it with the decoder of the gossip packets,
--   Engine.Hex parses what an independent formatter writes, Engine.Case and Engine.Texts show
--   that nothing else is taken but for the case, Engine.Reconcile is the reconciliation.
-- * Cobs describes the framing apart from both programs: what a block is, what a stuffed text
--   is, and what it stands for.
-- * Gossip is examples/esp32/esp32_p2p_gossip.c: the little-endian fields, esp32_gossip_pack_raw
--   and unpack_raw, esp32_gossip_encode_frame and esp32_gossip_decode_and_verify. Gossip.Fields
--   reads a buffer after writes, Gossip.Packing is the round trip of a packet, Gossip.Encode and
--   Gossip.Deframe compare the two loops with Cobs, Gossip.RoundTrip is the round trip of a
--   frame, Gossip.Decode what the decoder does on any bytes.
-- * Demos has the emulated mains of these programs, and Demos.Delivery the exchange of one
--   packet. Boot.Envelope parses what an independent writer writes, Export.Compare and
--   Export.Compiled are about the comparison of images, Metatron.Places and Epistemic.Surface
--   about the two small cores.
-- * Radix is examples/radix/base_metric_seed_model.c, Boot is
--   examples/esp32/omi_boot_envelope.c, Media is examples/media/omi_media_bridge.c, Export is
--   examples/compiler/binary_export_verifier.c, Metatron is
--   examples/metatron/metatron_preclosure.c and Epistemic is
--   examples/esp32/omnicron_epistemic_core.c, each with the source's function names.
-- * Prelude holds the shared names, Boolean tests, arrays as lists, machine words and the lemmas
--   on bits. Tests runs the definitions on concrete data.
--
-- The parts meet where the code makes them meet: an injection reads and joins boards; a
-- composition folds with Cons, counts with Board and routes with Router; a validation folds and
-- asks Segment for the closure of a scope; a union on the blackboard hands its validation result
-- to UnionFind.
--
-- A function that writes through a pointer returns what it writes beside its result; where the C
-- code returns early without writing, the written part is none. Integers are natural numbers with
-- the wrap-around of their width written out. An array is a list of its C length, and a write out
-- of its bounds changes nothing; the invariants show that none happens.
--
-- The two while loops of omi_find take 257 units of fuel, one more than the capacity. That is
-- enough on every forest, since the ranks rise along a chain of parents and no rank passes the
-- number of elements; the initialised structure is a forest and every operation keeps it one. The
-- loops over bits run for the 16 rounds after which a 16-bit word is 0. The outer loop of the
-- gossip decoder takes one unit for each byte of the frame, and each round reads one at least; so
-- does the loop of esp32_cobs_decode_bounded, with one unit for each byte of its source. All
-- other loops have fixed bounds.
--
-- A double is an abstract type, and every law on it is bounded so that a 64-bit double meets it:
-- integers below 2 ^ 32 convert exactly, an operation whose exact result is such an integer, or
-- one divided by 256, gives it, the order is transitive, agrees on these integers and is kept by
-- a rounded sum, sqrt and atan2 are exact at squares and at the origin, and an angle of the first
-- quadrant between bytes has between 0 and 90 degrees. Rounding is not modelled beyond that.
--
-- Not modelled: the texts that main and the emulated mains print around their values; the headers
-- of a code generator under examples/tcg, which need an emulator that is not in the repository;
-- the reference copy of the program, the tests, the Haskell and Verilog models and the documents.
pub mod Prelude
pub mod Board
pub mod Router
pub mod Cons
pub mod UnionFind
pub mod Delta
pub mod Clock
pub mod Segment
pub mod Validation
pub mod Blackboard
pub mod Hamming
pub mod Harness
pub mod Tests
pub mod Gossip
pub mod Radix
pub mod Boot
pub mod Media
pub mod Export
pub mod Metatron
pub mod Epistemic
pub mod Cobs
pub mod Demos
pub mod Double
pub mod Engine
