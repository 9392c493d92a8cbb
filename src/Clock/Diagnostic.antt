-- ===== src/Clock/Diagnostic.antt =====
-- The diagnostic check of two peers, and the three numbers of their states that it compares.
use omino.Prelude.{ℕ, zero, suc, ◌+◌, ◌-◌, ◌/◌, ◌^◌, ◌≤◌, ◌<◌}
use omino.Prelude.{◌≡◌, ◌↔◌, arith}
use omino.Prelude.{true, ◌&&◌, u32, ◌==◌}
use omino.Delta.Period.{iterate}
use omino.Board.Popcount.Bytes.{ones}
use omino.Clock.{
  clock_oscillate, ClockSyncPeer, make_clock, classify_clock_state, bit_length16, popcount16,
  clock_sync_peer_init, clock_sync_check_diagnostic,
}
use omino.Clock.Bands.{
  bit_length16_lem, popcount16-ones, crossings, texture-crossings, texture_even,
}
use omino.Clock.Sync.{advance, clock-advance_init, iterate-lt}

-- Two words with the same bit length, as many set bits and as many cyclic changes of bit.
pub record SameBand (s t : ℕ) : Type 0 where
  pub width : (k : ℕ) → (s < 2 ^ k) ↔ (t < 2 ^ k)
  pub density : ones 16 s ≡ ones 16 t
  pub texture : crossings 16 0 s ≡ crossings 16 0 t

ones-le : (n v : ℕ) → ones n v ≤ n
unfolding ones
ones-le zero v = omega arith
ones-le (suc n) v = omega (arith, ones-le n (v / 2))

width_iff :
    (s t : ℕ)
    → s < 2 ^ 16
    → t < 2 ^ 16
    → (bit_length16 s ≡ bit_length16 t) ↔ ((k : ℕ) → (s < 2 ^ k) ↔ (t < 2 ^ k))
width_iff s t hs ht =
    let fits_s = λ (k : ℕ). (bit_length16_lem s k hs).1 in
    let fits_t = λ (k : ℕ). (bit_length16_lem t k ht).1 in
    (
      λ e k. (
        λ small. (fits_t k).0 (rw (← e) ((fits_s k).1 small)),
        λ small. (fits_s k).0 (rw e ((fits_t k).1 small)),
      ),
      λ same.
          let below = (fits_s (bit_length16 t)).1 ((same _).1 ((fits_t _).0 (omega arith))) in
          let above = (fits_t (bit_length16 s)).1 ((same _).0 ((fits_s _).0 (omega arith))) in
          omega arith,
    )

-- The band of a 16-bit word, in numbers that wrap nowhere.
module _ (s : ℕ) (h : s < 2 ^ 16) where
  width_small : u32 (u32 (bit_length16 s) + 2 ^ 32 - 0) ≡ bit_length16 s
  width_small = omega (arith, (bit_length16_lem s 0 h).0)

  density_small : u32 (u32 (popcount16 s) + 2 ^ 32 - 0) ≡ ones 16 s
  density_small = omega (arith, popcount16-ones s h, ones-le 16 s)

  texture_small : u32 (u32 (classify_clock_state s).texture + 2 ^ 32 - 0) ≡ crossings 16 0 s
  texture_small = omega (arith, texture-crossings s, (texture_even s).0)

three_equal :
    (a a' b b' c c' : ℕ)
    → ((a == a' && b == b' && c == c') ≡ true) ↔ ((a ≡ a') × (b ≡ b') × (c ≡ c'))
three_equal a a' b b' c c' = ground arith

-- The check on two clocks that are made from 16-bit words.
diagnostic_clocks :
    (p q : ClockSyncPeer) (s t : ℕ)
    → p.clock ≡ make_clock s
    → q.clock ≡ make_clock t
    → s < 2 ^ 16
    → t < 2 ^ 16
    → (clock_sync_check_diagnostic p q ≡ true) ↔ SameBand s t
unfolding clock_sync_check_diagnostic make_clock classify_clock_state
diagnostic_clocks p q s t hp hq hs ht =
    let widths = width_iff s t hs ht in
    rw
      (
        hp,
        hq,
        width_small s hs,
        width_small t ht,
        density_small s hs,
        density_small t ht,
        texture_small s hs,
        texture_small t ht,
      )
      (
        λ e.
            let (wide, density, texture) = (three_equal _ _ _ _ _ _).0 e in
            record { width = widths.0 wide; density = density; texture = texture },
        λ same. (three_equal _ _ _ _ _ _).1 (widths.1 same.width, same.density, same.texture),
      )

-- Two peers with 16-bit seeds, after any numbers of ticks, pass the diagnostic check exactly
-- when their states lie below the same powers of two, have as many set bits, and as many places
-- where cyclically neighbouring bits differ.
pub clock_sync_check_diagnostic-advance :
    (m n seed seed' : ℕ)
    → seed < 2 ^ 16
    → seed' < 2 ^ 16
    → (clock_sync_check_diagnostic
          (advance m (clock_sync_peer_init seed))
          (advance n (clock_sync_peer_init seed'))
        ≡ true)
      ↔ SameBand (iterate m clock_oscillate seed) (iterate n clock_oscillate seed')
clock_sync_check_diagnostic-advance m n seed seed' h h' =
    diagnostic_clocks _ _ _ _ (clock-advance_init m seed) (clock-advance_init n seed')
      (iterate-lt m seed h) (iterate-lt n seed' h')
