-- ===== src/Clock/Sync.antt =====
-- Local and remote peers: what the exact check and the diagnostic check decide.
use omino.Prelude.{ℕ, zero, suc, ◌^◌, ◌<◌}
use omino.Prelude.{◌≡◌, refl, ap, ap₂, ◌∙◌, ◌↔◌}
use omino.Prelude.{true}
use omino.Prelude.{◌==◌, ==_iff}
use native.Mathlib.Nat.{mod-eq_of_lt}
use omino.Prelude.Bits.Xor.{bit_xor-zero}
use omino.Delta.Period.{iterate}
use omino.Clock.{clock_oscillate, ClockState, make_clock, clock_tick, centroid_resolution}
use omino.Clock.{
  ClockSyncPeer, clock_sync_peer_init, clock_sync_peer_tick, clock_sync_check_resolved,
}
use omino.Clock.Period.{clock_oscillate_inj, clock_oscillate-lt, ticks, ticks-make_clock}

-- `n` ticks of a peer.
unfoldable pub advance : ℕ → ClockSyncPeer → ClockSyncPeer
advance zero p = p
advance (suc n) p = clock_sync_peer_tick (advance n p)

clock-advance : (n : ℕ) (p : ClockSyncPeer) → (advance n p).clock ≡ ticks n p.clock
unfolding advance ticks clock_sync_peer_tick
clock-advance zero p = refl
clock-advance (suc n) p = ap clock_tick (clock-advance n p)

clock-init : (seed : ℕ) → (clock_sync_peer_init seed).clock ≡ make_clock seed
unfolding clock_sync_peer_init
clock-init seed = refl

pub clock-advance_init :
    (n seed : ℕ)
    → (advance n (clock_sync_peer_init seed)).clock ≡ make_clock (iterate n clock_oscillate seed)
clock-advance_init n seed =
    clock-advance n (clock_sync_peer_init seed)
    ∙ ap (ticks n) (clock-init seed)
    ∙ ticks-make_clock n seed

pub iterate-lt : (n x : ℕ) → x < 2 ^ 16 → iterate n clock_oscillate x < 2 ^ 16
iterate-lt zero x h = h
iterate-lt (suc n) x h = clock_oscillate-lt (iterate n clock_oscillate x) (iterate-lt n x h)

iterate_inj :
    (n x y : ℕ)
    → x < 2 ^ 16
    → y < 2 ^ 16
    → iterate n clock_oscillate x ≡ iterate n clock_oscillate y
    → x ≡ y
iterate_inj zero x y hx hy e = e
iterate_inj (suc n) x y hx hy e = iterate_inj n x y hx hy (
    clock_oscillate_inj (iterate n clock_oscillate x) (iterate n clock_oscillate y)
      (iterate-lt n x hx) (iterate-lt n y hy) e)

-- For a 16-bit state the centroid resolution is the state itself, whatever the orientation.
pub centroid_resolution_lem :
    (state omnion : ℕ) → state < 2 ^ 16 → centroid_resolution state omnion ≡ state
unfolding centroid_resolution
centroid_resolution_lem state omnion h = rw (bit_xor-zero state) (mod-eq_of_lt h)

pub state-advance :
    (n seed : ℕ)
    → (advance n (clock_sync_peer_init seed)).clock.state ≡ iterate n clock_oscillate seed
unfolding make_clock
state-advance n seed = ap (λ (c : ClockState). c.state) (clock-advance_init n seed)

pub resolved_states :
    (p q : ClockSyncPeer) (omnion : ℕ)
    → p.clock.state < 2 ^ 16
    → q.clock.state < 2 ^ 16
    → clock_sync_check_resolved p q omnion ≡ (p.clock.state == q.clock.state)
unfolding clock_sync_check_resolved
resolved_states p q omnion hp hq =
    ap₂ ◌==◌ (centroid_resolution_lem p.clock.state omnion hp)
      (centroid_resolution_lem q.clock.state omnion hq)

pub state-lt :
    (n seed : ℕ) → seed < 2 ^ 16 → (advance n (clock_sync_peer_init seed)).clock.state < 2 ^ 16
state-lt n seed h = rw (state-advance n seed) (iterate-lt n seed h)

-- Two peers with 16-bit seeds that have made equally many ticks are in sync by the exact check,
-- under any orientation, exactly when they had the same seed.
pub clock_sync_check_resolved-advance :
    (n seed seed' omnion : ℕ)
    → seed < 2 ^ 16
    → seed' < 2 ^ 16
    → (clock_sync_check_resolved
          (advance n (clock_sync_peer_init seed))
          (advance n (clock_sync_peer_init seed'))
          omnion
        ≡ true)
      ↔ (seed ≡ seed')
clock_sync_check_resolved-advance n seed seed' omnion h h' =
    rw
      (
        resolved_states (advance n (clock_sync_peer_init seed))
            (advance n (clock_sync_peer_init seed')) omnion (state-lt n seed h)
            (state-lt n seed' h'),
        state-advance n seed,
        state-advance n seed',
      )
      (
        λ e. iterate_inj n seed seed' h h' ((==_iff _ _).0 e),
        λ e. (==_iff _ _).1 (ap (iterate n clock_oscillate) e),
      )
