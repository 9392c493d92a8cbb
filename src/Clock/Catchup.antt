-- ===== src/Clock/Catchup.antt =====
-- Peers of one seed: how far apart they can be.
use omino.Prelude.{ℕ, zero, suc, ◌+◌, ◌*◌, ◌/◌, ◌%◌, ◌^◌, ◌<◌}
use omino.Prelude.{◌≡◌, sym, ap, ◌∙◌, arith}
use omino.Prelude.{true}
use omino.Prelude.{==_iff}
use omino.Delta.Period.{iterate}
use omino.Clock.{
  clock_oscillate, clock_sync_peer_init, clock_sync_peer_tick, clock_sync_check_resolved,
}
use omino.Clock.Period.{clock_oscillate_period}
use omino.Clock.Sync.{advance, state-advance, resolved_states, state-lt, iterate-lt}

advance-add : (k m : ℕ) (p : _) → advance k (advance m p) ≡ advance (k + m) p
unfolding advance
advance-add zero m p = ap (λ (n : ℕ). advance n p) (omega arith)
advance-add (suc k) m p =
    ap clock_sync_peer_tick (advance-add k m p)
    ∙ ap (λ (n : ℕ). advance n p) {x = suc (k + m)} (omega arith)

iterate-eights :
    (q r x : ℕ) → x < 2 ^ 16 → iterate (q * 8 + r) clock_oscillate x ≡ iterate r clock_oscillate x
iterate-eights zero r x h = ap (λ (n : ℕ). iterate n clock_oscillate x) (omega arith)
iterate-eights (suc q) r x h =
    ap (λ (n : ℕ). iterate n clock_oscillate x)
      {y = suc (suc (suc (suc (suc (suc (suc (suc (q * 8 + r))))))))} (omega arith)
    ∙ clock_oscillate_period (iterate (q * 8 + r) clock_oscillate x) (iterate-lt (q * 8 + r) x h)
    ∙ iterate-eights q r x h

iterate_mod :
    (n x : ℕ) → x < 2 ^ 16 → iterate n clock_oscillate x ≡ iterate (n % 8) clock_oscillate x
iterate_mod n x h =
    ap (λ (k : ℕ). iterate k clock_oscillate x) (omega arith) ∙ iterate-eights (n / 8) (n % 8) x h

-- Of two peers with one 16-bit seed, whatever numbers of ticks they have made, the first is in
-- sync by the exact check, under any orientation, after fewer than eight ticks more.
pub clock_sync_check_resolved_catches_up :
    (m n seed omnion : ℕ)
    → seed < 2 ^ 16
    → (k : ℕ) × (k < 8)
      × (clock_sync_check_resolved
            (advance k (advance m (clock_sync_peer_init seed)))
            (advance n (clock_sync_peer_init seed))
            omnion
          ≡ true)
clock_sync_check_resolved_catches_up m n seed omnion h =
    let k = (n + 7 * m) % 8 in
    (
      k,
      omega arith,
      rw (advance-add k m (clock_sync_peer_init seed)) (
          resolved_states (advance (k + m) (clock_sync_peer_init seed))
            (advance n (clock_sync_peer_init seed)) omnion (state-lt (k + m) seed h)
            (state-lt n seed h)
          ∙ (==_iff _ _).1 (
              state-advance (k + m) seed
              ∙ iterate_mod (k + m) seed h
              ∙ ap (λ (j : ℕ). iterate j clock_oscillate seed) (omega arith)
              ∙ sym (iterate_mod n seed h)
              ∙ sym (state-advance n seed))),
    )
