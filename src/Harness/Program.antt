-- ===== src/Harness/Program.antt =====
-- The whole of `main`, over a `double`.
use omino.Prelude.{ℕ}
use omino.Prelude.{Option, some}
use omino.Prelude.{◌>>=◌}
use omino.Double.{Double}
use omino.Hamming.{ScopeQuartet}
use omino.Harness.{CoproductReport, UnionReport, blackboard_sections}
use omino.Harness.Laws.{
  DeltaReport, delta_section, MirrorReport, mirror_section, RouterReport, router_section,
}
use omino.Harness.Clocks.{HammingReport, hamming_section, ClockReport, clock_section}

pub record MainReport {ℓ} (W : Type ℓ) : Type ℓ where
  pub coproduct : CoproductReport
  pub rejected : UnionReport
  pub lawful : UnionReport
  pub delta : DeltaReport
  pub mirror : MirrorReport
  pub router : RouterReport
  pub hamming : HammingReport W
  pub clock : ClockReport W
  pub retained : ℕ

abbrev pub sample_quartet : ScopeQuartet
sample_quartet = record { fs = 1; gs = 0; rs = 1; us = 1 }

-- The result of the first call, `omi_verify_cons_recovery_law`, is not used.
unfoldable pub main {ℓ} : (W : Type ℓ) ⦃d : Double W⦄ → Option (MainReport W)
main W = do
  (coproduct, rejected, lawful, retained) ← blackboard_sections
  some record {
    coproduct = coproduct;
    rejected = rejected;
    lawful = lawful;
    delta = delta_section;
    mirror = mirror_section 0x48;
    router = router_section 0xA28B;
    hamming = hamming_section sample_quartet 5;
    clock = clock_section W;
    retained = retained;
  }
