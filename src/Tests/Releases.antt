-- ===== src/Tests/Releases.antt =====
-- Claims and releases on concrete inputs.
use cuddl.Base.{ℕ, ◌+◌, ◌≡◌, refl, true, false, pos, arith}
use cuddl.Refs.Counted.{memregions, eventsrcs, holds}
use cuddl.Ioctl.Claim.Outcome.{Claimed}
use cuddl.Ioctl.Claim.Kinds.{eventsrc_claim_at-Claimed, event_busy}
use cuddl.Ioctl.Claim.{eventsrc_claim_at, ref_of}
use cuddl.Ioctl.Commands.{ReleaseData}
use cuddl.Ioctl.Release.{memregion_release_ioctl, eventsrc_release_ioctl, memregion_release_at}
use cuddl.Ioctl.Release.Outcome.{
  ReleaseOutcome, memregion_release_ioctl-ReleaseOutcome, eventsrc_release_ioctl-ReleaseOutcome,
  memregion_release_at_unheld,
}
use cuddl.Tests.World.{claimed, fine, claim, idle}

abbrev release_as : ℕ → ReleaseData
release_as p = record {
  version_code = pos 65536;
  token = record { device_index = pos 0; resource_index = pos 0 };
  pid = p;
}

eventsrc_claim_at-Claimed_example :
    Claimed eventsrcs fine 1 0
      (ref_of claim 0 0)
      (event_busy 0 claim idle 1)
      idle
      (eventsrc_claim_at fine false true claim 0 0 idle)
eventsrc_claim_at-Claimed_example =
    eventsrc_claim_at-Claimed fine false claim 0 0 idle (omega arith) (omega arith)

memregion_release_ioctl-ReleaseOutcome_example :
    ReleaseOutcome memregions 5
      (release_as 7)
      claimed
      (memregion_release_ioctl fine (release_as 7) claimed)
memregion_release_ioctl-ReleaseOutcome_example =
    memregion_release_ioctl-ReleaseOutcome fine (release_as 7) claimed

eventsrc_release_ioctl-ReleaseOutcome_example :
    ReleaseOutcome eventsrcs 1
      (release_as 7)
      claimed
      (eventsrc_release_ioctl fine (release_as 7) claimed)
eventsrc_release_ioctl-ReleaseOutcome_example =
    eventsrc_release_ioctl-ReleaseOutcome fine (release_as 7) claimed

process_8_holds_nothing : holds 0 0 8 claimed.mem_refs ≡ false
unfolding holds
process_8_holds_nothing = refl

memregion_release_at_unheld_example :
    let k' = (memregion_release_at (release_as 8) 0 0 claimed).1 in
    (memregions.count k' 1 0 + 1 ≡ 1) × (k'.mem_refs ≡ claimed.mem_refs)
memregion_release_at_unheld_example =
    memregion_release_at_unheld (release_as 8) 0 0 claimed (omega arith) (omega arith)
      process_8_holds_nothing
