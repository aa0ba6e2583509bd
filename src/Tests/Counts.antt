-- ===== src/Tests/Counts.antt =====
-- Counts and references at concrete inputs.
use cuddl.Base.{false, true, refl, arith}
use cuddl.Refs.Counted.{Counted, memregions, eventsrcs, held}
use cuddl.Refs.{free_refs_for_pid}
use cuddl.Refs.Exit.{CleanedUp, free_refs_for_pid-CleanedUp}
use cuddl.Ioctl.Claim.Outcome.{Claimed}
use cuddl.Ioctl.Claim.Kinds.{memregion_claim_at-Claimed, mem_busy}
use cuddl.Ioctl.Claim.{memregion_claim_at, ref_of}
use cuddl.Tests.World.{claimed, fine, claim, idle}

pub claimed-Counted : Counted memregions claimed
unfolding held
claimed-Counted = record {
  counted = λ s i n. ground arith;
  managed = λ s i n. ground arith;
  distinct = λ s t d n. ground arith;
}

pub claimed_events-Counted : Counted eventsrcs claimed
unfolding held
claimed_events-Counted = record {
  counted = λ s i n. ground arith;
  managed = λ s i n. ground arith;
  distinct = λ s t d n. ground arith;
}

free_refs_for_pid-CleanedUp_example : CleanedUp 7 claimed (free_refs_for_pid 7 claimed)
free_refs_for_pid-CleanedUp_example =
    free_refs_for_pid-CleanedUp 7 claimed refl claimed-Counted claimed_events-Counted

memregion_claim_at-Claimed_example :
    Claimed memregions fine 1 0
      (ref_of claim 0 0)
      (mem_busy 0 claim idle 1)
      idle
      (memregion_claim_at fine 4096 false true claim 0 0 idle)
memregion_claim_at-Claimed_example =
    memregion_claim_at-Claimed fine 4096 false claim 0 0 idle (omega arith) (omega arith)
