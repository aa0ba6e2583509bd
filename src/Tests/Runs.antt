-- ===== src/Tests/Runs.antt =====
-- Runs of commands.
use cuddl.Base.{
  ok, true, ◌≢◌, Bool, true, none, [], ◌==◌, if◌then◌else◌, ◌+◌, ◌≡◌, refl, false, err, eoverflow,
  pos, arith,
}
use cuddl.Kernel.{Kernel}
use cuddl.Refs.Counted.{memregions, held}
use cuddl.Ioctl.{manager_ioctl}
use cuddl.Ioctl.Commands.{Call, memregion_claim_uio, get_max_managed_devices}
use cuddl.Ioctl.Claim.{memregion_claim_at}
use cuddl.Ioctl.Claim.Info.{memregion_info_uncopied}
use cuddl.Ioctl.Sound.{Sound, Room}
use cuddl.Ioctl.Reach.{Reach, start, calls, Reach-Sound, manager_ioctl-Sound}
use cuddl.View.Ledger.{view}
use cuddl.View.Steps.{deed, Accounted}
use cuddl.View.Refines.{manager_ioctl-Accounted, History, events, Reach-History}
use cuddl.Ioctl.Ends.{AllComplete}
use cuddl.Ioctl.Total.{Returned, manager_ioctl-Returned}
use cuddl.Ioctl.Commands.{ReleaseData}
use cuddl.Ioctl.Release.{memregion_release_at, eventsrc_release_at}
use cuddl.Ioctl.Claim.{eventsrc_claim_at}
use cuddl.Ioctl.Claim.Kinds.{memregion_claim_at-Claimed, eventsrc_claim_at-Claimed}
use cuddl.Ioctl.RoundTrip.{memregion_claim_at-release_at, eventsrc_claim_at-release_at}
use cuddl.Refs.Counted.{eventsrcs, Same}
use cuddl.Tests.World.{region, no_region, claimed, idle, fine, claim}

idle-Sound : Sound idle
unfolding held
idle-Sound = record {
  regions = record {
    counted = λ s i n. ground arith;
    managed = λ s i n. ground arith;
    distinct = λ s t d n. ground arith;
  };
  sources = record {
    counted = λ s i n. ground arith;
    managed = λ s i n. ground arith;
    distinct = λ s t d n. ground arith;
  };
}

idle-Room : Room memregions idle
idle-Room s i = ground arith

abbrev after_claim : Kernel
after_claim = (manager_ioctl fine 4096 (memregion_claim_uio claim) idle).1

manager_ioctl-Sound_example : Sound (manager_ioctl fine 4096 (memregion_claim_uio claim) idle).1
manager_ioctl-Sound_example =
    manager_ioctl-Sound fine 4096 (memregion_claim_uio claim) idle idle-Sound idle-Room

two_calls : Reach idle (manager_ioctl fine 4096 (get_max_managed_devices (pos 65536)) after_claim).1
two_calls =
    calls fine 4096 (get_max_managed_devices (pos 65536))
      (calls fine 4096 (memregion_claim_uio claim) start idle-Room) tt

Reach-Sound_example :
    Sound (manager_ioctl fine 4096 (get_max_managed_devices (pos 65536)) after_claim).1
Reach-Sound_example = Reach-Sound idle-Sound two_calls

abbrev uncopied : Call
uncopied = record fine { copy_out = false }

memregion_info_uncopied_example :
    let (r, k') = memregion_claim_at uncopied 4096 false false claim 0 0 claimed in
    (r ≡ err eoverflow) × (memregions.count k' 1 0 + 1 ≡ 1) × (k'.mem_refs ≡ claimed.mem_refs)
memregion_info_uncopied_example =
    memregion_info_uncopied uncopied 4096 0 0 claim claimed refl (omega arith) (omega arith)

manager_ioctl-Accounted_example :
    let (r, k') = manager_ioctl fine 4096 (memregion_claim_uio claim) idle in
    Accounted (deed (memregion_claim_uio claim)) (view idle) r (view k')
manager_ioctl-Accounted_example = manager_ioctl-Accounted fine 4096 (memregion_claim_uio claim) idle

Reach-History_example :
    History
      (view idle)
      (events two_calls)
      (view (manager_ioctl fine 4096 (get_max_managed_devices (pos 65536)) after_claim).1)
Reach-History_example = Reach-History idle-Sound two_calls

named_region :
    (b : Bool)
    → (if b then region 0 else no_region).type ≢ 0
    → (if b then region 0 else no_region).name ≢ none
named_region true t = λ e. cc
named_region false t = absurd (t refl)

idle-AllComplete : AllComplete idle
idle-AllComplete s n = record {
  group = λ e. cc;
  name = λ e. cc;
  regions = λ i t. named_region (i == 0) t;
  sources = λ i t. λ e. cc;
  is_enabled = λ i. λ e. cc;
}

manager_ioctl-Returned_example :
    Returned [] (manager_ioctl fine 4096 (memregion_claim_uio claim) idle)
manager_ioctl-Returned_example =
    manager_ioctl-Returned fine 4096 (memregion_claim_uio claim) idle refl idle-AllComplete

abbrev release : ReleaseData
release = record {
  version_code = claim.version_code;
  token = record { device_index = pos 0; resource_index = pos 0 };
  pid = claim.pid;
}

memregion_claim_at-release_at_example :
    let (r, k2) =
      memregion_release_at release 0 0 (memregion_claim_at fine 4096 false true claim 0 0 idle).1 in
    (r ≡ ok 0) × Same memregions idle k2
memregion_claim_at-release_at_example =
    memregion_claim_at-release_at fine 4096 false claim release 0 0 idle (λ e. cc) (omega arith)
      refl granted
  where
    granted : (memregion_claim_at fine 4096 false true claim 0 0 idle).0 ≡ ok 0
    granted =
        (memregion_claim_at-Claimed fine 4096 false claim 0 0 idle (λ e. cc) (omega arith)).returns

eventsrc_claim_at-release_at_example :
    let (r, k2) =
      eventsrc_release_at release 0 0 (eventsrc_claim_at fine false true claim 0 0 idle).1 in
    (r ≡ ok 0) × Same eventsrcs idle k2
eventsrc_claim_at-release_at_example =
    eventsrc_claim_at-release_at fine false claim release 0 0 idle (λ e. cc) (omega arith) refl
      granted
  where
    granted : (eventsrc_claim_at fine false true claim 0 0 idle).0 ≡ ok 0
    granted = (eventsrc_claim_at-Claimed fine false claim 0 0 idle (λ e. cc) (omega arith)).returns
