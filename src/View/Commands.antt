-- ===== src/View/Commands.antt =====
-- Each command of cuddlk_manager_ioctl (kernel/linux/src/cuddlk_manager_linux.c) is a change of the
-- ledger, or none.
use cuddl.Base.{ℕ, refl, true, false, some, List}
use cuddl.Kernel.{Kernel, Reply, raise, ResourceRef}
use cuddl.Refs.{remove_ref}
use cuddl.Ioctl.{dispatch}
use cuddl.Ioctl.Commands
use cuddl.Ioctl.Commands.{Call, ClaimData, ReleaseData, Request}
use cuddl.Ioctl.Claim.{memregion_claim_ioctl, eventsrc_claim_ioctl}
use cuddl.Ioctl.Claim.Cases.{memregion_claim_ioctl_cases, eventsrc_claim_ioctl_cases}
use cuddl.Ioctl.Release.{memregion_release_ioctl, eventsrc_release_ioctl}
use cuddl.Ioctl.Stays
use cuddl.View.Lists.{
  Lists, told, memregion_decr-Keeps, eventsrc_decr-Keeps, memregion_claim_at-Leaves,
  eventsrc_claim_at-Leaves,
}
use cuddl.View.Ledger.{region, source, view, region_dropped, source_dropped}
use cuddl.View.Steps.{
  asks, releases, deed, Accounted, accounted, asked, shown, same, memregion_claim-Accounted,
  eventsrc_claim-Accounted,
}
use cuddl.View.Releases.{memregion_release_ioctl-Leaves, eventsrc_release_ioctl-Leaves}

module _ (k0 : Kernel) where
  abbrev m0 : List ResourceRef
  m0 = k0.mem_refs

  abbrev e0 : List ResourceRef
  e0 = k0.event_refs

  memregion_release-Accounted :
      (c : Call) (s : ReleaseData)
      → let (r, k) = memregion_release_ioctl c s k0 in
        Accounted (releases region s.token s.pid) (view k0) r (view k)
  memregion_release-Accounted c s =
      accounted k0 (releases region s.token s.pid) _
        (λ k (slot, i, d, r, h). (
          slot,
          i,
          d,
          r,
          shown _ (remove_ref slot i s.pid m0) e0 k (region_dropped slot i s.pid m0 e0) h,
        ))
        _ _ ((memregion_release_ioctl-Leaves m0 e0 c s).at k0 (refl, refl))

  eventsrc_release-Accounted :
      (c : Call) (s : ReleaseData)
      → let (r, k) = eventsrc_release_ioctl c s k0 in
        Accounted (releases source s.token s.pid) (view k0) r (view k)
  eventsrc_release-Accounted c s =
      accounted k0 (releases source s.token s.pid) _
        (λ k (slot, i, d, r, h). (
          slot,
          i,
          d,
          r,
          shown _ m0 (remove_ref slot i s.pid e0) k (source_dropped slot i s.pid m0 e0) h,
        ))
        _ _ ((eventsrc_release_ioctl-Leaves m0 e0 c s).at k0 (refl, refl))

  memregion_info-Accounted :
      (c : Call) (z : ℕ) (s : ClaimData)
      → let (r, k) = memregion_claim_ioctl c z false false s k0 in
        Accounted asks (view k0) r (view k)
  memregion_info-Accounted c z s =
      memregion_claim_ioctl_cases (λ r. Accounted asks (view k0) r.0 (view r.1)) k0
        (λ x. same m0 e0) (λ q i x. same m0 e0) c z false false s
        λ slot i b l there.
          accounted k0 asks (Lists m0 e0) (λ k h. shown (view k0) m0 e0 k (same m0 e0) h) _ _
            ((memregion_claim_at-Leaves m0 e0 c s slot i z false false).at k0 (refl, refl))

  eventsrc_info-Accounted :
      (c : Call) (s : ClaimData)
      → let (r, k) = eventsrc_claim_ioctl c false false s k0 in Accounted asks (view k0) r (view k)
  eventsrc_info-Accounted c s =
      eventsrc_claim_ioctl_cases (λ r. Accounted asks (view k0) r.0 (view r.1)) k0 (λ x. same m0 e0)
        (λ q i x. same m0 e0) c false false s
        λ slot i b l there.
          accounted k0 asks (Lists m0 e0) (λ k h. shown (view k0) m0 e0 k (same m0 e0) h) _ _
            ((eventsrc_claim_at-Leaves m0 e0 c s slot i false false).at k0 (refl, refl))

  abbrev still : (k : Kernel) (r : Reply) → Lists m0 e0 k → Lists m0 e0 (record k { user = some r })
  still = told m0 e0

  pub dispatch-Accounted :
      (c : Call) (z : ℕ) (request : Request)
      → let (r, k) = dispatch c z request k0 in Accounted (deed request) (view k0) r (view k)
  unfolding dispatch raise
  dispatch-Accounted c z (Commands.memregion_claim_udd s) = memregion_claim-Accounted k0 c s z true
  dispatch-Accounted c z (Commands.memregion_claim_uio s) = memregion_claim-Accounted k0 c s z false
  dispatch-Accounted c z (Commands.get_memregion_info s) = memregion_info-Accounted c z s
  dispatch-Accounted c z (Commands.eventsrc_claim_udd s) = eventsrc_claim-Accounted k0 c s true
  dispatch-Accounted c z (Commands.eventsrc_claim_uio s) = eventsrc_claim-Accounted k0 c s false
  dispatch-Accounted c z (Commands.get_eventsrc_info s) = eventsrc_info-Accounted c s
  dispatch-Accounted c z (Commands.memregion_release_udd s) = memregion_release-Accounted c s
  dispatch-Accounted c z (Commands.memregion_release_uio s) = memregion_release-Accounted c s
  dispatch-Accounted c z (Commands.eventsrc_release_udd s) = eventsrc_release-Accounted c s
  dispatch-Accounted c z (Commands.eventsrc_release_uio s) = eventsrc_release-Accounted c s
  dispatch-Accounted c z (Commands.get_max_managed_devices v) =
      asked k0 (Stays.Keeps-constant_ioctl still c v _)
  dispatch-Accounted c z (Commands.get_max_dev_mem_regions v) =
      asked k0 (Stays.Keeps-constant_ioctl still c v _)
  dispatch-Accounted c z (Commands.get_max_dev_events v) =
      asked k0 (Stays.Keeps-constant_ioctl still c v _)
  dispatch-Accounted c z (Commands.get_kernel_version_code v) =
      asked k0 (Stays.Keeps-constant_ioctl still c v _)
  dispatch-Accounted c z (Commands.get_memregion_id s) =
      asked k0 (Stays.Keeps-get_memregion_id_ioctl still c s)
  dispatch-Accounted c z (Commands.get_eventsrc_id s) =
      asked k0 (Stays.Keeps-get_eventsrc_id_ioctl still c s)
  dispatch-Accounted c z (Commands.get_memregion_ref_count s) =
      asked k0 (Stays.Keeps-memregion_ref_count_ioctl still c s)
  dispatch-Accounted c z (Commands.decrement_memregion_ref_count s) =
      asked k0
        (Stays.Keeps-decrement_memregion_ioctl still c s (λ q i. memregion_decr-Keeps m0 e0 0 i q))
  dispatch-Accounted c z (Commands.get_eventsrc_ref_count s) =
      asked k0 (Stays.Keeps-eventsrc_ref_count_ioctl still c s)
  dispatch-Accounted c z (Commands.decrement_eventsrc_ref_count s) =
      asked k0
        (Stays.Keeps-decrement_eventsrc_ioctl still c s (λ q i. eventsrc_decr-Keeps m0 e0 0 i q))
  dispatch-Accounted c z Commands.janitor_register_pid = same m0 e0
  dispatch-Accounted c z (Commands.get_kernel_commit_id v) =
      asked k0 (Stays.Keeps-get_kernel_commit_id_ioctl still c v)
  dispatch-Accounted c z (Commands.get_kernel_variant v) =
      asked k0 (Stays.Keeps-get_kernel_variant_ioctl still c v)
  dispatch-Accounted c z (Commands.get_driver_info s) =
      asked k0 (Stays.Keeps-info_ioctl still c _ s)
  dispatch-Accounted c z (Commands.get_hw_info s) = asked k0 (Stays.Keeps-info_ioctl still c _ s)
  dispatch-Accounted c z (Commands.eventsrc_is_enabled s) =
      asked k0 (Stays.Keeps-eventsrc_is_enabled_ioctl still c s)
  dispatch-Accounted c z Commands.unknown = same m0 e0
