-- ===== src/Ioctl/Duty.antt =====
-- What each command asks of its process, so that it keeps the counts those of the references.
use cuddl.Base.{ℕ, ◌≡◌, ◌≢◌, true, false, some, ne→==}
use cuddl.Kernel.{Kernel, Reply, raise}
use cuddl.Refs.Counted.{memregions, eventsrcs}
use cuddl.Ioctl.{dispatch}
use cuddl.Ioctl.Commands
use cuddl.Ioctl.Commands.{Call, ClaimData, ReleaseData, Request}
use cuddl.Ioctl.Claim.{memregion_claim_at, eventsrc_claim_at}
use cuddl.Ioctl.Claim.Cases.{memregion_claim_ioctl_cases, eventsrc_claim_ioctl_cases}
use cuddl.Ioctl.Stays
use cuddl.Ioctl.Sound.{Sound, Holds, Room, memregion_claim_ioctl-Sound, eventsrc_claim_ioctl-Sound}
use cuddl.Ioctl.Protocol.{memregion_release_ioctl-Sound, eventsrc_release_ioctl-Sound}

-- What a request has to meet: a claim, that no count overflows; a release, that the process has the
-- reference; an information request, that the answer reaches user space. The two commands that lower
-- a count by hand are left out.
abbrev Duty :
    Call → Request → Type 0 → Type 0 → (ReleaseData → Type 0) → (ReleaseData → Type 0) → Type 0
Duty c (Commands.memregion_claim_uio s) room room' holds holds' = room
Duty c (Commands.memregion_claim_udd s) room room' holds holds' = room
Duty c (Commands.get_memregion_info s) room room' holds holds' = c.copy_out ≡ true
Duty c (Commands.eventsrc_claim_uio s) room room' holds holds' = room'
Duty c (Commands.eventsrc_claim_udd s) room room' holds holds' = room'
Duty c (Commands.get_eventsrc_info s) room room' holds holds' = c.copy_out ≡ true
Duty c (Commands.memregion_release_uio s) room room' holds holds' = holds s
Duty c (Commands.memregion_release_udd s) room room' holds holds' = holds s
Duty c (Commands.eventsrc_release_uio s) room room' holds holds' = holds' s
Duty c (Commands.eventsrc_release_udd s) room room' holds holds' = holds' s
Duty c (Commands.decrement_memregion_ref_count s) room room' holds holds' = ⊥
Duty c (Commands.decrement_eventsrc_ref_count s) room room' holds holds' = ⊥
Duty c _ room room' holds holds' = Unit {0}

abbrev pub Obeys : Call → Request → Kernel → Type 0
Obeys c request k =
    Duty c request (Room memregions k) (Room eventsrcs k) (λ s. Holds memregions s k)
      (λ s. Holds eventsrcs s k)

told : (k : Kernel) (r : Reply) → Sound k → Sound (record k { user = some r })
told k r h = record {
  regions = record {
    counted = h.regions.counted;
    managed = h.regions.managed;
    distinct = h.regions.distinct;
  };
  sources = record {
    counted = h.sources.counted;
    managed = h.sources.managed;
    distinct = h.sources.distinct;
  };
}

memregion_info_Sound :
    (c : Call) (page_size : ℕ) (s : ClaimData) (slot i : ℕ) (k : Kernel)
    → c.copy_out ≡ true
    → k.devices slot ≢ 0
    → Sound k
    → Sound (memregion_claim_at c page_size false false s slot i k).1
unfolding memregion_claim_at
memregion_info_Sound c page_size s slot i k e there h =
    rw (ne→== (k.devices slot) 0 there, e) (told k _ h)

eventsrc_info_Sound :
    (c : Call) (s : ClaimData) (slot i : ℕ) (k : Kernel)
    → c.copy_out ≡ true
    → k.devices slot ≢ 0
    → Sound k
    → Sound (eventsrc_claim_at c false false s slot i k).1
unfolding eventsrc_claim_at
eventsrc_info_Sound c s slot i k e there h = rw (ne→== (k.devices slot) 0 there, e) (told k _ h)

-- Every command keeps both kinds counted.
pub dispatch-Sound :
    (c : Call) (page_size : ℕ) (request : Request) (k : Kernel)
    → Sound k
    → Obeys c request k
    → Sound (dispatch c page_size request k).1
unfolding dispatch raise
dispatch-Sound c z (Commands.memregion_claim_udd s) k h o =
    memregion_claim_ioctl-Sound c z true s k h o
dispatch-Sound c z (Commands.memregion_claim_uio s) k h o =
    memregion_claim_ioctl-Sound c z false s k h o
dispatch-Sound c z (Commands.get_memregion_info s) k h o =
    memregion_claim_ioctl_cases (λ r. Sound r.1) k (λ e. h) (λ q i x. h) c z false false s
      (λ slot i b l there. memregion_info_Sound c z s slot i k o there h)
dispatch-Sound c z (Commands.eventsrc_claim_udd s) k h o = eventsrc_claim_ioctl-Sound c true s k h o
dispatch-Sound c z (Commands.eventsrc_claim_uio s) k h o =
    eventsrc_claim_ioctl-Sound c false s k h o
dispatch-Sound c z (Commands.get_eventsrc_info s) k h o =
    eventsrc_claim_ioctl_cases (λ r. Sound r.1) k (λ e. h) (λ q i x. h) c false false s
      (λ slot i b l there. eventsrc_info_Sound c s slot i k o there h)
dispatch-Sound c z (Commands.memregion_release_udd s) k h o =
    memregion_release_ioctl-Sound c s k h o
dispatch-Sound c z (Commands.memregion_release_uio s) k h o =
    memregion_release_ioctl-Sound c s k h o
dispatch-Sound c z (Commands.eventsrc_release_udd s) k h o = eventsrc_release_ioctl-Sound c s k h o
dispatch-Sound c z (Commands.eventsrc_release_uio s) k h o = eventsrc_release_ioctl-Sound c s k h o
dispatch-Sound c z (Commands.get_max_managed_devices v) k h o =
    (Stays.Keeps-constant_ioctl told c v _).at k h
dispatch-Sound c z (Commands.get_max_dev_mem_regions v) k h o =
    (Stays.Keeps-constant_ioctl told c v _).at k h
dispatch-Sound c z (Commands.get_max_dev_events v) k h o =
    (Stays.Keeps-constant_ioctl told c v _).at k h
dispatch-Sound c z (Commands.get_kernel_version_code v) k h o =
    (Stays.Keeps-constant_ioctl told c v _).at k h
dispatch-Sound c z (Commands.get_memregion_id s) k h o =
    (Stays.Keeps-get_memregion_id_ioctl told c s).at k h
dispatch-Sound c z (Commands.get_eventsrc_id s) k h o =
    (Stays.Keeps-get_eventsrc_id_ioctl told c s).at k h
dispatch-Sound c z (Commands.get_memregion_ref_count s) k h o =
    (Stays.Keeps-memregion_ref_count_ioctl told c s).at k h
dispatch-Sound c z (Commands.get_eventsrc_ref_count s) k h o =
    (Stays.Keeps-eventsrc_ref_count_ioctl told c s).at k h
dispatch-Sound c z (Commands.decrement_memregion_ref_count s) k h o = absurd o
dispatch-Sound c z (Commands.decrement_eventsrc_ref_count s) k h o = absurd o
dispatch-Sound c z Commands.janitor_register_pid k h o = h
dispatch-Sound c z (Commands.get_kernel_commit_id v) k h o =
    (Stays.Keeps-get_kernel_commit_id_ioctl told c v).at k h
dispatch-Sound c z (Commands.get_kernel_variant v) k h o =
    (Stays.Keeps-get_kernel_variant_ioctl told c v).at k h
dispatch-Sound c z (Commands.get_driver_info s) k h o = (Stays.Keeps-info_ioctl told c _ s).at k h
dispatch-Sound c z (Commands.get_hw_info s) k h o = (Stays.Keeps-info_ioctl told c _ s).at k h
dispatch-Sound c z (Commands.eventsrc_is_enabled s) k h o =
    (Stays.Keeps-eventsrc_is_enabled_ioctl told c s).at k h
dispatch-Sound c z Commands.unknown k h o = h
