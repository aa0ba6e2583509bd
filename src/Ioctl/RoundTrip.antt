-- ===== src/Ioctl/RoundTrip.antt =====
-- A claim and its release (kernel/linux/src/cuddlk_manager_linux.c).
use cuddl.Base.{ℕ, ◌+◌, ◌-◌, ◌<◌, ◌≡◌, ◌≢◌, true, sym, ◌∙◌, ap, List, ◌∷◌, Bool, ok, int_mod, arith}
use cuddl.Kernel.{Kernel, ResourceRef}
use cuddl.Refs.{remove_ref}
use cuddl.Refs.Counted.{Kind, memregions, eventsrcs, Same, Sets}
use cuddl.Ioctl.Commands.{Call, ClaimData, ReleaseData}
use cuddl.Ioctl.Claim.{memregion_claim_at, eventsrc_claim_at}
use cuddl.Ioctl.Claim.Kinds.{memregion_claim_at-Claimed, eventsrc_claim_at-Claimed}
use cuddl.Ioctl.Release.{memregion_release_at, eventsrc_release_at}
use cuddl.Ioctl.Release.Outcome.{memregion_release_at-Released, eventsrc_release_at-Released}

remove_first :
    (slot i pid : ℕ) (refs : List ResourceRef)
    → remove_ref slot i pid (record { device_index = slot; resource_index = i; pid = pid } ∷ refs)
      ≡ refs
unfolding remove_ref
remove_first slot i pid refs = ground arith

-- One up with a reference at the head, and one down with this reference dropped.
up_and_down :
    {κ : Kind} {slot i pid : ℕ} {k k1 k2 : Kernel}
    → Sets κ
        (k.devices slot)
        i
        (κ.count k (k.devices slot) i + 1)
        (record { device_index = slot; resource_index = i; pid = pid } ∷ κ.refs k)
        k
        k1
    → Sets κ
        (k1.devices slot)
        i
        (κ.count k1 (k1.devices slot) i - 1)
        (remove_ref slot i pid (κ.refs k1))
        k1
        k2
    → Same κ k k2
up_and_down {κ} {slot} {i} {pid} {k} {k1} {k2} up down = record {
  devices = λ s. down.devices s ∙ up.devices s;
  refs = down.refs ∙ ap (remove_ref slot i pid) up.refs ∙ remove_first slot i pid (κ.refs k);
  count = λ q j.
      ground (arith, up.devices slot, down.count q j, up.count q j, up.count (k.devices slot) i);
}

-- A region that a process has claimed, its count being below the largest 32-bit pattern, released by
-- the same process: the release succeeds, and the counts of all regions, their list of references,
-- and the table are those from before the claim.
pub memregion_claim_at-release_at :
    (c : Call) (page_size : ℕ) (rt : Bool) (s : ClaimData) (t : ReleaseData) (slot i : ℕ)
    (k : Kernel)
    → k.devices slot ≢ 0
    → memregions.count k (k.devices slot) i + 1 < int_mod
    → t.pid ≡ s.pid
    → (memregion_claim_at c page_size rt true s slot i k).0 ≡ ok 0
    → let (r, k2) =
        memregion_release_at t slot i (memregion_claim_at c page_size rt true s slot i k).1 in
      (r ≡ ok 0) × Same memregions k k2
memregion_claim_at-release_at c z rt s t slot i k there small same e =
    let k1 = (memregion_claim_at c z rt true s slot i k).1 in
    let up = (memregion_claim_at-Claimed c z rt s slot i k there small).granted e in
    let down = memregion_release_at-Released t slot i k1 (λ n. there (sym (up.devices slot) ∙ n)) in
    (down.returns, up_and_down {pid = t.pid} (rw same up) down.released)

-- An event source that a process has claimed, its count being below the largest 32-bit pattern,
-- released by the same process: the release succeeds, and the counts of all event sources, their list
-- of references, and the table are those from before the claim.
pub eventsrc_claim_at-release_at :
    (c : Call) (rt : Bool) (s : ClaimData) (t : ReleaseData) (slot i : ℕ) (k : Kernel)
    → k.devices slot ≢ 0
    → eventsrcs.count k (k.devices slot) i + 1 < int_mod
    → t.pid ≡ s.pid
    → (eventsrc_claim_at c rt true s slot i k).0 ≡ ok 0
    → let (r, k2) = eventsrc_release_at t slot i (eventsrc_claim_at c rt true s slot i k).1 in
      (r ≡ ok 0) × Same eventsrcs k k2
eventsrc_claim_at-release_at c rt s t slot i k there small same e =
    let k1 = (eventsrc_claim_at c rt true s slot i k).1 in
    let up = (eventsrc_claim_at-Claimed c rt s slot i k there small).granted e in
    let down = eventsrc_release_at-Released t slot i k1 (λ n. there (sym (up.devices slot) ∙ n)) in
    (down.returns, up_and_down {pid = t.pid} (rw same up) down.released)
