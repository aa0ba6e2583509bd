-- ===== src/Ioctl/Claim/Info.antt =====
-- GET_MEMREGION_INFO when its answer does not reach user space.
use cuddl.Base.{ℕ, ◌+◌, ◌<◌, ◌≡◌, ◌≢◌, false, err, eoverflow, arith, ne→==}
use cuddl.Kernel.{Kernel}
use cuddl.Refs.Counted.{memregions}
use cuddl.Ioctl.Commands.{Call, ClaimData}
use cuddl.Ioctl.Claim.{memregion_claim_at}

-- When copy_to_user fails, GET_MEMREGION_INFO on a region that is held returns -EOVERFLOW and lowers
-- the count of the region, although it claims nothing and no reference leaves the list.
pub memregion_info_uncopied :
    (c : Call) (page_size slot i : ℕ) (s : ClaimData) (k : Kernel)
    → c.copy_out ≡ false
    → k.devices slot ≢ 0
    → 0 < memregions.count k (k.devices slot) i
    → let (r, k') = memregion_claim_at c page_size false false s slot i k in
      (r ≡ err eoverflow)
      × (memregions.count k' (k.devices slot) i + 1 ≡ memregions.count k (k.devices slot) i)
      × (k'.mem_refs ≡ k.mem_refs)
unfolding memregion_claim_at
memregion_info_uncopied c page_size slot i s k e there held =
    rw (ne→== (k.devices slot) 0 there, e) (ground arith, ground arith, ground arith)
