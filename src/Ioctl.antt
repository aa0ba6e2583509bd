-- ===== src/Ioctl.antt =====
-- cuddlk_manager_ioctl (kernel/linux/src/cuddlk_manager_linux.c).
pub mod Commands
pub mod Buffers
pub mod Claim
pub mod Release
pub mod Query
pub mod Stays
pub mod Versions
pub mod Sound
pub mod Protocol
pub mod Duty
pub mod Reach
pub mod Returns
pub mod Ends
pub mod Total
pub mod RoundTrip
use cuddl.Base.{ℕ, true, false, Result, fault, enosys, []}
use cuddl.Device.{max_dev_mem_regions, max_dev_events}
use cuddl.Kernel.{M, ◌>>=◌, ◌>>◌, raise, with_lock}
use cuddl.Manager.{max_managed_devices}
use Commands.{
  Request, Call, version_code, memregion_claim_uio, memregion_claim_udd, get_memregion_info,
  eventsrc_claim_uio, eventsrc_claim_udd, get_eventsrc_info, memregion_release_uio,
  memregion_release_udd, eventsrc_release_uio, eventsrc_release_udd, get_max_managed_devices,
  get_max_dev_mem_regions, get_max_dev_events, get_memregion_id, get_eventsrc_id,
  get_memregion_ref_count, decrement_memregion_ref_count, get_eventsrc_ref_count,
  decrement_eventsrc_ref_count, janitor_register_pid, get_kernel_commit_id, get_kernel_version_code,
  get_kernel_variant, get_driver_info, get_hw_info, eventsrc_is_enabled, unknown,
}
use Buffers.{all_buffers, all_freed, alloc_buffers, free_buffers}
use Claim.{memregion_claim_ioctl, eventsrc_claim_ioctl}
use Release.{memregion_release_ioctl, eventsrc_release_ioctl}
use Query.{
  get_memregion_id_ioctl, get_eventsrc_id_ioctl, memregion_ref_count_ioctl,
  eventsrc_ref_count_ioctl, constant_ioctl, get_kernel_commit_id_ioctl, get_kernel_variant_ioctl,
  info_ioctl, eventsrc_is_enabled_ioctl,
}

-- The `switch`, between taking the lock and giving it back.
unfoldable pub dispatch : Call → ℕ → Request → M ℕ
dispatch c page_size (memregion_claim_udd s) = memregion_claim_ioctl c page_size true true s
dispatch c page_size (memregion_claim_uio s) = memregion_claim_ioctl c page_size false true s
dispatch c page_size (get_memregion_info s) = memregion_claim_ioctl c page_size false false s
dispatch c page_size (eventsrc_claim_udd s) = eventsrc_claim_ioctl c true true s
dispatch c page_size (eventsrc_claim_uio s) = eventsrc_claim_ioctl c false true s
dispatch c page_size (get_eventsrc_info s) = eventsrc_claim_ioctl c false false s
dispatch c page_size (memregion_release_udd s) = memregion_release_ioctl c s
dispatch c page_size (memregion_release_uio s) = memregion_release_ioctl c s
dispatch c page_size (eventsrc_release_udd s) = eventsrc_release_ioctl c s
dispatch c page_size (eventsrc_release_uio s) = eventsrc_release_ioctl c s
dispatch c page_size (get_max_managed_devices v) = constant_ioctl c v max_managed_devices
dispatch c page_size (get_max_dev_mem_regions v) = constant_ioctl c v max_dev_mem_regions
dispatch c page_size (get_max_dev_events v) = constant_ioctl c v max_dev_events
dispatch c page_size (get_memregion_id s) = get_memregion_id_ioctl c s
dispatch c page_size (get_eventsrc_id s) = get_eventsrc_id_ioctl c s
dispatch c page_size (get_memregion_ref_count s) = memregion_ref_count_ioctl c false s
dispatch c page_size (decrement_memregion_ref_count s) = memregion_ref_count_ioctl c true s
dispatch c page_size (get_eventsrc_ref_count s) = eventsrc_ref_count_ioctl c false s
dispatch c page_size (decrement_eventsrc_ref_count s) = eventsrc_ref_count_ioctl c true s
dispatch c page_size janitor_register_pid = raise enosys
dispatch c page_size (get_kernel_commit_id v) = get_kernel_commit_id_ioctl c v
dispatch c page_size (get_kernel_version_code v) = constant_ioctl c v version_code
dispatch c page_size (get_kernel_variant v) = get_kernel_variant_ioctl c v
dispatch c page_size (get_driver_info s) = info_ioctl c (λ d. d.driver_info) s
dispatch c page_size (get_hw_info s) = info_ioctl c (λ d. d.hw_info) s
dispatch c page_size (eventsrc_is_enabled s) = eventsrc_is_enabled_ioctl c s
dispatch c page_size unknown = raise enosys

-- The buffers are freed on every way out of the `switch` but a fault.
abbrev pub then_free : Result ℕ → M ℕ
then_free fault k = (fault, k)
then_free r k = (r, (free_buffers all_freed k).1)

unfoldable pub finish : M ℕ → M ℕ
unfolding free_buffers
finish m k = let (r, k') = m k in then_free r k'

unfoldable pub manager_ioctl : Call → ℕ → Request → M ℕ
unfolding ◌>>=◌ alloc_buffers with_lock dispatch finish
manager_ioctl c page_size request = do
  alloc_buffers c.kzalloc [] all_buffers
  finish (with_lock (dispatch c page_size request))
