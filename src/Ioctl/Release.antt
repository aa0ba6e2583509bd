-- ===== src/Ioctl/Release.antt =====
-- The RELEASE commands of cuddlk_manager_ioctl.
pub mod Outcome
use cuddl.Base.{ℕ, not, enodev, ◌==◌}
use cuddl.Device.{max_dev_mem_regions, max_dev_events}
use cuddl.Kernel.{Kernel, M, ◌>>=◌, ◌>>◌, pure, lift, gets, check, ignore, modify}
use cuddl.Manager.{max_managed_devices}
use cuddl.Refs.{memregion_decr_ref_count, eventsrc_decr_ref_count, remove_ref}
use cuddl.Ioctl.Commands.{ReleaseData, Call, receive, slot_below}

abbrev pub drop_mem_ref : ℕ → ℕ → ℕ → Kernel → Kernel
drop_mem_ref slot i pid k = record k { mem_refs = remove_ref slot i pid k.mem_refs }

abbrev pub drop_event_ref : ℕ → ℕ → ℕ → Kernel → Kernel
drop_event_ref slot i pid k = record k { event_refs = remove_ref slot i pid k.event_refs }

-- From the count-down on, once the token has been checked.
unfoldable pub memregion_release_at : ReleaseData → ℕ → ℕ → M ℕ
unfolding ◌>>=◌ ignore memregion_decr_ref_count modify
memregion_release_at s slot mslot = do
  p ← gets (λ k. k.devices slot)
  ignore (memregion_decr_ref_count p mslot)
  modify (drop_mem_ref slot mslot s.pid)
  pure 0

unfoldable pub memregion_release_ioctl : Call → ReleaseData → M ℕ
unfolding ◌>>=◌ check receive memregion_release_at
memregion_release_ioctl c s = do
  receive c s.version_code
  slot ← lift (slot_below max_managed_devices s.token.device_index)
  p ← gets (λ k. k.devices slot)
  check (not (p == 0)) enodev
  mslot ← lift (slot_below max_dev_mem_regions s.token.resource_index)
  memregion_release_at s slot mslot

unfoldable pub eventsrc_release_at : ReleaseData → ℕ → ℕ → M ℕ
unfolding ◌>>=◌ ignore eventsrc_decr_ref_count modify
eventsrc_release_at s slot eslot = do
  p ← gets (λ k. k.devices slot)
  ignore (eventsrc_decr_ref_count p eslot)
  modify (drop_event_ref slot eslot s.pid)
  pure 0

unfoldable pub eventsrc_release_ioctl : Call → ReleaseData → M ℕ
unfolding ◌>>=◌ check receive eventsrc_release_at
eventsrc_release_ioctl c s = do
  receive c s.version_code
  slot ← lift (slot_below max_managed_devices s.token.device_index)
  p ← gets (λ k. k.devices slot)
  check (not (p == 0)) enodev
  eslot ← lift (slot_below max_dev_events s.token.resource_index)
  eventsrc_release_at s slot eslot
