-- ===== src/User/Library.antt =====
-- All calls of the library (user/src/cuddl_linux.c) that hand no descriptor to their caller and take
-- none back.
use cuddl.Base.{ℕ, Option, List, ℤ, pos}
use cuddl.Act.Triples.{Triple}
use cuddl.CStr.{Str}
use cuddl.Kernel.{MemregionInfo, EventsrcInfo, ResourceId}
use cuddl.Ioctl.Commands
use cuddl.Ioctl.Commands.{version_code}
use cuddl.User.{Env, U, MappedRegion, EventHandle, EventSet}
use cuddl.User.Descriptors.{Open, Left, int_call-Left}
use cuddl.User.Memregion.{
  claim_data, release_data, memregion_claim_request, memregion_release_request, memregion_claim,
  memregion_release_by_token, memregion_release,
}
use cuddl.User.Eventsrc.{
  Timespec, eventsrc_wait, eventsrc_timed_wait, eventsrc_try_wait, eventsrc_enable,
  eventsrc_disable, eventsrc_claim_request, eventsrc_release_request, eventsrc_claim,
  eventsrc_release_by_token, eventsrc_release, eventsrc_enabled,
}
use cuddl.User.EventSets.{eventsrcset_timed_wait}
use cuddl.User.Waits.{
  eventsrc_wait-Left, eventsrc_timed_wait-Left, eventsrc_try_wait-Left, eventsrc_enable-Left,
  eventsrc_disable-Left, eventsrcset_timed_wait-Left,
}
use cuddl.User.Tokens.{
  copied-Left, text-Left, bare-Left, with_memregion_token-Left, with_eventsrc_token-Left,
}
use cuddl.User.Queries
use cuddl.User.Queries.{slot_data, info_data, count_data, driver_data}

pub data LibraryCall : Type 0 where
  claim_memregion claim_eventsrc : Option Str → Option Str → Option Str → ℤ → ℕ → LibraryCall
  release_memregion : MemregionInfo → LibraryCall
  release_eventsrc : EventsrcInfo → LibraryCall
  kernel_version_code max_managed_devices max_dev_mem_regions max_dev_events : LibraryCall
  kernel_commit_id kernel_variant : Str → ℕ → LibraryCall
  memregion_id_for_slot eventsrc_id_for_slot : ℤ → ℤ → LibraryCall
  memregion_info_for_id eventsrc_info_for_id : ResourceId → LibraryCall
  memregion_ref_count eventsrc_ref_count : ResourceId → LibraryCall
  decrement_memregion decrement_eventsrc : ResourceId → LibraryCall
  driver_info_for_slot hw_info_for_slot : Str → ℕ → ℤ → LibraryCall
  memregion_resource_id : MappedRegion → LibraryCall
  eventsrc_resource_id eventsrc_is_enabled : EventHandle → LibraryCall
  driver_info_for_memregion driver_info_for_eventsrc : Str → ℕ → ResourceId → LibraryCall
  hw_info_for_memregion hw_info_for_eventsrc : Str → ℕ → ResourceId → LibraryCall
  memregion_id_for_match eventsrc_id_for_match : ResourceId → LibraryCall
  wait_for try_wait_for enable_source disable_source : EventHandle → LibraryCall
  timed_wait_for : EventHandle → Timespec → LibraryCall
  timed_wait_for_set : EventSet → Timespec → LibraryCall

pub perform : Env → LibraryCall → U ℕ
perform env (claim_memregion g d r i o) = memregion_claim env g d r i o
perform env (claim_eventsrc g d r i o) = eventsrc_claim env g d r i o
perform env (release_memregion info) = memregion_release env info
perform env (release_eventsrc info) = eventsrc_release env info
perform env kernel_version_code = Queries.get_kernel_version_code env
perform env max_managed_devices = Queries.get_max_managed_devices env
perform env max_dev_mem_regions = Queries.get_max_dev_mem_regions env
perform env max_dev_events = Queries.get_max_dev_events env
perform env (kernel_commit_id s n) = Queries.get_kernel_commit_id env s n
perform env (kernel_variant s n) = Queries.get_kernel_variant env s n
perform env (memregion_id_for_slot d m) = Queries.get_memregion_id_for_slot env d m
perform env (eventsrc_id_for_slot d e) = Queries.get_eventsrc_id_for_slot env d e
perform env (memregion_info_for_id id) = Queries.get_memregion_info_for_id env id
perform env (eventsrc_info_for_id id) = Queries.get_eventsrc_info_for_id env id
perform env (memregion_ref_count id) = Queries.get_memregion_ref_count_for_id env id
perform env (eventsrc_ref_count id) = Queries.get_eventsrc_ref_count_for_id env id
perform env (decrement_memregion id) = Queries.decrement_memregion_ref_count_for_id env id
perform env (decrement_eventsrc id) = Queries.decrement_eventsrc_ref_count_for_id env id
perform env (driver_info_for_slot s n d) = Queries.get_driver_info_for_slot env s n d
perform env (hw_info_for_slot s n d) = Queries.get_hw_info_for_slot env s n d
perform env (memregion_resource_id r) = Queries.memregion_get_resource_id env r
perform env (eventsrc_resource_id e) = Queries.eventsrc_get_resource_id env e
perform env (eventsrc_is_enabled e) = eventsrc_enabled env e
perform env (driver_info_for_memregion s n id) = Queries.get_driver_info_for_memregion_id env s n id
perform env (driver_info_for_eventsrc s n id) = Queries.get_driver_info_for_eventsrc_id env s n id
perform env (hw_info_for_memregion s n id) = Queries.get_hw_info_for_memregion_id env s n id
perform env (hw_info_for_eventsrc s n id) = Queries.get_hw_info_for_eventsrc_id env s n id
perform env (memregion_id_for_match id) = Queries.get_memregion_id_for_match env id
perform env (eventsrc_id_for_match id) = Queries.get_eventsrc_id_for_match env id
perform env (wait_for e) = eventsrc_wait env e
perform env (try_wait_for e) = eventsrc_try_wait env e
perform env (enable_source e) = eventsrc_enable env e
perform env (disable_source e) = eventsrc_disable env e
perform env (timed_wait_for e t) = eventsrc_timed_wait env e t
perform env (timed_wait_for_set s t) = eventsrcset_timed_wait env s t

-- Whatever its system calls return, a call of the library that returns has the same descriptors open
-- as before, and the same mappings.
pub perform-Left :
    (env : Env) (c : LibraryCall) (maps fds : List ℕ)
    → Triple (Open maps fds) (perform env c) (Left maps fds)
unfolding perform memregion_claim eventsrc_claim memregion_release eventsrc_release
    Queries.get_kernel_version_code Queries.get_max_managed_devices Queries.get_max_dev_mem_regions
    Queries.get_max_dev_events Queries.get_kernel_commit_id Queries.get_kernel_variant
    Queries.get_memregion_id_for_slot Queries.get_eventsrc_id_for_slot
    Queries.get_memregion_info_for_id Queries.get_eventsrc_info_for_id
    Queries.get_memregion_ref_count_for_id Queries.get_eventsrc_ref_count_for_id
    Queries.decrement_memregion_ref_count_for_id Queries.decrement_eventsrc_ref_count_for_id
    Queries.get_driver_info_for_slot Queries.get_hw_info_for_slot Queries.memregion_get_resource_id
    Queries.eventsrc_get_resource_id eventsrc_enabled memregion_release_by_token
    eventsrc_release_by_token Queries.get_driver_info_for_memregion_id
    Queries.get_driver_info_for_eventsrc_id Queries.get_hw_info_for_memregion_id
    Queries.get_hw_info_for_eventsrc_id Queries.get_memregion_id_for_match
    Queries.get_eventsrc_id_for_match
perform-Left env (claim_memregion g d r i o) maps fds =
    copied-Left env maps fds (λ pid. memregion_claim_request env (claim_data env g d r i o pid))
perform-Left env (claim_eventsrc g d r i o) maps fds =
    copied-Left env maps fds (λ pid. eventsrc_claim_request env (claim_data env g d r i o pid))
perform-Left env (release_memregion info) maps fds =
    bare-Left env maps fds (λ pid. memregion_release_request env (release_data info.token pid))
perform-Left env (release_eventsrc info) maps fds =
    bare-Left env maps fds (λ pid. eventsrc_release_request env (release_data info.token pid))
perform-Left env kernel_version_code maps fds =
    int_call-Left maps env fds (Commands.get_kernel_version_code (pos version_code))
perform-Left env max_managed_devices maps fds =
    int_call-Left maps env fds (Commands.get_max_managed_devices (pos version_code))
perform-Left env max_dev_mem_regions maps fds =
    int_call-Left maps env fds (Commands.get_max_dev_mem_regions (pos version_code))
perform-Left env max_dev_events maps fds =
    int_call-Left maps env fds (Commands.get_max_dev_events (pos version_code))
perform-Left env (kernel_commit_id s n) maps fds =
    text-Left env maps fds (λ pid. Commands.get_kernel_commit_id (pos version_code)) s n
perform-Left env (kernel_variant s n) maps fds =
    text-Left env maps fds (λ pid. Commands.get_kernel_variant (pos version_code)) s n
perform-Left env (memregion_id_for_slot d m) maps fds =
    copied-Left env maps fds (λ pid. Commands.get_memregion_id (slot_data d m))
perform-Left env (eventsrc_id_for_slot d m) maps fds =
    copied-Left env maps fds (λ pid. Commands.get_eventsrc_id (slot_data d m))
perform-Left env (memregion_info_for_id id) maps fds =
    copied-Left env maps fds (λ pid. Commands.get_memregion_info (info_data id pid))
perform-Left env (eventsrc_info_for_id id) maps fds =
    copied-Left env maps fds (λ pid. Commands.get_eventsrc_info (info_data id pid))
perform-Left env (memregion_ref_count id) maps fds =
    int_call-Left maps env fds (Commands.get_memregion_ref_count (count_data id))
perform-Left env (eventsrc_ref_count id) maps fds =
    int_call-Left maps env fds (Commands.get_eventsrc_ref_count (count_data id))
perform-Left env (decrement_memregion id) maps fds =
    int_call-Left maps env fds (Commands.decrement_memregion_ref_count (count_data id))
perform-Left env (decrement_eventsrc id) maps fds =
    int_call-Left maps env fds (Commands.decrement_eventsrc_ref_count (count_data id))
perform-Left env (driver_info_for_slot s n d) maps fds =
    text-Left env maps fds (λ pid. Commands.get_driver_info (driver_data d)) s n
perform-Left env (hw_info_for_slot s n d) maps fds =
    text-Left env maps fds (λ pid. Commands.get_hw_info (driver_data d)) s n
perform-Left env (memregion_resource_id r) maps fds =
    copied-Left env maps fds
      (λ pid. Commands.get_memregion_id (slot_data r.token.device_index r.token.resource_index))
perform-Left env (eventsrc_resource_id e) maps fds =
    copied-Left env maps fds
      (λ pid. Commands.get_eventsrc_id (slot_data e.token.device_index e.token.resource_index))
perform-Left env (eventsrc_is_enabled e) maps fds =
    int_call-Left maps env fds
      (Commands.eventsrc_is_enabled (record { version_code = pos version_code; token = e.token }))
perform-Left env (driver_info_for_memregion s n id) maps fds =
    with_memregion_token-Left env maps fds id _ λ token.
      text-Left env maps fds (λ pid. Commands.get_driver_info (driver_data token.device_index)) s n
perform-Left env (driver_info_for_eventsrc s n id) maps fds =
    with_eventsrc_token-Left env maps fds id _ λ token.
      text-Left env maps fds (λ pid. Commands.get_driver_info (driver_data token.device_index)) s n
perform-Left env (hw_info_for_memregion s n id) maps fds =
    with_memregion_token-Left env maps fds id _ λ token.
      text-Left env maps fds (λ pid. Commands.get_hw_info (driver_data token.device_index)) s n
perform-Left env (hw_info_for_eventsrc s n id) maps fds =
    with_eventsrc_token-Left env maps fds id _ λ token.
      text-Left env maps fds (λ pid. Commands.get_hw_info (driver_data token.device_index)) s n
perform-Left env (memregion_id_for_match id) maps fds =
    with_memregion_token-Left env maps fds id _ λ token.
      copied-Left env maps fds
        (λ pid. Commands.get_memregion_id (slot_data token.device_index token.resource_index))
perform-Left env (eventsrc_id_for_match id) maps fds =
    with_eventsrc_token-Left env maps fds id _ λ token.
      copied-Left env maps fds
        (λ pid. Commands.get_eventsrc_id (slot_data token.device_index token.resource_index))
perform-Left env (wait_for e) maps fds = eventsrc_wait-Left maps fds env e
perform-Left env (try_wait_for e) maps fds = eventsrc_try_wait-Left maps fds env e
perform-Left env (enable_source e) maps fds = eventsrc_enable-Left maps fds env e
perform-Left env (disable_source e) maps fds = eventsrc_disable-Left maps fds env e
perform-Left env (timed_wait_for e t) maps fds = eventsrc_timed_wait-Left maps fds env e t
perform-Left env (timed_wait_for_set s t) maps fds = eventsrcset_timed_wait-Left maps fds env s t
