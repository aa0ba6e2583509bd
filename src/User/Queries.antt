-- ===== src/User/Queries.antt =====
-- The calls of the user library that ask the manager: versions, limits, identifiers, information,
-- reference counts.
use cuddl.Base.{ℕ, ◌-◌, Bool, [], ℤ, pos, ltb, if◌then◌else◌}
use cuddl.Act.{◌>>=◌}
use cuddl.CStr.{Str, codes, strnlen, strncat}
use cuddl.Kernel.{ResourceId, Token}
use cuddl.Ioctl.Commands
use cuddl.Ioctl.Commands.{ClaimData, version_code}
use cuddl.User.{Env, U, MappedRegion, EventHandle}
use cuddl.User.Calls.{data_call, int_call, deliver, deliver_text}
use cuddl.User.Memregion.{claimed_memregion, or_return}
use cuddl.User.Eventsrc.{claimed_eventsrc}

unfoldable pub get_kernel_version_code : Env → U ℕ
unfolding int_call
get_kernel_version_code env = int_call env (Commands.get_kernel_version_code (pos version_code))

unfoldable pub get_max_managed_devices : Env → U ℕ
unfolding int_call
get_max_managed_devices env = int_call env (Commands.get_max_managed_devices (pos version_code))

unfoldable pub get_max_dev_mem_regions : Env → U ℕ
unfolding int_call
get_max_dev_mem_regions env = int_call env (Commands.get_max_dev_mem_regions (pos version_code))

unfoldable pub get_max_dev_events : Env → U ℕ
unfolding int_call
get_max_dev_events env = int_call env (Commands.get_max_dev_events (pos version_code))

unfoldable pub get_kernel_commit_id : Env → Str → ℕ → U ℕ
unfolding data_call deliver_text
get_kernel_commit_id env id_str id_len =
    data_call env (λ pid. Commands.get_kernel_commit_id (pos version_code))
      (deliver_text id_str id_len)

unfoldable pub get_kernel_variant : Env → Str → ℕ → U ℕ
unfolding data_call deliver_text
get_kernel_variant env str id_len =
    data_call env (λ pid. Commands.get_kernel_variant (pos version_code)) (deliver_text str id_len)

-- The text in the buffer of `id_len` bytes afterwards, for the commit that the build has recorded.
unfoldable pub get_userspace_commit_id : Str → Bool → ℕ → Str
unfolding strncat strnlen
get_userspace_commit_id commit_hash repo_is_dirty id_len =
    let hashed = strncat [] commit_hash (id_len - 1) in
    if ltb (id_len - 1) 1
    then []
    else if ltb (id_len - strnlen hashed id_len - 1) 1
    then hashed
    else if repo_is_dirty
    then strncat hashed (codes "(M)") (id_len - strnlen hashed id_len - 1)
    else strncat hashed [] (id_len - strnlen hashed id_len - 1)

abbrev pub slot_data : ℤ → ℤ → Commands.SlotData
slot_data device_slot resource_slot = record {
  version_code = pos version_code;
  device_slot = device_slot;
  resource_slot = resource_slot;
}

unfoldable pub get_memregion_id_for_slot : Env → ℤ → ℤ → U ℕ
unfolding data_call deliver
get_memregion_id_for_slot env device_slot mem_slot =
    data_call env (λ pid. Commands.get_memregion_id (slot_data device_slot mem_slot)) deliver

unfoldable pub get_eventsrc_id_for_slot : Env → ℤ → ℤ → U ℕ
unfolding data_call deliver
get_eventsrc_id_for_slot env device_slot event_slot =
    data_call env (λ pid. Commands.get_eventsrc_id (slot_data device_slot event_slot)) deliver

unfoldable pub memregion_get_resource_id : Env → MappedRegion → U ℕ
unfolding get_memregion_id_for_slot
memregion_get_resource_id env memregion =
    get_memregion_id_for_slot env memregion.token.device_index memregion.token.resource_index

unfoldable pub eventsrc_get_resource_id : Env → EventHandle → U ℕ
unfolding get_eventsrc_id_for_slot
eventsrc_get_resource_id env eventsrc =
    get_eventsrc_id_for_slot env eventsrc.token.device_index eventsrc.token.resource_index

-- `options` is not set; GET_MEMREGION_INFO and GET_EVENTSRC_INFO do not read it.
abbrev pub info_data : ResourceId → ℕ → ClaimData
info_data id pid = record { version_code = pos version_code; id = id; pid = pid; options = 0 }

unfoldable pub get_memregion_info_for_id : Env → ResourceId → U ℕ
unfolding data_call deliver
get_memregion_info_for_id env id =
    data_call env (λ pid. Commands.get_memregion_info (info_data id pid)) deliver

unfoldable pub get_eventsrc_info_for_id : Env → ResourceId → U ℕ
unfolding data_call deliver
get_eventsrc_info_for_id env id =
    data_call env (λ pid. Commands.get_eventsrc_info (info_data id pid)) deliver

abbrev pub count_data : ResourceId → Commands.RefCountData
count_data id = record { version_code = pos version_code; id = id }

unfoldable pub get_memregion_ref_count_for_id : Env → ResourceId → U ℕ
unfolding int_call
get_memregion_ref_count_for_id env id =
    int_call env (Commands.get_memregion_ref_count (count_data id))

unfoldable pub get_eventsrc_ref_count_for_id : Env → ResourceId → U ℕ
unfolding int_call
get_eventsrc_ref_count_for_id env id =
    int_call env (Commands.get_eventsrc_ref_count (count_data id))

unfoldable pub decrement_memregion_ref_count_for_id : Env → ResourceId → U ℕ
unfolding int_call
decrement_memregion_ref_count_for_id env id =
    int_call env (Commands.decrement_memregion_ref_count (count_data id))

unfoldable pub decrement_eventsrc_ref_count_for_id : Env → ResourceId → U ℕ
unfolding int_call
decrement_eventsrc_ref_count_for_id env id =
    int_call env (Commands.decrement_eventsrc_ref_count (count_data id))

abbrev pub driver_data : ℤ → Commands.DriverInfoData
driver_data device_slot = record { version_code = pos version_code; device_slot = device_slot }

unfoldable pub get_driver_info_for_slot : Env → Str → ℕ → ℤ → U ℕ
unfolding data_call deliver_text
get_driver_info_for_slot env info_str info_len device_slot =
    data_call env (λ pid. Commands.get_driver_info (driver_data device_slot))
      (deliver_text info_str info_len)

unfoldable pub get_hw_info_for_slot : Env → Str → ℕ → ℤ → U ℕ
unfolding data_call deliver_text
get_hw_info_for_slot env info_str info_len device_slot =
    data_call env (λ pid. Commands.get_hw_info (driver_data device_slot))
      (deliver_text info_str info_len)

-- A call on the token of the region that an identifier names, and the same for an event source.
unfoldable pub with_memregion_token : Env → ResourceId → (Token → U ℕ) → U ℕ
unfolding ◌>>=◌ get_memregion_info_for_id claimed_memregion
with_memregion_token env id f = do
  ret ← get_memregion_info_for_id env id
  or_return ret (do meminfo ← claimed_memregion; f meminfo.token)

unfoldable pub with_eventsrc_token : Env → ResourceId → (Token → U ℕ) → U ℕ
unfolding ◌>>=◌ get_eventsrc_info_for_id claimed_eventsrc
with_eventsrc_token env id f = do
  ret ← get_eventsrc_info_for_id env id
  or_return ret (do meminfo ← claimed_eventsrc; f meminfo.token)

unfoldable pub get_driver_info_for_memregion_id : Env → Str → ℕ → ResourceId → U ℕ
unfolding with_memregion_token get_driver_info_for_slot
get_driver_info_for_memregion_id env info_str info_len id =
    with_memregion_token env id
      (λ token. get_driver_info_for_slot env info_str info_len token.device_index)

unfoldable pub get_driver_info_for_eventsrc_id : Env → Str → ℕ → ResourceId → U ℕ
unfolding with_eventsrc_token get_driver_info_for_slot
get_driver_info_for_eventsrc_id env info_str info_len id =
    with_eventsrc_token env id
      (λ token. get_driver_info_for_slot env info_str info_len token.device_index)

unfoldable pub get_hw_info_for_memregion_id : Env → Str → ℕ → ResourceId → U ℕ
unfolding with_memregion_token get_hw_info_for_slot
get_hw_info_for_memregion_id env info_str info_len id =
    with_memregion_token env id
      (λ token. get_hw_info_for_slot env info_str info_len token.device_index)

unfoldable pub get_hw_info_for_eventsrc_id : Env → Str → ℕ → ResourceId → U ℕ
unfolding with_eventsrc_token get_hw_info_for_slot
get_hw_info_for_eventsrc_id env info_str info_len id =
    with_eventsrc_token env id
      (λ token. get_hw_info_for_slot env info_str info_len token.device_index)

unfoldable pub get_memregion_id_for_match : Env → ResourceId → U ℕ
unfolding with_memregion_token get_memregion_id_for_slot
get_memregion_id_for_match env match_id =
    with_memregion_token env match_id
      (λ token. get_memregion_id_for_slot env token.device_index token.resource_index)

unfoldable pub get_eventsrc_id_for_match : Env → ResourceId → U ℕ
unfolding with_eventsrc_token get_eventsrc_id_for_slot
get_eventsrc_id_for_match env match_id =
    with_eventsrc_token env match_id
      (λ token. get_eventsrc_id_for_slot env token.device_index token.resource_index)
