-- ===== src/Cpp/Manager.antt =====
-- The functions of user/include/cuddl/manager.hpp and version.hpp: each calls the C function of its
-- name and throws an error code that it returns.
use cuddl.Base.{ℕ, Bool, ℤ, pos, ◌++◌}
use cuddl.Act.{◌>>=◌, ◌>>◌, pure, gets}
use cuddl.CStr.{Str, codes, text, max_str_len}
use cuddl.Kernel.{ResourceId, MemregionInfo, EventsrcInfo}
use cuddl.User.{Env, U, adjust}
use cuddl.User.Memregion.{claimed_memregion}
use cuddl.User.Eventsrc.{claimed_eventsrc}
use cuddl.User.Queries
use cuddl.Cpp.Strings.{to_string}
use cuddl.Cpp.Errors.{Ended, throw_err, throw_resource_id_err, checked, or_throw}
use cuddl.Cpp.Objects.{filling, filled_id}
use cuddl.Cpp.Versions.{Version}

unfoldable pub get_max_managed_devices : Env → U (Ended ℕ)
unfolding checked Queries.get_max_managed_devices
get_max_managed_devices env =
    checked (throw_err (codes "get_max_managed_devices")) (Queries.get_max_managed_devices env)

unfoldable pub get_max_dev_mem_regions : Env → U (Ended ℕ)
unfolding checked Queries.get_max_dev_mem_regions
get_max_dev_mem_regions env =
    checked (throw_err (codes "get_max_dev_mem_regions")) (Queries.get_max_dev_mem_regions env)

unfoldable pub get_max_dev_events : Env → U (Ended ℕ)
unfolding checked Queries.get_max_dev_events
get_max_dev_events env =
    checked (throw_err (codes "get_max_dev_events")) (Queries.get_max_dev_events env)

-- " for cuddl device_slot:<n>, mem_slot:<m>"
abbrev for_slots : Str → ℤ → Str → ℤ → Str
for_slots name device_slot kind slot =
    name ++ (codes " for cuddl device_slot:" ++ (to_string device_slot ++ (kind ++ to_string slot)))

unfoldable pub get_memregion_id_for_slot : Env → ℤ → ℤ → U (Ended ResourceId)
unfolding filling checked Queries.get_memregion_id_for_slot filled_id to_string
get_memregion_id_for_slot env device_slot mem_slot =
    filling
      (checked
        (throw_err (
          for_slots (codes "get_memregion_id_for_slot") device_slot (codes ", mem_slot:") mem_slot))
        (Queries.get_memregion_id_for_slot env device_slot mem_slot))
      filled_id

unfoldable pub get_eventsrc_id_for_slot : Env → ℤ → ℤ → U (Ended ResourceId)
unfolding filling checked Queries.get_eventsrc_id_for_slot filled_id to_string
get_eventsrc_id_for_slot env device_slot event_slot =
    filling
      (checked
        (throw_err (
          for_slots (codes "get_eventsrc_id_for_slot") device_slot (codes ", event_slot:")
            event_slot))
        (Queries.get_eventsrc_id_for_slot env device_slot event_slot))
      filled_id

unfoldable pub get_memregion_info_for_id : Env → ResourceId → U (Ended MemregionInfo)
unfolding filling checked throw_resource_id_err Queries.get_memregion_info_for_id claimed_memregion
get_memregion_info_for_id env id =
    filling
      (checked (throw_resource_id_err (codes "get_memregion_info_for_id") id)
        (Queries.get_memregion_info_for_id env id))
      (λ ret. claimed_memregion)

unfoldable pub get_eventsrc_info_for_id : Env → ResourceId → U (Ended EventsrcInfo)
unfolding filling checked throw_resource_id_err Queries.get_eventsrc_info_for_id claimed_eventsrc
get_eventsrc_info_for_id env id =
    filling
      (checked (throw_resource_id_err (codes "get_eventsrc_info_for_id") id)
        (Queries.get_eventsrc_info_for_id env id))
      (λ ret. claimed_eventsrc)

unfoldable pub get_memregion_ref_count_for_id : Env → ResourceId → U (Ended ℕ)
unfolding checked throw_resource_id_err Queries.get_memregion_ref_count_for_id
get_memregion_ref_count_for_id env id =
    checked (throw_resource_id_err (codes "get_memregion_ref_count_for_id") id)
      (Queries.get_memregion_ref_count_for_id env id)

unfoldable pub get_eventsrc_ref_count_for_id : Env → ResourceId → U (Ended ℕ)
unfolding checked throw_resource_id_err Queries.get_eventsrc_ref_count_for_id
get_eventsrc_ref_count_for_id env id =
    checked (throw_resource_id_err (codes "get_eventsrc_ref_count_for_id") id)
      (Queries.get_eventsrc_ref_count_for_id env id)

unfoldable pub decrement_memregion_ref_count_for_id : Env → ResourceId → U (Ended ℕ)
unfolding checked throw_resource_id_err Queries.decrement_memregion_ref_count_for_id
decrement_memregion_ref_count_for_id env id =
    checked (throw_resource_id_err (codes "decrement_memregion_ref_count_for_id") id)
      (Queries.decrement_memregion_ref_count_for_id env id)

unfoldable pub decrement_eventsrc_ref_count_for_id : Env → ResourceId → U (Ended ℕ)
unfolding checked throw_resource_id_err Queries.decrement_eventsrc_ref_count_for_id
decrement_eventsrc_ref_count_for_id env id =
    checked (throw_resource_id_err (codes "decrement_eventsrc_ref_count_for_id") id)
      (Queries.decrement_eventsrc_ref_count_for_id env id)

-- A function with a `char s[MAX_STR_LEN]` on its stack, which becomes the string that it returns.
unfoldable pub reading_text : Env → (Str → U (Ended ℕ)) → U (Ended Str)
unfolding ◌>>=◌ adjust or_throw text
reading_text env m = do
  adjust (λ p. record p { text = env.stack })
  ret ← m env.stack
  or_throw ret (λ n. gets (λ p. text p.text))

unfoldable pub get_driver_info_for_memregion_id : Env → ResourceId → U (Ended Str)
unfolding reading_text checked throw_resource_id_err Queries.get_driver_info_for_memregion_id
get_driver_info_for_memregion_id env id = reading_text env (λ s.
    checked (throw_resource_id_err (codes "get_driver_info_for_memregion_id") id)
      (Queries.get_driver_info_for_memregion_id env s max_str_len id))

unfoldable pub get_driver_info_for_eventsrc_id : Env → ResourceId → U (Ended Str)
unfolding reading_text checked throw_resource_id_err Queries.get_driver_info_for_eventsrc_id
get_driver_info_for_eventsrc_id env id = reading_text env (λ s.
    checked (throw_resource_id_err (codes "get_driver_info_for_eventsrc_id") id)
      (Queries.get_driver_info_for_eventsrc_id env s max_str_len id))

unfoldable pub get_hw_info_for_memregion_id : Env → ResourceId → U (Ended Str)
unfolding reading_text checked throw_resource_id_err Queries.get_hw_info_for_memregion_id
get_hw_info_for_memregion_id env id = reading_text env (λ s.
    checked (throw_resource_id_err (codes "get_hw_info_for_memregion_id") id)
      (Queries.get_hw_info_for_memregion_id env s max_str_len id))

unfoldable pub get_hw_info_for_eventsrc_id : Env → ResourceId → U (Ended Str)
unfolding reading_text checked throw_resource_id_err Queries.get_hw_info_for_eventsrc_id
get_hw_info_for_eventsrc_id env id = reading_text env (λ s.
    checked (throw_resource_id_err (codes "get_hw_info_for_eventsrc_id") id)
      (Queries.get_hw_info_for_eventsrc_id env s max_str_len id))

abbrev version_of_code : ℕ → Version
version_of_code n = record { code = pos n }

unfoldable pub get_kernel_version : Env → U (Ended Version)
unfolding ◌>>=◌ checked or_throw Queries.get_kernel_version_code
get_kernel_version env = do
  ret ← checked (throw_err (codes "get_kernel_version")) (Queries.get_kernel_version_code env)
  or_throw ret (λ n. pure (version_of_code n))

unfoldable pub get_kernel_commit_id : Env → U (Ended Str)
unfolding reading_text checked Queries.get_kernel_commit_id
get_kernel_commit_id env = reading_text env (λ s.
    checked (throw_err (codes "get_kernel_commit_id"))
      (Queries.get_kernel_commit_id env s max_str_len))

unfoldable pub get_kernel_variant : Env → U (Ended Str)
unfolding reading_text checked Queries.get_kernel_variant
get_kernel_variant env = reading_text env (λ s.
    checked (throw_err (codes "get_kernel_variant")) (Queries.get_kernel_variant env s max_str_len))

-- The C function never fails.
unfoldable pub get_userspace_commit_id : Str → Bool → Str
unfolding Queries.get_userspace_commit_id
get_userspace_commit_id commit_hash repo_is_dirty =
    Queries.get_userspace_commit_id commit_hash repo_is_dirty max_str_len
