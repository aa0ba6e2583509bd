-- ===== src/Ioctl/Commands.antt =====
-- The requests of user space (common/include/cuddl/common_impl_linux_ioctl.h), how the calls that a
-- request makes outside turn out, and what all handlers of requests have in common.
use cuddl.Base.{
  ℕ, Bool, true, false, some, Result, ok, err, ebadslt, eoverflow, enoexec, os_error, ℤ, pos,
  negsuc, ◌==ℤ◌, shift_right_16, int_mod, int_max_suc, ltb, if◌then◌else◌, ◌-◌, ◌&&◌,
}
use cuddl.CStr.{Str}
use cuddl.Kernel.{Kernel, M, Buffer, Token, ResourceId, Reply, ◌>>=◌, ◌>>◌, raise, check}

-- struct cuddlci_memregion_claim_ioctl_data and struct cuddlci_eventsrc_claim_ioctl_data; their
-- `info` is output only.
pub record ClaimData : Type 0 where
  pub version_code : ℤ
  pub id : ResourceId
  pub pid : ℕ
  pub options : ℕ

-- struct cuddlci_memregion_release_ioctl_data and struct cuddlci_eventsrc_release_ioctl_data
pub record ReleaseData : Type 0 where
  pub version_code : ℤ
  pub token : Token
  pub pid : ℕ

-- struct cuddlci_get_resource_id_ioctl_data; its `id` is output only.
pub record SlotData : Type 0 where
  pub version_code : ℤ
  pub device_slot : ℤ
  pub resource_slot : ℤ

-- struct cuddlci_ref_count_ioctl_data
pub record RefCountData : Type 0 where
  pub version_code : ℤ
  pub id : ResourceId

-- struct cuddlci_get_driver_info_ioctl_data; its `info_str` is output only.
pub record DriverInfoData : Type 0 where
  pub version_code : ℤ
  pub device_slot : ℤ

-- struct cuddlci_eventsrc_is_enabled_ioctl_data
pub record IsEnabledData : Type 0 where
  pub version_code : ℤ
  pub token : Token

-- The commands, each with the structure that its argument points to. Where that structure has a
-- version code only, it stands alone.
pub data Request : Type 0 where
  memregion_claim_uio memregion_claim_udd get_memregion_info : ClaimData → Request
  eventsrc_claim_uio eventsrc_claim_udd get_eventsrc_info : ClaimData → Request
  memregion_release_uio memregion_release_udd : ReleaseData → Request
  eventsrc_release_uio eventsrc_release_udd : ReleaseData → Request
  get_max_managed_devices get_max_dev_mem_regions get_max_dev_events : ℤ → Request
  get_memregion_id get_eventsrc_id : SlotData → Request
  get_memregion_ref_count decrement_memregion_ref_count : RefCountData → Request
  get_eventsrc_ref_count decrement_eventsrc_ref_count : RefCountData → Request
  janitor_register_pid : Request
  get_kernel_commit_id get_kernel_version_code get_kernel_variant : ℤ → Request
  get_driver_info get_hw_info : DriverInfoData → Request
  eventsrc_is_enabled : IsEnabledData → Request
  unknown : Request

-- How the calls of one request turn out: copy_from_user, copy_to_user, the allocation of a new
-- reference and those of the buffers. `past s` is the memory behind the terminator of `s`. The
-- commit of the build and its variant are set when the module is built.
pub record Call : Type 0 where
  pub copy_in : Bool
  pub copy_out : Bool
  pub ref_alloc : Bool
  pub kzalloc : Buffer → Bool
  pub past : Str → Str
  pub commit_hash : Str
  pub repo_is_dirty : Bool
  pub variant : Str

-- CUDDLK_VERSION_CODE, for 1.0.0
abbrev pub version_code : ℕ
version_code = 65536

unfoldable pub major_version_from_code : ℤ → ℤ
major_version_from_code code = shift_right_16 code

unfoldable pub version_code_is_compat : ℤ → Bool
unfolding major_version_from_code
version_code_is_compat user_version_code =
    let user = major_version_from_code user_version_code in
    let kernel = major_version_from_code (pos version_code) in
    if user ==ℤ kernel
    then true
    else if user ==ℤ pos 0 && kernel ==ℤ pos 1
    then true
    else if user ==ℤ pos 1 && kernel ==ℤ pos 0
    then true
    else false

-- What every command does first.
unfoldable pub receive : Call → ℤ → M (Unit {0})
unfolding ◌>>=◌ check
receive c code = do check c.copy_in eoverflow; check (version_code_is_compat code) enoexec

-- `if (slot >= max || slot < 0) ret = -EBADSLT;`
abbrev pub slot_below : ℕ → ℤ → Result ℕ
slot_below max (pos n) = if ltb n max then ok n else err ebadslt
slot_below max (negsuc n) = err ebadslt

abbrev reply_with : Reply → Kernel → Kernel
reply_with r k = record k { user = some r }

-- `if (copy_to_user(...)) { undo; ret = -EOVERFLOW; }`
unfoldable pub copy_to_user : Call → Reply → M (Unit {0}) → M (Unit {0})
unfolding ◌>>=◌
copy_to_user c r undo =
    if c.copy_out then (λ k. (ok tt, reply_with r k)) else (undo >> raise eoverflow)

-- A 32-bit pattern that is returned as an `int`.
abbrev pub int_result : ℕ → Result ℕ
int_result n = if ltb n int_max_suc then ok n else err (os_error (int_mod - n))
