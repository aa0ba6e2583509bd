-- ===== src/Ioctl/Query.antt =====
-- The commands of cuddlk_manager_ioctl that look a slot up, read or correct a reference count, or
-- describe the kernel module.
use cuddl.Base.{
  ℕ, ◌-◌, Bool, not, Option, none, some, [], ◌∷◌, ◌++◌, Result, err, einval, enodev, ℤ, pos, ◌==ℤ◌,
  ◌==◌, ltb, take, if◌then◌else◌,
}
use cuddl.CStr.{Str, codes, strncat, padded, max_str_len, strnlen}
use cuddl.Device.{
  Device, device_find_memregion_slot, device_find_eventsrc_slot, max_dev_mem_regions,
  max_dev_events,
}
use cuddl.Kernel.{M, Reply, ResourceId, ◌>>=◌, ◌>>◌, pure, lift, gets, hang, check, load}
use cuddl.Manager.{memregion, eventsrc, find_device_slot_matching, max_managed_devices}
use cuddl.Refs.{memregion_decr_ref_count, eventsrc_decr_ref_count}
use cuddl.Ioctl.Commands.{
  SlotData, RefCountData, DriverInfoData, IsEnabledData, Call, receive, slot_below, copy_to_user,
  int_result,
}
use cuddl.Ioctl.Claim.{id_query}

-- `memcpy(dest, src, CUDDL_MAX_STR_LEN)` of a string: it runs on into the memory behind it.
abbrev memcpy_str : Call → Str → Str
memcpy_str c s = take max_str_len (s ++ (0 ∷ c.past s))

-- The same from a pointer that may be NULL.
unfoldable pub copy_name : Call → Option Str → M Str
unfolding pure hang
copy_name c none = hang
copy_name c (some s) = pure (memcpy_str c s)

abbrev id_of : Str → Str → Str → ℤ → ResourceId
id_of group device resource instance_id = record {
  group = group;
  device = device;
  resource = resource;
  instance_id = instance_id;
}

unfoldable pub reply_id : Call → Device → Option Str → M ℕ
unfolding ◌>>=◌ copy_name copy_to_user
reply_id c dev resource = do
  group ← copy_name c dev.group
  device ← copy_name c dev.name
  resource ← copy_name c resource
  copy_to_user c (Reply.resource_id (id_of group device resource dev.instance_id)) (pure tt)
  pure 0

-- `memt_none` is CUDDLK_MEMT_NONE.
abbrev memt_none : ℕ
memt_none = 0

unfoldable pub get_memregion_id_ioctl : Call → SlotData → M ℕ
unfolding ◌>>=◌ load check receive reply_id
get_memregion_id_ioctl c s = do
  receive c s.version_code
  slot ← lift (slot_below max_managed_devices s.device_slot)
  mslot ← lift (slot_below max_dev_mem_regions s.resource_slot)
  p ← gets (λ k. k.devices slot)
  check (not (p == 0)) enodev
  dev ← load p
  check (not ((dev.mem mslot).type == memt_none)) einval
  reply_id c dev (dev.mem mslot).name

-- `irq_none` is CUDDLK_IRQ_NONE.
abbrev irq_none : ℤ
irq_none = pos 0

unfoldable pub get_eventsrc_id_ioctl : Call → SlotData → M ℕ
unfolding ◌>>=◌ load check receive reply_id
get_eventsrc_id_ioctl c s = do
  receive c s.version_code
  slot ← lift (slot_below max_managed_devices s.device_slot)
  eslot ← lift (slot_below max_dev_events s.resource_slot)
  p ← gets (λ k. k.devices slot)
  check (not (p == 0)) enodev
  dev ← load p
  check (not ((dev.events eslot).intr.irq ==ℤ irq_none)) einval
  reply_id c dev (dev.events eslot).name

unfoldable pub memregion_ref_count_ioctl : Call → Bool → RefCountData → M ℕ
unfolding ◌>>=◌ load receive memregion_decr_ref_count
memregion_ref_count_ioctl c decrement s = do
  receive c s.version_code
  found ← gets (λ k. find_device_slot_matching k (id_query s.id memregion) 0)
  slot ← lift found
  p ← gets (λ k. k.devices slot)
  dev ← load p
  mslot ← lift (device_find_memregion_slot dev (some s.id.resource))
  (if decrement
      then memregion_decr_ref_count p mslot >> pure 0
      else lift (int_result (dev.mem mslot).ref_count))

unfoldable pub eventsrc_ref_count_ioctl : Call → Bool → RefCountData → M ℕ
unfolding ◌>>=◌ load receive eventsrc_decr_ref_count
eventsrc_ref_count_ioctl c decrement s = do
  receive c s.version_code
  found ← gets (λ k. find_device_slot_matching k (id_query s.id eventsrc) 0)
  slot ← lift found
  p ← gets (λ k. k.devices slot)
  dev ← load p
  eslot ← lift (device_find_eventsrc_slot dev (some s.id.resource))
  (if decrement
      then eventsrc_decr_ref_count p eslot >> pure 0
      else lift (int_result (dev.events eslot).ref_count))

-- GET_MAX_MANAGED_DEVICES, GET_MAX_DEV_MEM_REGIONS, GET_MAX_DEV_EVENTS and GET_KERNEL_VERSION_CODE
-- differ in the constant.
unfoldable pub constant_ioctl : Call → ℤ → ℕ → M ℕ
unfolding ◌>>=◌ receive
constant_ioctl c code n = do receive c code; pure n

-- cuddlk_get_commit_id on a buffer of `id_len` bytes, its text.
unfoldable pub get_commit_id : Call → ℕ → Str
unfolding strncat strnlen
get_commit_id c id_len =
    let hashed = strncat [] c.commit_hash (id_len - 1) in
    if ltb (id_len - 1) 1
    then []
    else if ltb (id_len - strnlen hashed id_len - 1) 1
    then hashed
    else if c.repo_is_dirty
    then strncat hashed (codes "(M)") (id_len - strnlen hashed id_len - 1)
    else strncat hashed [] (id_len - strnlen hashed id_len - 1)

unfoldable pub get_kernel_commit_id_ioctl : Call → ℤ → M ℕ
unfolding ◌>>=◌ receive copy_to_user get_commit_id
get_kernel_commit_id_ioctl c code = do
  receive c code
  copy_to_user c (Reply.text_info (get_commit_id c max_str_len)) (pure tt)
  pure 0

unfoldable pub get_kernel_variant_ioctl : Call → ℤ → M ℕ
unfolding ◌>>=◌ receive copy_to_user padded
get_kernel_variant_ioctl c code = do
  receive c code
  copy_to_user c (Reply.text_info (padded c.variant max_str_len)) (pure tt)
  pure 0

abbrev or_unknown : Option Str → Str
or_unknown none = codes "UNKNOWN"
or_unknown (some s) = s

-- GET_DRIVER_INFO and GET_HW_INFO differ in the field that they read.
unfoldable pub info_ioctl : Call → (Device → Option Str) → DriverInfoData → M ℕ
unfolding ◌>>=◌ load receive check copy_to_user padded
info_ioctl c field s = do
  receive c s.version_code
  slot ← lift (slot_below max_managed_devices s.device_slot)
  p ← gets (λ k. k.devices slot)
  check (not (p == 0)) enodev
  dev ← load p
  copy_to_user c (Reply.text_info (padded (or_unknown (field dev)) max_str_len)) (pure tt)
  pure 0

abbrev pub answer : Option (Result ℕ) → Result ℕ
answer none = err einval
answer (some r) = r

unfoldable pub eventsrc_is_enabled_ioctl : Call → IsEnabledData → M ℕ
unfolding ◌>>=◌ load receive check
eventsrc_is_enabled_ioctl c s = do
  receive c s.version_code
  slot ← lift (slot_below max_managed_devices s.token.device_index)
  p ← gets (λ k. k.devices slot)
  check (not (p == 0)) enodev
  dev ← load p
  eslot ← lift (slot_below max_dev_events s.token.resource_index)
  lift (answer (dev.events eslot).intr.is_enabled)
