-- ===== src/Ioctl/Claim.antt =====
-- The CLAIM and GET_INFO commands of cuddlk_manager_ioctl.
pub mod Flow
pub mod Outcome
pub mod Kinds
pub mod Cases
pub mod Info
use Prim.Native.Nat.{bit_or}
use cuddl.Base.{ℕ, ◌*◌, Bool, Option, none, some, [], ◌++◌, enomem, pos, if◌then◌else◌}
use cuddl.CStr.{Str, codes, text, snprintf, max_str_len}
use cuddl.CStr.Decimal.{decimal}
use cuddl.Device.{Device, has_bit_0, is_some, device_find_memregion_slot, device_find_eventsrc_slot}
use cuddl.Kernel.{
  M, Reply, ResourceId, ResourceRef, ◌>>=◌, ◌>>◌, pure, raise, lift, gets, when, ignore, load,
}
use cuddl.Kernel
use cuddl.Manager.{ResourceType, Query, memregion, eventsrc, find_device_slot_matching}
use cuddl.Refs.{
  memregion_claim, memregion_decr_ref_count, eventsrc_claim, eventsrc_decr_ref_count, add_mem_ref,
  add_event_ref,
}
use cuddl.Ioctl.Commands.{ClaimData, Call, receive, copy_to_user}

abbrev pub id_query : ResourceId → ResourceType → Query
id_query id type = record {
  group = some id.group;
  name = some id.device;
  resource = some id.resource;
  instance_id = id.instance_id;
  type = type;
}

abbrev pub name_text : Option Str → Str
name_text none = []
name_text (some s) = text s

-- "/dev/rtdm/%s,mapper%d" or "/dev/uio%d"
unfoldable pub memregion_device_name : Bool → Device → ℕ → Str
memregion_device_name rt dev mslot = snprintf max_str_len (
    if rt
    then codes "/dev/rtdm/" ++ (name_text dev.unique_name ++ (codes ",mapper" ++ decimal mslot))
    else codes "/dev/uio" ++ decimal dev.uio_minor)

unfoldable pub memregion_info_of : ℕ → Bool → Device → ℕ → ℕ → Kernel.MemregionInfo
unfolding memregion_device_name
memregion_info_of page_size rt dev slot mslot = record {
  len = (dev.mem mslot).len;
  flags = if has_bit_0 (dev.mem mslot).flags then 1 else 0;
  pa_mmap_offset = if rt then 0 else mslot * page_size;
  pa_len = (dev.mem mslot).pa_len;
  start_offset = (dev.mem mslot).start_offset;
  token = record { device_index = pos slot; resource_index = pos mslot };
  device_name = memregion_device_name rt dev mslot;
}

abbrev pub ref_of : ClaimData → ℕ → ℕ → ResourceRef
ref_of s slot i = record { device_index = slot; resource_index = i; pid = s.pid }

-- The two commands are alike from the claim on, once the slots are known: the claim if it is asked
-- for, the answer, and the new reference. `undo` is the count-down.
unfoldable pub claim_flow :
    Call
    → Bool
    → (ℕ → M (Unit {0}))
    → (ℕ → M (Unit {0}))
    → (Device → Reply)
    → M (Unit {0})
    → ℕ
    → M ℕ
unfolding ◌>>=◌ load when ignore copy_to_user
claim_flow c claim take undo reply add slot = do
  p ← gets (λ k. k.devices slot)
  when claim (take p)
  dev ← load p
  copy_to_user c (reply dev) (ignore (undo p))
  when claim (if c.ref_alloc then add else (ignore (undo p) >> raise enomem))
  pure 0

unfoldable pub memregion_claim_at : Call → ℕ → Bool → Bool → ClaimData → ℕ → ℕ → M ℕ
unfolding claim_flow memregion_claim memregion_decr_ref_count add_mem_ref
memregion_claim_at c page_size rt claim s slot mslot =
    claim_flow c claim (λ p. memregion_claim p mslot (has_bit_0 s.options))
      (λ p. memregion_decr_ref_count p mslot)
      (λ dev. Reply.memregion_info (memregion_info_of page_size rt dev slot mslot))
      (add_mem_ref (ref_of s slot mslot)) slot

unfoldable pub memregion_claim_ioctl : Call → ℕ → Bool → Bool → ClaimData → M ℕ
unfolding ◌>>=◌ load receive memregion_claim_at
memregion_claim_ioctl c page_size rt claim s = do
  receive c s.version_code
  found ← gets (λ k. find_device_slot_matching k (id_query s.id memregion) 0)
  slot ← lift found
  p ← gets (λ k. k.devices slot)
  dev ← load p
  mslot ← lift (device_find_memregion_slot dev (some s.id.resource))
  memregion_claim_at c page_size rt claim s slot mslot

-- "/dev/rtdm/%s" or "/dev/uio%d"
unfoldable pub eventsrc_device_name : Bool → Device → Str
eventsrc_device_name rt dev = snprintf max_str_len (
    if rt
    then codes "/dev/rtdm/" ++ name_text dev.unique_name
    else codes "/dev/uio" ++ decimal dev.uio_minor)

-- `if (b) flags |= f;`
abbrev or_flag : Bool → ℕ → ℕ → ℕ
or_flag b f flags = if b then bit_or flags f else flags

-- CUDDL_EVENTSRCF_SHARED, _WAITABLE, _HAS_DISABLE, _HAS_ENABLE and _HAS_IS_ENABLED are 1 to 16.
unfoldable pub eventsrc_info_flags : Device → ℕ → ℕ
eventsrc_info_flags dev eslot =
    let intr = (dev.events eslot).intr in
    or_flag (is_some intr.is_enabled) 16 (
      or_flag (is_some intr.disable) 4 (
        or_flag (is_some intr.enable) 8
          (or_flag (has_bit_0 (dev.events eslot).flags) 1 (bit_or 0 2))))

unfoldable pub eventsrc_info_of : Bool → Device → ℕ → ℕ → Kernel.EventsrcInfo
unfolding eventsrc_device_name eventsrc_info_flags
eventsrc_info_of rt dev slot eslot = record {
  flags = eventsrc_info_flags dev eslot;
  token = record { device_index = pos slot; resource_index = pos eslot };
  device_name = eventsrc_device_name rt dev;
}

unfoldable pub eventsrc_claim_at : Call → Bool → Bool → ClaimData → ℕ → ℕ → M ℕ
unfolding claim_flow eventsrc_claim eventsrc_decr_ref_count add_event_ref
eventsrc_claim_at c rt claim s slot eslot =
    claim_flow c claim (λ p. eventsrc_claim p eslot (has_bit_0 s.options))
      (λ p. eventsrc_decr_ref_count p eslot)
      (λ dev. Reply.eventsrc_info (eventsrc_info_of rt dev slot eslot))
      (add_event_ref (ref_of s slot eslot)) slot

unfoldable pub eventsrc_claim_ioctl : Call → Bool → Bool → ClaimData → M ℕ
unfolding ◌>>=◌ load receive eventsrc_claim_at
eventsrc_claim_ioctl c rt claim s = do
  receive c s.version_code
  found ← gets (λ k. find_device_slot_matching k (id_query s.id eventsrc) 0)
  slot ← lift found
  p ← gets (λ k. k.devices slot)
  dev ← load p
  eslot ← lift (device_find_eventsrc_slot dev (some s.id.resource))
  eventsrc_claim_at c rt claim s slot eslot
