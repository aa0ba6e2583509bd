-- ===== src/Device.antt =====
-- The structures that a driver fills in (kernel/include/cuddlk/device.h, memregion.h, eventsrc.h,
-- interrupt.h, kernel/linux/include/cuddlk/impl_linux.h), and the search for a resource of a device
-- by its name (kernel/src/cuddlk_common.c).
pub mod Texts
pub mod Find
use cuddl.Base.{
  ℕ, ◌%◌, Bool, true, false, ◌&&◌, Option, none, some, ℤ, Result, ok, err, enxio, scan, ltb, ◌==◌,
  if◌then◌else◌,
}
use cuddl.CStr.{Str, max_str_len, strnlen, strncmp, is_eq}

abbrev pub max_dev_mem_regions : ℕ
max_dev_mem_regions = 5

abbrev pub max_dev_events : ℕ
max_dev_events = 1

-- The bit that CUDDLK_MEMF_SHARED, CUDDLK_EVENTSRCF_SHARED, CUDDLK_IRQF_SHARED and the two
-- CLAIMF_HOSTILE options name, all `1 << 0`.
abbrev pub has_bit_0 : ℕ → Bool
has_bit_0 flags = flags % 2 == 1

-- `name` is `none` for a NULL pointer. Lengths are 64-bit and `ref_count` is a 32-bit pattern.
pub record Memregion : Type 0 where
  pub name : Option Str
  pub pa_addr : ℕ
  pub pa_len : ℕ
  pub start_offset : ℕ
  pub len : ℕ
  pub type : ℕ
  pub flags : ℕ
  pub ref_count : ℕ

-- A callback is `none` for NULL, and otherwise what the driver's function answers. A handler
-- answers with one of the two values of enum cuddlk_interrupt_handler_return_value.
pub record Interrupt : Type 0 where
  pub handler : Option ℕ
  pub disable : Option (Result ℕ)
  pub enable : Option (Result ℕ)
  pub is_enabled : Option (Result ℕ)
  pub irq : ℤ
  pub flags : ℕ

pub record Eventsrc : Type 0 where
  pub name : Option Str
  pub flags : ℕ
  pub intr : Interrupt
  pub ref_count : ℕ
  pub uio_open_count : ℕ
  pub udd_open_count : ℕ

-- One entry of uio_info.mem or of udd_device.mem_regions.
pub record OsMem : Type 0 where
  pub name : Option Str
  pub addr : ℕ
  pub offs : ℕ
  pub size : ℕ
  pub memtype : ℕ

-- The parts of struct uio_info and struct udd_device that the code fills in. `hooked` says that
-- the entry points for open, close and interrupt control are set, `handled` the one for interrupts, and
-- `irq_shared` the flag IRQF_SHARED.
pub record OsDevice : Type 0 where
  pub name : Option Str
  pub mem : ℕ → OsMem
  pub irq : ℤ
  pub irq_shared : Bool
  pub handled : Bool
  pub hooked : Bool

-- `uio_minor` and `uio_owner` are the fields of uio_dev that __uio_register_device fills in.
pub record Device : Type 0 where
  pub group : Option Str
  pub name : Option Str
  pub driver_info : Option Str
  pub hw_info : Option Str
  pub instance_id : ℤ
  pub mem : ℕ → Memregion
  pub events : ℕ → Eventsrc
  pub parent_device : ℕ
  pub owner : ℕ
  pub unique_name : Option Str
  pub uio : OsDevice
  pub udd : OsDevice
  pub uio_minor : ℕ
  pub uio_owner : ℕ

-- `query && strnlen(query, CUDDLK_MAX_STR_LEN) > 0`
abbrev pub is_given : Option Str → Bool
is_given none = false
is_given (some q) = ltb 0 (strnlen q max_str_len)

-- `strncmp(field, query, CUDDLK_MAX_STR_LEN) == 0`
unfoldable pub same_str : Option Str → Option Str → Bool
same_str (some s) (some q) = is_eq (strncmp s q max_str_len)
same_str _ _ = false

-- A query that is NULL or empty fits every field.
unfoldable pub str_fits : Option Str → Option Str → Bool
unfolding same_str
str_fits field query = if is_given query then same_str field query else true

abbrev pub is_some {ℓ} : {A : Type ℓ} → Option A → Bool
is_some none = false
is_some (some a) = true

abbrev pub is_named : Option Str → Bool
is_named name = is_some name

unfoldable pub name_fits : Option Str → Option Str → Bool
unfolding str_fits
name_fits name query = is_named name && str_fits name query

abbrev pub slot_or_enxio : Option ℕ → Result ℕ
slot_or_enxio none = err enxio
slot_or_enxio (some i) = ok i

unfoldable pub device_find_memregion_slot : Device → Option Str → Result ℕ
unfolding name_fits
device_find_memregion_slot dev name =
    slot_or_enxio (scan (λ i. name_fits (dev.mem i).name name) 0 max_dev_mem_regions)

unfoldable pub device_find_eventsrc_slot : Device → Option Str → Result ℕ
unfolding name_fits
device_find_eventsrc_slot dev name =
    slot_or_enxio (scan (λ i. name_fits (dev.events i).name name) 0 max_dev_events)
