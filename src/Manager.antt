-- ===== src/Manager.antt =====
-- The device manager (kernel/src/cuddlk_manager_common.c): the table of managed devices, the search
-- in it, the choice of instance numbers, and the calls by which a driver adds and removes a device.
pub mod Search
pub mod Fits
pub mod Instances
pub mod Manage
use cuddl.Base.{
  ℕ, zero, suc, ◌-◌, Bool, true, false, ◌&&◌, ◌||◌, not, Option, none, some, Result, ok, err, fault,
  enxio, enomem, einval, ℤ, pos, ◌==ℤ◌, update, scan, ltb, ◌==◌, if◌then◌else◌,
}
use cuddl.CStr.{Str}
use cuddl.Device.{
  Device, is_given, is_named, str_fits, slot_or_enxio, device_find_memregion_slot,
  device_find_eventsrc_slot,
}
use cuddl.Kernel.{
  Kernel, M, ◌>>=◌, ◌>>◌, lift, gets, check, when, ignore, on_error, load, change, with_lock,
}
use cuddl.Register.{Platform, device_register, device_unregister}

abbrev pub max_managed_devices : ℕ
max_managed_devices = 256

-- enum cuddlk_resource
pub data ResourceType : Type 0 where
  unspecified memregion eventsrc : ResourceType

-- What a caller of the search asks for. A name that is NULL or empty and an instance of 0 fit all.
pub record Query : Type 0 where
  pub group : Option Str
  pub name : Option Str
  pub resource : Option Str
  pub instance_id : ℤ
  pub type : ResourceType

abbrev pub is_found : Result ℕ → Bool
is_found (ok i) = true
is_found _ = false

-- `if (resource && strnlen(resource, ...) > 0)` and the tests under it.
unfoldable pub resource_fits : Device → Option Str → ResourceType → Bool
resource_fits dev resource unspecified = not (is_given resource)
resource_fits dev resource memregion =
    not (is_given resource) || is_found (device_find_memregion_slot dev resource)
resource_fits dev resource eventsrc =
    not (is_given resource) || is_found (device_find_eventsrc_slot dev resource)

-- The body of the search loop for a slot that holds a device: none of its tests says `continue`.
unfoldable pub device_fits : Device → Query → Bool
unfolding resource_fits str_fits
device_fits dev q =
    (q.instance_id ==ℤ pos 0 || dev.instance_id ==ℤ q.instance_id)
    && (str_fits dev.group q.group
        && (str_fits dev.name q.name && resource_fits dev q.resource q.type))

unfoldable pub slot_fits : Kernel → Query → ℕ → Bool
unfolding device_fits
slot_fits k q i = not (k.devices i == 0) && device_fits (k.device (k.devices i)) q

-- `strncmp` is called with the group or the name of the device, which is NULL.
unfoldable pub device_faults : Device → Query → Bool
unfolding str_fits
device_faults dev q =
    (q.instance_id ==ℤ pos 0 || dev.instance_id ==ℤ q.instance_id)
    && ((is_given q.group && not (is_named dev.group))
        || (str_fits dev.group q.group && (is_given q.name && not (is_named dev.name))))

unfoldable pub slot_faults : Kernel → Query → ℕ → Bool
unfolding device_faults
slot_faults k q i = not (k.devices i == 0) && device_faults (k.device (k.devices i)) q

abbrev pub slot_or_fault : (ℕ → Bool) → Option ℕ → Result ℕ
slot_or_fault faults none = err enxio
slot_or_fault faults (some i) = if faults i then fault else ok i

-- The loop ends at the first slot that fits, or that holds a device without a name that is compared.
unfoldable pub find_device_slot_matching : Kernel → Query → ℕ → Result ℕ
unfolding slot_fits slot_faults
find_device_slot_matching k q start_index = slot_or_fault (slot_faults k q) (
    scan (λ i. slot_faults k q i || slot_fits k q i) start_index
      (max_managed_devices - start_index))

unfoldable pub find_device_slot : Kernel → ℕ → Result ℕ
find_device_slot k p = slot_or_enxio (scan (λ i. k.devices i == p) 0 max_managed_devices)

-- The NULL pointer is searched for.
unfoldable pub find_empty_slot : Kernel → Result ℕ
unfolding find_device_slot
find_empty_slot k = find_device_slot k 0

abbrev pub instance_query : Device → ℕ → Query
instance_query dev i = record {
  group = dev.group;
  name = dev.name;
  resource = none;
  instance_id = pos i;
  type = unspecified;
}

-- The `while (1)` loop. Each round goes on behind the slot that it found, so it takes no more
-- rounds than there are slots; a loop that runs out of fuel does not return.
unfoldable pub next_instance : Kernel → Device → ℕ → ℕ → ℕ → Result ℕ
next_instance k dev zero instance_id slot = fault
next_instance k dev (suc fuel) instance_id slot =
    elim (find_device_slot_matching k (instance_query dev instance_id) slot) [
      | fault ↦ fault
      | err e ↦ ok instance_id
      | ok found ↦
          let rest = next_instance k dev fuel (suc instance_id) (suc found) in
          if ltb found (max_managed_devices - 1) then rest else err enomem
    ]

unfoldable pub next_available_instance_id : Kernel → Device → Result ℕ
next_available_instance_id k dev = next_instance k dev max_managed_devices 1 0

-- `if (slot < 0) return -ENOMEM;`
abbrev or_enomem : Result ℕ → Result ℕ
or_enomem (err e) = err enomem
or_enomem r = r

set_device : ℕ → ℕ → M (Unit {0})
set_device slot p k = (ok tt, record k { devices = update k.devices slot p })

unfoldable pub manager_add_device : ℕ → M (Unit {0})
unfolding ◌>>=◌ set_device find_empty_slot
manager_add_device p = do
  found ← gets find_empty_slot
  slot ← lift (or_enomem found)
  set_device slot p

unfoldable pub manager_remove_device : ℕ → M (Unit {0})
unfolding ◌>>=◌ set_device find_device_slot
manager_remove_device p = do
  found ← gets (λ k. find_device_slot k p)
  slot ← lift found
  set_device slot 0

abbrev with_instance : ℕ → Device → Device
with_instance i dev = record dev { instance_id = pos i }

-- `if (!dev->instance) ...`
unfoldable pub assign_instance : ℕ → M (Unit {0})
unfolding ◌>>=◌ load change when
assign_instance p = do
  dev ← load p
  when (dev.instance_id ==ℤ pos 0) (do
    next ← gets (λ k. next_available_instance_id k dev)
    i ← lift next
    change p (with_instance i))

-- cuddlk_device_manage up to the registration.
unfoldable pub manage_register : Platform → ℕ → M (Unit {0})
unfolding ◌>>=◌ load check assign_instance
manage_register env p = do
  dev ← load p
  check (is_named dev.group) einval
  check (is_named dev.name) einval
  assign_instance p
  device_register env p

unfoldable pub manage_body : Platform → ℕ → M (Unit {0})
unfolding ◌>>=◌ manage_register on_error ignore manager_add_device
manage_body env p = do
  manage_register env p
  on_error (manager_add_device p) (ignore (device_unregister env p))

unfoldable pub device_manage : Platform → ℕ → M (Unit {0})
unfolding with_lock
device_manage env p = with_lock (manage_body env p)

abbrev pub first_error : Result (Unit {0}) → Result (Unit {0}) → Result (Unit {0})
first_error (ok _) r = r
first_error e fault = fault
first_error e _ = e

-- The unregistration runs whether or not the device was found, and the first error is returned.
unfoldable pub release_body : Platform → ℕ → M (Unit {0})
unfolding manager_remove_device
release_body env p k =
    let (ret1, k1) = manager_remove_device p k in
    let (ret2, k2) = device_unregister env p k1 in (first_error ret1 ret2, k2)

unfoldable pub device_release : Platform → ℕ → M (Unit {0})
unfolding with_lock release_body
device_release env p = with_lock (release_body env p)
