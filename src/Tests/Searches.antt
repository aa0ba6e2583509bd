-- ===== src/Tests/Searches.antt =====
-- Searches in concrete tables.
use cuddl.Base.{
  ℕ, zero, suc, ◌<◌, ◌≡◌, ◌≢◌, refl, some, ok, err, enomem, fault, true, false, arith, ◌==◌,
  if◌then◌else◌, [],
}
use cuddl.CStr.{codes}
use cuddl.Device.{Device, device_find_memregion_slot, max_dev_mem_regions}
use cuddl.Device.Find.{FirstNamed, device_find_memregion_slot-FirstNamed}
use cuddl.Kernel.{Kernel}
use cuddl.Manager.{
  slot_fits, find_device_slot_matching, next_available_instance_id, instance_query, device_fits,
  next_instance,
}
use cuddl.Manager.Fits.{slot_fits-Fits, Fits-slot_fits}
use cuddl.Manager.Search.{Finds, AllNamed, find_device_slot_matching-Finds}
use cuddl.Manager.Instances.{
  Ascending, Chosen, Named, next_available_instance_id-Chosen, next_available_instance_id-ne-fault,
  next_available_instance_id_taken,
}
use cuddl.Tests.World.{kernel_of, device_of, idle}

-- A device numbered 2 in slot 0, and one numbered 1 in slot 1.
abbrev swapped : Kernel
swapped = kernel_of (λ s. if s == 0 then 2 else if s == 1 then 1 else 0) (λ p. device_of 0 p) []

find_device_slot_matching-Finds_example :
    Finds idle
      (instance_query (device_of 0 1) 1)
      0
      (find_device_slot_matching idle (instance_query (device_of 0 1) 1) 0)
find_device_slot_matching-Finds_example =
    find_device_slot_matching-Finds idle (instance_query (device_of 0 1) 1) 0 (omega arith)

fits-Named :
    (k : Kernel) (dev : Device) (n i : ℕ)
    → slot_fits k (instance_query dev n) i ≡ true
    → Named k dev n i
fits-Named k dev n i e = slot_fits-Fits k (instance_query dev n) i e

unfit-Named :
    (k : Kernel) (dev : Device) (n i : ℕ)
    → slot_fits k (instance_query dev n) i ≡ false
    → ¬ Named k dev n i
unfit-Named k dev n i e f = cc (e, Fits-slot_fits k (instance_query dev n) i f)

slot_fits_first : slot_fits swapped (instance_query (device_of 0 0) 2) 0 ≡ true
unfolding slot_fits device_fits cuddl.CStr.strnlen cuddl.CStr.strncmp
slot_fits_first = refl

slot_fits_second : slot_fits swapped (instance_query (device_of 0 0) 1) 1 ≡ true
unfolding slot_fits device_fits cuddl.CStr.strnlen cuddl.CStr.strncmp
slot_fits_second = refl

slot_fits_other : (m : ℕ) → m < 1 → slot_fits swapped (instance_query (device_of 0 0) 1) m ≡ false
unfolding slot_fits device_fits cuddl.CStr.strnlen cuddl.CStr.strncmp
slot_fits_other zero h = refl
slot_fits_other (suc m) h = absurd (omega arith)

slot_fits_behind : (m : ℕ) → 1 < m → slot_fits swapped (instance_query (device_of 0 0) 2) m ≡ false
unfolding slot_fits
slot_fits_behind m h = ground arith

swapped-AllNamed : AllNamed swapped
swapped-AllNamed s n = ((λ e. cc), (λ e. cc))

next_available_instance_id_taken_example : next_available_instance_id swapped (device_of 0 0) ≡ ok 2
next_available_instance_id_taken_example =
    next_available_instance_id_taken swapped (device_of 0 0) swapped-AllNamed 0 1 (omega arith)
      (omega arith) (fits-Named swapped (device_of 0 0) 2 0 slot_fits_first)
      (fits-Named swapped (device_of 0 0) 1 1 slot_fits_second)
      (λ m l. unfit-Named swapped (device_of 0 0) 1 m (slot_fits_other m l))
      (λ m l b. unfit-Named swapped (device_of 0 0) 2 m (slot_fits_behind m l))

-- Devices numbered 1 and 2 in slots 0 and 1.
abbrev sorted : Kernel
sorted = kernel_of (λ s. if s == 0 then 1 else if s == 1 then 2 else 0) (λ p. device_of 0 p) []

sorted-AllNamed : AllNamed sorted
sorted-AllNamed s n = ((λ e. cc), (λ e. cc))

sorted-Ascending : Ascending sorted (device_of 0 0)
sorted-Ascending = record {
  grows = λ i j a b l p q f g. ground (arith, f.there, g.there, f.instance_id, g.instance_id);
}

next_available_instance_id-Chosen_example :
    Chosen sorted (device_of 0 0) (next_available_instance_id sorted (device_of 0 0))
next_available_instance_id-Chosen_example =
    next_available_instance_id-Chosen sorted (device_of 0 0) sorted-AllNamed sorted-Ascending

next_available_instance_id-ne-fault_example :
    next_available_instance_id swapped (device_of 0 0) ≢ fault
next_available_instance_id-ne-fault_example =
    next_available_instance_id-ne-fault swapped (device_of 0 0) swapped-AllNamed

device_find_memregion_slot-FirstNamed_example :
    FirstNamed
      (λ i. ((device_of 0 1).mem i).name)
      (some (codes "m"))
      max_dev_mem_regions
      (device_find_memregion_slot (device_of 0 1) (some (codes "m")))
device_find_memregion_slot-FirstNamed_example =
    device_find_memregion_slot-FirstNamed (device_of 0 1) (some (codes "m"))

-- One device, numbered 1, in the last slot; all other slots are empty.
abbrev last_taken : Kernel
last_taken = kernel_of (λ s. if s == 255 then 1 else 0) (λ p. device_of 0 p) []

no_number_left : next_available_instance_id last_taken (device_of 0 0) ≡ err enomem
unfolding next_available_instance_id next_instance find_device_slot_matching cuddl.Base.scan
    cuddl.CStr.strnlen cuddl.CStr.strncmp
no_number_left = refl
