-- ===== src/Tests/World.antt =====
-- A machine with one device: group "g", name "d", instance 1, a region "m" that process 7 holds, and
-- an event source "e".
use cuddl.Base.{ℕ, true, false, none, some, List, [], ◌∷◌, ok, pos, ◌==◌, if◌then◌else◌}
use cuddl.CStr.{codes}
use cuddl.Device.{Device, Memregion, Interrupt, Eventsrc, OsMem, OsDevice}
use cuddl.Kernel.{Kernel, ResourceRef, ResourceId}
use cuddl.Register.{Platform}
use cuddl.Ioctl.Commands.{Call, ClaimData}

abbrev pub no_region : Memregion
no_region = record {
  name = none;
  pa_addr = 0;
  pa_len = 0;
  start_offset = 0;
  len = 0;
  type = 0;
  flags = 0;
  ref_count = 0;
}

abbrev pub region : ℕ → Memregion
region n = record {
  name = some (codes "m");
  pa_addr = 4096;
  pa_len = 4096;
  start_offset = 16;
  len = 64;
  type = 1;
  flags = 0;
  ref_count = n;
}

abbrev pub interrupt : Interrupt
interrupt = record {
  handler = some 1;
  disable = some (ok 0);
  enable = some (ok 0);
  is_enabled = none;
  irq = pos 5;
  flags = 0;
}

abbrev pub event : Eventsrc
event = record {
  name = some (codes "e");
  flags = 0;
  intr = interrupt;
  ref_count = 0;
  uio_open_count = 0;
  udd_open_count = 0;
}

abbrev pub no_os_mem : OsMem
no_os_mem = record { name = none; addr = 0; offs = 0; size = 0; memtype = 0 }

abbrev pub no_os_device : OsDevice
no_os_device = record {
  name = none;
  mem = λ i. no_os_mem;
  irq = pos 0;
  irq_shared = false;
  handled = false;
  hooked = false;
}

-- The device with a count of `n` at its region, and the instance number `i`.
abbrev pub device_of : ℕ → ℕ → Device
device_of n i = record {
  group = some (codes "g");
  name = some (codes "d");
  driver_info = none;
  hw_info = none;
  instance_id = pos i;
  mem = λ j. if j == 0 then region n else no_region;
  events = λ j. event;
  parent_device = 0;
  owner = 9;
  unique_name = some (codes "g.d.1");
  uio = no_os_device;
  udd = no_os_device;
  uio_minor = 3;
  uio_owner = 9;
}

abbrev pub ref : ResourceRef
ref = record { device_index = 0; resource_index = 0; pid = 7 }

-- The manager with a table of devices, and the references to regions.
abbrev pub kernel_of : (ℕ → ℕ) → (ℕ → Device) → List ResourceRef → Kernel
kernel_of table memory refs = record {
  devices = table;
  device = memory;
  mem_refs = refs;
  event_refs = [];
  calls = [];
  buffers = [];
  locked = false;
  user = none;
}

abbrev pub one_device : ℕ → ℕ
one_device s = if s == 0 then 1 else 0

-- Process 7 holds the region.
abbrev pub claimed : Kernel
claimed = kernel_of one_device (λ p. device_of 1 1) (ref ∷ [])

-- Nobody holds anything.
abbrev pub idle : Kernel
idle = kernel_of one_device (λ p. device_of 0 1) []

-- No device is managed; the one at 1 has no number yet.
abbrev pub booted : Kernel
booted = kernel_of (λ s. 0) (λ p. device_of 0 0) []

abbrev pub platform : Platform
platform = record {
  use_udd = false;
  page_size = 4096;
  max_uio_maps = 5;
  udd_nr_maps = 5;
  uio_irq_custom = pos 1;
  udd_irq_custom = pos 1;
  manager_device = 11;
  this_module = 12;
  kasprintf_succeeds = true;
  minor = 3;
  uio_register_error = none;
  udd_register_error = none;
  udd_unregister_error = none;
}

-- All calls succeed.
abbrev pub fine : Call
fine = record {
  copy_in = true;
  copy_out = true;
  ref_alloc = true;
  kzalloc = λ b. true;
  past = λ s. [];
  commit_hash = codes "abc";
  repo_is_dirty = true;
  variant = codes "Linux UIO";
}

abbrev pub id : ResourceId
id = record { group = codes "g"; device = codes "d"; resource = codes "m"; instance_id = pos 1 }

abbrev pub claim : ClaimData
claim = record { version_code = pos 65536; id = id; pid = 8; options = 0 }
