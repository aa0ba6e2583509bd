-- ===== src/Register.antt =====
-- Registration of a device with the operating system (kernel/linux/src/cuddlk_linux.c).
pub mod Returns
pub mod Pages
use cuddl.Base.{
  ℕ, zero, suc, ◌+◌, ◌-◌, ◌*◌, ◌/◌, ◌%◌, ◌^◌, Bool, true, false, ◌&&◌, ◌||◌, Option, none, some, [],
  ◌∷◌, ◌++◌, Result, ok, err, Errno, einval, enomem, ℤ, pos, negsuc, ◌==ℤ◌, update, int_mod, ltb,
  ◌==◌, if◌then◌else◌,
}
use cuddl.CStr.{Str, text}
use cuddl.CStr.Decimal.{decimal}
use cuddl.Device.{
  Device, Memregion, Interrupt, OsMem, max_dev_mem_regions, has_bit_0, is_named, is_some,
}
use cuddl.Kernel.{
  M, OsCall, ◌>>=◌, ◌>>◌, pure, lift, check, when, ignore, on_error, load, change, call,
}

-- What the code takes from the kernel that it is built for, and how the calls of this registration
-- turn out. `use_udd` is CUDDLK_USE_UDD.
pub record Platform : Type 0 where
  pub use_udd : Bool
  pub page_size : ℕ
  pub max_uio_maps : ℕ
  pub udd_nr_maps : ℕ
  pub uio_irq_custom : ℤ
  pub udd_irq_custom : ℤ
  pub manager_device : ℕ
  pub this_module : ℕ
  pub kasprintf_succeeds : Bool
  pub minor : ℕ
  pub uio_register_error : Option Errno
  pub udd_register_error : Option Errno
  pub udd_unregister_error : Option Errno

-- A call outside succeeds, or reports an error.
abbrev pub code_of : Option Errno → Result (Unit {0})
code_of none = ok tt
code_of (some e) = err e

abbrev pub size_mod : ℕ
size_mod = 2 ^ 64

-- An `int` that is converted to the 64-bit size type.
abbrev sign_extend : ℕ → ℕ
sign_extend n = if ltb n (2 ^ 31) then n else size_mod - int_mod + n

-- `lower` is an `int`, so the quotient is cut to 32 bits.
unfoldable pub page_size_aligned : ℕ → ℕ → ℕ
page_size_aligned page i =
    if i % page == 0
    then i
    else (let lower = (i / page) % int_mod in
        (page * sign_extend ((lower + 1) % int_mod)) % size_mod)

-- The loop body's two defaults for a region: the lengths that the driver left at 0.
unfoldable pub default_len : Memregion → Memregion
default_len mem = if mem.len == 0 then record mem { len = mem.pa_len } else mem

unfoldable pub default_pa_len : ℕ → Memregion → Memregion
default_pa_len page mem =
    if mem.pa_len == 0
    then record mem { pa_len = page_size_aligned page ((mem.len + mem.start_offset) % size_mod) }
    else mem

unfoldable pub complete_memregion : ℕ → Memregion → Memregion
unfolding default_len default_pa_len
complete_memregion page mem = default_pa_len page (default_len mem)

abbrev uio_map : Memregion → OsMem
uio_map mem = record {
  name = mem.name;
  addr = mem.pa_addr;
  offs = mem.start_offset;
  size = mem.pa_len;
  memtype = mem.type;
}

-- A udd_memregion has no offset: `offs` keeps its value.
abbrev udd_map : OsMem → Memregion → OsMem
udd_map old mem = record {
  name = mem.name;
  addr = mem.pa_addr;
  offs = old.offs;
  size = mem.pa_len;
  memtype = mem.type;
}

abbrev with_mem : Device → (ℕ → Memregion) → Device
with_mem d mem = record d { mem = mem }

-- One round of the loop over the regions.
unfoldable pub register_mem : Platform → ℕ → Device → Device
unfolding complete_memregion
register_mem env i dev =
    let mem_i = complete_memregion env.page_size (dev.mem i) in
    record dev {
      mem = update dev.mem i mem_i;
      uio = record dev.uio {
        mem = if ltb i env.max_uio_maps then update dev.uio.mem i (uio_map mem_i) else dev.uio.mem;
      };
      udd = record dev.udd {
        mem =
            if env.use_udd && ltb i env.udd_nr_maps
            then update dev.udd.mem i (udd_map (dev.udd.mem i) mem_i)
            else dev.udd.mem;
      };
    }

-- `for (i = 0; i < CUDDLK_MAX_DEV_MEM_REGIONS; i++)`, with the rounds that are left.
unfoldable pub register_mems : Platform → ℕ → ℕ → Device → Device
unfolding register_mem
register_mems env i zero dev = dev
register_mems env i (suc rounds) dev = register_mems env (suc i) rounds (register_mem env i dev)

-- CUDDLK_IRQ_CUSTOM
abbrev pub irq_custom : Platform → ℤ
irq_custom env = if env.use_udd then env.udd_irq_custom else env.uio_irq_custom

abbrev pub is_positive : ℤ → Bool
is_positive (pos n) = ltb 0 n
is_positive (negsuc n) = false

-- `(intr->irq > 0) && (intr->handler)`
unfoldable pub register_handler : Platform → Interrupt → Device → Device
register_handler env intr dev =
    if is_positive intr.irq && is_some intr.handler
    then (if env.use_udd
        then record dev {
          udd = record dev.udd { irq = intr.irq; handled = true };
          uio = record dev.uio { irq = env.uio_irq_custom };
        }
        else record dev {
          uio = record dev.uio {
            irq = intr.irq;
            irq_shared = has_bit_0 intr.flags || dev.uio.irq_shared;
            handled = true;
          };
        })
    else dev

-- `intr->irq == CUDDLK_IRQ_CUSTOM`
unfoldable pub register_custom : Platform → Interrupt → Device → Device
register_custom env intr dev =
    if intr.irq ==ℤ irq_custom env
    then record dev {
      uio = record dev.uio { irq = env.uio_irq_custom };
      udd = record dev.udd { irq = if env.use_udd then env.udd_irq_custom else dev.udd.irq };
    }
    else dev

-- `(intr->irq > 0) || (intr->irq == CUDDLK_IRQ_CUSTOM)`
unfoldable pub register_hooks : Platform → Interrupt → Device → Device
register_hooks env intr dev =
    if is_positive intr.irq || intr.irq ==ℤ irq_custom env
    then record dev {
      uio = record dev.uio { hooked = true };
      udd = record dev.udd { hooked = env.use_udd || dev.udd.hooked };
    }
    else dev

abbrev int_text : ℤ → Str
int_text (pos n) = decimal n
int_text (negsuc n) = b'-' ∷ decimal (suc n)

abbrev text_of : Option Str → Str
text_of none = []
text_of (some s) = text s

-- `kasprintf(GFP_KERNEL, "%s.%s.%d", ...)`
unfoldable pub unique_name_of : Device → Str
unique_name_of dev =
    text_of dev.group ++ (b'.' ∷ (text_of dev.name ++ (b'.' ∷ int_text dev.instance_id)))

abbrev with_names : Platform → Str → Device → Device
with_names env name dev = record dev {
  unique_name = some name;
  uio = record dev.uio { name = some name };
  udd = record dev.udd { name = if env.use_udd then some name else dev.udd.name };
}

abbrev or_else : ℕ → ℕ → ℕ
or_else a b = if a == 0 then b else a

abbrev with_owner : Platform → Device → Device
with_owner env dev = record dev {
  parent_device = or_else dev.parent_device env.manager_device;
  owner = or_else dev.owner env.this_module;
}

-- All that cuddlk_device_register fills in before it registers the device.
unfoldable pub prepared : Platform → Device → Device
unfolding unique_name_of register_mems register_handler register_custom register_hooks
prepared env dev =
    let named = with_names env (unique_name_of dev) dev in
    let mapped = register_mems env 0 max_dev_mem_regions named in
    let intr = (dev.events 0).intr in
    with_owner env
      (register_hooks env intr (register_custom env intr (register_handler env intr mapped)))

-- enum cuddlk_registration_failure
pub data RegistrationFailure : Type 0 where
  fail_null_group fail_null_name fail_unique_name : RegistrationFailure
  fail_uio_register fail_udd_register no_failure : RegistrationFailure

abbrev cleanup_udd : Platform → ℕ → M (Unit {0})
cleanup_udd env p = do
  when env.use_udd (call (OsCall.nrtsig_destroy p))
  call (OsCall.uio_unregister p)
  call (OsCall.free_unique_name p)

-- The cases of the switch fall through; those that follow the pointer to the device fault on NULL.
unfoldable pub cleanup : Platform → ℕ → RegistrationFailure → M (Unit {0})
unfolding ◌>>=◌ load when call
cleanup env p no_failure = do
  load p
  when env.use_udd (call (OsCall.udd_unregister p))
  cleanup_udd env p
  lift (if env.use_udd then code_of env.udd_unregister_error else ok tt)
cleanup env p fail_udd_register = do load p; cleanup_udd env p
cleanup env p fail_uio_register = do load p; call (OsCall.free_unique_name p)
cleanup env p _ = pure tt

-- `if (!m) { failure = f; goto handle_failure; }`
abbrev or_cleanup : Platform → ℕ → RegistrationFailure → M (Unit {0}) → M (Unit {0})
or_cleanup env p failure m = on_error m (ignore (cleanup env p failure))

-- What __uio_register_device leaves in uio_dev.
abbrev uio_registered : Platform → Device → Device
uio_registered env dev = record dev { uio_minor = env.minor; uio_owner = dev.owner }

register_uio : Platform → ℕ → M (Unit {0})
unfolding ◌>>=◌ change call
register_uio env p = do
  lift (code_of env.uio_register_error)
  call (OsCall.uio_register p)
  change p (uio_registered env)

register_udd : Platform → ℕ → M (Unit {0})
unfolding ◌>>=◌ call
register_udd env p = do
  call (OsCall.nrtsig_init p)
  lift (code_of env.udd_register_error)
  call (OsCall.udd_register p)

allocate_name : Platform → ℕ → M (Unit {0})
unfolding ◌>>=◌ check call
allocate_name env p = do check env.kasprintf_succeeds enomem; call (OsCall.alloc_unique_name p)

-- Calls that fail are not in the log.
unfoldable pub device_register : Platform → ℕ → M (Unit {0})
unfolding ◌>>=◌ load change check when on_error ignore cleanup register_uio register_udd
    allocate_name prepared
device_register env p = do
  dev ← load p
  or_cleanup env p fail_null_group (check (is_named dev.group) einval)
  or_cleanup env p fail_null_name (check (is_named dev.name) einval)
  or_cleanup env p fail_unique_name (allocate_name env p)
  change p (prepared env)
  or_cleanup env p fail_uio_register (register_uio env p)
  when env.use_udd (or_cleanup env p fail_udd_register (register_udd env p))

unfoldable pub device_unregister : Platform → ℕ → M (Unit {0})
unfolding cleanup
device_unregister env p = cleanup env p no_failure
