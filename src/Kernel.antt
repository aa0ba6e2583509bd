-- ===== src/Kernel.antt =====
-- The state of the kernel module (the globals of kernel/linux/src/cuddlk_manager_linux.c and the
-- memory that they point to), and the actions of its functions.
pub mod Keeps
pub mod Runs
use mathlib.Core.Path.{◌≡◌}
use cuddl.Base.{
  ℕ, ◌+◌, Bool, true, false, Option, List, [], ◌∷◌, ◌++◌, Result, ok, err, fault, ℤ, update, ◌==◌,
  if◌then◌else◌,
}
use cuddl.Act.{Act}
unfoldable pub use cuddl.Act.{
  pure, raise, hang, lift, gets, continue, ◌>>=◌, ◌>>◌, check, when, after_drop, ignore,
  after_error, handle_error, on_error,
}
pub use cuddl.Act.{bind_of_ok}
use cuddl.CStr.{Str}
use cuddl.Device.{Device}

-- struct cuddlk_resource_ref_list, its token as two slots.
pub record ResourceRef : Type 0 where
  pub device_index : ℕ
  pub resource_index : ℕ
  pub pid : ℕ

-- The calls of functions outside the code that have an effect there.
pub data OsCall : Type 0 where
  module_get module_put : ℕ → OsCall
  uio_register uio_unregister udd_register udd_unregister : ℕ → OsCall
  nrtsig_init nrtsig_destroy free_unique_name alloc_unique_name : ℕ → OsCall

-- The ten buffers of cuddlk_manager_ioctl.
pub data Buffer : Type 0 where
  mdata edata mrdata erdata get_id_data : Buffer
  commit_data driver_info_data void_data id_data is_enabled_data : Buffer

-- struct cuddlci_token as user space sends it.
pub record Token : Type 0 where
  pub device_index : ℤ
  pub resource_index : ℤ

-- struct cuddl_resource_id
pub record ResourceId : Type 0 where
  pub group : Str
  pub device : Str
  pub resource : Str
  pub instance_id : ℤ

-- struct cuddl_memregion_info with struct cuddlci_memregion_info_priv
pub record MemregionInfo : Type 0 where
  pub len : ℕ
  pub flags : ℕ
  pub pa_mmap_offset : ℕ
  pub pa_len : ℕ
  pub start_offset : ℕ
  pub token : Token
  pub device_name : Str

-- struct cuddl_eventsrc_info with struct cuddlci_eventsrc_info_priv
pub record EventsrcInfo : Type 0 where
  pub flags : ℕ
  pub token : Token
  pub device_name : Str

-- What an ioctl changes in the structure that it copies back to user space.
pub data Reply : Type 0 where
  memregion_info : MemregionInfo → Reply
  eventsrc_info : EventsrcInfo → Reply
  resource_id : ResourceId → Reply
  text_info : Str → Reply

-- A pointer to a device is a number, and 0 is NULL: `devices` is the array of the manager, and
-- `device` the memory. `user` is what the current call has copied back; `calls` has the oldest
-- call first. `locked` is the manager's global mutex.
pub record Kernel : Type 0 where
  pub devices : ℕ → ℕ
  pub device : ℕ → Device
  pub mem_refs : List ResourceRef
  pub event_refs : List ResourceRef
  pub calls : List OsCall
  pub buffers : List Buffer
  pub locked : Bool
  pub user : Option Reply

abbrev pub M : Type 0 → Type 0
M A = Act Kernel A

unfoldable pub modify : (Kernel → Kernel) → M (Unit {0})
modify f k = (ok tt, f k)

-- Following a pointer to a device.
unfoldable pub load : ℕ → M Device
load p k = if p == 0 then (fault, k) else (ok (k.device p), k)

unfoldable pub store : ℕ → Device → M (Unit {0})
store p d k = (ok tt, record k { device = update k.device p d })

-- Writing fields of the device at `p`.
unfoldable pub change : ℕ → (Device → Device) → M (Unit {0})
change p f k =
    if p == 0 then (fault, k) else (ok tt, record k { device = update k.device p (f (k.device p)) })

unfoldable pub call : OsCall → M (Unit {0})
call c k = (ok tt, record k { calls = k.calls ++ (c ∷ []) })

-- mutex_unlock, which a body that faults does not reach.
abbrev pub unlocked : {A : Type 0} → Result A × Kernel → Result A × Kernel
unlocked (fault, k) = (fault, k)
unlocked (r, k) = (r, record k { locked = false })

-- mutex_lock on a mutex that the thread already holds never returns.
-- A body between cuddlk_manager_lock() and cuddlk_manager_unlock(), which every way out of the
-- body but a fault passes.
unfoldable pub with_lock : {A : Type 0} → M A → M A
with_lock m k = if k.locked then (fault, k) else unlocked (m (record k { locked = true }))

unlocked_of_ok :
    {A : Type 0} (r : Result A × Kernel) {a : A}
    → r.0 ≡ ok a
    → unlocked r ≡ (ok a, record r.1 { locked = false })
unlocked_of_ok (ok b, k) e = cc
unlocked_of_ok (err c, k) e = cc
unlocked_of_ok (fault, k) e = cc

-- A body under the lock that succeeds.
pub with_lock_of_ok :
    {A : Type 0} (m : M A) (k : Kernel) {a : A}
    → k.locked ≡ false
    → (m (record k { locked = true })).0 ≡ ok a
    → with_lock m k ≡ (ok a, record (m (record k { locked = true })).1 { locked = false })
unfolding with_lock
with_lock_of_ok m k free e = simp free (unlocked_of_ok _ e)
