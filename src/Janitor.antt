-- ===== src/Janitor.antt =====
-- The janitor device (kernel/linux/src/cuddlk_janitor_linux.c): a process registers its id at it, and
-- the kernel releases its file when the process ends.
pub mod Laws
use cuddl.Base.{
  ℕ, suc, ◌-◌, Bool, Option, none, some, List, ◌∷◌, Errno, Result, ok, err, enomem, enodev, enosys,
  eoverflow, not, if◌then◌else◌,
}
use cuddl.Kernel.{M, ◌>>=◌, ◌>>◌, pure}
use cuddl.Refs.{free_refs_for_pid}
use cuddl.Boot.{
  Acquired, chrdev_region, cdev, class, device_node, InitCalls, InitFailure, fail_alloc_chrdev,
  fail_cdev_add, fail_class_create, fail_device_create, no_failure, fail_alloc_manager, without,
}

-- An open file: its `private_data`, which points to a process id, and how many ids that were
-- allocated for it have not been freed.
pub record JanitorFile : Type 0 where
  pub private_data : Option ℕ
  pub allocated : ℕ

pub data JanitorRequest : Type 0 where
  register_pid : ℕ → JanitorRequest
  unknown : JanitorRequest

pub record JanitorCalls : Type 0 where
  pub copy_in : Bool
  pub kzalloc : Bool

unfoldable pub janitor_open : JanitorFile
janitor_open = record { private_data = none; allocated = 0 }

-- An id that was registered before is overwritten without being freed.
unfoldable pub janitor_ioctl :
    JanitorCalls → JanitorRequest → JanitorFile → Result (Unit {0}) × JanitorFile
janitor_ioctl c unknown f = (err enosys, f)
janitor_ioctl c (register_pid pid) f =
    if not c.copy_in
    then (err eoverflow, f)
    else if not c.kzalloc
    then (err enomem, record f { private_data = none })
    else (ok tt, record { private_data = some pid; allocated = suc f.allocated })

release_pid : Option ℕ → M (Unit {0})
unfolding pure
release_pid none = pure tt
release_pid (some pid) = free_refs_for_pid pid

abbrev pub freed_file : JanitorFile → JanitorFile
freed_file f = elim f.private_data [
  | none ↦ f
  | some pid ↦ record f { allocated = f.allocated - 1 }
]

-- The file as it is left comes back.
unfoldable pub janitor_release : JanitorFile → M JanitorFile
unfolding ◌>>=◌ release_pid
janitor_release f = do release_pid f.private_data; pure (freed_file f)

unfoldable pub janitor_cleanup : InitFailure → List Acquired → List Acquired
unfolding without
janitor_cleanup no_failure l =
    without chrdev_region (without cdev (without class (without device_node l)))
janitor_cleanup fail_device_create l = without chrdev_region (without cdev (without class l))
janitor_cleanup fail_class_create l = without chrdev_region (without cdev l)
janitor_cleanup fail_cdev_add l = without chrdev_region l
janitor_cleanup fail_alloc_chrdev l = l
janitor_cleanup fail_alloc_manager l = l

abbrev handle_failure : Errno → InitFailure → List Acquired → Result (Unit {0}) × List Acquired
handle_failure e failure l = (err e, janitor_cleanup failure l)

janitor_init_device : InitCalls → List Acquired → Result (Unit {0}) × List Acquired
unfolding janitor_cleanup
janitor_init_device c l =
    if not c.class_create
    then handle_failure enodev fail_class_create l
    else if not c.device_create
    then handle_failure enodev fail_device_create (class ∷ l)
    else (ok tt, device_node ∷ class ∷ l)

janitor_init_cdev : InitCalls → Option Errno → List Acquired → Result (Unit {0}) × List Acquired
unfolding janitor_cleanup janitor_init_device
janitor_init_cdev c (some e) l = handle_failure e fail_cdev_add l
janitor_init_cdev c none l = janitor_init_device c (cdev ∷ l)

janitor_init_chrdev : InitCalls → Option Errno → List Acquired → Result (Unit {0}) × List Acquired
unfolding janitor_cleanup janitor_init_cdev
janitor_init_chrdev c (some e) l = handle_failure e fail_alloc_chrdev l
janitor_init_chrdev c none l = janitor_init_cdev c c.cdev_add (chrdev_region ∷ l)

unfoldable pub janitor_init : InitCalls → List Acquired → Result (Unit {0}) × List Acquired
unfolding janitor_init_chrdev
janitor_init c l = janitor_init_chrdev c c.alloc_chrdev_region l

unfoldable pub janitor_exit : List Acquired → List Acquired
unfolding janitor_cleanup
janitor_exit l = janitor_cleanup no_failure l
