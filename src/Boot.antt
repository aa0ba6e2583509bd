-- ===== src/Boot.antt =====
-- Loading and unloading the manager module: cuddlk_manager_init, cuddlk_manager_cleanup and
-- cuddlk_manager_exit (kernel/linux/src/cuddlk_manager_linux.c).
pub mod Undone
use cuddl.Base.{
  Bool, true, false, Option, none, some, List, [], ◌∷◌, Errno, Result, ok, err, enomem, enodev, not,
  if◌then◌else◌,
}
use cuddl.Kernel.{ResourceRef}

-- What an init acquires and its clean-up gives back.
pub data Acquired : Type 0 where
  manager_memory chrdev_region cdev class device_node : Acquired

abbrev pub same_acquired : Acquired → Acquired → Bool
same_acquired manager_memory manager_memory = true
same_acquired chrdev_region chrdev_region = true
same_acquired cdev cdev = true
same_acquired class class = true
same_acquired device_node device_node = true
same_acquired _ _ = false

-- The globals of a module. `manager_ptr` and `manager_device` tell whether the pointers are set.
pub record Module : Type 0 where
  pub acquired : List Acquired
  pub manager_ptr : Bool
  pub manager_device : Bool
  pub mem_refs : List ResourceRef
  pub event_refs : List ResourceRef

-- How the calls of an init turn out: the code of a call that returns one, or success.
pub record InitCalls : Type 0 where
  pub kzalloc : Bool
  pub alloc_chrdev_region : Option Errno
  pub cdev_add : Option Errno
  pub class_create : Bool
  pub device_create : Bool

pub data InitFailure : Type 0 where
  fail_alloc_manager fail_alloc_chrdev fail_cdev_add fail_class_create fail_device_create :
      InitFailure
  no_failure : InitFailure

unfoldable pub without : Acquired → List Acquired → List Acquired
without a [] = []
without a (b ∷ bs) = let rest = without a bs in if same_acquired a b then bs else b ∷ rest

abbrev pub acquire : Acquired → Module → Module
acquire a m = record m { acquired = a ∷ m.acquired }

unfoldable pub give_back : Acquired → Module → Module
unfolding without
give_back a m = record m { acquired = without a m.acquired }

-- The cases of the `switch`, each with those that it falls through to.
abbrev undo_alloc_chrdev : Module → Module
undo_alloc_chrdev m = give_back manager_memory m

abbrev undo_cdev_add : Module → Module
undo_cdev_add m = undo_alloc_chrdev (give_back chrdev_region m)

abbrev undo_class_create : Module → Module
undo_class_create m = undo_cdev_add (give_back cdev m)

abbrev undo_device_create : Module → Module
undo_device_create m = undo_class_create (give_back class m)

abbrev cleanup_steps : InitFailure → Module → Module
cleanup_steps no_failure m = undo_device_create (give_back device_node m)
cleanup_steps fail_device_create m = undo_device_create m
cleanup_steps fail_class_create m = undo_class_create m
cleanup_steps fail_cdev_add m = undo_cdev_add m
cleanup_steps fail_alloc_chrdev m = undo_alloc_chrdev m
cleanup_steps fail_alloc_manager m = m

unfoldable pub manager_cleanup : InitFailure → Module → Module
unfolding give_back
manager_cleanup failure m = record (cleanup_steps failure m) {
  manager_ptr = false;
  manager_device = false;
}

-- `handle_failure: cuddlk_manager_cleanup(failure); return ret;`
abbrev handle_failure : Errno → InitFailure → Module → Result (Unit {0}) × Module
handle_failure e failure m = (err e, manager_cleanup failure m)

init_device : InitCalls → Module → Result (Unit {0}) × Module
unfolding manager_cleanup
init_device c m =
    if not c.class_create
    then handle_failure enodev fail_class_create m
    else if not c.device_create
    then handle_failure enodev fail_device_create (acquire class m)
    else (ok tt, record (acquire device_node (acquire class m)) { manager_device = true })

init_cdev : InitCalls → Option Errno → Module → Result (Unit {0}) × Module
unfolding manager_cleanup init_device
init_cdev c (some e) m = handle_failure e fail_cdev_add m
init_cdev c none m = init_device c (acquire cdev m)

init_chrdev : InitCalls → Option Errno → Module → Result (Unit {0}) × Module
unfolding manager_cleanup init_cdev
init_chrdev c (some e) m = handle_failure e fail_alloc_chrdev m
init_chrdev c none m = init_cdev c c.cdev_add (acquire chrdev_region m)

abbrev empty_lists : Module → Module
empty_lists m = record m { mem_refs = []; event_refs = [] }

unfoldable pub manager_init : InitCalls → Module → Result (Unit {0}) × Module
unfolding manager_cleanup init_chrdev
manager_init c m =
    if not c.kzalloc
    then handle_failure enomem fail_alloc_manager (record (empty_lists m) { manager_ptr = false })
    else init_chrdev c c.alloc_chrdev_region
        (record (acquire manager_memory (empty_lists m)) { manager_ptr = true })

-- The loop that takes each reference off its list and frees it.
unfoldable pub free_all : List ResourceRef → List ResourceRef
free_all [] = []
free_all (r ∷ rs) = free_all rs

unfoldable pub manager_exit : Module → Module
unfolding free_all manager_cleanup
manager_exit m =
    manager_cleanup no_failure
      (record m { mem_refs = free_all m.mem_refs; event_refs = free_all m.event_refs })
