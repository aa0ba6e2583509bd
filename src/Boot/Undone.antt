-- ===== src/Boot/Undone.antt =====
-- What is left after a failing init, and after an init and an exit.
use cuddl.Base.{
  ◌≡◌, refl, true, false, List, [], ◌∷◌, Errno, Result, ok, err, Bool-cases, Option-cases, inl, inr,
  none, some, enomem, enodev,
}
use cuddl.Kernel.{ResourceRef}
use cuddl.Boot.{Module, InitCalls, manager_init, manager_exit, free_all}

-- The first call of an init that makes a device which fails, and the code that stands for it.
pub data DeviceFails (c : InitCalls) : Errno → Type 0 where
  chrdev_fails : {e : Errno} → c.alloc_chrdev_region ≡ some e → DeviceFails c e
  cdev_fails : {e : Errno} → c.alloc_chrdev_region ≡ none → c.cdev_add ≡ some e → DeviceFails c e
  class_fails :
      c.alloc_chrdev_region ≡ none
      → c.cdev_add ≡ none
      → c.class_create ≡ false
      → DeviceFails c enodev
  node_fails :
      c.alloc_chrdev_region ≡ none
      → c.cdev_add ≡ none
      → c.class_create ≡ true
      → c.device_create ≡ false
      → DeviceFails c enodev

-- None of them fails.
pub record DeviceMade (c : InitCalls) : Type 0 where
  pub alloc_chrdev_region : c.alloc_chrdev_region ≡ none
  pub cdev_add : c.cdev_add ≡ none
  pub class_create : c.class_create ≡ true
  pub device_create : c.device_create ≡ true

-- The same of the init of the manager, which allocates before.
pub data ManagerFails (c : InitCalls) : Errno → Type 0 where
  memory_fails : c.kzalloc ≡ false → ManagerFails c enomem
  device_fails : {e : Errno} → c.kzalloc ≡ true → DeviceFails c e → ManagerFails c e

-- An init fails with the code of the first call that fails, and holds nothing that it did not hold
-- before, or all its calls succeed, and then an exit, at whatever lists of references, gives everything
-- back and sets both pointers to NULL.
pub data Balanced (c : InitCalls) (m : Module) : Result (Unit {0}) × Module → Type 0 where
  undone :
      (e : Errno) (m' : Module)
      → ManagerFails c e
      → m'.acquired ≡ m.acquired
      → m'.manager_ptr ≡ false
      → m'.manager_device ≡ false
      → Balanced c m (err e, m')
  loaded :
      (m' : Module)
      → c.kzalloc ≡ true
      → DeviceMade c
      → m'.manager_ptr ≡ true
      → m'.manager_device ≡ true
      → m'.mem_refs ≡ []
      → m'.event_refs ≡ []
      → ((mem event : List ResourceRef)
          → ((manager_exit (record m' { mem_refs = mem; event_refs = event })).acquired
              ≡ m.acquired)
            × ((manager_exit (record m' { mem_refs = mem; event_refs = event })).mem_refs ≡ [])
            × ((manager_exit (record m' { mem_refs = mem; event_refs = event })).event_refs ≡ [])
            × ((manager_exit (record m' { mem_refs = mem; event_refs = event })).manager_ptr
                ≡ false))
      → Balanced c m (ok tt, m')

free_all_lem : (rs : List ResourceRef) → free_all rs ≡ []
unfolding free_all
free_all_lem [] = refl
free_all_lem (r ∷ rs) = free_all_lem rs

-- cuddlk_manager_init, however its calls turn out: when one fails, the code of the first that fails
-- comes back (-ENOMEM for the allocation, -ENODEV for the class and its device), all that was acquired before it is given back, and both pointers are NULL; when all succeed, the pointers are
-- set, the lists of references are empty, and cuddlk_manager_exit gives back what was acquired, and
-- leaves both lists empty, whatever references they have by then.
pub manager_init-Balanced : (c : InitCalls) (m : Module) → Balanced c m (manager_init c m)
unfolding manager_init manager_exit
manager_init-Balanced c m = elim (Bool-cases c.kzalloc) [
  | inr e ↦ rw e (undone _ _ (memory_fails refl) refl refl refl)
  | inl e ↦ rw e (elim (Option-cases c.alloc_chrdev_region) [
    | inr (x, e1) ↦ rw e1 (undone _ _ (device_fails refl (chrdev_fails refl)) refl refl refl)
    | inl e1 ↦ rw e1 (elim (Option-cases c.cdev_add) [
      | inr (x, e2) ↦ rw e2 (undone _ _ (device_fails refl (cdev_fails refl refl)) refl refl refl)
      | inl e2 ↦ rw e2 (elim (Bool-cases c.class_create) [
        | inr e3 ↦
            rw e3 (undone _ _ (device_fails refl (class_fails refl refl refl)) refl refl refl)
        | inl e3 ↦ rw e3 (elim (Bool-cases c.device_create) [
          | inr e4 ↦
              rw e4 (undone _ _ (device_fails refl (node_fails refl refl refl refl)) refl refl refl)
          | inl e4 ↦ rw e4 (
              loaded _ refl
                (record {
                  alloc_chrdev_region = refl;
                  cdev_add = refl;
                  class_create = refl;
                  device_create = refl;
                })
                refl refl refl refl
                (λ mem event. (refl, free_all_lem mem, free_all_lem event, refl)))
        ])
      ])
    ])
  ])
]
