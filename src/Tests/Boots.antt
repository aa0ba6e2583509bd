-- ===== src/Tests/Boots.antt =====
-- Loading, unloading and the janitor on concrete inputs.
use cuddl.Base.{arith, ◌≡◌, refl, true, false, none, [], ok}
use cuddl.Refs.Exit.{CleanedUp}
use cuddl.Boot.{Module, InitCalls, manager_init}
use cuddl.Boot.Undone.{Balanced, manager_init-Balanced}
use cuddl.Janitor.{JanitorCalls, janitor_open, janitor_release, janitor_init}
use cuddl.Janitor.Laws.{
  JanitorBalanced, registered, file, janitor_release-CleanedUp, janitor_release_twice,
  janitor_init-JanitorBalanced,
}
use cuddl.User.{Process}
use cuddl.User.Lifetime.{startup, cleanup}
use cuddl.User.Lives.{startup-cleanup}
use cuddl.Tests.Users.{env, process}
use cuddl.Tests.World.{claimed}
use cuddl.Tests.Counts.{claimed-Counted, claimed_events-Counted}

abbrev unloaded : Module
unloaded = record {
  acquired = [];
  manager_ptr = false;
  manager_device = false;
  mem_refs = [];
  event_refs = [];
}

abbrev no_class : InitCalls
no_class = record {
  kzalloc = true;
  alloc_chrdev_region = none;
  cdev_add = none;
  class_create = false;
  device_create = true;
}

abbrev good : JanitorCalls
good = record { copy_in = true; kzalloc = true }

manager_init-Balanced_example : Balanced no_class unloaded (manager_init no_class unloaded)
manager_init-Balanced_example = manager_init-Balanced no_class unloaded

janitor_init-JanitorBalanced_example : JanitorBalanced no_class [] (janitor_init no_class [])
janitor_init-JanitorBalanced_example = janitor_init-JanitorBalanced no_class []

janitor_release-CleanedUp_example :
    let (r, k') = janitor_release (registered good 7 janitor_open) claimed in
    (r ≡ ok (file 7 0)) × CleanedUp 7 claimed (ok tt, k')
janitor_release-CleanedUp_example =
    janitor_release-CleanedUp 7 claimed refl claimed-Counted claimed_events-Counted good refl refl

janitor_release_twice_example :
    let (r, k') = janitor_release (registered good 7 (registered good 8 janitor_open)) claimed in
    (r ≡ ok (file 7 1)) × CleanedUp 7 claimed (ok tt, k')
janitor_release_twice_example =
    janitor_release_twice 7 claimed refl claimed-Counted claimed_events-Counted good 8 refl refl

abbrev started : Process
started = (startup env (record process { pid = 7 })).1

startup-cleanup_example :
    let q = record started { kernel = claimed } in
    ((cleanup env q).0 ≡ ok tt) × CleanedUp 7 claimed (ok tt, (cleanup env q).1.kernel)
startup-cleanup_example =
    startup-cleanup env (record process { pid = 7 }) (record started { kernel = claimed }) 3 refl
      (omega arith) refl refl refl refl refl claimed-Counted claimed_events-Counted
