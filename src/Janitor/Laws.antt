-- ===== src/Janitor/Laws.antt =====
-- What the janitor does when a process ends, and what its init leaves behind.
use cuddl.Base.{
  ℕ, ◌-◌, ◌≡◌, refl, Bool-cases, Option-cases, true, false, some, List, Errno, Result, ok, err, inl,
  inr,
}
use cuddl.Kernel.{Kernel, bind_of_ok, pure}
use cuddl.Refs.{free_refs_for_pid}
use cuddl.Refs.Counted.{Counted, memregions, eventsrcs}
use cuddl.Refs.Exit.{CleanedUp, free_refs_for_pid-CleanedUp}
use cuddl.Boot.{Acquired, InitCalls}
use cuddl.Boot.Undone.{DeviceFails, DeviceMade, chrdev_fails, cdev_fails, class_fails, node_fails}
use cuddl.Janitor.{
  JanitorFile, JanitorCalls, register_pid, janitor_open, janitor_ioctl, janitor_release,
  janitor_init, janitor_exit,
}

-- The file after the process `pid` has registered itself at `f`.
abbrev pub registered : JanitorCalls → ℕ → JanitorFile → JanitorFile
registered c pid f = (janitor_ioctl c (register_pid pid) f).1

abbrev pub file : ℕ → ℕ → JanitorFile
file pid n = record { private_data = some pid; allocated = n }

module _ (pid : ℕ) (k : Kernel) (free : k.locked ≡ false) (hm : Counted memregions k)
    (he : Counted eventsrcs k) where
  release_file :
      (n : ℕ)
      → let (r, k') = janitor_release (file pid n) k in
        (r ≡ ok (file pid (n - 1))) × CleanedUp pid k (ok tt, k')
  unfolding janitor_release
  release_file n =
      let d = free_refs_for_pid-CleanedUp pid k free hm he in
      rw (bind_of_ok (free_refs_for_pid pid) (λ _. pure (file pid (n - 1))) k d.returns) (
        refl,
        record {
          returns = refl;
          mem_refs = d.mem_refs;
          event_refs = d.event_refs;
          memregions_counted = d.memregions_counted;
          eventsrcs_counted = d.eventsrcs_counted;
          devices = d.devices;
          unlocked = d.unlocked;
        },
      )

  -- From an unlocked manager whose counts are those of the references, the end of a process that
  -- registered itself, with both calls of the registration succeeding, returns, gives the memory of
  -- its id back, and cleans up after exactly this process.
  pub janitor_release-CleanedUp :
      (c : JanitorCalls)
      → c.copy_in ≡ true
      → c.kzalloc ≡ true
      → let (r, k') = janitor_release (registered c pid janitor_open) k in
        (r ≡ ok (file pid 0)) × CleanedUp pid k (ok tt, k')
  unfolding janitor_ioctl janitor_open
  janitor_release-CleanedUp c e a = rw (e, a) (release_file 1)

  -- When two processes register at one file, its release cleans up after the second one only, and
  -- the memory of the first id is never given back.
  pub janitor_release_twice :
      (c : JanitorCalls) (first : ℕ)
      → c.copy_in ≡ true
      → c.kzalloc ≡ true
      → let (r, k') = janitor_release (registered c pid (registered c first janitor_open)) k in
        (r ≡ ok (file pid 1)) × CleanedUp pid k (ok tt, k')
  unfolding janitor_ioctl janitor_open
  janitor_release_twice c first e a = rw (e, a) (release_file 2)

-- An init of the janitor fails with the code of the first call that fails and leaves what was acquired
-- before, or all its calls succeed, and then its exit leaves that.
pub data JanitorBalanced (c : InitCalls) (l : List Acquired)
    : Result (Unit {0}) × List Acquired → Type 0 where
  undone : (e : Errno) → DeviceFails c e → JanitorBalanced c l (err e, l)
  loaded :
      (l' : List Acquired) → DeviceMade c → janitor_exit l' ≡ l → JanitorBalanced c l (ok tt, l')

-- cuddlk_janitor_init, however its calls turn out: when one fails, the code of the first that fails
-- comes back (-ENODEV for the class and its device), and all that was acquired before it is given back;
-- when all succeed, cuddlk_janitor_exit gives all of it back.
pub janitor_init-JanitorBalanced :
    (c : InitCalls) (l : List Acquired) → JanitorBalanced c l (janitor_init c l)
unfolding janitor_init janitor_exit
janitor_init-JanitorBalanced c l = elim (Option-cases c.alloc_chrdev_region) [
  | inr (x, e1) ↦ rw e1 (undone _ (chrdev_fails refl))
  | inl e1 ↦ rw e1 (elim (Option-cases c.cdev_add) [
    | inr (x, e2) ↦ rw e2 (undone _ (cdev_fails refl refl))
    | inl e2 ↦ rw e2 (elim (Bool-cases c.class_create) [
      | inr e3 ↦ rw e3 (undone _ (class_fails refl refl refl))
      | inl e3 ↦ rw e3 (elim (Bool-cases c.device_create) [
        | inr e4 ↦ rw e4 (undone _ (node_fails refl refl refl refl))
        | inl e4 ↦ rw e4 (
            loaded _
              (record {
                alloc_chrdev_region = refl;
                cdev_add = refl;
                class_create = refl;
                device_create = refl;
              })
              refl)
      ])
    ])
  ])
]
