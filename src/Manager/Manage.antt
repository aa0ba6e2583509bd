-- ===== src/Manager/Manage.antt =====
-- What cuddlk_device_manage does to the table of devices.
use cuddl.Base.{
  ℕ, ◌<◌, ◌≡◌, ◌≢◌, refl, Bool, einval, true, false, Errno, Result, ok, err, fault, enxio, arith,
  inl, inr, IsFirst, ◌==◌, if◌then◌else◌, ◌⊎◌, pos, ◌==ℤ◌,
}
use cuddl.Act.Triples.{Triple, Ends, Triple-bind}
use cuddl.Device.{Device, is_named}
use cuddl.Kernel.{
  Kernel, M, ◌>>=◌, continue, handle_error, after_error, unlocked, with_lock, on_error, ignore,
  load, lift, gets, change, call, check, when, pure,
}
use cuddl.Kernel.Runs.{Runs, Runs-lift, Runs-load, Runs-check, Runs-ignore}
use cuddl.Register.{Platform, device_unregister}
use cuddl.Register.Returns.{Deep, Runs-change, Runs-device_register, Runs-device_unregister}
use cuddl.Manager.{
  manager_add_device, assign_instance, manage_register, manage_body, device_manage,
  next_available_instance_id, with_instance,
}
use cuddl.Manager.Search.{AllNamed, FindsFrom, found, not_found, find_device_slot-FindsFrom}
use cuddl.Manager.Instances.{next_available_instance_id-ne-fault}

-- The table is `table`.
abbrev Table : (ℕ → ℕ) → Kernel → Type 0
Table table k = (s : ℕ) → k.devices s ≡ table s

Table-Deep : (table : ℕ → ℕ) → Deep (Table table)
unfolding call
Table-Deep table = record { change = λ k d h. h; call = λ k h c. h }

-- The same, and each managed device has its names.
abbrev Ready : (ℕ → ℕ) → Kernel → Type 0
Ready table k = Table table k × AllNamed k

-- After an action that returns.
abbrev Back : {A : Type 0} → (Kernel → Type 0) → Result A → Kernel → Type 0
Back P r k = (r ≢ fault) × P k

Runs-Back : {A : Type 0} {P : Kernel → Type 0} {m : M A} → Runs P m → Triple P m (Back P)
Runs-Back r = record { at = λ k h. r.at k h }

Back-Ends :
    {A B : Type 0} {P Q : Kernel → Type 0}
    → ((k : Kernel) → P k → Q k)
    → Ends (Back {A = A} P) (Back {A = B} Q)
Back-Ends f = record { failed = λ e k h. (λ x. cc, f k h.1); stopped = λ k h. absurd (h.0 refl) }

module _ (table : ℕ → ℕ) where
  -- An action after one that has returned, and that needs the table only.
  Table-Triple :
      {A B : Type 0} {P : Kernel → Type 0} (r : Result A) {m : M B}
      → ((k : Kernel) → P k → Table table k)
      → Runs (Table table) m
      → Triple (Back P r) m (Back (Table table))
  Table-Triple r f t = record { at = λ k h. t.at k (f k h.1) }

  assigned :
      (p : ℕ) (dev : Device)
      → p ≢ 0
      → Triple
          (Ready table)
          (gets (λ k. next_available_instance_id k dev) >>= λ next.
            lift next >>= λ i. change p (with_instance i))
          (Back (Table table))
  unfolding ◌>>=◌
  assigned p dev n = record {
    at = λ k h.
        (Triple-bind {P = Ready table} (lift (next_available_instance_id k dev))
            (λ i. change p (with_instance i))
            (Runs-Back (Runs-lift _ (next_available_instance_id-ne-fault k dev h.1)))
            (Back-Ends (λ q g. g.0))
            (λ i.
              Table-Triple (ok i) (λ q g. g.0)
                (Runs-change (Table-Deep table) p (with_instance i) n))).at
          k h;
  }

  maybe_assigned :
      (b : Bool) (p : ℕ) (dev : Device)
      → p ≢ 0
      → Triple
          (Back (Ready table) (ok dev))
          (when b (
            gets (λ k. next_available_instance_id k dev) >>= λ next.
            lift next >>= λ i. change p (with_instance i)))
          (Back (Table table))
  unfolding when pure
  maybe_assigned true p dev n = record { at = λ k h. (assigned p dev n).at k h.1 }
  maybe_assigned false p dev n = record { at = λ k h. (λ x. cc, h.1.0) }

  assign_instance-Back :
      {A : Type 0} (r : Result A) (p : ℕ)
      → p ≢ 0
      → Triple (Back (Ready table) r) (assign_instance p) (Back (Table table))
  unfolding assign_instance
  assign_instance-Back r p n = record {
    at = λ k h.
        (Triple-bind (load p) _ (Runs-Back (Runs-load {P = Ready table} p n))
            (Back-Ends (λ q g. g.0)) (λ dev. maybe_assigned (dev.instance_id ==ℤ pos 0) p dev n)).at
          k h.1;
  }

  manage_register-Back :
      (env : Platform) (p : ℕ)
      → p ≢ 0
      → Triple (Ready table) (manage_register env p) (Back (Table table))
  unfolding manage_register
  manage_register-Back env p n =
      Triple-bind (load p) _ (Runs-Back (Runs-load {P = Ready table} p n)) (Back-Ends (λ q g. g.0))
        λ dev.
          Triple-bind {R = Back (Ready table)} (check (is_named dev.group) einval) _
            (checked (ok dev) (is_named dev.group)) (Back-Ends (λ q g. g.0))
            λ u.
              Triple-bind {R = Back (Ready table)} (check (is_named dev.name) einval) _
                (checked (ok u) (is_named dev.name)) (Back-Ends (λ q g. g.0))
                λ v.
                  Triple-bind (assign_instance p) _ (assign_instance-Back (ok v) p n)
                    (Back-Ends (λ q g. g))
                    λ w.
                      Table-Triple (ok w) (λ q g. g)
                        (Runs-device_register (Table-Deep table) env p n)
    where
      checked :
          {A : Type 0} (r : Result A) (b : Bool)
          → Triple (Back (Ready table) r) (check b einval) (Back (Ready table))
      checked r b = record { at = λ k h. (Runs-check {P = Ready table} b einval).at k h.1 }

-- What adding a device to the table comes to.
data Added (p : ℕ) (k : Kernel) : Result (Unit {0}) × Kernel → Type 0 where
  full : (e : Errno) → ((i : ℕ) → i < 256 → k.devices i ≢ 0) → Added p k (err e, k)
  added :
      (slot : ℕ) (k' : Kernel)
      → slot < 256
      → IsFirst (λ i. k.devices i == 0) 0 slot
      → ((s : ℕ) → k'.devices s ≡ (if s == slot then p else k.devices s))
      → Added p k (ok tt, k')

search_cases :
    (k : Kernel) {r : Result ℕ}
    → FindsFrom (λ i. k.devices i == 0) 0 r
    → ((i : ℕ) × (r ≡ ok i) × IsFirst (λ i. k.devices i == 0) 0 i × (i < 256))
      ⊎ ((r ≡ err enxio) × ((i : ℕ) → i < 256 → k.devices i ≢ 0))
search_cases k (found i f b) = inl (i, refl, f, b)
search_cases k (not_found n) = inr (refl, λ i b e. ground (arith, n i (omega arith) b))

manager_add_device-Added : (p : ℕ) (k : Kernel) → Added p k (manager_add_device p k)
unfolding manager_add_device
manager_add_device-Added p k = elim (search_cases k (find_device_slot-FindsFrom k 0)) [
  | inl (i, e, f, b) ↦ rw e (added i _ b f (λ s. ground arith))
  | inr (e, g) ↦ rw e (full _ g)
]

-- How cuddlk_device_manage comes out, in terms of the table.
pub data Managed (p : ℕ) (k : Kernel) : Result (Unit {0}) × Kernel → Type 0 where
  refused :
      (e : Errno) (k' : Kernel)
      → ((s : ℕ) → k'.devices s ≡ k.devices s)
      → k'.locked ≡ false
      → Managed p k (err e, k')
  placed :
      (slot : ℕ) (k' : Kernel)
      → slot < 256
      → IsFirst (λ i. k.devices i == 0) 0 slot
      → ((s : ℕ) → k'.devices s ≡ (if s == slot then p else k.devices s))
      → k'.locked ≡ false
      → Managed p k (ok tt, k')

module _ (p : ℕ) (k : Kernel) where
  refused_after :
      (e : Errno) (r : Result (Unit {0})) (k' : Kernel)
      → r ≢ fault
      → Table k.devices k'
      → Managed p k (unlocked (after_error e r, k'))
  refused_after e (ok _) k' n h = refused e _ h refl
  refused_after e (err _) k' n h = refused e _ h refl
  refused_after e fault k' n h = absurd (n refl)

  -- The end of the call, from the result of adding the device, with the clean-up `undo`.
  undone :
      (e : Errno) (undo : M (Unit {0})) (k' : Kernel)
      → Runs (Table k.devices) undo
      → Table k.devices k'
      → Managed p k (unlocked (handle_error (err e) (ignore undo) k'))
  undone e undo k' r h = let (n, h') = (Runs-ignore undo r).at k' h in refused_after e _ _ n h'

  after_add :
      (k1 : Kernel) {r : Result (Unit {0}) × Kernel} (undo : M (Unit {0}))
      → Runs (Table k.devices) undo
      → Table k.devices k1
      → Added p k1 r
      → Managed p k (unlocked (handle_error r.0 (ignore undo) r.1))
  after_add k1 undo u h (full e n) = undone e undo k1 u h
  after_add k1 undo u h (added slot k' b f d) =
      placed slot _ b
        (record {
          from = f.from;
          passes = ground (arith, f.passes, h slot);
          before = λ m a l. ground (arith, f.before m a l, h m);
        })
        (λ s. ground (arith, d s, h s)) refl

  after_register :
      p ≢ 0
      → (env : Platform) (r : Result (Unit {0})) (k1 : Kernel) → r ≢ fault
      → Table k.devices k1
      → Managed p k (
          unlocked (
            continue r
              (λ _. on_error (manager_add_device p) (ignore (device_unregister env p)))
              k1))
  unfolding on_error
  after_register np env (ok _) k1 n h =
      after_add k1 (device_unregister env p)
        (Runs-device_unregister (Table-Deep k.devices) env p np) h (manager_add_device-Added p k1)
  after_register np env (err e) k1 n h = refused e _ h refl
  after_register np env fault k1 n h = absurd (n refl)

-- cuddlk_device_manage on a device that is not NULL, while the manager is not locked and each managed
-- device has a group and a name: it follows no NULL pointer and returns with the manager unlocked. It either returns an error code, with the table
-- as it was, or succeeds, and then the device is in the first slot that was empty and all other slots
-- are as they were.
pub device_manage-Managed :
    (env : Platform) (p : ℕ) (k : Kernel)
    → p ≢ 0
    → k.locked ≡ false
    → AllNamed k
    → Managed p k (device_manage env p k)
unfolding device_manage manage_body with_lock ◌>>=◌
device_manage-Managed env p k n free named =
    let (ran, table) =
      (manage_register-Back k.devices env p n).at (record k { locked = true })
        ((λ s. refl), named) in
    simp free (
      after_register p k n env (manage_register env p (record k { locked = true })).0
        (manage_register env p (record k { locked = true })).1 ran table)
