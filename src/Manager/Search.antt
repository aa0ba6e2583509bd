-- ===== src/Manager/Search.antt =====
-- What the searches in the table of devices find.
use cuddl.Base.{
  ℕ, ◌-◌, ◌≤◌, ◌<◌, ◌≡◌, ◌≢◌, Bool, true, false, Option, Option-cases, Bool-cases, none, some, refl,
  not, ◌&&◌, ◌||◌, ◌⊎◌, if◌then◌else◌, Result, ok, err, fault, enxio, inl, inr, pos, ◌==ℤ◌, ==ℤ→eq,
  ==ℤ-refl, IsFirst, scan, scan-some, scan-none, arith, ◌==◌,
}
use cuddl.CStr.{Str}
use cuddl.Device.{slot_or_enxio, is_given, is_named}
use cuddl.Device.Texts.{
  IsOpen, StrFits, open_not_given, not_given-IsOpen, str_fits-StrFits, StrFits-str_fits,
}
use cuddl.Kernel.{Kernel}
use cuddl.Manager.Fits.{Fits, slot_fits-Fits, Fits-slot_fits}
use cuddl.Manager.{
  Query, max_managed_devices, slot_or_fault, slot_fits, slot_faults, device_faults,
  find_device_slot_matching, find_device_slot,
}

-- A search from `start` on answers with the first slot that passes, or with -ENXIO when none does.
pub data FindsFrom (test : ℕ → Bool) (start : ℕ) : Result ℕ → Type 0 where
  found : (i : ℕ) → IsFirst test start i → i < max_managed_devices → FindsFrom test start (ok i)
  not_found :
      ((i : ℕ) → start ≤ i → i < max_managed_devices → test i ≡ false)
      → FindsFrom test start (err enxio)

scan-FindsFrom :
    (test : ℕ → Bool) (start : ℕ)
    → start ≤ max_managed_devices
    → FindsFrom test start (slot_or_enxio (scan test start (max_managed_devices - start)))
scan-FindsFrom test start h = elim (Option-cases (scan test start (max_managed_devices - start))) [
  | inl e ↦ rw e (not_found (λ i p q. scan-none test start (256 - start) i e p (omega arith)))
  | inr (j, e) ↦ rw e (let f = scan-some test start (256 - start) e in found j f.0 (omega arith))
]

-- The search stops at slot `i`, to compare a text that is asked for with a group or a name that is NULL.
pub record Halts (k : Kernel) (q : Query) (i : ℕ) : Type 0 where
  pub there : k.devices i ≢ 0
  pub instance_id : (q.instance_id ≡ pos 0) ⊎ ((k.device (k.devices i)).instance_id ≡ q.instance_id)
  pub null :
      (((k.device (k.devices i)).group ≡ none) × (¬ IsOpen q.group))
      ⊎ (StrFits (k.device (k.devices i)).group q.group
          × ((k.device (k.devices i)).name ≡ none)
          × (¬ IsOpen q.name))

-- The search goes on behind slot `i`.
abbrev pub Passes : Kernel → Query → ℕ → Type 0
Passes k q i = (¬ Fits k q i) × (¬ Halts k q i)

-- The first slot from `start` on that fits, or -ENXIO where none does, unless the search stops before.
pub data Finds (k : Kernel) (q : Query) (start : ℕ) : Result ℕ → Type 0 where
  found_slot :
      (i : ℕ)
      → start ≤ i
      → i < max_managed_devices
      → Fits k q i
      → ((m : ℕ) → start ≤ m → m < i → Passes k q m)
      → Finds k q start (ok i)
  no_slot :
      ((m : ℕ) → start ≤ m → m < max_managed_devices → Passes k q m) → Finds k q start (err enxio)
  halted :
      (i : ℕ)
      → start ≤ i
      → i < max_managed_devices
      → Halts k q i
      → ((m : ℕ) → start ≤ m → m < i → Passes k q m)
      → Finds k q start fault

unnamed : (s : Option Str) → is_named s ≡ false → s ≡ none
unnamed none h = refl
unnamed (some s) h = cc

given_not-IsOpen : (s : Option Str) → is_given s ≡ true → ¬ IsOpen s
given_not-IsOpen s h o = let e = open_not_given s o in cc (h, e)

given_unless_open : (s : Option Str) → ¬ IsOpen s → is_given s ≡ true
given_unless_open s h = elim (Bool-cases (is_given s)) [
  | inl e ↦ e
  | inr e ↦ absurd (h (not_given-IsOpen s e))
]

slot_faults-Halts : (k : Kernel) (q : Query) (i : ℕ) → slot_faults k q i ≡ true → Halts k q i
unfolding slot_faults device_faults
slot_faults-Halts k q i h = record {
  there = λ e. ground arith;
  instance_id = ground (
    arith,
    ==ℤ→eq q.instance_id (pos 0),
    ==ℤ→eq (k.device (k.devices i)).instance_id q.instance_id,
  );
  null = elim (Bool-cases (is_given q.group && not (is_named (k.device (k.devices i)).group))) [
    | inl e ↦ inl (unnamed _ (ground arith), given_not-IsOpen q.group (ground arith))
    | inr e ↦ inr (
      str_fits-StrFits _ _ (ground arith),
      unnamed _ (ground arith),
      given_not-IsOpen q.name (ground arith),
    )
  ];
}

Halts-slot_faults : (k : Kernel) (q : Query) (i : ℕ) → Halts k q i → slot_faults k q i ≡ true
Halts-slot_faults k q i h = either h.null
  where
    start : device_faults (k.device (k.devices i)) q ≡ true → slot_faults k q i ≡ true
    start e = unfold slot_faults in ground (arith, e, h.there)

    same :
        (q.instance_id ==ℤ pos 0 || (k.device (k.devices i)).instance_id ==ℤ q.instance_id) ≡ true
    same = ground (
      arith,
      h.instance_id,
      ==ℤ-refl (k.device (k.devices i)).instance_id,
      ==ℤ-refl q.instance_id,
    )

    either :
        (((k.device (k.devices i)).group ≡ none) × (¬ IsOpen q.group))
          ⊎ (StrFits (k.device (k.devices i)).group q.group
              × ((k.device (k.devices i)).name ≡ none)
              × (¬ IsOpen q.name))
        → slot_faults k q i ≡ true
    either (inl (e, o)) =
        let g = given_unless_open q.group o in
        let n : is_named (k.device (k.devices i)).group ≡ false = rw e refl in
        start (unfold device_faults in ground (arith, g, n, same))
    either (inr (f, e, o)) =
        let g = given_unless_open q.name o in
        let n : is_named (k.device (k.devices i)).name ≡ false = rw e refl in
        let f' = StrFits-str_fits _ _ f in
        start (unfold device_faults in ground (arith, g, n, f', same))

module _ (k : Kernel) (q : Query) where
  stops : ℕ → Bool
  stops i = slot_faults k q i || slot_fits k q i

  passed : (m : ℕ) → stops m ≡ false → Passes k q m
  unfolding stops
  passed m e = (
    (λ f. let g = Fits-slot_fits k q m f in ground (arith, e, g)),
    (λ f. let g = Halts-slot_faults k q m f in ground (arith, e, g)),
  )

  fits : (j : ℕ) → stops j ≡ true → slot_faults k q j ≡ false → slot_fits k q j ≡ true
  unfolding stops
  fits j t e = ground (arith, t, e)

  stops_at :
      (start j : ℕ)
      → IsFirst stops start j
      → j < max_managed_devices
      → Finds k q start (if slot_faults k q j then fault else ok j)
  stops_at start j f b = elim (Bool-cases (slot_faults k q j)) [
    | inl e ↦
        rw e (halted j f.from b (slot_faults-Halts k q j e) (λ m p l. passed m (f.before m p l)))
    | inr e ↦ rw e (
        found_slot j f.from b (slot_fits-Fits k q j (fits j f.passes e))
          (λ m p l. passed m (f.before m p l)))
  ]

  scan-Finds :
      (start : ℕ)
      → start ≤ max_managed_devices
      → Finds k q start
          (slot_or_fault (slot_faults k q) (scan stops start (max_managed_devices - start)))
  scan-Finds start h = elim (Option-cases (scan stops start (max_managed_devices - start))) [
    | inl e ↦
        rw e (no_slot (λ m p l. passed m (scan-none stops start (256 - start) m e p (omega arith))))
    | inr (j, e) ↦
        rw e (let f = scan-some stops start (256 - start) e in stops_at start j f.0 (omega arith))
  ]

-- cuddlk_manager_find_device_slot_matching answers with the first slot from `start_index` on that
-- holds a device which fits the query, and with -ENXIO when there is none, unless it meets before a
-- device that has the instance asked for and a group or a name that is NULL and has to be compared:
-- exactly then it follows the NULL pointer. To fit is to have the instance asked for, if not 0, and the
-- group and name asked for, if not NULL or empty, and a resource of the type and name asked for, if
-- that name is not NULL or empty.
pub find_device_slot_matching-Finds :
    (k : Kernel) (q : Query) (start_index : ℕ)
    → start_index ≤ max_managed_devices
    → Finds k q start_index (find_device_slot_matching k q start_index)
unfolding find_device_slot_matching stops
find_device_slot_matching-Finds k q start_index h = scan-Finds k q start_index h

-- Each managed device has a group and a name.
abbrev pub AllNamed : Kernel → Type 0
AllNamed k =
    (s : ℕ)
    → k.devices s ≢ 0
    → ((k.device (k.devices s)).group ≢ none) × ((k.device (k.devices s)).name ≢ none)

-- Then no search stops.
pub never-Halts : (k : Kernel) (q : Query) (i : ℕ) → AllNamed k → ¬ Halts k q i
never-Halts k q i named h = either h.null
  where
    either :
        (((k.device (k.devices i)).group ≡ none) × (¬ IsOpen q.group))
          ⊎ (StrFits (k.device (k.devices i)).group q.group
              × ((k.device (k.devices i)).name ≡ none)
              × (¬ IsOpen q.name))
        → ⊥
    either (inl (e, o)) = (named i h.there).0 e
    either (inr (f, e, o)) = (named i h.there).1 e

pub find_device_slot-FindsFrom :
    (k : Kernel) (p : ℕ) → FindsFrom (λ i. k.devices i == p) 0 (find_device_slot k p)
unfolding find_device_slot
find_device_slot-FindsFrom k p = scan-FindsFrom (λ i. k.devices i == p) 0 (omega arith)
