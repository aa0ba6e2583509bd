-- ===== src/Manager/Instances.antt =====
-- The choice of an instance number (cuddlk_manager_next_available_instance_id).
use cuddl.Base.{
  ℕ, zero, suc, ◌+◌, ◌≤◌, ◌<◌, ◌≡◌, ◌≢◌, inl, inr, refl, ◌∙◌, Result, ok, err, fault, enomem, arith,
  ltb, lt→ltb, if◌then◌else◌, Bool-cases,
}
use mathlib.Core.Path.{subst}
use native.Mathlib.Decide.{dec_lt, ℕ_discrete}
use cuddl.Device.{Device}
use cuddl.Kernel.{Kernel}
use cuddl.Manager.{
  instance_query, find_device_slot_matching, next_instance, next_available_instance_id,
  max_managed_devices,
}
use cuddl.Manager.Fits.{Fits}
use cuddl.Manager.Search.{
  Finds, found_slot, no_slot, halted, AllNamed, never-Halts, find_device_slot_matching-Finds,
}

-- Slot `i` holds a device with the group and name of `dev` and the number `n`, or any for 0.
abbrev pub Named : Kernel → Device → ℕ → ℕ → Type 0
Named k dev n i = Fits k (instance_query dev n) i

-- The numbers of the devices that share the group and name of `dev` grow along the table.
pub record Ascending (k : Kernel) (dev : Device) : Type 0 where
  pub grows : (i j a b : ℕ) → i < j → 0 < a → 0 < b → Named k dev a i → Named k dev b j → a < b

-- What a call of the loop comes to, over the result of its search.
next_step : Kernel → Device → ℕ → ℕ → Result ℕ → Result ℕ
next_step k dev fuel n fault = fault
next_step k dev fuel n (err e) = ok n
next_step k dev fuel n (ok found) =
    if ltb found 255 then next_instance k dev fuel (suc n) (suc found) else err enomem

next_instance_lem :
    (k : Kernel) (dev : Device) (fuel n slot : ℕ)
    → next_instance k dev (suc fuel) n slot
      ≡ next_step k dev fuel n (find_device_slot_matching k (instance_query dev n) slot)
unfolding next_instance next_step
next_instance_lem k dev fuel n slot = ground arith

-- The answer is a number that no device of that name has, or the last slot is taken by one.
pub data Chosen (k : Kernel) (dev : Device) : Result ℕ → Type 0 where
  chosen :
      (n : ℕ)
      → 0 < n
      → ((i : ℕ) → i < max_managed_devices → ¬ Named k dev n i)
      → Chosen k dev (ok n)
  full : (n : ℕ) → Named k dev n 255 → Chosen k dev (err enomem)

module _ (k : Kernel) (dev : Device) (named : AllNamed k) where
  -- The last round is handed over as `later`.
  terminates_step :
      (fuel n slot : ℕ) {r : Result ℕ}
      → Finds k (instance_query dev n) slot r
      → ((found : ℕ)
          → slot ≤ found
          → found < 255
          → next_instance k dev fuel (suc n) (suc found) ≢ fault)
      → next_step k dev fuel n r ≢ fault
  unfolding next_step
  terminates_step fuel n slot (found_slot i p b f g) later = ground (arith, later i p)
  terminates_step fuel n slot (no_slot g) later = ground arith
  terminates_step fuel n slot (halted i p b f g) later = absurd (never-Halts k _ i named f)

  terminates :
      (fuel n slot : ℕ) → slot < 256 → 256 ≤ slot + fuel → next_instance k dev fuel n slot ≢ fault
  terminates zero n slot p q = absurd (omega arith)
  terminates (suc fuel) n slot p q = rw (next_instance_lem k dev fuel n slot) (
      terminates_step fuel n slot (find_device_slot_matching-Finds k _ slot (omega arith))
        (λ found l b. terminates fuel (suc n) (suc found) (omega arith) (omega arith)))

  same_number : (a b i : ℕ) → 0 < a → 0 < b → Named k dev a i → Named k dev b i → a ≡ b
  same_number a b i p q f g = ground (arith, f.instance_id, g.instance_id)

  -- All numbers below `slot` are below `n`.
  abbrev Passed : ℕ → ℕ → Type 0
  Passed n slot = (i a : ℕ) → i < slot → 0 < a → Named k dev a i → a < n

  found-Passed :
      (n slot found : ℕ)
      → 0 < n
      → Ascending k dev
      → Passed n slot
      → Named k dev n found
      → Passed (suc n) (suc found)
  found-Passed n slot found p asc h f i a l q g = elim (ℕ_discrete i found) [
    | yes e ↦ ground (arith, same_number a n found q p (subst (Named k dev a) e g) f)
    | no e ↦ ground (arith, asc.grows i found a n (omega arith) q p g f)
  ]

  fresh_step :
      (fuel n slot : ℕ) {r : Result ℕ}
      → 0 < n
      → Passed n slot
      → Finds k (instance_query dev n) slot r
      → ((found : ℕ)
          → slot ≤ found
          → found < 255
          → Named k dev n found
          → Chosen k dev (next_instance k dev fuel (suc n) (suc found)))
      → Chosen k dev (next_step k dev fuel n r)
  unfolding next_step
  fresh_step fuel n slot p h (found_slot i l b f g) later = elim (Bool-cases (ltb i 255)) [
    | inl e ↦ rw e (later i l (ground arith) f)
    | inr e ↦ rw e (full n (subst (Named k dev n) (ground arith) f))
  ]
  fresh_step fuel n slot p h (halted i l b f g) later = absurd (never-Halts k _ i named f)
  fresh_step fuel n slot p h (no_slot g) later = chosen n p (λ i b f. elim (dec_lt i slot) [
    | yes l ↦ absurd (ground (arith, h i n l p f))
    | no l ↦ (g i (omega arith) b).0 f
  ])

  fresh :
      (fuel n slot : ℕ)
      → slot < 256
      → 256 ≤ slot + fuel
      → 0 < n
      → Ascending k dev
      → Passed n slot
      → Chosen k dev (next_instance k dev fuel n slot)
  fresh zero n slot b c p asc h = absurd (omega arith)
  fresh (suc fuel) n slot b c p asc h = rw (next_instance_lem k dev fuel n slot) (
      fresh_step fuel n slot p h (find_device_slot_matching-Finds k _ slot (omega arith))
        (λ found l d f.
          fresh fuel (suc n) (suc found) (omega arith) (omega arith) (omega arith) asc
            (found-Passed n slot found p asc h f)))

  -- While each managed device has a group and a name, the search for a number ends: each of its rounds
  -- goes on behind a later slot.
  pub next_available_instance_id-ne-fault : next_available_instance_id k dev ≢ fault
  unfolding next_available_instance_id
  next_available_instance_id-ne-fault = terminates 256 1 0 (omega arith) (omega arith)

  -- While each managed device has a group and a name, and the numbers of the devices with this group
  -- and name grow along the table, the number that comes back is positive and no managed device with this group and name has it; -ENOMEM comes
  -- back only when such a device is in the last slot.
  pub next_available_instance_id-Chosen :
      Ascending k dev → Chosen k dev (next_available_instance_id k dev)
  unfolding next_available_instance_id
  next_available_instance_id-Chosen asc =
      fresh 256 1 0 (omega arith) (omega arith) (omega arith) asc
        (λ i a l p f. absurd (omega arith))

  step_found :
      (fuel n slot j : ℕ) {r : Result ℕ}
      → Finds k (instance_query dev n) slot r
      → slot ≤ j
      → j < 255
      → Named k dev n j
      → ((m : ℕ) → m < j → ¬ Named k dev n m)
      → next_step k dev fuel n r ≡ next_instance k dev fuel (suc n) (suc j)
  unfolding next_step
  step_found fuel n slot j (found_slot i l b f g) p q h before = elim (dec_lt i j) [
    | yes c ↦ absurd (before i c f)
    | no c ↦ elim (dec_lt j i) [
      | yes d ↦ absurd ((g j p d).0 h)
      | no d ↦ let e : i ≡ j = omega arith in rw (e, lt→ltb j 255 q)
    ]
  ]
  step_found fuel n slot j (halted i l b f g) p q h before = absurd (never-Halts k _ i named f)
  step_found fuel n slot j (no_slot g) p q h before = absurd ((g j p (omega arith)).0 h)

  step_none :
      (fuel n slot : ℕ) {r : Result ℕ}
      → Finds k (instance_query dev n) slot r
      → ((m : ℕ) → slot ≤ m → m < 256 → ¬ Named k dev n m)
      → next_step k dev fuel n r ≡ ok n
  unfolding next_step
  step_none fuel n slot (found_slot i l b f g) none_left = absurd (none_left i l b f)
  step_none fuel n slot (no_slot g) none_left = refl
  step_none fuel n slot (halted i l b f g) none_left = absurd (never-Halts k _ i named f)

  -- While each managed device has a group and a name: when a device numbered 2 stands before the first one that is numbered 1, and none numbered 2
  -- behind it, the number that comes back is 2, which is taken.
  pub next_available_instance_id_taken :
      (i j : ℕ)
      → i < j
      → j < 255
      → Named k dev 2 i
      → Named k dev 1 j
      → ((m : ℕ) → m < j → ¬ Named k dev 1 m)
      → ((m : ℕ) → j < m → m < 256 → ¬ Named k dev 2 m)
      → next_available_instance_id k dev ≡ ok 2
  unfolding next_available_instance_id
  next_available_instance_id_taken i j l b two one before behind =
      next_instance_lem k dev 255 1 0
      ∙ step_found 255 1 0 j (find_device_slot_matching-Finds k _ 0 (omega arith)) (omega arith) b
          one before
      ∙ next_instance_lem k dev 254 2 (suc j)
      ∙ step_none 254 2 (suc j) (find_device_slot_matching-Finds k _ (suc j) (omega arith))
          (λ m p q. behind m (omega arith) q)
