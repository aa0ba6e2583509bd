-- ===== src/Device/Find.antt =====
-- The search for a resource by name.
use cuddl.Base.{
  ℕ, ◌<◌, ◌≡◌, inl, inr, Bool, false, Option, Option-cases, Result, ok, err, enxio, arith, scan,
  scan-some, scan-none, IsFirst,
}
use cuddl.CStr.{Str}
use cuddl.Device.Texts.{NameFits, name_fits-NameFits, NameFits-name_fits}
use cuddl.Device.{
  Device, device_find_memregion_slot, device_find_eventsrc_slot, name_fits, max_dev_mem_regions,
  max_dev_events, slot_or_enxio,
}

-- A search over `count` slots answers with the first slot that passes, or with -ENXIO when none does.
pub data FindsFirst (test : ℕ → Bool) (count : ℕ) : Result ℕ → Type 0 where
  found : (i : ℕ) → IsFirst test 0 i → i < count → FindsFirst test count (ok i)
  not_found : ((i : ℕ) → i < count → test i ≡ false) → FindsFirst test count (err enxio)

scan-FindsFirst :
    (test : ℕ → Bool) (count : ℕ) → FindsFirst test count (slot_or_enxio (scan test 0 count))
scan-FindsFirst test count = elim (Option-cases (scan test 0 count)) [
  | inl e ↦ rw e (not_found (λ i h. scan-none test 0 count i e (omega arith) (omega arith)))
  | inr (j, e) ↦ rw e (let f = scan-some test 0 count e in found j f.0 (omega arith))
]

pub device_find_memregion_slot-FindsFirst :
    (dev : Device) (name : Option Str)
    → FindsFirst
        (λ i. name_fits (dev.mem i).name name)
        max_dev_mem_regions
        (device_find_memregion_slot dev name)
unfolding device_find_memregion_slot
device_find_memregion_slot-FindsFirst dev name = scan-FindsFirst _ max_dev_mem_regions

pub device_find_eventsrc_slot-FindsFirst :
    (dev : Device) (name : Option Str)
    → FindsFirst
        (λ i. name_fits (dev.events i).name name)
        max_dev_events
        (device_find_eventsrc_slot dev name)
unfolding device_find_eventsrc_slot
device_find_eventsrc_slot-FindsFirst dev name = scan-FindsFirst _ max_dev_events

-- The first of `count` resources that has a name which fits, or -ENXIO where none has.
pub data FirstNamed (names : ℕ → Option Str) (query : Option Str) (count : ℕ)
    : Result ℕ → Type 0 where
  first :
      (i : ℕ)
      → i < count
      → NameFits (names i) query
      → ((m : ℕ) → m < i → ¬ NameFits (names m) query)
      → FirstNamed names query count (ok i)
  none_named :
      ((m : ℕ) → m < count → ¬ NameFits (names m) query) → FirstNamed names query count (err enxio)

unfit : (s q : Option Str) → name_fits s q ≡ false → ¬ NameFits s q
unfit s q e f = cc (e, NameFits-name_fits s q f)

FindsFirst-FirstNamed :
    (names : ℕ → Option Str) (query : Option Str) (count : ℕ) {r : Result ℕ}
    → FindsFirst (λ i. name_fits (names i) query) count r
    → FirstNamed names query count r
FindsFirst-FirstNamed names query count (found i f b) =
    first i b (name_fits-NameFits (names i) query f.passes)
      (λ m l. unfit (names m) query (f.before m (omega arith) l))
FindsFirst-FirstNamed names query count (not_found n) =
    none_named (λ m l. unfit (names m) query (n m l))

-- cuddlk_device_find_memregion_slot answers with the first of the five regions that has a name which
-- fits the query, and with -ENXIO exactly when there is none. A name fits a query that is NULL or
-- empty, and one that has the same text, or the same first 256 bytes.
pub device_find_memregion_slot-FirstNamed :
    (dev : Device) (name : Option Str)
    → FirstNamed
        (λ i. (dev.mem i).name)
        name
        max_dev_mem_regions
        (device_find_memregion_slot dev name)
device_find_memregion_slot-FirstNamed dev name =
    FindsFirst-FirstNamed (λ i. (dev.mem i).name) name max_dev_mem_regions
      (device_find_memregion_slot-FindsFirst dev name)
