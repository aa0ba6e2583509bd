-- ===== src/Manager/Fits.antt =====
-- When a device fits a query, said without the code's tests, and that the tests decide it.
use cuddl.Base.{
  ℕ, ◌<◌, ◌≡◌, ◌≢◌, ◌⊎◌, inl, inr, refl, Bool, Bool-cases, true, Option, Result, pos, ==ℤ→eq,
  ==ℤ-refl, arith,
}
use cuddl.CStr.{Str}
use cuddl.Device.{Device, is_given, max_dev_mem_regions, max_dev_events}
use cuddl.Device.Texts.{
  IsOpen, StrFits, NameFits, open_not_given, not_given-IsOpen, str_fits-StrFits, StrFits-str_fits,
  name_fits-NameFits, NameFits-name_fits,
}
use cuddl.Device.Find.{
  FindsFirst, found, not_found, device_find_memregion_slot-FindsFirst,
  device_find_eventsrc_slot-FindsFirst,
}
use cuddl.Kernel.{Kernel}
use cuddl.Manager.{
  Query, ResourceType, unspecified, memregion, eventsrc, is_found, resource_fits, device_fits,
  slot_fits,
}

-- A resource of the type asked for has a name that fits; with no name asked for, none is needed.
abbrev pub ResourceFits : Device → Option Str → ResourceType → Type 0
ResourceFits dev resource unspecified = IsOpen resource
ResourceFits dev resource memregion =
    IsOpen resource ⊎ ((i : ℕ) × (i < max_dev_mem_regions) × NameFits (dev.mem i).name resource)
ResourceFits dev resource eventsrc =
    IsOpen resource ⊎ ((i : ℕ) × (i < max_dev_events) × NameFits (dev.events i).name resource)

-- Slot `i` holds a device that the query asks for.
pub record Fits (k : Kernel) (q : Query) (i : ℕ) : Type 0 where
  pub there : k.devices i ≢ 0
  pub instance_id : (q.instance_id ≡ pos 0) ⊎ ((k.device (k.devices i)).instance_id ≡ q.instance_id)
  pub group : StrFits (k.device (k.devices i)).group q.group
  pub name : StrFits (k.device (k.devices i)).name q.name
  pub resource : ResourceFits (k.device (k.devices i)) q.resource q.type

found-index :
    {test : ℕ → Bool} {count : ℕ} {r : Result ℕ}
    → FindsFirst test count r
    → is_found r ≡ true
    → (i : ℕ) × (i < count) × (test i ≡ true)
found-index (found i f b) h = (i, b, f.passes)
found-index (not_found n) h = cc

index-found :
    {test : ℕ → Bool} {count : ℕ} {r : Result ℕ} (i : ℕ)
    → FindsFirst test count r
    → i < count
    → test i ≡ true
    → is_found r ≡ true
index-found i (found j f b) h t = refl
index-found i (not_found n) h t = cc (n i h)

resource_fits-ResourceFits :
    (dev : Device) (resource : Option Str) (type : ResourceType)
    → resource_fits dev resource type ≡ true
    → ResourceFits dev resource type
unfolding resource_fits
resource_fits-ResourceFits dev resource unspecified h = not_given-IsOpen resource (ground arith)
resource_fits-ResourceFits dev resource memregion h = elim (Bool-cases (is_given resource)) [
  | inr e ↦ inl (not_given-IsOpen resource e)
  | inl e ↦
      let (i, b, t) =
        found-index (device_find_memregion_slot-FindsFirst dev resource) (ground arith) in
      inr (i, b, name_fits-NameFits _ _ t)
]
resource_fits-ResourceFits dev resource eventsrc h = elim (Bool-cases (is_given resource)) [
  | inr e ↦ inl (not_given-IsOpen resource e)
  | inl e ↦
      let (i, b, t) =
        found-index (device_find_eventsrc_slot-FindsFirst dev resource) (ground arith) in
      inr (i, b, name_fits-NameFits _ _ t)
]

ResourceFits-resource_fits :
    (dev : Device) (resource : Option Str) (type : ResourceType)
    → ResourceFits dev resource type
    → resource_fits dev resource type ≡ true
unfolding resource_fits
ResourceFits-resource_fits dev resource unspecified h = rw (open_not_given resource h)
ResourceFits-resource_fits dev resource memregion (inl h) = rw (open_not_given resource h)
ResourceFits-resource_fits dev resource memregion (inr (i, b, n)) = ground (
  arith,
  index-found i (device_find_memregion_slot-FindsFirst dev resource) b (NameFits-name_fits _ _ n),
)
ResourceFits-resource_fits dev resource eventsrc (inl h) = rw (open_not_given resource h)
ResourceFits-resource_fits dev resource eventsrc (inr (i, b, n)) = ground (
  arith,
  index-found i (device_find_eventsrc_slot-FindsFirst dev resource) b (NameFits-name_fits _ _ n),
)

pub slot_fits-Fits : (k : Kernel) (q : Query) (i : ℕ) → slot_fits k q i ≡ true → Fits k q i
unfolding slot_fits device_fits
slot_fits-Fits k q i h = record {
  there = λ e. ground arith;
  instance_id = ground (
    arith,
    ==ℤ→eq q.instance_id (pos 0),
    ==ℤ→eq (k.device (k.devices i)).instance_id q.instance_id,
  );
  group = str_fits-StrFits _ _ (ground arith);
  name = str_fits-StrFits _ _ (ground arith);
  resource = resource_fits-ResourceFits (k.device (k.devices i)) q.resource q.type (ground arith);
}

pub Fits-slot_fits : (k : Kernel) (q : Query) (i : ℕ) → Fits k q i → slot_fits k q i ≡ true
unfolding slot_fits device_fits
Fits-slot_fits k q i f = ground (
  arith,
  f.there,
  f.instance_id,
  ==ℤ-refl (k.device (k.devices i)).instance_id,
  ==ℤ-refl q.instance_id,
  StrFits-str_fits _ _ f.group,
  StrFits-str_fits _ _ f.name,
  ResourceFits-resource_fits (k.device (k.devices i)) q.resource q.type f.resource,
)
