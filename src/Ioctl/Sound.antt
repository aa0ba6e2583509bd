-- ===== src/Ioctl/Sound.antt =====
-- Every command keeps the counts those of the references, for processes that keep to the protocol.
use cuddl.Base.{
  ℕ, zero, suc, fault, ◌⊎◌, ◌+◌, ◌<◌, ◌≡◌, ◌≢◌, refl, Bool, true, inl, inr, Result, ok, err, arith,
  int_mod, some, pos,
}
use cuddl.Kernel.{Kernel, Reply, ResourceRef}
use cuddl.Kernel.Keeps.{Keeps}
use cuddl.Refs.{memregion_claim, eventsrc_claim, add_mem_ref, add_event_ref}
use cuddl.Refs.Counted.{
  Kind, memregions, eventsrcs, Counted, Same, Same-refl, Same-Counted, Sets-Counted, holds,
  held-cons,
}
use cuddl.Refs.Exit.{eventsrcs_stay, memregions_stay}
use cuddl.Ioctl.Commands.{Call, ClaimData, ReleaseData}
use cuddl.Ioctl.Claim.{
  memregion_claim_at, eventsrc_claim_at, memregion_claim_ioctl, eventsrc_claim_ioctl, ref_of,
  memregion_info_of, eventsrc_info_of,
}
use cuddl.Device.{has_bit_0}
use cuddl.Ioctl.Claim.Outcome.{Claimed}
use cuddl.Ioctl.Claim.Kinds.{memregion_claim_at-Claimed, eventsrc_claim_at-Claimed}
use cuddl.Ioctl.Claim.Cases.{memregion_claim_ioctl_cases, eventsrc_claim_ioctl_cases}
use cuddl.Ioctl.Stays.{Keeps-claim_flow}

-- Both kinds of resources have the counts of their references.
pub record Sound (k : Kernel) : Type 0 where
  pub regions : Counted memregions k
  pub sources : Counted eventsrcs k

-- One more reference does not overflow the count of any resource.
abbrev pub Room : Kind → Kernel → Type 0
Room κ k = (s i : ℕ) → κ.count k (k.devices s) i + 1 < int_mod

-- The process has a reference to the resource that its token names.
abbrev pub Holds : Kind → ReleaseData → Kernel → Type 0
Holds κ s k =
    (slot i : ℕ)
    → s.token.device_index ≡ pos slot
    → s.token.resource_index ≡ pos i
    → holds slot i s.pid (κ.refs k) ≡ true

granted_or_not : (a : Result ℕ) → (a ≡ ok 0) ⊎ (a ≢ ok 0)
granted_or_not (ok zero) = inl refl
granted_or_not (ok (suc n)) = inr (λ e. ground arith)
granted_or_not (err e) = inr (λ h. cc)
granted_or_not fault = inr (λ h. cc)

Claimed-Counted :
    {κ : Kind} {c : Call} (s : ClaimData) {slot i : ℕ} {busy : Bool} {k : Kernel}
    {r : Result ℕ × Kernel}
    → Counted κ k
    → k.devices slot ≢ 0
    → Claimed κ c (k.devices slot) i (ref_of s slot i) busy k r
    → Counted κ r.1
Claimed-Counted {κ} s {slot} {i} {k = k} {r} h there o = elim (granted_or_not r.0) [
  | inl e ↦
      Sets-Counted slot i _ _ h there
        (λ t j. ground (arith, held-cons slot i t j s.pid (κ.refs k), h.counted slot i there))
        (o.granted e)
  | inr e ↦ Same-Counted (o.refused e) h
]

module _ (k0 : Kernel) where
  pub sources_told :
      (k : Kernel) (r : Reply)
      → Same eventsrcs k0 k
      → Same eventsrcs k0 (record k { user = some r })
  sources_told k r h = record { devices = h.devices; refs = h.refs; count = h.count }

  pub regions_told :
      (k : Kernel) (r : Reply)
      → Same memregions k0 k
      → Same memregions k0 (record k { user = some r })
  regions_told k r h = record { devices = h.devices; refs = h.refs; count = h.count }

  sources_claim : (p i : ℕ) (b : Bool) → Keeps (Same eventsrcs k0) (memregion_claim p i b)
  unfolding memregion_claim
  sources_claim p i b = record {
    at = λ k h. record {
      devices = λ s. ground (arith, h.devices s);
      refs = ground (arith, h.refs);
      count = λ q j. ground (arith, h.count q j);
    };
  }

  regions_claim : (p i : ℕ) (b : Bool) → Keeps (Same memregions k0) (eventsrc_claim p i b)
  unfolding eventsrc_claim
  regions_claim p i b = record {
    at = λ k h. record {
      devices = λ s. ground (arith, h.devices s);
      refs = ground (arith, h.refs);
      count = λ q j. ground (arith, h.count q j);
    };
  }

  sources_added : (r : ResourceRef) → Keeps (Same eventsrcs k0) (add_mem_ref r)
  unfolding add_mem_ref
  sources_added r = record {
    at = λ k h. record { devices = h.devices; refs = h.refs; count = h.count };
  }

  regions_added : (r : ResourceRef) → Keeps (Same memregions k0) (add_event_ref r)
  unfolding add_event_ref
  regions_added r = record {
    at = λ k h. record { devices = h.devices; refs = h.refs; count = h.count };
  }

  memregion_claim_at-Keeps :
      (c : Call) (page_size : ℕ) (rt : Bool) (s : ClaimData) (slot i : ℕ)
      → Keeps (Same eventsrcs k0) (memregion_claim_at c page_size rt true s slot i)
  unfolding memregion_claim_at
  memregion_claim_at-Keeps c page_size rt s slot i =
      Keeps-claim_flow sources_told c true
        (λ dev. Reply.memregion_info (memregion_info_of page_size rt dev slot i)) slot
        (λ p. sources_claim p i (has_bit_0 s.options)) (λ p. eventsrcs_stay k0 p i)
        (sources_added (ref_of s slot i))

  eventsrc_claim_at-Keeps :
      (c : Call) (rt : Bool) (s : ClaimData) (slot i : ℕ)
      → Keeps (Same memregions k0) (eventsrc_claim_at c rt true s slot i)
  unfolding eventsrc_claim_at
  eventsrc_claim_at-Keeps c rt s slot i =
      Keeps-claim_flow regions_told c true
        (λ dev. Reply.eventsrc_info (eventsrc_info_of rt dev slot i)) slot
        (λ p. regions_claim p i (has_bit_0 s.options)) (λ p. memregions_stay k0 p i)
        (regions_added (ref_of s slot i))

module _ (c : Call) (s : ClaimData) (slot i : ℕ) (k : Kernel) (h : Sound k)
    (there : k.devices slot ≢ 0) where
  -- A claim of a region keeps both kinds counted.
  memregion_claim_at-Sound :
      (page_size : ℕ) (rt : Bool)
      → Room memregions k
      → Sound (memregion_claim_at c page_size rt true s slot i k).1
  memregion_claim_at-Sound page_size rt room = record {
    regions =
        Claimed-Counted s h.regions there
          (memregion_claim_at-Claimed c page_size rt s slot i k there (room slot i));
    sources =
        Same-Counted
          ((memregion_claim_at-Keeps k c page_size rt s slot i).at k (Same-refl eventsrcs k))
          h.sources;
  }

  eventsrc_claim_at-Sound :
      (rt : Bool) → Room eventsrcs k → Sound (eventsrc_claim_at c rt true s slot i k).1
  eventsrc_claim_at-Sound rt room = record {
    sources =
        Claimed-Counted s h.sources there
          (eventsrc_claim_at-Claimed c rt s slot i k there (room slot i));
    regions =
        Same-Counted ((eventsrc_claim_at-Keeps k c rt s slot i).at k (Same-refl memregions k))
          h.regions;
  }

pub memregion_claim_ioctl-Sound :
    (c : Call) (page_size : ℕ) (rt : Bool) (s : ClaimData) (k : Kernel)
    → Sound k
    → Room memregions k
    → Sound (memregion_claim_ioctl c page_size rt true s k).1
memregion_claim_ioctl-Sound c page_size rt s k h room =
    memregion_claim_ioctl_cases (λ r. Sound r.1) k (λ e. h) (λ q i x. h) c page_size rt true s
      (λ slot i b l there. memregion_claim_at-Sound c s slot i k h there page_size rt room)

pub eventsrc_claim_ioctl-Sound :
    (c : Call) (rt : Bool) (s : ClaimData) (k : Kernel)
    → Sound k
    → Room eventsrcs k
    → Sound (eventsrc_claim_ioctl c rt true s k).1
eventsrc_claim_ioctl-Sound c rt s k h room =
    eventsrc_claim_ioctl_cases (λ r. Sound r.1) k (λ e. h) (λ q i x. h) c rt true s
      (λ slot i b l there. eventsrc_claim_at-Sound c s slot i k h there rt room)
