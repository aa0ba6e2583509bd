-- ===== src/Ioctl/Protocol.antt =====
-- Every command keeps the counts those of the references, for processes that keep to the protocol.
use cuddl.Base.{ℕ, Result, arith}
use cuddl.Kernel.{Kernel}
use cuddl.Kernel.Keeps.{Keeps, keeps_rules}
use cuddl.Refs.Counted.{Kind, memregions, eventsrcs, Counted, Same, Same-refl, Same-Counted}
use cuddl.Ioctl.Commands.{Call, ReleaseData}
use cuddl.Ioctl.Release.{
  memregion_release_at, memregion_release_ioctl, eventsrc_release_at, eventsrc_release_ioctl,
}
use cuddl.Ioctl.Release.Outcome.{
  ReleaseOutcome, rejected, done, Released-Counted, memregion_release_ioctl-ReleaseOutcome,
  eventsrc_release_ioctl-ReleaseOutcome,
}
use cuddl.Ioctl.Sound.{Sound, Holds}

module _ (k0 : Kernel) where
  memregion_release_at-Keeps :
      (s : ReleaseData) (slot i : ℕ) → Keeps (Same eventsrcs k0) (memregion_release_at s slot i)
  unfolding memregion_release_at
  memregion_release_at-Keeps s slot i = record {
    at = λ k h. record {
      devices = λ t. ground (arith, h.devices t);
      refs = ground (arith, h.refs);
      count = λ q j. ground (arith, h.count q j);
    };
  }

  eventsrc_release_at-Keeps :
      (s : ReleaseData) (slot i : ℕ) → Keeps (Same memregions k0) (eventsrc_release_at s slot i)
  unfolding eventsrc_release_at
  eventsrc_release_at-Keeps s slot i = record {
    at = λ k h. record {
      devices = λ t. ground (arith, h.devices t);
      refs = ground (arith, h.refs);
      count = λ q j. ground (arith, h.count q j);
    };
  }

  memregion_release_ioctl-Keeps :
      (c : Call) (s : ReleaseData) → Keeps (Same eventsrcs k0) (memregion_release_ioctl c s)
  unfolding memregion_release_ioctl
  memregion_release_ioctl-Keeps c s = search (keeps_rules, memregion_release_at-Keeps) depth 24

  eventsrc_release_ioctl-Keeps :
      (c : Call) (s : ReleaseData) → Keeps (Same memregions k0) (eventsrc_release_ioctl c s)
  unfolding eventsrc_release_ioctl
  eventsrc_release_ioctl-Keeps c s = search (keeps_rules, eventsrc_release_at-Keeps) depth 24

ReleaseOutcome-Counted :
    {κ : Kind} {max : ℕ} {s : ReleaseData} {k : Kernel} {r : Result ℕ × Kernel}
    → Counted κ k
    → Holds κ s k
    → ReleaseOutcome κ max s k r
    → Counted κ r.1
ReleaseOutcome-Counted h holder (rejected e) = h
ReleaseOutcome-Counted h holder (done slot i d e l b there r) =
    Released-Counted h there (holder slot i d e) r

-- A release by a process that has a reference keeps both kinds counted.
pub memregion_release_ioctl-Sound :
    (c : Call) (s : ReleaseData) (k : Kernel)
    → Sound k
    → Holds memregions s k
    → Sound (memregion_release_ioctl c s k).1
memregion_release_ioctl-Sound c s k h holder = record {
  regions = ReleaseOutcome-Counted h.regions holder (memregion_release_ioctl-ReleaseOutcome c s k);
  sources =
      Same-Counted ((memregion_release_ioctl-Keeps k c s).at k (Same-refl eventsrcs k)) h.sources;
}

pub eventsrc_release_ioctl-Sound :
    (c : Call) (s : ReleaseData) (k : Kernel)
    → Sound k
    → Holds eventsrcs s k
    → Sound (eventsrc_release_ioctl c s k).1
eventsrc_release_ioctl-Sound c s k h holder = record {
  sources = ReleaseOutcome-Counted h.sources holder (eventsrc_release_ioctl-ReleaseOutcome c s k);
  regions =
      Same-Counted ((eventsrc_release_ioctl-Keeps k c s).at k (Same-refl memregions k)) h.regions;
}
