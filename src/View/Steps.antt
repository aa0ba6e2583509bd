-- ===== src/View/Steps.antt =====
-- Each command of cuddlk_manager_ioctl (kernel/linux/src/cuddlk_manager_linux.c) as a change of the
-- ledger.
use cuddl.Base.{ℕ, ◌<◌, ◌≡◌, ap, refl, ◌∙◌, Bool, true, List, ◌∷◌, Result, ok, err, fault, pos}
use cuddl.Kernel.{Kernel, M, Token, ResourceRef}
use cuddl.Kernel.Keeps.{Keeps}
use cuddl.Ioctl.Commands
use cuddl.Ioctl.Commands.{Call, ClaimData, Request}
use cuddl.Ioctl.Claim.{ref_of, memregion_claim_ioctl, eventsrc_claim_ioctl}
use cuddl.Ioctl.Claim.Cases.{memregion_claim_ioctl_cases, eventsrc_claim_ioctl_cases}
use cuddl.View.Lists.{
  Lists, Leaves, Kept, WithRegion, WithSource, memregion_claim_at-Leaves, eventsrc_claim_at-Leaves,
}
use cuddl.View.Ledger.{
  Ledger, Side, region, source, Equal, one_more, one_less, ledger, view, region_added, source_added,
}

-- What a request is about, when it succeeds: a question, a claim by a process, or a release of a
-- token by a process.
pub data Deed : Type 0 where
  asks : Deed
  claims : Side → ℕ → Deed
  releases : Side → Token → ℕ → Deed

abbrev pub deed : Request → Deed
deed (Commands.memregion_claim_udd s) = claims region s.pid
deed (Commands.memregion_claim_uio s) = claims region s.pid
deed (Commands.eventsrc_claim_udd s) = claims source s.pid
deed (Commands.eventsrc_claim_uio s) = claims source s.pid
deed (Commands.memregion_release_udd s) = releases region s.token s.pid
deed (Commands.memregion_release_uio s) = releases region s.token s.pid
deed (Commands.eventsrc_release_udd s) = releases source s.token s.pid
deed (Commands.eventsrc_release_uio s) = releases source s.token s.pid
deed _ = asks

-- A deed that has succeeded, in the ledger.
abbrev pub Done : Deed → Ledger → Ledger → Type 0
Done asks l l' = Equal l l'
Done (claims t p) l l' = (s i : ℕ) × (s < 256) × Equal (one_more t s i p l) l'
Done (releases t token p) l l' =
    (s i : ℕ) × (token.device_index ≡ pos s)
    × (token.resource_index ≡ pos i)
    × Equal (one_less t s i p l) l'

-- What a result says of the ledger: an error code, or a fault, leaves it as it was.
abbrev pub Accounted : Deed → Ledger → Result ℕ → Ledger → Type 0
Accounted d l (ok n) l' = Done d l l'
Accounted d l (err e) l' = Equal l l'
Accounted d l fault l' = Equal l l'

abbrev pub Shows : Ledger → Kernel → Type 0
Shows l k = Equal l (view k)

pub shown :
    (l : Ledger) (m e : List ResourceRef) (k : Kernel)
    → Equal l (ledger m e)
    → Lists m e k
    → Shows l k
shown l m e k eq h region s i p = ap (λ x. ledger x e region s i p) h.0 ∙ eq region s i p
shown l m e k eq h source s i p = ap (λ x. ledger m x source s i p) h.1 ∙ eq source s i p

pub same : (m e : List ResourceRef) → Equal (ledger m e) (ledger m e)
same m e t s i p = refl

module _ (k0 : Kernel) where
  abbrev m0 : List ResourceRef
  m0 = k0.mem_refs

  abbrev e0 : List ResourceRef
  e0 = k0.event_refs

  pub accounted :
      (d : Deed) (P : Kernel → Type 0)
      → ((k : Kernel) → P k → Done d (view k0) (view k))
      → (r : Result ℕ) (k : Kernel) → Leaves m0 e0 P r k
      → Accounted d (view k0) r (view k)
  accounted d P done (ok n) k h = done k h
  accounted d P done (err c) k h = shown (view k0) m0 e0 k (same m0 e0) h
  accounted d P done fault k h = shown (view k0) m0 e0 k (same m0 e0) h

  pub asked : {a : M ℕ} → Keeps (Lists m0 e0) a → Accounted asks (view k0) (a k0).0 (view (a k0).1)
  asked {a} kept =
      accounted asks (Lists m0 e0) (λ k h. shown (view k0) m0 e0 k (same m0 e0) h) (a k0).0 (a k0).1
        ((Kept m0 e0 kept).at k0 (refl, refl))

  module _ (c : Call) (s : ClaimData) where
    pub memregion_claim-Accounted :
        (z : ℕ) (rt : Bool)
        → let (r, k) = memregion_claim_ioctl c z rt true s k0 in
          Accounted (claims region s.pid) (view k0) r (view k)
    memregion_claim-Accounted z rt =
        memregion_claim_ioctl_cases (λ r. Accounted (claims region s.pid) (view k0) r.0 (view r.1))
          k0 (λ e. same m0 e0) (λ q i x. same m0 e0) c z rt true s
          λ slot i b l there.
            accounted (claims region s.pid) (WithRegion m0 e0 c s slot i)
              (λ k h. (
                slot,
                i,
                b,
                shown _ (ref_of s slot i ∷ m0) e0 k (region_added slot i s.pid m0 e0) h,
              ))
              _ _ ((memregion_claim_at-Leaves m0 e0 c s slot i z rt true).at k0 (refl, refl))

    pub eventsrc_claim-Accounted :
        (rt : Bool)
        → let (r, k) = eventsrc_claim_ioctl c rt true s k0 in
          Accounted (claims source s.pid) (view k0) r (view k)
    eventsrc_claim-Accounted rt =
        eventsrc_claim_ioctl_cases (λ r. Accounted (claims source s.pid) (view k0) r.0 (view r.1))
          k0 (λ e. same m0 e0) (λ q i x. same m0 e0) c rt true s
          λ slot i b l there.
            accounted (claims source s.pid) (WithSource m0 e0 c s slot i)
              (λ k h. (
                slot,
                i,
                b,
                shown _ m0 (ref_of s slot i ∷ e0) k (source_added slot i s.pid m0 e0) h,
              ))
              _ _ ((eventsrc_claim_at-Leaves m0 e0 c s slot i rt true).at k0 (refl, refl))
