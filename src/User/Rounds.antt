-- ===== src/User/Rounds.antt =====
-- Claiming a region or an event source and giving it back (user/src/cuddl_linux.c): what is left of it
-- in the process and in the manager.
use cuddl.Base.{ℕ, ◌≡◌, refl, ◌∙◌, Option, some, List, Result, ok, ℤ}
use mathlib.Core.Path.{subst, sym}
use mathlib.Core.Option.{some-injective}
use cuddl.CStr.{Str}
use cuddl.User.{Env, Process, MappedRegion, EventHandle}
use cuddl.User.Descriptors.{Left}
use cuddl.User.Handles.{Handed, Holds, memregion_claim_and_map-Handed}
use cuddl.User.Memregion.{memregion_claim_and_map, memregion_unmap_and_release}
use cuddl.User.Eventsrc.{eventsrc_claim_and_open, eventsrc_close_and_release}
use cuddl.User.Returned.{GivenBack, memregion_unmap_and_release-GivenBack}
use cuddl.User.Sources
use cuddl.User.Sources.{Opens, eventsrc_claim_and_open-Handed, eventsrc_close_and_release-Left}
use cuddl.User.Recorded.{OnZero}
use cuddl.User.Recorded.Ioctls.{Calls}
use cuddl.User.Recorded.Regions.{map_and_release-Lists}
use cuddl.User.Recorded.Sources.{open_and_release-Lists}
use cuddl.View.Lists.{Lists}

-- When the call returns 0, the process has the number from before, and the manager its lists of
-- references.
abbrev pub Released : Process → Result ℕ → Process → Type 0
Released p = OnZero (Calls p.pid (Lists p.kernel.mem_refs p.kernel.event_refs))

region_held :
    (maps fds : List ℕ) (p : Process) (r : MappedRegion)
    → Handed maps fds (ok 0) p
    → p.region ≡ some r
    → Holds maps fds r p
region_held maps fds p r (r', e, h) s =
    let same : r' ≡ r = some-injective r' r (sym e ∙ s) in subst (λ x. Holds maps fds x p) same h

-- Unmapping and releasing the region that claiming and mapping has handed out, when that has returned 0,
-- leaves the process with the descriptors that it had, and with the mappings too when no error is
-- reported; after an error the mapping is either given back or still there. When it returns 0, the
-- manager has the references that it had.
pub memregion_claim_and_map-unmap_and_release :
    (env : Env) (g d n : Option Str) (i : ℤ) (o : ℕ) (p : Process) (r : MappedRegion)
    → (memregion_claim_and_map env g d n i o p).0 ≡ ok 0
    → (memregion_claim_and_map env g d n i o p).1.region ≡ some r
    → let (result, q) =
        memregion_unmap_and_release env r (memregion_claim_and_map env g d n i o p).1 in
      GivenBack p.mappings p.fds r.pa_addr result q × Released p result q
memregion_claim_and_map-unmap_and_release env g d n i o p r e s =
    let q = (memregion_claim_and_map env g d n i o p).1 in
    (
      (memregion_unmap_and_release-GivenBack p.mappings p.fds r.pa_addr env r refl).at q (
          region_held p.mappings p.fds q r
            (subst (λ x. Handed p.mappings p.fds x q) e
              ((memregion_claim_and_map-Handed p.mappings p.fds env g d n i o).at p (refl, refl)))
            s),
      map_and_release-Lists env g d n i o p r e s,
    )

source_held :
    (maps fds : List ℕ) (p : Process) (e : EventHandle)
    → Sources.Handed maps fds (ok 0) p
    → p.source ≡ some e
    → Opens maps fds e p
source_held maps fds p e (e', s', h) s =
    let same : e' ≡ e = some-injective e' e (sym s' ∙ s) in subst (λ x. Opens maps fds x p) same h

-- Closing and releasing the event source that claiming and opening has handed out, when that has
-- returned 0, leaves the process with the descriptors and the mappings that it had, whether or not an
-- error is reported. When it returns 0, the manager has the references that it had.
pub eventsrc_claim_and_open-close_and_release :
    (env : Env) (g d n : Option Str) (i : ℤ) (o : ℕ) (p : Process) (e : EventHandle)
    → (eventsrc_claim_and_open env g d n i o p).0 ≡ ok 0
    → (eventsrc_claim_and_open env g d n i o p).1.source ≡ some e
    → let (result, q) =
        eventsrc_close_and_release env e (eventsrc_claim_and_open env g d n i o p).1 in
      Left p.mappings p.fds result q × Released p result q
eventsrc_claim_and_open-close_and_release env g d n i o p e ret s =
    let q = (eventsrc_claim_and_open env g d n i o p).1 in
    (
      (eventsrc_close_and_release-Left p.mappings p.fds env e).at q (
          source_held p.mappings p.fds q e
            (subst (λ x. Sources.Handed p.mappings p.fds x q) ret
              ((eventsrc_claim_and_open-Handed p.mappings p.fds env g d n i o).at p (refl, refl)))
            s),
      open_and_release-Lists env g d n i o p e ret s,
    )
