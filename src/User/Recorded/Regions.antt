-- ===== src/User/Recorded/Regions.antt =====
-- What the manager has recorded of a region while a process maps it, and after the process has unmapped
-- and released it (user/src/cuddl_linux.c).
use cuddl.Base.{ℕ, zero, suc, ◌≡◌, refl, ◌∙◌, Option, some, List, ◌∷◌, Result, ok, err, fault, ℤ}
use mathlib.Core.Path.{subst, sym}
use mathlib.Core.Option.{some-injective}
use cuddl.Act.{◌>>=◌, pure, hang, gets, ignore, attempt, on_error}
use cuddl.Act.Triples.{Triple, Triple-bind}
use cuddl.Act.Keeps.{Keeps, Keeps-bind, Keeps-lift, Keeps-ignore, Keeps-on_error, Keeps-attempt}
use cuddl.CStr.{Str}
use cuddl.Kernel.{Reply, MemregionInfo, ResourceRef}
use cuddl.User.{Env, Process, MappedRegion, adjust, sys_open, sys_close, sys_mmap, sys_munmap}
use cuddl.User.Memregion.{
  or_return, mapped_region, first_code, claim_data, release_data, memregion_claim_request,
  memregion_release_request, memregion_claim, memregion_map, memregion_release,
  memregion_release_by_token, memregion_map_or_release, memregion_in, claimed_memregion,
  memregion_claim_and_map, memregion_unmap, memregion_unmap_and_release,
}
use cuddl.User.Recorded.{
  OnZero, kept-OnOk, OnOk-OnZero, on_error-OnZero, Keeps-open, Keeps-close, Keeps-mmap,
  Keeps-munmap,
}
use cuddl.User.Recorded.Ioctls.{Calls}
use cuddl.User.Recorded.Tokens.{
  Held, Referred, Referred-Aside, Told, claim-Told, release-Lists, both-OnZero,
}
use cuddl.View.Lists.{Lists}
use cuddl.View.Handed.{Names}
use cuddl.View.Answers.{region_claim-Yields, region_release-Yields}

module _ (env : Env) (pid : ℕ) (m e : List ResourceRef) where
  abbrev mems : ℕ → ℕ → List ResourceRef
  mems s i = record { device_index = s; resource_index = i; pid = pid } ∷ m

  abbrev events : ℕ → ℕ → List ResourceRef
  events s i = e

  -- The caller has been handed a mapped region, for which the manager has one reference.
  abbrev Handed : Process → Type 0
  Handed p = (r : MappedRegion) × (p.region ≡ some r) × Referred pid mems events r.token p

  memregion_claim-Told :
      (g d n : Option Str) (i : ℤ) (o : ℕ)
      → Triple
          (Calls pid (Lists m e))
          (memregion_claim env g d n i o)
          (OnZero (Told pid mems events))
  unfolding memregion_claim
  memregion_claim-Told g d n i o =
      claim-Told pid mems events m e env
        (λ x. memregion_claim_request env (claim_data env g d n i o x))
        (region_claim-Yields m e env (claim_data env g d n i o pid))

  -- After the structure has been read.
  abbrev Read : Result MemregionInfo → Process → Type 0
  Read (ok info) p = Referred pid mems events info.token p
  Read (err c) p = Unit {0}
  Read fault p = Unit {0}

  claimed_memregion-Read : Triple (Told pid mems events) claimed_memregion Read
  unfolding claimed_memregion ◌>>=◌ gets memregion_in pure hang
  claimed_memregion-Read = record {
    at = λ p (r, u, h).
        subst (λ x. Read (memregion_in x p).0 (memregion_in x p).1) (sym u) (read r p h);
  }
    where
      read :
          (r : Reply) (p : Process)
          → ((s i : ℕ) × Names r s i × Held pid mems events s i p)
          → Read (memregion_in (some r) p).0 (memregion_in (some r) p).1
      read (Reply.memregion_info info) p (s, i, n, h) = (s, i, n.0, n.1, h)
      read (Reply.eventsrc_info info) p h = tt
      read (Reply.resource_id id) p h = tt
      read (Reply.text_info t) p h = tt

  memregion_map-Handed :
      (info : MemregionInfo)
      → Triple (Referred pid mems events info.token) (memregion_map env info) (OnZero Handed)
  unfolding memregion_map adjust pure ◌>>=◌
  memregion_map-Handed info =
      let steady = Referred-Aside pid mems events info.token in
      Triple-bind (sys_open env) _ (kept-OnOk (sys_open env) (Keeps-open steady env)) OnOk-OnZero
        λ fd.
          Triple-bind (on_error (sys_mmap env) (ignore (sys_close env fd))) _
            (kept-OnOk (on_error (sys_mmap env) (ignore (sys_close env fd))) (
              Keeps-on_error (sys_mmap env) (ignore (sys_close env fd)) (Keeps-mmap steady env)
                (Keeps-ignore (sys_close env fd) (Keeps-close steady env fd))))
            OnOk-OnZero λ a. record { at = λ p h. (mapped_region info fd a, refl, h) }

  mapped-Handed :
      (ret : ℕ)
      → Triple
          (OnZero (Told pid mems events) (ok ret))
          (or_return ret (claimed_memregion >>= λ info. memregion_map_or_release env info))
          (OnZero Handed)
  unfolding memregion_map_or_release pure
  mapped-Handed zero =
      Triple-bind claimed_memregion _ claimed_memregion-Read
        (record { failed = λ c p h. tt; stopped = λ p h. tt })
        λ info.
          on_error-OnZero (memregion_map env info) (ignore (memregion_release env info))
            (memregion_map-Handed info)
  mapped-Handed (suc n) = record { at = λ p h. tt }

  -- When claiming and mapping returns 0, the manager has one reference more, to the resource that the
  -- token of the region names.
  memregion_claim_and_map-Handed_reference :
      (g d n : Option Str) (i : ℤ) (o : ℕ)
      → Triple (Calls pid (Lists m e)) (memregion_claim_and_map env g d n i o) (OnZero Handed)
  unfolding memregion_claim_and_map
  memregion_claim_and_map-Handed_reference g d n i o =
      Triple-bind (memregion_claim env g d n i o) _ (memregion_claim-Told g d n i o)
        (record { failed = λ c p h. tt; stopped = λ p h. tt }) mapped-Handed

  module _ (r : MappedRegion) where
    Keeps-unmap : Keeps (Referred pid mems events r.token) (memregion_unmap env r)
    unfolding memregion_unmap
    Keeps-unmap =
        let steady = Referred-Aside pid mems events r.token in
        Keeps-bind (attempt (sys_munmap env r.pa_addr)) _
          (Keeps-attempt (sys_munmap env r.pa_addr) (Keeps-munmap steady env r.pa_addr))
          λ u.
            Keeps-bind (attempt (sys_close env r.fd)) _
              (Keeps-attempt (sys_close env r.fd) (Keeps-close steady env r.fd))
              λ c. Keeps-lift (first_code u c)

    release_by_token-Lists :
        Triple
          (Referred pid mems events r.token)
          (memregion_release_by_token env r.token)
          (OnZero (Calls pid (Lists m e)))
    unfolding memregion_release_by_token
    release_by_token-Lists =
        release-Lists pid mems events m e env r.token
          (λ x. memregion_release_request env (release_data r.token x))
          λ s i d t. region_release-Yields m e (release_data r.token pid) s i d t env

    -- When unmapping and releasing a region returns 0, its reference is gone.
    memregion_unmap_and_release-Lists :
        Triple
          (Referred pid mems events r.token)
          (memregion_unmap_and_release env r)
          (OnZero (Calls pid (Lists m e)))
    unfolding memregion_unmap_and_release
    memregion_unmap_and_release-Lists =
        both-OnZero (memregion_unmap env r) (memregion_release_by_token env r.token) Keeps-unmap
          release_by_token-Lists

    same_region : (p : Process) → Handed p → p.region ≡ some r → Referred pid mems events r.token p
    same_region p (r', u, h) s =
        subst (λ x. Referred pid mems events x.token p) (some-injective r' r (sym u ∙ s)) h

-- Mapping a region and unmapping it again, when both return 0, leaves the manager with the references
-- that it had.
pub map_and_release-Lists :
    (env : Env) (g d n : Option Str) (i : ℤ) (o : ℕ) (p : Process) (r : MappedRegion)
    → (memregion_claim_and_map env g d n i o p).0 ≡ ok 0
    → (memregion_claim_and_map env g d n i o p).1.region ≡ some r
    → let (result, q) =
        memregion_unmap_and_release env r (memregion_claim_and_map env g d n i o p).1 in
      OnZero (Calls p.pid (Lists p.kernel.mem_refs p.kernel.event_refs)) result q
map_and_release-Lists env g d n i o p r z s =
    let m = p.kernel.mem_refs in
    let e = p.kernel.event_refs in
    let q = (memregion_claim_and_map env g d n i o p).1 in
    (memregion_unmap_and_release-Lists env p.pid m e r).at q (
      same_region env p.pid m e r q
        (subst (λ x. OnZero (Handed env p.pid m e) x q) z
          ((memregion_claim_and_map-Handed_reference env p.pid m e g d n i o).at p
            ((refl, refl), refl)))
        s)
