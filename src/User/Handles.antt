-- ===== src/User/Handles.antt =====
-- The calls of the library that hand a mapped region to their caller, and those that take it back.
use cuddl.Base.{
  ℕ, zero, suc, ◌+◌, ap, ◌≡◌, refl, Option, some, List, ◌∷◌, Result, ok, err, fault, ℤ,
}
use cuddl.Act.{pure, continue, ◌>>=◌, ◌>>◌, ignore, on_error}
use cuddl.Act.Triples.{Triple, Ends, Triple-bind, Triple-on_error}
use cuddl.CStr.{Str}
use cuddl.Kernel.{MemregionInfo}
use cuddl.User.{Env, Process, MappedRegion, with_mapping, adjust, sys_open, sys_close, sys_mmap}
use cuddl.User.Descriptors.{Open, Left, Sure, ignored-Sure, closed-Sure, sys_open-Opened}
use cuddl.User.Tokens.{copied-Left, bare-Left, claimed_memregion-Left}
use cuddl.User.Memregion.{
  or_return, mapped_region, claim_data, release_data, memregion_claim_request,
  memregion_release_request, memregion_claim, memregion_map, memregion_release,
  memregion_release_by_token, memregion_map_or_release, claimed_memregion, memregion_claim_and_map,
}

module _ (maps fds : List ℕ) where
  -- The caller has been handed the region.
  abbrev pub Holds : MappedRegion → Process → Type 0
  Holds r p = (p.fds ≡ r.fd ∷ fds) × (p.mappings ≡ r.pa_addr ∷ maps)

  -- After a call that hands out a region when it returns 0, and leaves nothing open or mapped else.
  abbrev pub Handed : Result ℕ → Process → Type 0
  Handed (ok zero) p = (r : MappedRegion) × (p.region ≡ some r) × Holds r p
  Handed (ok (suc n)) p = Open maps fds p
  Handed (err e) p = Open maps fds p
  Handed fault p = Unit {0}

  Left-Handed-Ends : {A : Type 0} → Ends (Left maps {A = A} fds) Handed
  Left-Handed-Ends = record { failed = λ e k h. h; stopped = λ k h. h }

  -- After `mmap` on a descriptor.
  abbrev Mapped : ℕ → Result ℕ → Process → Type 0
  Mapped fd (ok a) p = Open (a ∷ maps) (fd ∷ fds) p
  Mapped fd (err e) p = Open maps (fd ∷ fds) p
  Mapped fd fault p = Unit {0}

  module _ (env : Env) (fd : ℕ) where
    mapped :
        (r : Result ℕ) (p : Process)
        → Open maps (fd ∷ fds) p
        → let (r', p') = continue r (λ a. adjust (with_mapping a) >> pure a) p in Mapped fd r' p'
    unfolding ◌>>=◌ adjust pure
    mapped (ok a) p h = (h.0, ap (λ l. a ∷ l) h.1)
    mapped (err e) p h = h
    mapped fault p h = tt

    sys_mmap-Mapped : Triple (Open maps (fd ∷ fds)) (sys_mmap env) (Mapped fd)
    unfolding sys_mmap
    sys_mmap-Mapped = record {
      at = λ p h. mapped (env.script p.clock).maps (record p { clock = p.clock + 1 }) h;
    }

    -- The same after the clean-up, when there is no mapping.
    abbrev Kept : Result ℕ → Process → Type 0
    Kept (ok a) p = Open (a ∷ maps) (fd ∷ fds) p
    Kept (err e) p = Open maps fds p
    Kept fault p = Unit {0}

    mmap_or_close :
        Triple (Open maps (fd ∷ fds)) (on_error (sys_mmap env) (ignore (sys_close env fd))) Kept
    mmap_or_close =
        Triple-on_error (sys_mmap env) (ignore (sys_close env fd)) sys_mmap-Mapped (record {
          C = Sure maps fds;
          done = λ k a h. h;
          stopped = λ k h. h;
          cleanup = λ e. closed-Sure maps env fds fd;
          cleaned_ok = λ e k h. h;
          cleaned_err = λ e d k h. absurd h;
          cleaned_fault = λ k h. h;
        })

  pub memregion_map-Handed :
      (env : Env) (info : MemregionInfo) → Triple (Open maps fds) (memregion_map env info) Handed
  unfolding memregion_map adjust pure ◌>>=◌
  memregion_map-Handed env info =
      Triple-bind (sys_open env) _ (sys_open-Opened maps env fds)
        (record { failed = λ e k h. h; stopped = λ k h. h })
        λ fd.
          Triple-bind (on_error (sys_mmap env) (ignore (sys_close env fd))) _ (mmap_or_close env fd)
            (record { failed = λ e k h. h; stopped = λ k h. h })
            λ a. record { at = λ p h. (mapped_region info fd a, refl, h) }

  memregion_map_or_release-Handed :
      (env : Env) (info : MemregionInfo)
      → Triple (Open maps fds) (memregion_map_or_release env info) Handed
  unfolding memregion_map_or_release memregion_release memregion_release_by_token
  memregion_map_or_release-Handed env info =
      Triple-on_error (memregion_map env info) (ignore (memregion_release env info))
        (memregion_map-Handed env info)
        (record {
          C = Sure maps fds;
          done = λ k a h. h;
          stopped = λ k h. h;
          cleanup = λ e. ignored-Sure maps fds (memregion_release env info) (
              bare-Left env maps fds
                (λ pid. memregion_release_request env (release_data info.token pid)));
          cleaned_ok = λ e k h. h;
          cleaned_err = λ e d k h. absurd h;
          cleaned_fault = λ k h. h;
        })

  module _ (env : Env) where
    claimed-Handed :
        (ret : ℕ)
        → Triple
            (Open maps fds)
            (or_return ret (claimed_memregion >>= λ info. memregion_map_or_release env info))
            Handed
    unfolding pure
    claimed-Handed zero =
        Triple-bind claimed_memregion _ (claimed_memregion-Left env maps fds) Left-Handed-Ends
          λ info. memregion_map_or_release-Handed env info
    claimed-Handed (suc n) = record { at = λ p h. h }

    -- However its system calls turn out: when claiming and mapping returns 0, one descriptor and one
    -- mapping are added, those of the region that is handed out; when it returns anything else, the
    -- descriptors and the mappings are those from before.
    pub memregion_claim_and_map-Handed :
        (g d r : Option Str) (i : ℤ) (o : ℕ)
        → Triple (Open maps fds) (memregion_claim_and_map env g d r i o) Handed
    unfolding memregion_claim_and_map memregion_claim
    memregion_claim_and_map-Handed g d r i o =
        Triple-bind (memregion_claim env g d r i o) _
          (copied-Left env maps fds
            (λ pid. memregion_claim_request env (claim_data env g d r i o pid)))
          Left-Handed-Ends claimed-Handed
