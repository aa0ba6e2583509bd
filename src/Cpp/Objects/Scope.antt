-- ===== src/Cpp/Objects/Scope.antt =====
-- An object of the class MemRegion as a local variable (user/include/cuddl/memregion.hpp).
use cuddl.Base.{
  ℕ, zero, suc, ◌≡◌, refl, sym, ◌∙◌, ◌⊎◌, inl, inr, Bool, true, false, Option, none, some, List,
  ◌∷◌, Result, ok, err, fault, if◌then◌else◌,
}
use mathlib.Core.Path.{subst}
use cuddl.Act.{pure, hang, gets, ignore, attempt}
use cuddl.Act.Triples.{Triple, Ends, Triple-bind, Triple-attempt, Triple-ignore}
use cuddl.Act.Zeros.{IsZero}
use cuddl.Kernel.{ResourceId}
use cuddl.User.{Env, Process, U, MappedRegion, adjust}
use cuddl.User.Descriptors.{Open, Sure, adjust-Sure}
use cuddl.User.Handles.{Handed, Holds, memregion_claim_and_map-Handed}
use cuddl.User.Returned.{GivenBack, memregion_unmap_and_release-GivenBack}
use cuddl.User.Claims.{memregion_claim_and_map-Zeros}
use cuddl.User.Memregion.{memregion_claim_and_map, memregion_unmap_and_release}
use cuddl.Cpp.Errors.{Ended, returned, threw}
use cuddl.Cpp.Scope.{scope, Closes, Made, StillOwned, OwningClass, scope-Closes}
use cuddl.Cpp.Flags.{Flags}
use cuddl.Cpp.Objects.{
  MemRegion, unmapped_region, filled, region_claimed, claim_and_map, unmap_and_release, constructed,
  new_region, delete_region,
}

module _ (maps fds : List ℕ) where
  -- The descriptor is given back, and no mapping is left but one that `munmap` could not take back.
  abbrev pub Gone : Process → Type 0
  Gone p = (p.fds ≡ fds) × ((p.mappings ≡ maps) ⊎ ((a : ℕ) × (p.mappings ≡ a ∷ maps)))

  -- What the object owns.
  abbrev pub Owned : MemRegion → Process → Type 0
  Owned m p = if m.mapped then Holds maps fds m.mem p else Gone p

  -- After the result of a claim has been looked at.
  abbrev Looked : Result (Result ℕ) → Process → Type 0
  Looked (ok r) p = Handed maps fds r p × IsZero r
  Looked (err e) p = ⊥
  Looked fault p = Unit {0}

  abbrev Read : Result ℕ → Result (Option MappedRegion) → Process → Type 0
  Read ret (ok region) p = (region ≡ p.region) × (Handed maps fds ret p × IsZero ret)
  Read ret (err e) p = ⊥
  Read ret fault p = Unit {0}

  -- After claim_and_map on an object that owns nothing.
  abbrev pub Claimed : Result (Ended (Unit {0}) × MemRegion) → Process → Type 0
  Claimed (ok (returned u, m)) p = (m.mapped ≡ true) × Holds maps fds m.mem p
  Claimed (ok (threw e, m)) p = (m.mapped ≡ false) × Open maps fds p
  Claimed (err e) p = ⊥
  Claimed fault p = Unit {0}

  Sure-Claimed : {A : Type 0} → Ends (Sure maps {A = A} fds) Claimed
  Sure-Claimed = record { failed = λ e k h. absurd h; stopped = λ k h. h }

  module _ (env : Env) (id : ResourceId) (f : Flags) where
    looked :
        Triple
          (Open maps fds)
          (attempt (
            memregion_claim_and_map env
              (some id.group)
              (some id.device)
              (some id.resource)
              id.instance_id
              f))
          Looked
    looked =
        Triple-attempt {R = λ r p. Handed maps fds r p × IsZero r} _
          (record {
            at = λ p h. (
              (memregion_claim_and_map-Handed maps fds env (some id.group) (some id.device)
                    (some id.resource) id.instance_id f).at
                  p h,
              (memregion_claim_and_map-Zeros env (some id.group) (some id.device) (some id.resource)
                    id.instance_id f).at
                  p,
            );
          })
          (λ p n h. h) (λ p e h. h) (λ p h. tt)

    claimed :
        (ret : Result ℕ) (region : Option MappedRegion)
        → Triple
            (Read ret (ok region))
            (region_claimed id ret
              (record unmapped_region { mem = filled unmapped_region.mem region }))
            Claimed
    unfolding region_claimed pure hang
    claimed (ok zero) region = record {
      at = λ p (e, ((r, s, h), z)).
          (refl, subst (λ x. Holds maps fds (filled unmapped_region.mem x) p) (sym (e ∙ s)) h);
    }
    claimed (ok (suc n)) region = record { at = λ p (e, (h, z)). absurd z }
    claimed (err c) region = record { at = λ p (e, (h, z)). (refl, h) }
    claimed fault region = record { at = λ p h. tt }

    pub claim_and_map-Claimed :
        Triple (Open maps fds) (claim_and_map env id f unmapped_region) Claimed
    unfolding claim_and_map
    claim_and_map-Claimed =
        Triple-bind (adjust (λ p. record p { region = none })) _
          (adjust-Sure maps fds _ (λ p. refl) (λ p. refl)) Sure-Claimed
          λ _.
            Triple-bind
              (attempt (
                memregion_claim_and_map env (some id.group) (some id.device) (some id.resource)
                  id.instance_id f))
              _ looked (record { failed = λ e k h. absurd h; stopped = λ k h. h })
              λ ret.
                Triple-bind {R = Read ret} (gets (λ p. p.region)) _ (seen ret)
                  (record { failed = λ e k h. absurd h; stopped = λ k h. h })
                  λ region. claimed ret region
      where
        seen : (ret : Result ℕ) → Triple (Looked (ok ret)) (gets (λ p. p.region)) (Read ret)
        seen ret = record { at = λ p h. (refl, h) }

  -- After `unmap_and_release`.
  abbrev pub Freed : Result MemRegion → Process → Type 0
  Freed (ok m) p = (m.mapped ≡ false) × Gone p
  Freed (err e) p = ⊥
  Freed fault p = Unit {0}

  module _ (env : Env) where
    given_back :
        (mem : MappedRegion)
        → Triple (Holds maps fds mem) (ignore (memregion_unmap_and_release env mem)) (Closes Gone)
    given_back mem =
        Triple-ignore {R = GivenBack maps fds mem.pa_addr} (memregion_unmap_and_release env mem)
          (memregion_unmap_and_release-GivenBack maps fds mem.pa_addr env mem refl)
          (λ p n h. (h.0, inl h.1)) (λ p e h. (h.0, perhaps p h.1)) (λ p h. tt)
      where
        perhaps :
            (p : Process)
            → (p.mappings ≡ maps) ⊎ (p.mappings ≡ mem.pa_addr ∷ maps)
            → (p.mappings ≡ maps) ⊎ ((a : ℕ) × (p.mappings ≡ a ∷ maps))
        perhaps p (inl h) = inl h
        perhaps p (inr h) = inr (mem.pa_addr, h)

    freed :
        (mem : MappedRegion) (b : Bool)
        → let m : MemRegion = record { mem = mem; mapped = b } in
          Triple (Owned m) (unmap_and_release env m) Freed
    unfolding unmap_and_release pure
    freed mem true =
        Triple-bind (ignore (memregion_unmap_and_release env mem)) _ (given_back mem)
          (record { failed = λ e k h. h; stopped = λ k h. h }) λ u. record { at = λ p h. (refl, h) }
    freed mem false = record { at = λ p h. (refl, h) }

    -- An object that owns what it should owns nothing after `unmap_and_release`.
    pub unmap_and_release-Freed : (m : MemRegion) → Triple (Owned m) (unmap_and_release env m) Freed
    unmap_and_release-Freed m = freed m.mem m.mapped

    delete_region-Closes : (m : MemRegion) → Triple (Owned m) (delete_region env m) (Closes Gone)
    unfolding delete_region pure
    delete_region-Closes m =
        Triple-bind (unmap_and_release env m) _ (unmap_and_release-Freed m)
          (record { failed = λ e k h. h; stopped = λ k h. h }) λ m'. record { at = λ p h. h.1 }

    new_region-Made :
        (id : ResourceId) (f : Flags)
        → Triple (Open maps fds) (new_region env id f) (Made (Open maps fds) Owned)
    unfolding new_region pure
    new_region-Made id f =
        Triple-bind (claim_and_map env id f unmapped_region) _ (claim_and_map-Claimed env id f)
          (record { failed = λ e k h. h; stopped = λ k h. h }) made
      where
        made :
            (r : Ended (Unit {0}) × MemRegion)
            → Triple (Claimed (ok r)) (pure (constructed r)) (Made (Open maps fds) Owned)
        made (returned u, m) = record { at = λ p (e, h). rw e h }
        made (threw e, m) = record { at = λ p h. h.1 }

    region_class : ResourceId → Flags → OwningClass MemRegion
    region_class id f = record {
      new = new_region env id f;
      delete = delete_region env;
      Before = Open maps fds;
      Owned = Owned;
      Gone = Gone;
      new-Made = new_region-Made id f;
      delete-Closes = delete_region-Closes;
      nothing_made = λ p h. (h.0, inl h.1);
    }

    -- However the system calls turn out, and whether the constructor throws, the body throws, or
    -- neither: when a scope with an object of the class MemRegion ends, whose body leaves the object
    -- with what it owns or owning nothing, the process has the descriptors from before it, and the
    -- mappings from before it but for one that could not be taken back.
    pub region_scope-Closes :
        {B : Type 0} (id : ResourceId) (f : Flags) (body : MemRegion → U (Ended B × MemRegion))
        → ((m : MemRegion) → Triple (Owned m) (body m) (StillOwned Owned))
        → Triple
            (Open maps fds)
            (scope (delete_region env) (new_region env id f) body)
            (Closes Gone)
    unfolding region_class
    region_scope-Closes id f body keeps = scope-Closes (region_class id f) body keeps
