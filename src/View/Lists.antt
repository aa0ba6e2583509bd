-- ===== src/View/Lists.antt =====
-- What each command of cuddlk_manager_ioctl (kernel/linux/src/cuddlk_manager_linux.c) leaves of the
-- two lists of references, in terms of its result.
use cuddl.Base.{
  ℕ, ◌≡◌, ap, Bool, true, false, Bool-cases, inl, inr, some, List, ◌∷◌, Errno, Result, ok, err,
  fault, enomem, arith, if◌then◌else◌,
}
use cuddl.Act.Triples.{Triple, Ends, Triple-bind}
use cuddl.Kernel.{
  Kernel, M, Reply, ResourceRef, ◌>>◌, pure, raise, when, ignore, gets, load, modify,
}
use cuddl.Kernel.Keeps.{Keeps, Keeps-ignore, Keeps-pure, Keeps-gets, Keeps-when, Keeps-load}
use cuddl.Device.{Device, has_bit_0}
use cuddl.Refs.{
  memregion_claim, eventsrc_claim, memregion_decr_ref_count, eventsrc_decr_ref_count, add_mem_ref,
  add_event_ref, remove_ref,
}
use cuddl.Ioctl.Commands.{Call, ClaimData, ReleaseData, copy_to_user}
use cuddl.Ioctl.Stays.{Keeps-copy_to_user}
use cuddl.Ioctl.Claim.{
  claim_flow, ref_of, memregion_claim_at, eventsrc_claim_at, memregion_info_of, eventsrc_info_of,
}
use cuddl.Ioctl.Release.{drop_mem_ref, drop_event_ref, memregion_release_at, eventsrc_release_at}

abbrev pub Lists : List ResourceRef → List ResourceRef → Kernel → Type 0
Lists m e k = (k.mem_refs ≡ m) × (k.event_refs ≡ e)

-- After a command: `P` when it succeeds, the lists as they were otherwise.
abbrev pub Leaves :
    {A : Type 0}
    → List ResourceRef
    → List ResourceRef
    → (Kernel → Type 0)
    → Result A
    → Kernel
    → Type 0
Leaves m e P (ok a) k = P k
Leaves m e P (err c) k = Lists m e k
Leaves m e P fault k = Lists m e k

module _ (m e : List ResourceRef) where
  pub Kept :
      {A : Type 0} {a : M A} → Keeps (Lists m e) a → Triple (Lists m e) a (Leaves m e (Lists m e))
  Kept {A} {a} kept = record { at = λ k h. left (a k).0 (a k).1 (kept.at k h) }
    where
      left : (r : Result A) (k : Kernel) → Lists m e k → Leaves m e (Lists m e) r k
      left (ok x) k h = h
      left (err c) k h = h
      left fault k h = h

  pub Leaves-Ends :
      {A B : Type 0} {P Q : Kernel → Type 0} → Ends (Leaves {A = A} m e P) (Leaves {A = B} m e Q)
  Leaves-Ends = record { failed = λ c k h. h; stopped = λ k h. h }

  -- The lists that a claim leaves.
  abbrev pub AfterClaim : Bool → (Kernel → Type 0) → Kernel → Type 0
  AfterClaim true P k = P k
  AfterClaim false P k = Lists m e k

  pub told : (k : Kernel) (r : Reply) → Lists m e k → Lists m e (record k { user = some r })
  told k r h = h

  refused :
      {A : Type 0} {P : Kernel → Type 0} (c : Errno)
      → Triple (Lists m e) (raise {A = A} c) (Leaves m e P)
  unfolding raise
  refused c = record { at = λ k h. h }

  returned : {A : Type 0} (P : Kernel → Type 0) (a : A) → Triple P (pure a) (Leaves m e P)
  unfolding pure
  returned P a = record { at = λ k h. h }

  module _ (P : Kernel → Type 0) (c : Call) (take undo : ℕ → M (Unit {0}))
      (keeps_take : (p : ℕ) → Keeps (Lists m e) (take p))
      (keeps_undo : (p : ℕ) → Keeps (Lists m e) (undo p)) (reply : Device → Reply)
      (add : M (Unit {0})) (adds : Triple (Lists m e) add (Leaves m e P)) (slot : ℕ) where
    allocated :
        (p : ℕ)
        → Triple
            (Lists m e)
            (if c.ref_alloc then add else (ignore (undo p) >> raise enomem))
            (Leaves m e P)
    allocated p = elim (Bool-cases c.ref_alloc) [
      | inl a ↦ rw a adds
      | inr a ↦ rw a (
          Triple-bind (ignore (undo p)) _ (Kept (Keeps-ignore (undo p) (keeps_undo p))) Leaves-Ends
            λ u. refused enomem)
    ]

    after_add :
        (claim : Bool) (p : ℕ)
        → Triple
            (Lists m e)
            (when claim (if c.ref_alloc then add else (ignore (undo p) >> raise enomem)))
            (Leaves m e (AfterClaim claim P))
    unfolding when
    after_add true p = allocated p
    after_add false p = Kept (Keeps-pure tt)

    -- A claim changes the lists as its last step does, or not at all.
    pub claim_flow-Leaves :
        (claim : Bool)
        → Triple
            (Lists m e)
            (claim_flow c claim take undo reply add slot)
            (Leaves m e (AfterClaim claim P))
    unfolding claim_flow
    claim_flow-Leaves claim =
        Triple-bind (gets (λ k. k.devices slot)) _ (Kept (Keeps-gets (λ k. k.devices slot)))
          Leaves-Ends
          λ p.
            Triple-bind (when claim (take p)) _ (Kept (Keeps-when claim (λ b. keeps_take p)))
              Leaves-Ends
              λ u. Triple-bind (load p) _ (Kept (Keeps-load p)) Leaves-Ends λ dev.
                Triple-bind (copy_to_user c (reply dev) (ignore (undo p))) _
                  (Kept
                    (Keeps-copy_to_user told c (reply dev) (Keeps-ignore (undo p) (keeps_undo p))))
                  Leaves-Ends
                  λ v.
                    Triple-bind
                      (when claim (if c.ref_alloc then add else (ignore (undo p) >> raise enomem)))
                      _ (after_add claim p) Leaves-Ends λ w. returned (AfterClaim claim P) 0

  module _ (slot i : ℕ) where
    pub memregion_decr-Keeps : (p : ℕ) → Keeps (Lists m e) (memregion_decr_ref_count p i)
    unfolding memregion_decr_ref_count
    memregion_decr-Keeps p = record { at = λ k h. ground arith }

    pub eventsrc_decr-Keeps : (p : ℕ) → Keeps (Lists m e) (eventsrc_decr_ref_count p i)
    unfolding eventsrc_decr_ref_count
    eventsrc_decr-Keeps p = record { at = λ k h. ground arith }

    pub memregion_release_at-Leaves :
        (t : ReleaseData)
        → Triple
            (Lists m e)
            (memregion_release_at t slot i)
            (Leaves m e (Lists (remove_ref slot i t.pid m) e))
    unfolding memregion_release_at modify
    memregion_release_at-Leaves t =
        Triple-bind (gets (λ k. k.devices slot)) _ (Kept (Keeps-gets (λ k. k.devices slot)))
          Leaves-Ends
          λ p.
            Triple-bind (ignore (memregion_decr_ref_count p i)) _
              (Kept (Keeps-ignore (memregion_decr_ref_count p i) (memregion_decr-Keeps p)))
              Leaves-Ends
              λ u.
                Triple-bind (modify (drop_mem_ref slot i t.pid)) _ dropped Leaves-Ends
                  λ v. returned _ 0
      where
        dropped :
            Triple
              (Lists m e)
              (modify (drop_mem_ref slot i t.pid))
              (Leaves m e (Lists (remove_ref slot i t.pid m) e))
        dropped = record { at = λ k h. (ap (remove_ref slot i t.pid) h.0, h.1) }

    pub eventsrc_release_at-Leaves :
        (t : ReleaseData)
        → Triple
            (Lists m e)
            (eventsrc_release_at t slot i)
            (Leaves m e (Lists m (remove_ref slot i t.pid e)))
    unfolding eventsrc_release_at modify
    eventsrc_release_at-Leaves t =
        Triple-bind (gets (λ k. k.devices slot)) _ (Kept (Keeps-gets (λ k. k.devices slot)))
          Leaves-Ends
          λ p.
            Triple-bind (ignore (eventsrc_decr_ref_count p i)) _
              (Kept (Keeps-ignore (eventsrc_decr_ref_count p i) (eventsrc_decr-Keeps p)))
              Leaves-Ends
              λ u.
                Triple-bind (modify (drop_event_ref slot i t.pid)) _ dropped Leaves-Ends
                  λ v. returned _ 0
      where
        dropped :
            Triple
              (Lists m e)
              (modify (drop_event_ref slot i t.pid))
              (Leaves m e (Lists m (remove_ref slot i t.pid e)))
        dropped = record { at = λ k h. (h.0, ap (remove_ref slot i t.pid) h.1) }

  module _ (c : Call) (s : ClaimData) (slot i : ℕ) where
    -- The lists once the claim of a region, or of a source, has been added.
    abbrev pub WithRegion : Kernel → Type 0
    WithRegion = Lists (ref_of s slot i ∷ m) e

    abbrev pub WithSource : Kernel → Type 0
    WithSource = Lists m (ref_of s slot i ∷ e)

    pub memregion_claim-Keeps : (p : ℕ) (b : Bool) → Keeps (Lists m e) (memregion_claim p i b)
    unfolding memregion_claim
    memregion_claim-Keeps p b = record { at = λ k h. ground arith }

    pub eventsrc_claim-Keeps : (p : ℕ) (b : Bool) → Keeps (Lists m e) (eventsrc_claim p i b)
    unfolding eventsrc_claim
    eventsrc_claim-Keeps p b = record { at = λ k h. ground arith }

    mem_added :
        (r : ResourceRef) → Triple (Lists m e) (add_mem_ref r) (Leaves m e (Lists (r ∷ m) e))
    unfolding add_mem_ref
    mem_added r = record { at = λ k h. (ap (λ l. r ∷ l) h.0, h.1) }

    event_added :
        (r : ResourceRef) → Triple (Lists m e) (add_event_ref r) (Leaves m e (Lists m (r ∷ e)))
    unfolding add_event_ref
    event_added r = record { at = λ k h. (h.0, ap (λ l. r ∷ l) h.1) }

    pub memregion_claim_at-Leaves :
        (page_size : ℕ) (rt claim : Bool)
        → Triple
            (Lists m e)
            (memregion_claim_at c page_size rt claim s slot i)
            (Leaves m e (AfterClaim claim WithRegion))
    unfolding memregion_claim_at
    memregion_claim_at-Leaves page_size rt claim =
        claim_flow-Leaves WithRegion c _ _ (λ p. memregion_claim-Keeps p (has_bit_0 s.options))
          (memregion_decr-Keeps slot i)
          (λ dev. Reply.memregion_info (memregion_info_of page_size rt dev slot i)) _
          (mem_added (ref_of s slot i)) slot claim

    pub eventsrc_claim_at-Leaves :
        (rt claim : Bool)
        → Triple
            (Lists m e)
            (eventsrc_claim_at c rt claim s slot i)
            (Leaves m e (AfterClaim claim WithSource))
    unfolding eventsrc_claim_at
    eventsrc_claim_at-Leaves rt claim =
        claim_flow-Leaves WithSource c _ _ (λ p. eventsrc_claim-Keeps p (has_bit_0 s.options))
          (eventsrc_decr-Keeps slot i) (λ dev. Reply.eventsrc_info (eventsrc_info_of rt dev slot i))
          _ (event_added (ref_of s slot i)) slot claim
