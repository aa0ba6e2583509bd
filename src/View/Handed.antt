-- ===== src/View/Handed.antt =====
-- A claim that cuddlk_manager_ioctl grants (kernel/linux/src/cuddlk_manager_linux.c) tells the process
-- which resource it got, and a release of that resource takes the same reference away.
use cuddl.Base.{
  ℕ, ◌≡◌, refl, ap, Bool, true, Bool-cases, inl, inr, some, List, ◌∷◌, Result, ok, err, fault,
  enomem, pos, if◌then◌else◌,
}
use cuddl.Act.Triples.{Triple, Ends, Triple-bind}
use cuddl.Kernel.{Kernel, M, Reply, ResourceRef, ◌>>◌, pure, raise, when, ignore, gets, load}
use cuddl.Kernel.Keeps.{Keeps, Keeps-gets, Keeps-when, Keeps-load}
use cuddl.Device.{Device, has_bit_0}
use cuddl.Refs.{
  memregion_claim, eventsrc_claim, memregion_decr_ref_count, eventsrc_decr_ref_count, add_mem_ref,
  add_event_ref,
}
use cuddl.Ioctl.Commands.{Call, ClaimData, copy_to_user}
use cuddl.Ioctl.Claim.{
  claim_flow, ref_of, memregion_claim_at, eventsrc_claim_at, memregion_info_of, eventsrc_info_of,
  memregion_claim_ioctl, eventsrc_claim_ioctl,
}
use cuddl.Ioctl.Claim.Cases.{memregion_claim_ioctl_cases, eventsrc_claim_ioctl_cases}
use cuddl.View.Lists.{Lists, Leaves, Kept, memregion_claim-Keeps, eventsrc_claim-Keeps}

-- What holds when an action succeeds.
abbrev pub OnOk : {S A : Type 0} → (S → Type 0) → Result A → S → Type 0
OnOk P (ok a) k = P k
OnOk P (err e) k = Unit {0}
OnOk P fault k = Unit {0}

-- The answer names the resource with this index at this slot.
abbrev pub Names : Reply → ℕ → ℕ → Type 0
Names (Reply.memregion_info info) s i =
    (info.token.device_index ≡ pos s) × (info.token.resource_index ≡ pos i)
Names (Reply.eventsrc_info info) s i =
    (info.token.device_index ≡ pos s) × (info.token.resource_index ≡ pos i)
Names (Reply.resource_id id) s i = ⊥
Names (Reply.text_info t) s i = ⊥

module _ (m e : List ResourceRef) where
  Leaves-OnOk :
      {A B : Type 0} {P Q : Kernel → Type 0} → Ends (Leaves {A = A} m e P) (OnOk {A = B} Q)
  Leaves-OnOk = record { failed = λ c k h. tt; stopped = λ k h. tt }

  OnOk-Ends : {A B : Type 0} {P Q : Kernel → Type 0} → Ends (OnOk {A = A} P) (OnOk {A = B} Q)
  OnOk-Ends = record { failed = λ c k h. tt; stopped = λ k h. tt }

  -- The lists, and what has been told.
  abbrev Told : Reply → Kernel → Type 0
  Told r k = Lists m e k × (k.user ≡ some r)

  refused :
      {A : Type 0} {P : Kernel → Type 0} (n : M (Unit {0})) (Q : Kernel → Type 0)
      → Triple P (n >> raise {A = A} enomem) (OnOk Q)
  unfolding raise
  refused n Q =
      Triple-bind {R = λ r k. Unit {0}} n _ (record { at = λ k h. tt })
        (record { failed = λ c k h. tt; stopped = λ k h. tt }) λ u. record { at = λ k h. tt }

  -- A resource is held through a reference at the head of one of the lists.
  module _ (L : ℕ → ℕ → Kernel → Type 0) where
    abbrev pub Answered : Kernel → Type 0
    Answered k = (r : Reply) × (k.user ≡ some r) × ((s i : ℕ) × Names r s i × L s i k)

  module _ (pid : ℕ) where
    abbrev pub RegionHeld : ℕ → ℕ → Kernel → Type 0
    RegionHeld s i = Lists (record { device_index = s; resource_index = i; pid = pid } ∷ m) e

    abbrev pub SourceHeld : ℕ → ℕ → Kernel → Type 0
    SourceHeld s i = Lists m (record { device_index = s; resource_index = i; pid = pid } ∷ e)

  module _ (L : ℕ → ℕ → Kernel → Type 0) (slot i : ℕ) (c : Call) (take undo : ℕ → M (Unit {0}))
      (keeps_take : (p : ℕ) → Keeps (Lists m e) (take p)) (reply : Device → Reply)
      (add : M (Unit {0}))
      (adds : (r : Reply) → Triple (Told r) add (OnOk (λ k. L slot i k × (k.user ≡ some r))))
      (names : (dev : Device) → Names (reply dev) slot i) where
    copied :
        (r : Reply) (n : M (Unit {0})) → Triple (Lists m e) (copy_to_user c r n) (OnOk (Told r))
    unfolding copy_to_user raise
    copied r n = elim (Bool-cases c.copy_out) [
      | inl b ↦ rw b (record { at = λ k h. (h, refl) })
      | inr b ↦ rw b (
          Triple-bind {R = λ r k. Unit {0}} n _ (record { at = λ k h. tt })
            (record { failed = λ c k h. tt; stopped = λ k h. tt }) λ u. record { at = λ k h. tt })
    ]

    added :
        (r : Reply) (p : ℕ)
        → Triple
            (Told r)
            (when true (if c.ref_alloc then add else (ignore (undo p) >> raise enomem)))
            (OnOk (λ k. L slot i k × (k.user ≡ some r)))
    unfolding when
    added r p = elim (Bool-cases c.ref_alloc) [
      | inl b ↦ rw b (adds r)
      | inr b ↦ rw b (refused (ignore (undo p)) _)
    ]

    last :
        (dev : Device)
        → Triple
            (λ k. L slot i k × (k.user ≡ some (reply dev)))
            (pure 0)
            (OnOk {A = ℕ} (Answered L))
    unfolding pure
    last dev = record { at = λ k (h, u). (reply dev, u, (slot, i, names dev, h)) }

    -- A claim that succeeds has told what it has added.
    claim_flow-Answered :
        Triple (Lists m e) (claim_flow c true take undo reply add slot) (OnOk (Answered L))
    unfolding claim_flow
    claim_flow-Answered =
        Triple-bind (gets (λ k. k.devices slot)) _ (Kept m e (Keeps-gets (λ k. k.devices slot)))
          Leaves-OnOk
          λ p.
            Triple-bind (when true (take p)) _ (Kept m e (Keeps-when true (λ b. keeps_take p)))
              Leaves-OnOk
              λ u. Triple-bind (load p) _ (Kept m e (Keeps-load p)) Leaves-OnOk λ dev.
                Triple-bind (copy_to_user c (reply dev) (ignore (undo p))) _
                  (copied (reply dev) (ignore (undo p))) OnOk-Ends
                  λ v.
                    Triple-bind
                      (when true (if c.ref_alloc then add else (ignore (undo p) >> raise enomem))) _
                      (added (reply dev) p) OnOk-Ends λ w. last dev

  memregion_claim_at-Answered :
      (c : Call) (z : ℕ) (rt : Bool) (s : ClaimData) (slot i : ℕ)
      → Triple
          (Lists m e)
          (memregion_claim_at c z rt true s slot i)
          (OnOk (Answered (RegionHeld s.pid)))
  unfolding memregion_claim_at add_mem_ref
  memregion_claim_at-Answered c z rt s slot i =
      claim_flow-Answered (RegionHeld s.pid) slot i c
        (λ p. memregion_claim p i (has_bit_0 s.options)) (λ p. memregion_decr_ref_count p i)
        (λ p. memregion_claim-Keeps m e c s slot i p (has_bit_0 s.options))
        (λ dev. Reply.memregion_info (memregion_info_of z rt dev slot i))
        (add_mem_ref (ref_of s slot i))
        (λ r. record { at = λ k h. ((ap (λ l. ref_of s slot i ∷ l) h.0.0, h.0.1), h.1) })
        (names z rt slot i)
    where
      names :
          (z : ℕ) (rt : Bool) (slot i : ℕ) (dev : Device)
          → Names (Reply.memregion_info (memregion_info_of z rt dev slot i)) slot i
      names z rt slot i dev = unfold memregion_info_of in (refl, refl)

  eventsrc_claim_at-Answered :
      (c : Call) (rt : Bool) (s : ClaimData) (slot i : ℕ)
      → Triple
          (Lists m e)
          (eventsrc_claim_at c rt true s slot i)
          (OnOk (Answered (SourceHeld s.pid)))
  unfolding eventsrc_claim_at add_event_ref
  eventsrc_claim_at-Answered c rt s slot i =
      claim_flow-Answered (SourceHeld s.pid) slot i c
        (λ p. eventsrc_claim p i (has_bit_0 s.options)) (λ p. eventsrc_decr_ref_count p i)
        (λ p. eventsrc_claim-Keeps m e c s slot i p (has_bit_0 s.options))
        (λ dev. Reply.eventsrc_info (eventsrc_info_of rt dev slot i))
        (add_event_ref (ref_of s slot i))
        (λ r. record { at = λ k h. ((h.0.0, ap (λ l. ref_of s slot i ∷ l) h.0.1), h.1) })
        (names rt slot i)
    where
      names :
          (rt : Bool) (slot i : ℕ) (dev : Device)
          → Names (Reply.eventsrc_info (eventsrc_info_of rt dev slot i)) slot i
      names rt slot i dev = unfold eventsrc_info_of in (refl, refl)

  pub memregion_claim_ioctl-Answered :
      (c : Call) (z : ℕ) (rt : Bool) (s : ClaimData)
      → Triple
          (Lists m e)
          (memregion_claim_ioctl c z rt true s)
          (OnOk (Answered (RegionHeld s.pid)))
  memregion_claim_ioctl-Answered c z rt s = record {
    at = λ k h.
        memregion_claim_ioctl_cases (λ r. OnOk (Answered (RegionHeld s.pid)) r.0 r.1) k (λ x. tt)
          (λ q i x. tt) c z rt true s
          λ slot i b l there. (memregion_claim_at-Answered c z rt s slot i).at k h;
  }

  pub eventsrc_claim_ioctl-Answered :
      (c : Call) (rt : Bool) (s : ClaimData)
      → Triple (Lists m e) (eventsrc_claim_ioctl c rt true s) (OnOk (Answered (SourceHeld s.pid)))
  eventsrc_claim_ioctl-Answered c rt s = record {
    at = λ k h.
        eventsrc_claim_ioctl_cases (λ r. OnOk (Answered (SourceHeld s.pid)) r.0 r.1) k (λ x. tt)
          (λ q i x. tt) c rt true s
          λ slot i b l there. (eventsrc_claim_at-Answered c rt s slot i).at k h;
  }
