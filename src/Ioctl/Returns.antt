-- ===== src/Ioctl/Returns.antt =====
-- The commands of cuddlk_manager_ioctl (kernel/linux/src/cuddlk_manager_linux.c) return.
use cuddl.Base.{
  ℕ, ◌≡◌, ◌≢◌, Bool, Bool-cases, true, inl, inr, List, Result, fault, enomem, ltb, arith,
  if◌then◌else◌,
}
use cuddl.Device.{Device, has_bit_0}
use cuddl.Kernel.{
  Kernel, M, Buffer, Reply, ResourceRef, ◌>>=◌, ◌>>◌, pure, raise, when, ignore, load, modify,
}
use cuddl.Kernel.Runs.{Runs, Runs-pure, Runs-raise, Runs-when, Runs-ignore, Runs-bind, Runs-load}
use cuddl.Refs.{
  memregion_claim, eventsrc_claim, memregion_decr_ref_count, eventsrc_decr_ref_count, add_mem_ref,
  add_event_ref,
}
use cuddl.Ioctl.Commands.{Call, ClaimData, ReleaseData, copy_to_user, int_result}
use cuddl.Ioctl.Claim.{
  claim_flow, ref_of, memregion_info_of, eventsrc_info_of, memregion_claim_at, eventsrc_claim_at,
}
use cuddl.Ioctl.Release.{memregion_release_at, eventsrc_release_at, drop_mem_ref, drop_event_ref}

-- The lock is held, and these buffers are allocated.
abbrev pub Busy : List Buffer → Kernel → Type 0
Busy b k = (k.locked ≡ true) × (k.buffers ≡ b)

-- A command has returned, with the lock and the buffers as they were.
abbrev pub Back : List Buffer → Result ℕ × Kernel → Type 0
Back b r = (r.0 ≢ fault) × Busy b r.1

pub int_result-ne-fault : (n : ℕ) → int_result n ≢ fault
int_result-ne-fault n = elim (Bool-cases (ltb n 2147483648)) [
  | inl e ↦ rw e (λ h. cc)
  | inr e ↦ rw e (λ h. cc)
]

module _ (b : List Buffer) where
  pub Runs-copy_to_user :
      (c : Call) (r : Reply) (undo : M (Unit {0}))
      → Runs (Busy b) undo
      → Runs (Busy b) (copy_to_user c r undo)
  unfolding copy_to_user
  Runs-copy_to_user c r undo ru = elim (Bool-cases c.copy_out) [
    | inl e ↦ rw e (record { at = λ k h. ((λ x. cc), h) })
    | inr e ↦ rw e (Runs-bind undo _ ru (λ u. Runs-raise _))
  ]

  memregion_claim-Runs : (p i : ℕ) (h : Bool) → p ≢ 0 → Runs (Busy b) (memregion_claim p i h)
  unfolding memregion_claim
  memregion_claim-Runs p i h n = record { at = λ k g. ground arith }

  eventsrc_claim-Runs : (p i : ℕ) (h : Bool) → p ≢ 0 → Runs (Busy b) (eventsrc_claim p i h)
  unfolding eventsrc_claim
  eventsrc_claim-Runs p i h n = record { at = λ k g. ground arith }

  pub memregion_decr-Runs : (p i : ℕ) → p ≢ 0 → Runs (Busy b) (memregion_decr_ref_count p i)
  unfolding memregion_decr_ref_count
  memregion_decr-Runs p i n = record { at = λ k g. ground arith }

  pub eventsrc_decr-Runs : (p i : ℕ) → p ≢ 0 → Runs (Busy b) (eventsrc_decr_ref_count p i)
  unfolding eventsrc_decr_ref_count
  eventsrc_decr-Runs p i n = record { at = λ k g. ground arith }

  module _ (c : Call) (claim : Bool) (take undo : ℕ → M (Unit {0})) (reply : Device → Reply)
      (add : M (Unit {0})) (slot : ℕ) where
    -- From the claim on, once the device is known.
    rest : ℕ → M ℕ
    rest p =
        when claim (take p)
        >> (load p >>= λ dev.
            copy_to_user c (reply dev) (ignore (undo p))
            >> (when claim (if c.ref_alloc then add else (ignore (undo p) >> raise enomem))
                >> pure 0))

    module _ (p : ℕ) (there : p ≢ 0) (rt : Runs (Busy b) (take p)) (ru : Runs (Busy b) (undo p))
        (ra : Runs (Busy b) add) where
      added-Runs : Runs (Busy b) (if c.ref_alloc then add else (ignore (undo p) >> raise enomem))
      added-Runs = elim (Bool-cases c.ref_alloc) [
        | inl e ↦ rw e ra
        | inr e ↦
            rw e (Runs-bind (ignore (undo p)) _ (Runs-ignore (undo p) ru) (λ u. Runs-raise enomem))
      ]

      rest-Runs : Runs (Busy b) (rest p)
      unfolding rest
      rest-Runs = Runs-bind (when claim (take p)) _ (Runs-when claim (take p) (λ e. rt)) λ u.
          Runs-bind (load p) _ (Runs-load p there) λ dev.
            Runs-bind (copy_to_user c (reply dev) (ignore (undo p))) _
              (Runs-copy_to_user c (reply dev) (ignore (undo p)) (Runs-ignore (undo p) ru))
              λ v.
                Runs-bind
                  (when claim (if c.ref_alloc then add else (ignore (undo p) >> raise enomem))) _
                  (Runs-when claim _ (λ e. added-Runs)) λ w. Runs-pure 0

    claim_flow-Back :
        (k : Kernel)
        → let p = k.devices slot in
          p ≢ 0
          → Runs (Busy b) (take p)
          → Runs (Busy b) (undo p)
          → Runs (Busy b) add
          → Busy b k
          → Back b (claim_flow c claim take undo reply add slot k)
    unfolding claim_flow rest
    claim_flow-Back k there rt ru ra h = (rest-Runs (k.devices slot) there rt ru ra).at k h

  Runs-add_mem_ref : (r : ResourceRef) → Runs (Busy b) (add_mem_ref r)
  unfolding add_mem_ref
  Runs-add_mem_ref r = record { at = λ k h. ((λ x. cc), h) }

  Runs-add_event_ref : (r : ResourceRef) → Runs (Busy b) (add_event_ref r)
  unfolding add_event_ref
  Runs-add_event_ref r = record { at = λ k h. ((λ x. cc), h) }

  module _ (k : Kernel) (slot i : ℕ) (there : k.devices slot ≢ 0) (h : Busy b k) where
    pub memregion_claim_at-Back :
        (c : Call) (z : ℕ) (rt claim : Bool) (s : ClaimData)
        → Back b (memregion_claim_at c z rt claim s slot i k)
    unfolding memregion_claim_at
    memregion_claim_at-Back c z rt claim s =
        claim_flow-Back c claim (λ p. memregion_claim p i (has_bit_0 s.options))
          (λ p. memregion_decr_ref_count p i)
          (λ dev. Reply.memregion_info (memregion_info_of z rt dev slot i))
          (add_mem_ref (ref_of s slot i)) slot k there
          (memregion_claim-Runs (k.devices slot) i (has_bit_0 s.options) there)
          (memregion_decr-Runs (k.devices slot) i there) (Runs-add_mem_ref (ref_of s slot i)) h

    pub eventsrc_claim_at-Back :
        (c : Call) (rt claim : Bool) (s : ClaimData)
        → Back b (eventsrc_claim_at c rt claim s slot i k)
    unfolding eventsrc_claim_at
    eventsrc_claim_at-Back c rt claim s =
        claim_flow-Back c claim (λ p. eventsrc_claim p i (has_bit_0 s.options))
          (λ p. eventsrc_decr_ref_count p i)
          (λ dev. Reply.eventsrc_info (eventsrc_info_of rt dev slot i))
          (add_event_ref (ref_of s slot i)) slot k there
          (eventsrc_claim-Runs (k.devices slot) i (has_bit_0 s.options) there)
          (eventsrc_decr-Runs (k.devices slot) i there) (Runs-add_event_ref (ref_of s slot i)) h

    pub memregion_release_at-Back : (s : ReleaseData) → Back b (memregion_release_at s slot i k)
    unfolding memregion_release_at modify
    memregion_release_at-Back s =
        (Runs-bind (ignore (memregion_decr_ref_count (k.devices slot) i)) _
            (Runs-ignore (memregion_decr_ref_count (k.devices slot) i)
              (memregion_decr-Runs (k.devices slot) i there))
            (λ u.
              Runs-bind (modify (drop_mem_ref slot i s.pid)) _
                (record { at = λ q g. ((λ x. cc), g) }) (λ v. Runs-pure 0))).at
          k h

    pub eventsrc_release_at-Back : (s : ReleaseData) → Back b (eventsrc_release_at s slot i k)
    unfolding eventsrc_release_at modify
    eventsrc_release_at-Back s =
        (Runs-bind (ignore (eventsrc_decr_ref_count (k.devices slot) i)) _
            (Runs-ignore (eventsrc_decr_ref_count (k.devices slot) i)
              (eventsrc_decr-Runs (k.devices slot) i there))
            (λ u.
              Runs-bind (modify (drop_event_ref slot i s.pid)) _
                (record { at = λ q g. ((λ x. cc), g) }) (λ v. Runs-pure 0))).at
          k h
