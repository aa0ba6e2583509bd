-- ===== src/View/Answers.antt =====
-- What a call of cuddlk_manager_ioctl (kernel/linux/src/cuddlk_manager_linux.c) that succeeds leaves of
-- the lists of references, and what it tells the process.
use cuddl.Base.{
  ℕ, ◌≡◌, ◌∙◌, Bool, true, false, Bool-cases, inl, inr, List, ◌∷◌, [], Result, ok, err, fault, ℤ,
  pos, arith,
}
use cuddl.Act.{continue, ◌>>=◌}
use cuddl.Act.Triples.{Triple}
use cuddl.Kernel.{Kernel, M, ResourceRef, Buffer, with_lock, unlocked}
use cuddl.Refs.{remove_ref}
use cuddl.Ioctl.{dispatch, finish, then_free, manager_ioctl}
use cuddl.Ioctl.Buffers.{all_buffers, all_freed, alloc_buffers}
use cuddl.Ioctl.Commands.{Call, ClaimData, ReleaseData, Request}
use cuddl.Ioctl.Release.{memregion_release_ioctl, eventsrc_release_ioctl}
use cuddl.Ioctl.Reach.{free_buffers-Keeps, alloc_buffers-Keeps}
use cuddl.User.{Env}
use cuddl.User.Memregion.{memregion_claim_request, memregion_release_request}
use cuddl.User.Eventsrc.{eventsrc_claim_request, eventsrc_release_request}
use cuddl.View.Lists.{Lists, Leaves}
use cuddl.View.Releases.{Dropped, memregion_release_ioctl-Leaves, eventsrc_release_ioctl-Leaves}
use cuddl.View.Handed.{
  OnOk, Answered, RegionHeld, SourceHeld, memregion_claim_ioctl-Answered,
  eventsrc_claim_ioctl-Answered,
}

-- A fact that does not depend on the lock or the buffers.
pub record Steady (Q : Kernel → Type 0) : Type 0 where
  pub locks : (k : Kernel) (b : Bool) → Q k → Q (record k { locked = b })
  pub buffers : (k : Kernel) (bs : List Buffer) → Q k → Q (record k { buffers = bs })

module _ (m e : List ResourceRef) (Q : Kernel → Type 0) where
  -- What a request leaves when its command succeeds, whatever the calls outside return.
  pub record Yields (request : Request) : Type 0 where
    pub at : (c : Call) (z : ℕ) → Triple (Lists m e) (dispatch c z request) (OnOk Q)

  module _ (steady : Steady Q) where
    unlocked-OnOk :
        (r : Result ℕ) (k : Kernel) → OnOk Q r k → OnOk Q (unlocked (r, k)).0 (unlocked (r, k)).1
    unlocked-OnOk (ok n) k h = steady.locks k false h
    unlocked-OnOk (err c) k h = tt
    unlocked-OnOk fault k h = tt

    with_lock-OnOk :
        (a : M ℕ) → Triple (Lists m e) a (OnOk Q) → Triple (Lists m e) (with_lock a) (OnOk Q)
    unfolding with_lock
    with_lock-OnOk a t = record {
      at = λ k h. elim (Bool-cases k.locked) [
        | inl b ↦ rw b tt
        | inr b ↦ rw b (unlocked-OnOk _ _ (t.at (record k { locked = true }) h))
      ];
    }

    freed-OnOk :
        (r : Result ℕ) (k : Kernel) → OnOk Q r k → OnOk Q (then_free r k).0 (then_free r k).1
    freed-OnOk (ok n) k h = (free_buffers-Keeps Q steady.buffers all_freed).at k h
    freed-OnOk (err c) k h = tt
    freed-OnOk fault k h = tt

    after_alloc :
        (r : Result (Unit {0})) (a : M ℕ) (k : Kernel)
        → OnOk Q (a k).0 (a k).1
        → OnOk Q (continue r (λ u. a) k).0 (continue r (λ u. a) k).1
    after_alloc (ok u) a k h = h
    after_alloc (err c) a k h = tt
    after_alloc fault a k h = tt

    pub manager_ioctl-OnOk :
        (request : Request) (c : Call) (z : ℕ)
        → Yields request
        → Triple (Lists m e) (manager_ioctl c z request) (OnOk Q)
    unfolding manager_ioctl ◌>>=◌ finish
    manager_ioctl-OnOk request c z y = record {
      at = λ k h.
          let k1 = (alloc_buffers c.kzalloc [] all_buffers k).1 in
          let lists : Lists m e k1 =
            (alloc_buffers-Keeps (λ q. Lists m e q) (λ q bs g. g) c.kzalloc [] all_buffers).at k
              h in
          after_alloc (alloc_buffers c.kzalloc [] all_buffers k).0
            (finish (with_lock (dispatch c z request))) k1
            (freed-OnOk _ _ ((with_lock-OnOk (dispatch c z request) (y.at c z)).at k1 lists));
    }

-- The requests of the library.
module _ (m e : List ResourceRef) (env : Env) where
  pub region_claim-Yields :
      (s : ClaimData)
      → Yields m e (Answered m e (RegionHeld m e s.pid)) (memregion_claim_request env s)
  unfolding dispatch
  region_claim-Yields s = elim (Bool-cases env.xeno) [
    | inl b ↦ rw b (record { at = λ c z. memregion_claim_ioctl-Answered m e c z true s })
    | inr b ↦ rw b (record { at = λ c z. memregion_claim_ioctl-Answered m e c z false s })
  ]

  pub source_claim-Yields :
      (s : ClaimData)
      → Yields m e (Answered m e (SourceHeld m e s.pid)) (eventsrc_claim_request env s)
  unfolding dispatch
  source_claim-Yields s = elim (Bool-cases env.xeno) [
    | inl b ↦ rw b (record { at = λ c z. eventsrc_claim_ioctl-Answered m e c true s })
    | inr b ↦ rw b (record { at = λ c z. eventsrc_claim_ioctl-Answered m e c false s })
  ]

pos_same : {a b : ℕ} {i : ℤ} → i ≡ pos a → i ≡ pos b → b ≡ a
pos_same p q = ground (arith, p, q)

module _ (m e : List ResourceRef) (s : ReleaseData) (slot i : ℕ)
    (d : s.token.device_index ≡ pos slot) (r : s.token.resource_index ≡ pos i) where
  abbrev ref : ResourceRef
  ref = record { device_index = slot; resource_index = i; pid = s.pid }

  -- The reference that the token names stands at the head.
  first_gone :
      (slot' i' : ℕ)
      → s.token.device_index ≡ pos slot'
      → s.token.resource_index ≡ pos i'
      → (l : List ResourceRef) → remove_ref slot' i' s.pid (ref ∷ l) ≡ l
  unfolding remove_ref
  first_gone slot' i' d' r' l = ground (arith, pos_same d d', pos_same r r')

  region_released :
      (c : Call) (x : Result ℕ) (k : Kernel)
      → Leaves
          (ref ∷ m)
          e
          (Dropped (ref ∷ m) e c s (λ slot' i'. Lists (remove_ref slot' i' s.pid (ref ∷ m)) e))
          x
          k
      → OnOk (Lists m e) x k
  region_released c (ok n) k (slot', i', d', r', h) = (h.0 ∙ first_gone slot' i' d' r' m, h.1)
  region_released c (err w) k h = tt
  region_released c fault k h = tt

  source_released :
      (c : Call) (x : Result ℕ) (k : Kernel)
      → Leaves m
          (ref ∷ e)
          (Dropped m (ref ∷ e) c s (λ slot' i'. Lists m (remove_ref slot' i' s.pid (ref ∷ e))))
          x
          k
      → OnOk (Lists m e) x k
  source_released c (ok n) k (slot', i', d', r', h) = (h.0, h.1 ∙ first_gone slot' i' d' r' e)
  source_released c (err w) k h = tt
  source_released c fault k h = tt

  region_release_at :
      (c : Call) → Triple (Lists (ref ∷ m) e) (memregion_release_ioctl c s) (OnOk (Lists m e))
  region_release_at c = record {
    at = λ k h. region_released c _ _ ((memregion_release_ioctl-Leaves (ref ∷ m) e c s).at k h);
  }

  source_release_at :
      (c : Call) → Triple (Lists m (ref ∷ e)) (eventsrc_release_ioctl c s) (OnOk (Lists m e))
  source_release_at c = record {
    at = λ k h. source_released c _ _ ((eventsrc_release_ioctl-Leaves m (ref ∷ e) c s).at k h);
  }

  pub region_release-Yields :
      (env : Env) → Yields (ref ∷ m) e (Lists m e) (memregion_release_request env s)
  unfolding dispatch
  region_release-Yields env = elim (Bool-cases env.xeno) [
    | inl b ↦ rw b (record { at = λ c z. region_release_at c })
    | inr b ↦ rw b (record { at = λ c z. region_release_at c })
  ]

  pub source_release-Yields :
      (env : Env) → Yields m (ref ∷ e) (Lists m e) (eventsrc_release_request env s)
  unfolding dispatch
  source_release-Yields env = elim (Bool-cases env.xeno) [
    | inl b ↦ rw b (record { at = λ c z. source_release_at c })
    | inr b ↦ rw b (record { at = λ c z. source_release_at c })
  ]
