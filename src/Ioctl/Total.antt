-- ===== src/Ioctl/Total.antt =====
-- Every call of cuddlk_manager_ioctl (kernel/linux/src/cuddlk_manager_linux.c) returns, gives its
-- buffers back and leaves the manager unlocked.
use cuddl.Base.{
  ℕ, ◌≡◌, ◌≢◌, refl, sym, ◌∙◌, ap, Bool, Bool-cases, true, false, inl, inr, List, [], ◌∷◌, ◌++◌,
  Result, ok, err, fault, enomem, enosys, arith,
}
use mathlib.Core.Path.{subst}
use cuddl.Kernel.{
  Kernel, M, Buffer, ◌>>=◌, ◌>>◌, pure, raise, modify, with_lock, unlocked, continue, bind_of_ok,
}
use cuddl.Ioctl.{dispatch, finish, then_free, manager_ioctl}
use cuddl.Ioctl.Buffers.{all_buffers, all_freed, alloc_buffers, free_buffers, without_buffer}
use cuddl.Ioctl.Commands
use cuddl.Ioctl.Commands.{Call, Request}
use cuddl.Ioctl.Returns.{Busy, Back}
use cuddl.Ioctl.Ends.{
  AllComplete, failed, constant-Back, commit_id-Back, variant-Back, memregion_claim-Back,
  eventsrc_claim-Back, memregion_release-Back, eventsrc_release-Back, memregion_count-Back,
  eventsrc_count-Back, memregion_id-Back, eventsrc_id-Back, info-Back, is_enabled-Back,
}

dispatch-Back :
    (b : List Buffer) (k : Kernel)
    → Busy b k
    → AllComplete k
    → (c : Call) (z : ℕ) (request : Request) → Back b (dispatch c z request k)
unfolding dispatch raise
dispatch-Back b k h full c z (Commands.memregion_claim_udd s) =
    memregion_claim-Back b k h full c z true true s
dispatch-Back b k h full c z (Commands.memregion_claim_uio s) =
    memregion_claim-Back b k h full c z false true s
dispatch-Back b k h full c z (Commands.get_memregion_info s) =
    memregion_claim-Back b k h full c z false false s
dispatch-Back b k h full c z (Commands.eventsrc_claim_udd s) =
    eventsrc_claim-Back b k h full c true true s
dispatch-Back b k h full c z (Commands.eventsrc_claim_uio s) =
    eventsrc_claim-Back b k h full c false true s
dispatch-Back b k h full c z (Commands.get_eventsrc_info s) =
    eventsrc_claim-Back b k h full c false false s
dispatch-Back b k h full c z (Commands.memregion_release_udd s) = memregion_release-Back b k h c s
dispatch-Back b k h full c z (Commands.memregion_release_uio s) = memregion_release-Back b k h c s
dispatch-Back b k h full c z (Commands.eventsrc_release_udd s) = eventsrc_release-Back b k h c s
dispatch-Back b k h full c z (Commands.eventsrc_release_uio s) = eventsrc_release-Back b k h c s
dispatch-Back b k h full c z (Commands.get_max_managed_devices v) = constant-Back b k h c v _
dispatch-Back b k h full c z (Commands.get_max_dev_mem_regions v) = constant-Back b k h c v _
dispatch-Back b k h full c z (Commands.get_max_dev_events v) = constant-Back b k h c v _
dispatch-Back b k h full c z (Commands.get_kernel_version_code v) = constant-Back b k h c v _
dispatch-Back b k h full c z (Commands.get_memregion_id s) = memregion_id-Back b k h full c s
dispatch-Back b k h full c z (Commands.get_memregion_ref_count s) =
    memregion_count-Back b k h full c false s
dispatch-Back b k h full c z (Commands.decrement_memregion_ref_count s) =
    memregion_count-Back b k h full c true s
dispatch-Back b k h full c z (Commands.get_eventsrc_id s) = eventsrc_id-Back b k h full c s
dispatch-Back b k h full c z (Commands.get_eventsrc_ref_count s) =
    eventsrc_count-Back b k h full c false s
dispatch-Back b k h full c z (Commands.decrement_eventsrc_ref_count s) =
    eventsrc_count-Back b k h full c true s
dispatch-Back b k h full c z Commands.janitor_register_pid = failed b k h enosys
dispatch-Back b k h full c z (Commands.get_kernel_commit_id v) = commit_id-Back b k h c v
dispatch-Back b k h full c z (Commands.get_kernel_variant v) = variant-Back b k h c v
dispatch-Back b k h full c z (Commands.get_driver_info s) = info-Back b k h full c _ s
dispatch-Back b k h full c z (Commands.get_hw_info s) = info-Back b k h full c _ s
dispatch-Back b k h full c z (Commands.eventsrc_is_enabled s) = is_enabled-Back b k h full c s
dispatch-Back b k h full c z Commands.unknown = failed b k h enosys

same_buffer : (b : Buffer) (rest : List Buffer) → without_buffer b (b ∷ rest) ≡ rest
unfolding without_buffer
same_buffer b rest = ground arith

-- Freeing the latest buffers, in their order, leaves those below.
free_buffers-back :
    (done below : List Buffer) (k : Kernel)
    → k.buffers ≡ done ++ below
    → ((free_buffers done k).0 ≡ ok tt) × ((free_buffers done k).1 ≡ record k { buffers = below })
unfolding free_buffers modify pure
free_buffers-back [] below k e = (refl, ap (λ l. record k { buffers = l }) e)
free_buffers-back (b ∷ done) below k e =
    free_buffers-back done below (record k { buffers = without_buffer b k.buffers })
      (ap (without_buffer b) e ∙ same_buffer b (done ++ below))

-- The buffers that are allocated are on top, the latest first.
stacked : List Buffer → List Buffer → List Buffer
stacked done [] = done
stacked done (b ∷ bs) = stacked (b ∷ done) bs

-- An allocation that fails has given everything back.
abbrev Allocated : List Buffer → Kernel → List Buffer → Result (Unit {0}) × Kernel → Type 0
Allocated all k below (ok u, k') = k' ≡ record k { buffers = all ++ below }
Allocated all k below (err e, k') = k' ≡ record k { buffers = below }
Allocated all k below (fault, k') = ⊥

gave_back :
    (done below : List Buffer) (k : Kernel) (all : List Buffer)
    → k.buffers ≡ done ++ below
    → Allocated all k below ((free_buffers done >> raise enomem) k)
unfolding raise
gave_back done below k all e =
    let h = free_buffers-back done below k e in
    subst (λ r. Allocated all k below r)
      (sym (bind_of_ok (free_buffers done) (λ u. raise enomem) k h.0)) h.1

alloc_buffers-Allocated :
    (f : Buffer → Bool) (done bs below : List Buffer) (k : Kernel)
    → k.buffers ≡ done ++ below
    → Allocated (stacked done bs) k below (alloc_buffers f done bs k)
unfolding alloc_buffers stacked modify pure
alloc_buffers-Allocated f done [] below k e = ap (λ l. record k { buffers = l }) e
alloc_buffers-Allocated f done (b ∷ bs) below k e = elim (Bool-cases (f b)) [
  | inl g ↦ rw g (
      alloc_buffers-Allocated f (b ∷ done) bs below (record k { buffers = b ∷ k.buffers })
        (ap (λ l. b ∷ l) e))
  | inr g ↦ rw g (gave_back done below k (stacked (b ∷ done) bs) e)
]

-- A call has returned, the manager is not locked, and the allocated buffers are `below`.
abbrev pub Returned : List Buffer → Result ℕ × Kernel → Type 0
Returned below r = (r.0 ≢ fault) × (r.1.locked ≡ false) × (r.1.buffers ≡ below)

freed :
    (below : List Buffer) (x : Result ℕ) (k : Kernel)
    → x ≢ fault
    → k.locked ≡ false
    → k.buffers ≡ all_freed ++ below
    → Returned below (x, (free_buffers all_freed k).1)
freed below x k n l e =
    let h = free_buffers-back all_freed below k e in
    (n, ap (λ q. q.locked) h.1 ∙ l, ap (λ q. q.buffers) h.1)

unlocked-Returned :
    (below : List Buffer) (r : Result ℕ × Kernel)
    → Back (all_freed ++ below) r
    → Returned below (then_free (unlocked r).0 (unlocked r).1)
unlocked-Returned below (ok n, k) h =
    freed below (ok n) (record k { locked = false }) (λ x. cc) refl h.1.1
unlocked-Returned below (err e, k) h =
    freed below (err e) (record k { locked = false }) (λ x. cc) refl h.1.1
unlocked-Returned below (fault, k) h = absurd (h.0 refl)

with_lock_free :
    {A : Type 0} (m : M A) (k : Kernel)
    → k.locked ≡ false
    → with_lock m k ≡ unlocked (m (record k { locked = true }))
unfolding with_lock
with_lock_free m k e = rw e

module _ (c : Call) (z : ℕ) (request : Request) (k : Kernel) (free : k.locked ≡ false)
    (full : AllComplete k) where
  body : M ℕ
  body = dispatch c z request

  locked_call :
      Returned k.buffers (finish (with_lock body) (record k { buffers = all_freed ++ k.buffers }))
  unfolding finish body
  locked_call =
      let k1 = record k { buffers = all_freed ++ k.buffers } in
      subst (λ r. Returned k.buffers (then_free r.0 r.1)) (sym (with_lock_free body k1 free))
        (unlocked-Returned k.buffers (body (record k1 { locked = true })) (
          dispatch-Back (all_freed ++ k.buffers) (record k1 { locked = true }) (refl, refl) full c z
            request))

  after_alloc :
      (r : Result (Unit {0}) × Kernel)
      → Allocated all_freed k k.buffers r
      → Returned k.buffers (continue r.0 (λ u. finish (with_lock body)) r.1)
  after_alloc (ok u, k1) e =
      subst (λ q. Returned k.buffers (finish (with_lock body) q)) (sym e) locked_call
  after_alloc (err x, k1) e =
      subst (λ q. Returned k.buffers (err x, q)) (sym e) ((λ y. cc), free, refl)
  after_alloc (fault, k1) e = absurd e

  -- While the manager is not locked, and every managed device has its names and a callback that
  -- returns, a call of cuddlk_manager_ioctl returns, whatever the command and the results of the calls
  -- outside; it leaves the manager unlocked, and has freed each buffer that it has allocated.
  pub manager_ioctl-Returned : Returned k.buffers (manager_ioctl c z request k)
  unfolding manager_ioctl body stacked ◌>>=◌
  manager_ioctl-Returned =
      after_alloc (alloc_buffers c.kzalloc [] all_buffers k)
        (alloc_buffers-Allocated c.kzalloc [] all_buffers k.buffers k refl)
