-- ===== src/Ioctl/Claim/Flow.antt =====
-- The steps that the two CLAIM commands share, branch by branch.
use cuddl.Base.{ℕ, some, ◌≡◌, ◌≢◌, true, false, Result, ok, err, eoverflow, enomem, Errno, ne→==}
use cuddl.Device.{Device}
use cuddl.Kernel.{Kernel, M, Reply, ignore, bind_of_ok}
use cuddl.Ioctl.Commands.{Call}
use cuddl.Ioctl.Claim.{claim_flow}

module _ (c : Call) (take undo : ℕ → M (Unit {0})) (reply : Device → Reply) (add : M (Unit {0}))
    (slot : ℕ) (k : Kernel) (there : k.devices slot ≢ 0) where
  abbrev pub p : ℕ
  p = k.devices slot

  abbrev pub k1 : Kernel
  k1 = (take p k).1

  abbrev pub told : Kernel
  told = record k1 { user = some (reply (k1.device p)) }

  abbrev pub flow : Result ℕ × Kernel
  flow = claim_flow c true take undo reply add slot k

  pub flow_refused : {e : Errno} → take p k ≡ (err e, k) → flow ≡ (err e, k)
  unfolding claim_flow
  flow_refused t = rw (t, claim_flow)

  pub flow_uncopied :
      (take p k).0 ≡ ok tt
      → c.copy_out ≡ false
      → (ignore (undo p) k1).0 ≡ ok tt
      → flow ≡ (err eoverflow, (ignore (undo p) k1).1)
  unfolding claim_flow
  flow_uncopied t e u = rw (bind_of_ok (take p) _ k t, ne→== p 0 there, e, u)

  pub flow_unallocated :
      (take p k).0 ≡ ok tt
      → c.copy_out ≡ true
      → c.ref_alloc ≡ false
      → (ignore (undo p) told).0 ≡ ok tt
      → flow ≡ (err enomem, (ignore (undo p) told).1)
  unfolding claim_flow
  flow_unallocated t e a u = rw (bind_of_ok (take p) _ k t, ne→== p 0 there, e, a, u)

  pub flow_granted :
      (take p k).0 ≡ ok tt
      → c.copy_out ≡ true
      → c.ref_alloc ≡ true
      → (add told).0 ≡ ok tt
      → flow ≡ (ok 0, (add told).1)
  unfolding claim_flow
  flow_granted t e a u = rw (bind_of_ok (take p) _ k t, ne→== p 0 there, e, a, u)
