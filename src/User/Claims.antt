-- ===== src/User/Claims.antt =====
-- The claims of the library return 0 or an error code, since those of the kernel module do.
use cuddl.Base.{
  ℕ, zero, suc, enomem, [], Bool, Bool-cases, inl, inr, true, false, Option, none, some, Result, ok,
  err, fault, ℤ, if◌then◌else◌,
}
use cuddl.Act.{◌>>=◌, ◌>>◌, when, raise, lift, gets, ignore, caught, on_error}
use cuddl.Act.Zeros.{
  IsZero, Yields, zero_yielded, Zeros, Zeros-pure, Zeros-raise, Zeros-hang, Zeros-bind,
  Zeros-behind, Zeros-on_error,
}
use cuddl.CStr.{Str}
use cuddl.Kernel.{Kernel, M, Reply, load, with_lock, unlocked, MemregionInfo, EventsrcInfo}
use cuddl.Refs
use cuddl.Refs.{memregion_decr_ref_count, eventsrc_decr_ref_count, add_mem_ref, add_event_ref}
use cuddl.Device.{has_bit_0, Device, device_find_memregion_slot, device_find_eventsrc_slot}
use cuddl.Ioctl.{manager_ioctl, dispatch, finish, then_free}
use cuddl.Ioctl.Buffers.{alloc_buffers, all_buffers}
use cuddl.Ioctl.Commands.{Call, ClaimData, Request, receive, copy_to_user}
use cuddl.Ioctl.Claim.{
  claim_flow, memregion_claim_at, eventsrc_claim_at, memregion_claim_ioctl, eventsrc_claim_ioctl,
  id_query, ref_of, memregion_info_of, eventsrc_info_of,
}
use cuddl.Manager.{find_device_slot_matching, memregion, eventsrc}
use cuddl.User.{Env, U, Process, adjust, sys_open, sys_ioctl, sys_close, sys_mmap}
use cuddl.User.Calls.{after_data, data_call, deliver}
use cuddl.User.Memregion.{
  or_return, mapped_region, claim_data, memregion_claim_request, memregion_claim, memregion_map,
  memregion_release, memregion_map_or_release, claimed_memregion, memregion_claim_and_map,
}
use cuddl.User.Eventsrc.{
  eventsrc_claim_request, eventsrc_claim, opened_source, eventsrc_disable, eventsrc_try_wait,
  eventsrc_open, eventsrc_release, eventsrc_open_or_release, claimed_eventsrc,
  eventsrc_claim_and_open,
}

claim_flow-Zeros :
    (c : Call) (claim : Bool) (take undo : ℕ → M (Unit {0})) (reply : Device → Reply)
    (add : M (Unit {0})) (slot : ℕ)
    → Zeros (claim_flow c claim take undo reply add slot)
unfolding claim_flow
claim_flow-Zeros c claim take undo reply add slot = Zeros-bind (gets (λ k. k.devices slot)) _ λ p.
    Zeros-bind (when claim (take p)) _ λ u. Zeros-bind (load p) _ λ dev.
      Zeros-bind (copy_to_user c (reply dev) (ignore (undo p))) _ λ v.
        Zeros-bind (when claim (if c.ref_alloc then add else (ignore (undo p) >> raise enomem))) _
          λ w. Zeros-pure

memregion_claim_at-Zeros :
    (c : Call) (z : ℕ) (rt claim : Bool) (s : ClaimData) (slot i : ℕ)
    → Zeros (memregion_claim_at c z rt claim s slot i)
unfolding memregion_claim_at
memregion_claim_at-Zeros c z rt claim s slot i =
    claim_flow-Zeros c claim (λ p. Refs.memregion_claim p i (has_bit_0 s.options))
      (λ p. memregion_decr_ref_count p i)
      (λ dev. Reply.memregion_info (memregion_info_of z rt dev slot i))
      (add_mem_ref (ref_of s slot i)) slot

eventsrc_claim_at-Zeros :
    (c : Call) (rt claim : Bool) (s : ClaimData) (slot i : ℕ)
    → Zeros (eventsrc_claim_at c rt claim s slot i)
unfolding eventsrc_claim_at
eventsrc_claim_at-Zeros c rt claim s slot i =
    claim_flow-Zeros c claim (λ p. Refs.eventsrc_claim p i (has_bit_0 s.options))
      (λ p. eventsrc_decr_ref_count p i)
      (λ dev. Reply.eventsrc_info (eventsrc_info_of rt dev slot i))
      (add_event_ref (ref_of s slot i)) slot

memregion_claim_ioctl-Zeros :
    (c : Call) (z : ℕ) (rt claim : Bool) (s : ClaimData)
    → Zeros (memregion_claim_ioctl c z rt claim s)
unfolding memregion_claim_ioctl
memregion_claim_ioctl-Zeros c z rt claim s = Zeros-bind (receive c s.version_code) _ λ u.
    Zeros-bind (gets (λ k. find_device_slot_matching k (id_query s.id memregion) 0)) _ λ found.
      Zeros-bind (lift found) _ λ slot. Zeros-bind (gets (λ k. k.devices slot)) _ λ p.
        Zeros-bind (load p) _ λ dev.
          Zeros-bind (lift (device_find_memregion_slot dev (some s.id.resource))) _
            λ i. memregion_claim_at-Zeros c z rt claim s slot i

eventsrc_claim_ioctl-Zeros :
    (c : Call) (rt claim : Bool) (s : ClaimData) → Zeros (eventsrc_claim_ioctl c rt claim s)
unfolding eventsrc_claim_ioctl
eventsrc_claim_ioctl-Zeros c rt claim s = Zeros-bind (receive c s.version_code) _ λ u.
    Zeros-bind (gets (λ k. find_device_slot_matching k (id_query s.id eventsrc) 0)) _ λ found.
      Zeros-bind (lift found) _ λ slot. Zeros-bind (gets (λ k. k.devices slot)) _ λ p.
        Zeros-bind (load p) _ λ dev.
          Zeros-bind (lift (device_find_eventsrc_slot dev (some s.id.resource))) _
            λ i. eventsrc_claim_at-Zeros c rt claim s slot i

-- A command under the lock and the freeing of its buffers return what the command returns.
unlocked-zero : (r : Result ℕ × Kernel) → IsZero r.0 → IsZero (unlocked r).0
unlocked-zero (ok n, k) h = h
unlocked-zero (err e, k) h = h
unlocked-zero (fault, k) h = h

with_lock-Zeros : (m : M ℕ) → Zeros m → Zeros (with_lock m)
unfolding with_lock
with_lock-Zeros m z = record {
  at = λ k. elim (Bool-cases k.locked) [
    | inl e ↦ rw e tt
    | inr e ↦ rw e (unlocked-zero _ (z.at (record k { locked = true })))
  ];
}

freed-zero : (r : Result ℕ) (k : Kernel) → IsZero r → IsZero (then_free r k).0
freed-zero (ok n) k h = h
freed-zero (err e) k h = h
freed-zero fault k h = h

finish-Zeros : (m : M ℕ) → Zeros m → Zeros (finish m)
unfolding finish
finish-Zeros m z = record { at = λ k. freed-zero (m k).0 (m k).1 (z.at k) }

manager_ioctl-Zeros :
    (c : Call) (z : ℕ) (request : Request)
    → Zeros (dispatch c z request)
    → Zeros (manager_ioctl c z request)
unfolding manager_ioctl
manager_ioctl-Zeros c z request d =
    Zeros-bind (alloc_buffers c.kzalloc [] all_buffers) _
      λ u. finish-Zeros _ (with_lock-Zeros (dispatch c z request) d)

-- A request whose command returns 0 or an error code.
pub record Claim (request : Request) : Type 0 where
  pub at : (c : Call) (z : ℕ) → Zeros (dispatch c z request)

memregion_claim_request-Claim : (env : Env) (s : ClaimData) → Claim (memregion_claim_request env s)
unfolding dispatch
memregion_claim_request-Claim env s = elim (Bool-cases env.xeno) [
  | inl e ↦ rw e (record { at = λ c z. memregion_claim_ioctl-Zeros c z true true s })
  | inr e ↦ rw e (record { at = λ c z. memregion_claim_ioctl-Zeros c z false true s })
]

eventsrc_claim_request-Claim : (env : Env) (s : ClaimData) → Claim (eventsrc_claim_request env s)
unfolding dispatch
eventsrc_claim_request-Claim env s = elim (Bool-cases env.xeno) [
  | inl e ↦ rw e (record { at = λ c z. eventsrc_claim_ioctl-Zeros c true true s })
  | inr e ↦ rw e (record { at = λ c z. eventsrc_claim_ioctl-Zeros c false true s })
]

looked_at : (r : Result ℕ) → IsZero r → Yields IsZero (caught r)
looked_at (ok n) h = h
looked_at (err e) h = h
looked_at fault h = tt

module _ (env : Env) where
  sys_ioctl-zero :
      (request : Request) (p : Process) → Claim request → Yields IsZero (sys_ioctl env request p).0
  unfolding sys_ioctl
  sys_ioctl-zero request p c = looked_at _ (
      (manager_ioctl-Zeros (env.script p.clock).call env.page_size request
          (c.at (env.script p.clock).call env.page_size)).at
        (record p.kernel { user = none }))

  after_data-Zeros :
      (out : U (Unit {0})) (fd : ℕ) (r : Result ℕ) → IsZero r → Zeros (after_data env out fd r)
  unfolding after_data
  after_data-Zeros out fd (ok zero) h =
      Zeros-bind out _ λ u. Zeros-bind (sys_close env fd) _ λ v. Zeros-pure
  after_data-Zeros out fd (ok (suc n)) h = absurd h
  after_data-Zeros out fd (err e) h = Zeros-bind (ignore (sys_close env fd)) _ λ u. Zeros-raise e
  after_data-Zeros out fd fault h = Zeros-hang

  data_call-Zeros :
      (request : ℕ → Request) (out : U (Unit {0}))
      → ((pid : ℕ) → Claim (request pid))
      → Zeros (data_call env request out)
  unfolding data_call
  data_call-Zeros request out c = Zeros-bind (sys_open env) _ λ fd.
      Zeros-bind (gets (λ p. p.pid)) _ λ pid.
        Zeros-behind IsZero (sys_ioctl env (request pid)) _
          (λ p. sys_ioctl-zero (request pid) p (c pid)) λ r h. after_data-Zeros out fd r h

  memregion_map-Zeros : (info : MemregionInfo) → Zeros (memregion_map env info)
  unfolding memregion_map
  memregion_map-Zeros info = Zeros-bind (sys_open env) _ λ fd.
      Zeros-bind (on_error (sys_mmap env) (ignore (sys_close env fd))) _ λ addr.
        Zeros-bind (adjust (λ p. record p { region = some (mapped_region info fd addr) })) _
          λ u. Zeros-pure

  eventsrc_open-Zeros : (info : EventsrcInfo) → Zeros (eventsrc_open env info)
  unfolding eventsrc_open
  eventsrc_open-Zeros info = Zeros-bind (sys_open env) _ λ fd.
      let e = opened_source info fd in
      Zeros-bind (adjust (λ p. record p { source = some e })) _ λ u.
        Zeros-bind (ignore (eventsrc_disable env e)) _
          λ v. Zeros-bind (ignore (eventsrc_try_wait env e)) _ λ w. Zeros-pure

  memregion_claimed-Zeros :
      (n : ℕ)
      → IsZero (ok n)
      → Zeros (or_return n (claimed_memregion >>= λ info. memregion_map_or_release env info))
  unfolding memregion_map_or_release
  memregion_claimed-Zeros zero h = Zeros-bind claimed_memregion _ λ info.
      Zeros-on_error (memregion_map env info) (ignore (memregion_release env info))
        (memregion_map-Zeros info)
  memregion_claimed-Zeros (suc n) h = absurd h

  eventsrc_claimed-Zeros :
      (n : ℕ)
      → IsZero (ok n)
      → Zeros (or_return n (claimed_eventsrc >>= λ info. eventsrc_open_or_release env info))
  unfolding eventsrc_open_or_release
  eventsrc_claimed-Zeros zero h = Zeros-bind claimed_eventsrc _ λ info.
      Zeros-on_error (eventsrc_open env info) (ignore (eventsrc_release env info))
        (eventsrc_open-Zeros info)
  eventsrc_claimed-Zeros (suc n) h = absurd h

  module _ (g d r : Option Str) (i : ℤ) (o : ℕ) where
    memregion_claim-Zeros : Zeros (memregion_claim env g d r i o)
    unfolding memregion_claim
    memregion_claim-Zeros =
        data_call-Zeros (λ pid. memregion_claim_request env (claim_data env g d r i o pid)) deliver
          λ pid. memregion_claim_request-Claim env (claim_data env g d r i o pid)

    eventsrc_claim-Zeros : Zeros (eventsrc_claim env g d r i o)
    unfolding eventsrc_claim
    eventsrc_claim-Zeros =
        data_call-Zeros (λ pid. eventsrc_claim_request env (claim_data env g d r i o pid)) deliver
          λ pid. eventsrc_claim_request-Claim env (claim_data env g d r i o pid)

    pub memregion_claim_and_map-Zeros : Zeros (memregion_claim_and_map env g d r i o)
    unfolding memregion_claim_and_map
    memregion_claim_and_map-Zeros =
        Zeros-behind (λ n. IsZero (ok n)) (memregion_claim env g d r i o) _
          (λ p. zero_yielded _ (memregion_claim-Zeros.at p)) memregion_claimed-Zeros

    pub eventsrc_claim_and_open-Zeros : Zeros (eventsrc_claim_and_open env g d r i o)
    unfolding eventsrc_claim_and_open
    eventsrc_claim_and_open-Zeros =
        Zeros-behind (λ n. IsZero (ok n)) (eventsrc_claim env g d r i o) _
          (λ p. zero_yielded _ (eventsrc_claim-Zeros.at p)) eventsrc_claimed-Zeros
