-- ===== src/Register/Returns.antt =====
-- Registration of a device returns, and touches its device and the log of calls only.
use cuddl.Base.{
  ℕ, ◌≢◌, Option, none, some, Errno, ok, fault, arith, ne→==, Bool-cases, inl, inr, if◌then◌else◌,
}
use cuddl.Device.{Device}
use cuddl.Kernel.{Kernel, OsCall, lift, change, call}
use cuddl.Kernel.Runs.{Runs, Runs-lift, Runs-pure, runs_rules}
use cuddl.Register.{
  Platform, RegistrationFailure, fail_null_group, fail_null_name, fail_unique_name,
  fail_uio_register, fail_udd_register, no_failure, code_of, cleanup, register_uio, register_udd,
  allocate_name, device_register, device_unregister,
}

-- Invariants that do not read the memory of devices or the log of calls.
pub record Deep (P : Kernel → Type 0) : Type 0 where
  pub change : (k : Kernel) (d : ℕ → Device) → P k → P (record k { device = d })
  pub call : (k : Kernel) → P k → (c : OsCall) → P (call c k).1

module _ {P : Kernel → Type 0} (deep : Deep P) where
  Runs-call : (c : OsCall) → Runs P (call c)
  unfolding call
  Runs-call c = record { at = λ k h. (λ e. cc, deep.call k h c) }

  pub Runs-change : (p : ℕ) (f : Device → Device) → p ≢ 0 → Runs P (change p f)
  unfolding change
  Runs-change p f n = record { at = λ k h. rw (ne→== p 0 n) (λ e. cc, deep.change k _ h) }

  code_of-ne-fault : (e : Option Errno) → code_of e ≢ fault
  code_of-ne-fault none h = cc
  code_of-ne-fault (some e) h = cc

  Runs-code_of : (e : Option Errno) → Runs P (lift (code_of e))
  Runs-code_of e = Runs-lift _ (code_of-ne-fault e)

  unregister_result :
      (env : Platform) → (if env.use_udd then code_of env.udd_unregister_error else ok tt) ≢ fault
  unregister_result env h = elim (Bool-cases env.use_udd) [
    | inl e ↦ code_of-ne-fault env.udd_unregister_error (ground (arith, h, e))
    | inr e ↦ ground (arith, h, e)
  ]

  Runs-cleanup :
      (env : Platform) (p : ℕ) (f : RegistrationFailure) → p ≢ 0 → Runs P (cleanup env p f)
  unfolding cleanup
  Runs-cleanup env p no_failure n = search (runs_rules, Runs-call, unregister_result) depth 24
  Runs-cleanup env p fail_udd_register n = search (runs_rules, Runs-call) depth 24
  Runs-cleanup env p fail_uio_register n = search (runs_rules, Runs-call) depth 24
  Runs-cleanup env p fail_unique_name n = Runs-pure tt
  Runs-cleanup env p fail_null_name n = Runs-pure tt
  Runs-cleanup env p fail_null_group n = Runs-pure tt

  Runs-register_uio : (env : Platform) (p : ℕ) → p ≢ 0 → Runs P (register_uio env p)
  unfolding register_uio
  Runs-register_uio env p n = search (runs_rules, Runs-code_of, Runs-call, Runs-change) depth 24

  Runs-register_udd : (env : Platform) (p : ℕ) → Runs P (register_udd env p)
  unfolding register_udd
  Runs-register_udd env p = search (runs_rules, Runs-code_of, Runs-call) depth 24

  Runs-allocate_name : (env : Platform) (p : ℕ) → Runs P (allocate_name env p)
  unfolding allocate_name
  Runs-allocate_name env p = search (runs_rules, Runs-call) depth 24

  pub Runs-device_register : (env : Platform) (p : ℕ) → p ≢ 0 → Runs P (device_register env p)
  unfolding device_register
  Runs-device_register env p n =
      search
        (
          runs_rules, Runs-change, Runs-cleanup, Runs-register_uio, Runs-register_udd,
          Runs-allocate_name,
        )
        depth 40

  pub Runs-device_unregister : (env : Platform) (p : ℕ) → p ≢ 0 → Runs P (device_unregister env p)
  unfolding device_unregister
  Runs-device_unregister env p n = Runs-cleanup env p no_failure n
