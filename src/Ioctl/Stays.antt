-- ===== src/Ioctl/Stays.antt =====
-- What the commands leave alone: invariants that do not read what is copied back to user space.
use cuddl.Base.{ℕ, some, Bool, true, false, Option, none, ℤ, if◌then◌else◌}
use cuddl.CStr.{Str}
use cuddl.Device.{Device}
use cuddl.Kernel.{Kernel, M, Reply}
use cuddl.Kernel.Keeps.{Keeps, Keeps-bind, Keeps-raise, keeps_rules}
use cuddl.Refs.{memregion_decr_ref_count, eventsrc_decr_ref_count}
use cuddl.Ioctl.Commands.{
  Call, receive, copy_to_user, SlotData, DriverInfoData, IsEnabledData, RefCountData,
}
use cuddl.Ioctl.Claim.{claim_flow}
use cuddl.Ioctl.Query.{
  get_memregion_id_ioctl, get_eventsrc_id_ioctl, memregion_ref_count_ioctl,
  eventsrc_ref_count_ioctl, constant_ioctl, get_kernel_commit_id_ioctl, get_kernel_variant_ioctl,
  info_ioctl, eventsrc_is_enabled_ioctl, copy_name, reply_id,
}

module _ {P : Kernel → Type 0}
    (told : (k : Kernel) (r : Reply) → P k → P (record k { user = some r })) where
  Keeps-if :
      {A : Type 0} (b : Bool) {m n : M A} → Keeps P m → Keeps P n → Keeps P (if b then m else n)
  Keeps-if true km kn = km
  Keeps-if false km kn = kn

  pub Keeps-receive : (c : Call) (code : ℤ) → Keeps P (receive c code)
  unfolding receive
  Keeps-receive c code = search keeps_rules

  pub Keeps-copy_to_user :
      (c : Call) (r : Reply) {undo : M (Unit {0})} → Keeps P undo → Keeps P (copy_to_user c r undo)
  unfolding copy_to_user
  Keeps-copy_to_user c r ku =
      Keeps-if c.copy_out (record { at = λ k h. told k r h })
        (Keeps-bind _ _ ku (λ _. Keeps-raise _))

  ruleset query_rules = (keeps_rules, Keeps-if, Keeps-receive, Keeps-copy_to_user)

  pub Keeps-claim_flow :
      (c : Call) (claim : Bool) {take undo : ℕ → M (Unit {0})} (reply : Device → Reply)
      {add : M (Unit {0})} (slot : ℕ)
      → ((p : ℕ) → Keeps P (take p))
      → ((p : ℕ) → Keeps P (undo p))
      → Keeps P add
      → Keeps P (claim_flow c claim take undo reply add slot)
  unfolding claim_flow
  Keeps-claim_flow c claim reply slot kt ku ka = search query_rules depth 24

  pub Keeps-constant_ioctl : (c : Call) (v : ℤ) (n : ℕ) → Keeps P (constant_ioctl c v n)
  unfolding constant_ioctl
  Keeps-constant_ioctl c v n = search query_rules

  pub Keeps-get_kernel_commit_id_ioctl :
      (c : Call) (v : ℤ) → Keeps P (get_kernel_commit_id_ioctl c v)
  unfolding get_kernel_commit_id_ioctl
  Keeps-get_kernel_commit_id_ioctl c v = search query_rules

  pub Keeps-get_kernel_variant_ioctl : (c : Call) (v : ℤ) → Keeps P (get_kernel_variant_ioctl c v)
  unfolding get_kernel_variant_ioctl
  Keeps-get_kernel_variant_ioctl c v = search query_rules

  pub Keeps-info_ioctl :
      (c : Call) (f : Device → Option Str) (s : DriverInfoData) → Keeps P (info_ioctl c f s)
  unfolding info_ioctl
  Keeps-info_ioctl c f s = search query_rules depth 24

  pub Keeps-eventsrc_is_enabled_ioctl :
      (c : Call) (s : IsEnabledData) → Keeps P (eventsrc_is_enabled_ioctl c s)
  unfolding eventsrc_is_enabled_ioctl
  Keeps-eventsrc_is_enabled_ioctl c s = search query_rules depth 24

  Keeps-copy_name : (c : Call) (s : Option Str) → Keeps P (copy_name c s)
  unfolding copy_name
  Keeps-copy_name c none = search keeps_rules
  Keeps-copy_name c (some s) = search keeps_rules

  Keeps-reply_id : (c : Call) (dev : Device) (s : Option Str) → Keeps P (reply_id c dev s)
  unfolding reply_id
  Keeps-reply_id c dev s = search (query_rules, Keeps-copy_name) depth 24

  pub Keeps-get_memregion_id_ioctl :
      (c : Call) (s : SlotData) → Keeps P (get_memregion_id_ioctl c s)
  unfolding get_memregion_id_ioctl
  Keeps-get_memregion_id_ioctl c s = search (query_rules, Keeps-reply_id) depth 24

  pub Keeps-get_eventsrc_id_ioctl : (c : Call) (s : SlotData) → Keeps P (get_eventsrc_id_ioctl c s)
  unfolding get_eventsrc_id_ioctl
  Keeps-get_eventsrc_id_ioctl c s = search (query_rules, Keeps-reply_id) depth 24

  pub Keeps-memregion_ref_count_ioctl :
      (c : Call) (s : RefCountData) → Keeps P (memregion_ref_count_ioctl c false s)
  unfolding memregion_ref_count_ioctl
  Keeps-memregion_ref_count_ioctl c s = search query_rules depth 24

  pub Keeps-eventsrc_ref_count_ioctl :
      (c : Call) (s : RefCountData) → Keeps P (eventsrc_ref_count_ioctl c false s)
  unfolding eventsrc_ref_count_ioctl
  Keeps-eventsrc_ref_count_ioctl c s = search query_rules depth 24

  pub Keeps-decrement_memregion_ioctl :
      (c : Call) (s : RefCountData)
      → ((q i : ℕ) → Keeps P (memregion_decr_ref_count q i))
      → Keeps P (memregion_ref_count_ioctl c true s)
  unfolding memregion_ref_count_ioctl
  Keeps-decrement_memregion_ioctl c s kd = search query_rules depth 24

  pub Keeps-decrement_eventsrc_ioctl :
      (c : Call) (s : RefCountData)
      → ((q i : ℕ) → Keeps P (eventsrc_decr_ref_count q i))
      → Keeps P (eventsrc_ref_count_ioctl c true s)
  unfolding eventsrc_ref_count_ioctl
  Keeps-decrement_eventsrc_ioctl c s kd = search query_rules depth 24
