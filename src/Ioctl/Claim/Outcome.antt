-- ===== src/Ioctl/Claim/Outcome.antt =====
-- What a claim does to counts and references on every branch, from the laws of its kind.
use cuddl.Base.{
  ℕ, some, ◌+◌, ◌-◌, ◌<◌, ◌≡◌, ◌≢◌, refl, ◌∙◌, ◌∷◌, Bool, true, false, not, Result, ok, err, ebusy,
  eoverflow, enomem, arith, if◌then◌else◌, int_mod, Bool-cases, inl, inr,
}
use cuddl.Device.{Device}
use cuddl.Kernel.{Kernel, M, Reply, ResourceRef, ignore}
use cuddl.Refs.Counted.{Kind, Same, Same-refl, Sets}
use cuddl.Refs.Cleanup.{CountsDown}
use cuddl.Ioctl.Commands.{Call}
use cuddl.Ioctl.Claim.Flow.{flow_refused, flow_uncopied, flow_unallocated, flow_granted}
use cuddl.Ioctl.Claim.{claim_flow}

-- What a claim returns: a resource that is held is busy, unless it is shared or the claim hostile;
-- then the answer has to reach user space, and the reference has to be allocated.
abbrev pub claim_result : Bool → Call → Result ℕ
claim_result busy c =
    if busy
    then err ebusy
    else if not c.copy_out
    then err eoverflow
    else if not c.ref_alloc
    then err enomem
    else ok 0

-- How a claim of one resource of the device at `p` comes out.
pub record Takes (κ : Kind) (p i : ℕ) (busy : Bool) (k : Kernel) (r : Result (Unit {0}) × Kernel)
    : Type 0 where
  pub refused : busy ≡ true → r ≡ (err ebusy, k)
  pub returns : busy ≡ false → r.0 ≡ ok tt
  pub taken : busy ≡ false → Sets κ p i (κ.count k p i + 1) (κ.refs k) k r.1

Sets_back :
    {κ : Kind} {p i : ℕ} {k k1 k2 : Kernel}
    → Sets κ p i (κ.count k p i + 1) (κ.refs k) k k1
    → Sets κ p i (κ.count k1 p i - 1) (κ.refs k1) k1 k2
    → Same κ k k2
Sets_back {p} {i} {k} a b = record {
  devices = λ s. b.devices s ∙ a.devices s;
  refs = b.refs ∙ a.refs;
  count = λ q j. ground (arith, b.count q j, a.count q j, a.count p i);
}

-- What the claim of a kind promises, in terms of its count and its list.
pub record ClaimLaws (κ : Kind) (i : ℕ) (ref : ResourceRef) (take : ℕ → M (Unit {0}))
    (decr : ℕ → ℕ → M (Unit {0})) (add : M (Unit {0})) (busy : Kernel → ℕ → Bool) : Type 0 where
  pub takes :
      (p : ℕ) (k : Kernel)
      → p ≢ 0
      → κ.count k p i + 1 < int_mod
      → Takes κ p i (busy k p) k (take p k)
  pub counts_down : CountsDown κ decr
  pub told : (k : Kernel) (r : Reply) → Same κ k (record k { user = some r })
  pub add_returns : (k : Kernel) → (add k).0 ≡ ok tt
  pub add_devices : (k : Kernel) (s : ℕ) → (add k).1.devices s ≡ k.devices s
  pub add_refs : (k : Kernel) → κ.refs (add k).1 ≡ ref ∷ κ.refs k
  pub add_count : (k : Kernel) (q j : ℕ) → κ.count (add k).1 q j ≡ κ.count k q j

-- The outcome of a claim: its return code; the count and the list on success; and that neither
-- changes otherwise.
pub record Claimed (κ : Kind) (c : Call) (p i : ℕ) (ref : ResourceRef) (busy : Bool) (k : Kernel)
    (r : Result ℕ × Kernel) : Type 0 where
  pub returns : r.0 ≡ claim_result busy c
  pub granted : r.0 ≡ ok 0 → Sets κ p i (κ.count k p i + 1) (ref ∷ κ.refs k) k r.1
  pub refused : r.0 ≢ ok 0 → Same κ k r.1

module _ {κ : Kind} {i : ℕ} {ref : ResourceRef} {take : ℕ → M (Unit {0})}
    {decr : ℕ → ℕ → M (Unit {0})} {add : M (Unit {0})} {busy : Kernel → ℕ → Bool}
    (laws : ClaimLaws κ i ref take decr add busy) (c : Call) (reply : Device → Reply) (slot : ℕ)
    (k : Kernel) (there : k.devices slot ≢ 0)
    (small : κ.count k (k.devices slot) i + 1 < int_mod) where
  abbrev at : ℕ
  at = k.devices slot

  abbrev one_up : Kernel
  one_up = (take at k).1

  abbrev outcome : Result ℕ × Kernel
  outcome = claim_flow c true take (λ q. decr q i) reply add slot k

  takes : Takes κ at i (busy k at) k (take at k)
  takes = laws.takes at k there small

  module _ (free : busy k at ≡ false) where
    up : Sets κ at i (κ.count k at i + 1) (κ.refs k) k one_up
    up = takes.taken free

    up_told :
        (r : Reply)
        → Sets κ at i (κ.count k at i + 1) (κ.refs k) k (record one_up { user = some r })
    up_told r =
        let s = laws.told one_up r in
        record {
          devices = λ t. s.devices t ∙ up.devices t;
          refs = s.refs ∙ up.refs;
          count = λ q j. s.count q j ∙ up.count q j;
        }

    undone :
        (k2 : Kernel)
        → Sets κ at i (κ.count k at i + 1) (κ.refs k) k k2
        → ((ignore (decr at i) k2).0 ≡ ok tt) × Same κ k (ignore (decr at i) k2).1
    undone k2 e =
        let d = laws.counts_down.down at i k2 there (λ z. ground (arith, e.count at i)) in
        (d.0, Sets_back e d.1)

    uncopied : c.copy_out ≡ false → Claimed κ c at i ref (busy k at) k outcome
    uncopied e =
        let u = undone one_up up in
        rw (flow_uncopied c take (λ q. decr q i) reply add slot k there (takes.returns free) e u.0)
          (record { returns = rw (free, e); granted = λ h. cc; refused = λ h. u.1 })

    unallocated :
        c.copy_out ≡ true → c.ref_alloc ≡ false → Claimed κ c at i ref (busy k at) k outcome
    unallocated e a =
        let told = record one_up { user = some (reply (one_up.device at)) } in
        let u = undone told (up_told (reply (one_up.device at))) in
        rw
          (flow_unallocated c take (λ q. decr q i) reply add slot k there (takes.returns free) e a
            u.0)
          (record { returns = rw (free, e, a); granted = λ h. cc; refused = λ h. u.1 })

    granted : c.copy_out ≡ true → c.ref_alloc ≡ true → Claimed κ c at i ref (busy k at) k outcome
    granted e a =
        let told = record one_up { user = some (reply (one_up.device at)) } in
        let s = up_told (reply (one_up.device at)) in
        rw
          (flow_granted c take (λ q. decr q i) reply add slot k there (takes.returns free) e a
            (laws.add_returns told))
          (record {
            returns = rw (free, e, a);
            granted = λ h. record {
              devices = λ t. laws.add_devices told t ∙ s.devices t;
              refs = ground (arith, laws.add_refs told, s.refs);
              count = λ q j. laws.add_count told q j ∙ s.count q j;
            };
            refused = λ h. absurd (h refl);
          })

  pub flow-Claimed : Claimed κ c at i ref (busy k at) k outcome
  flow-Claimed = elim (Bool-cases (busy k at)) [
    | inl e ↦
        rw (flow_refused c take (λ q. decr q i) reply add slot k there (takes.refused e))
          (record { returns = rw e; granted = λ h. cc; refused = λ h. Same-refl κ k })
    | inr free ↦ elim (Bool-cases c.copy_out) [
      | inr e ↦ uncopied free e
      | inl e ↦ elim (Bool-cases c.ref_alloc) [
        | inr a ↦ unallocated free e a
        | inl a ↦ granted free e a
      ]
    ]
  ]
