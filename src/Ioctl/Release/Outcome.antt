-- ===== src/Ioctl/Release/Outcome.antt =====
-- What a RELEASE command does to counts and references.
use cuddl.Base.{
  ℕ, ◌+◌, ◌-◌, ◌<◌, ◌≡◌, ◌≢◌, refl, not, Bool-cases, true, false, List, ◌∷◌, [], inl, inr, Errno,
  Result, ok, err, ebadslt, enodev, ℤ, pos, negsuc, ltb, arith, ◌==◌,
}
use cuddl.Kernel.{Kernel, M, ResourceRef, ◌>>=◌, ◌>>◌, check, continue}
use cuddl.Refs.{remove_ref}
use cuddl.Refs.Counted.{
  Kind, memregions, eventsrcs, Counted, Sets, Sets-Counted, holds, held, held-remove_ref,
}
use cuddl.Ioctl.Commands.{Call, ReleaseData, slot_below}
use cuddl.Ioctl.Claim.Cases.{receive_cases}
use cuddl.Ioctl.Release.{
  memregion_release_at, eventsrc_release_at, memregion_release_ioctl, eventsrc_release_ioctl,
}

-- A release counts one resource down and drops one reference of the caller's.
pub record Released (κ : Kind) (p slot i pid : ℕ) (k : Kernel) (r : Result ℕ × Kernel)
    : Type 0 where
  pub returns : r.0 ≡ ok 0
  pub released : Sets κ p i (κ.count k p i - 1) (remove_ref slot i pid (κ.refs k)) k r.1

pub memregion_release_at-Released :
    (s : ReleaseData) (slot i : ℕ) (k : Kernel)
    → k.devices slot ≢ 0
    → Released memregions (k.devices slot) slot i s.pid k (memregion_release_at s slot i k)
unfolding memregion_release_at
memregion_release_at-Released s slot i k there = record {
  returns = ground arith;
  released = record {
    devices = λ t. ground arith;
    refs = ground arith;
    count = λ q j. ground arith;
  };
}

pub eventsrc_release_at-Released :
    (s : ReleaseData) (slot i : ℕ) (k : Kernel)
    → k.devices slot ≢ 0
    → Released eventsrcs (k.devices slot) slot i s.pid k (eventsrc_release_at s slot i k)
unfolding eventsrc_release_at
eventsrc_release_at-Released s slot i k there = record {
  returns = ground arith;
  released = record {
    devices = λ t. ground arith;
    refs = ground arith;
    count = λ q j. ground arith;
  };
}

remove_ref-none :
    (slot i pid : ℕ) (refs : List ResourceRef)
    → holds slot i pid refs ≡ false
    → remove_ref slot i pid refs ≡ refs
unfolding holds remove_ref
remove_ref-none slot i pid [] h = refl
remove_ref-none slot i pid (r ∷ rs) h = ground (arith, remove_ref-none slot i pid rs)

pub Released-Counted :
    {κ : Kind} {slot i pid : ℕ} {k : Kernel} {r : Result ℕ × Kernel}
    → Counted κ k
    → k.devices slot ≢ 0
    → holds slot i pid (κ.refs k) ≡ true
    → Released κ (k.devices slot) slot i pid k r
    → Counted κ r.1
Released-Counted {κ} {slot} {i} {pid} {k} h there has r =
    Sets-Counted slot i _ _ h there
      (λ s j. ground (arith, held-remove_ref slot i s j pid (κ.refs k) has, h.counted slot i there))
      r.released

-- A RELEASE command is refused and changes nothing, or its token names a resource of a device that
-- is there, and this resource is released.
pub data ReleaseOutcome (κ : Kind) (max : ℕ) (s : ReleaseData) (k : Kernel)
    : Result ℕ × Kernel → Type 0 where
  rejected : (e : Errno) → ReleaseOutcome κ max s k (err e, k)
  done :
      {r : Result ℕ × Kernel} (slot i : ℕ)
      → s.token.device_index ≡ pos slot
      → s.token.resource_index ≡ pos i
      → slot < 256
      → i < max
      → k.devices slot ≢ 0
      → Released κ (k.devices slot) slot i s.pid k r
      → ReleaseOutcome κ max s k r

pub slot_below_cases {ℓ} :
    (P : Result ℕ × Kernel → Type ℓ) (k : Kernel) (max : ℕ) (n : ℤ) (f : ℕ → M ℕ)
    → ((e : Errno) → P (err e, k))
    → ((i : ℕ) → n ≡ pos i → i < max → P (f i k))
    → P (continue (slot_below max n) f k)
slot_below_cases P k max (negsuc n) f fails act = fails ebadslt
slot_below_cases P k max (pos n) f fails act = elim (Bool-cases (ltb n max)) [
  | inl e ↦ rw e (act n refl (ground arith))
  | inr e ↦ rw e (fails ebadslt)
]

pub there_cases {ℓ} :
    (P : Result ℕ × Kernel → Type ℓ) (k : Kernel) (p : ℕ) (m : M ℕ)
    → ((e : Errno) → P (err e, k))
    → (p ≢ 0 → P (m k))
    → P ((check (not (p == 0)) enodev >> m) k)
unfolding check ◌>>=◌
there_cases P k p m fails act = elim (Bool-cases (p == 0)) [
  | inl e ↦ rw e (fails enodev)
  | inr e ↦ rw e (act (λ z. ground arith))
]

-- RELEASE of a region: whatever the token, either an error code comes back and nothing has changed,
-- or the token names a region of a managed device, and this region's count goes down by one, but not
-- below 0, and the first reference of the caller to it leaves the list; nothing else of the counts
-- of regions, of their list or of the table changes.
pub memregion_release_ioctl-ReleaseOutcome :
    (c : Call) (s : ReleaseData) (k : Kernel)
    → ReleaseOutcome memregions 5 s k (memregion_release_ioctl c s k)
unfolding memregion_release_ioctl ◌>>=◌
memregion_release_ioctl-ReleaseOutcome c s k =
    receive_cases out c s.version_code _ k rejected λ _ _.
      slot_below_cases out k 256 s.token.device_index _ rejected λ slot e l.
        there_cases out k (k.devices slot) _ rejected λ there.
          slot_below_cases out k 5 s.token.resource_index _ rejected
            λ i e' l'. done slot i e e' l l' there (memregion_release_at-Released s slot i k there)
  where
    out : Result ℕ × Kernel → Type 0
    out = ReleaseOutcome memregions 5 s k

-- RELEASE of an event source, likewise.
pub eventsrc_release_ioctl-ReleaseOutcome :
    (c : Call) (s : ReleaseData) (k : Kernel)
    → ReleaseOutcome eventsrcs 1 s k (eventsrc_release_ioctl c s k)
unfolding eventsrc_release_ioctl ◌>>=◌
eventsrc_release_ioctl-ReleaseOutcome c s k = receive_cases out c s.version_code _ k rejected λ _ _.
    slot_below_cases out k 256 s.token.device_index _ rejected λ slot e l.
      there_cases out k (k.devices slot) _ rejected λ there.
        slot_below_cases out k 1 s.token.resource_index _ rejected
          λ i e' l'. done slot i e e' l l' there (eventsrc_release_at-Released s slot i k there)
  where
    out : Result ℕ × Kernel → Type 0
    out = ReleaseOutcome eventsrcs 1 s k

-- A process without a reference to a region that is held can release it all the same: the count goes
-- down and every reference stays in the list.
pub memregion_release_at_unheld :
    (s : ReleaseData) (slot i : ℕ) (k : Kernel)
    → k.devices slot ≢ 0
    → 0 < memregions.count k (k.devices slot) i
    → holds slot i s.pid k.mem_refs ≡ false
    → let k' = (memregion_release_at s slot i k).1 in
      (memregions.count k' (k.devices slot) i + 1 ≡ memregions.count k (k.devices slot) i)
      × (k'.mem_refs ≡ k.mem_refs)
memregion_release_at_unheld s slot i k there held none_held =
    let r = memregion_release_at-Released s slot i k there in
    (
      ground (arith, r.released.count (k.devices slot) i),
      ground (arith, r.released.refs, remove_ref-none slot i s.pid k.mem_refs none_held),
    )
