-- ===== src/Ioctl/Claim/Cases.antt =====
-- A CLAIM or GET_INFO command fails at once, or acts on a resource of a device that is there.
use cuddl.Base.{
  ℕ, ◌<◌, ℤ, enxio, ◌≡◌, ◌≢◌, Bool, Bool-cases, true, some, inl, inr, Errno, Result, err, fault,
  eoverflow, enoexec, ne→==, arith,
}
use cuddl.Device.{device_find_memregion_slot, device_find_eventsrc_slot}
use cuddl.Device.Find
use cuddl.Device.Find.{
  device_find_memregion_slot-FindsFirst, device_find_eventsrc_slot-FindsFirst, FindsFirst,
}
use cuddl.Kernel.{Kernel, M, ◌>>=◌, ◌>>◌, continue}
use cuddl.Manager.{Query, find_device_slot_matching, memregion, eventsrc}
use cuddl.Manager.Fits.{Fits}
use cuddl.Manager.Search.{
  Finds, found_slot, no_slot, halted, Halts, find_device_slot_matching-Finds,
}
use cuddl.Ioctl.Commands.{Call, ClaimData, receive, version_code_is_compat}
use cuddl.Ioctl.Claim.{
  id_query, memregion_claim_ioctl, eventsrc_claim_ioctl, memregion_claim_at, eventsrc_claim_at,
}

-- What every command does first leaves the state alone.
pub receive_cases {ℓ} :
    {A : Type 0} (P : Result A × Kernel → Type ℓ) (c : Call) (code : ℤ) (m : M A) (k : Kernel)
    → ((e : Errno) → P (err e, k))
    → (c.copy_in ≡ true → version_code_is_compat code ≡ true → P (m k))
    → P ((receive c code >> m) k)
unfolding receive
receive_cases P c code m k fails goes = elim (Bool-cases c.copy_in) [
  | inr e ↦ rw e (fails eoverflow)
  | inl e ↦ elim (Bool-cases (version_code_is_compat code)) [
    | inr v ↦ rw (e, v) (fails enoexec)
    | inl v ↦ rw (e, v) (goes e v)
  ]
]

module _ {ℓ} (P : Result ℕ × Kernel → Type ℓ) (k : Kernel) (fails : (e : Errno) → P (err e, k))
    (stops : (q : Query) (i : ℕ) → Halts k q i → P (fault, k)) where
  -- A search, and an action on the slot that it finds.
  pub slot_cases :
      (r : Result ℕ) {q : Query} (f : ℕ → M ℕ)
      → Finds k q 0 r
      → ((slot : ℕ) → slot < 256 → Fits k q slot → P (f slot k))
      → P (continue r f k)
  slot_cases _ f (found_slot i l b g n) act = act i b g
  slot_cases _ f (no_slot n) act = fails enxio
  slot_cases _ f (halted i l b g n) act = stops _ i g

  pub index_cases :
      {test : ℕ → Bool} {count : ℕ} (r : Result ℕ) (f : ℕ → M ℕ)
      → FindsFirst test count r
      → ((i : ℕ) → i < count → P (f i k))
      → P (continue r f k)
  index_cases _ f (Find.found i g b) act = act i b
  index_cases _ f (Find.not_found n) act = fails enxio

  pub memregion_claim_ioctl_cases :
      (c : Call) (page_size : ℕ) (rt claim : Bool) (s : ClaimData)
      → ((slot i : ℕ)
          → slot < 256
          → i < 5
          → k.devices slot ≢ 0
          → P (memregion_claim_at c page_size rt claim s slot i k))
      → P (memregion_claim_ioctl c page_size rt claim s k)
  unfolding memregion_claim_ioctl ◌>>=◌
  memregion_claim_ioctl_cases c page_size rt claim s act =
      receive_cases P c s.version_code _ k fails λ _ _.
        slot_cases (find_device_slot_matching k (id_query s.id memregion) 0) _
          (find_device_slot_matching-Finds k _ 0 (omega arith))
          λ slot b g. rw (ne→== (k.devices slot) 0 g.there) (
            index_cases
              (device_find_memregion_slot (k.device (k.devices slot)) (some s.id.resource)) _
              (device_find_memregion_slot-FindsFirst _ _) (λ i l. act slot i b l g.there))

  pub eventsrc_claim_ioctl_cases :
      (c : Call) (rt claim : Bool) (s : ClaimData)
      → ((slot i : ℕ)
          → slot < 256
          → i < 1
          → k.devices slot ≢ 0
          → P (eventsrc_claim_at c rt claim s slot i k))
      → P (eventsrc_claim_ioctl c rt claim s k)
  unfolding eventsrc_claim_ioctl ◌>>=◌
  eventsrc_claim_ioctl_cases c rt claim s act = receive_cases P c s.version_code _ k fails λ _ _.
      slot_cases (find_device_slot_matching k (id_query s.id eventsrc) 0) _
        (find_device_slot_matching-Finds k _ 0 (omega arith))
        λ slot b g. rw (ne→== (k.devices slot) 0 g.there) (
          index_cases (device_find_eventsrc_slot (k.device (k.devices slot)) (some s.id.resource)) _
            (device_find_eventsrc_slot-FindsFirst _ _) (λ i l. act slot i b l g.there))
