-- ===== src/Ioctl/Claim/Kinds.antt =====
-- What the two CLAIM commands do to counts and references, on every branch.
use cuddl.Base.{ℕ, ◌+◌, ◌<◌, ◌≢◌, ◌%◌, ◌&&◌, ◌==◌, ltb, refl, Bool, true, arith, int_mod}
use cuddl.Device.{has_bit_0}
use cuddl.Kernel.{Kernel}
use cuddl.Refs.{
  memregion_claim, eventsrc_claim, memregion_decr_ref_count, eventsrc_decr_ref_count, add_mem_ref,
  add_event_ref,
}
use cuddl.Refs.Counted.{memregions, eventsrcs}
use cuddl.Refs.Cleanup.{memregion_decr-CountsDown, eventsrc_decr-CountsDown}
use cuddl.Ioctl.Commands.{Call, ClaimData}
use cuddl.Ioctl.Claim.Outcome.{Claimed, Takes, ClaimLaws, flow-Claimed}
use cuddl.Ioctl.Claim.{memregion_claim_at, eventsrc_claim_at, ref_of}

-- A resource is taken: its count is not 0 and, as a C int, not negative, bit 0 of its flags does not
-- say that it is shared, and bit 0 of the options does not say that the claim is hostile.
abbrev pub taken_by : ℕ → ℕ → ℕ → Bool
taken_by ref_count flags options =
    ltb 0 ref_count && (ltb ref_count 2147483648 && (flags % 2 == 0 && options % 2 == 0))

-- Of the device at `p`, region `i` is taken.
abbrev pub mem_busy : ℕ → ClaimData → Kernel → ℕ → Bool
mem_busy i s k p = taken_by (memregions.count k p i) ((k.device p).mem i).flags s.options

abbrev pub event_busy : ℕ → ClaimData → Kernel → ℕ → Bool
event_busy i s k p = taken_by (eventsrcs.count k p i) ((k.device p).events i).flags s.options

memregion_claim-Takes :
    (i p : ℕ) (s : ClaimData) (k : Kernel)
    → p ≢ 0
    → memregions.count k p i + 1 < int_mod
    → Takes memregions p i (mem_busy i s k p) k (memregion_claim p i (has_bit_0 s.options) k)
unfolding memregion_claim
memregion_claim-Takes i p s k np small = record {
  refused = λ b. ground arith;
  returns = λ b. ground arith;
  taken =
      λ b. record { devices = λ t. ground arith; refs = ground arith; count = λ q j. ground arith };
}

eventsrc_claim-Takes :
    (i p : ℕ) (s : ClaimData) (k : Kernel)
    → p ≢ 0
    → eventsrcs.count k p i + 1 < int_mod
    → Takes eventsrcs p i (event_busy i s k p) k (eventsrc_claim p i (has_bit_0 s.options) k)
unfolding eventsrc_claim
eventsrc_claim-Takes i p s k np small = record {
  refused = λ b. ground arith;
  returns = λ b. ground arith;
  taken =
      λ b. record { devices = λ t. ground arith; refs = ground arith; count = λ q j. ground arith };
}

memregion_laws :
    (s : ClaimData) (slot i : ℕ)
    → ClaimLaws memregions i
        (ref_of s slot i)
        (λ p. memregion_claim p i (has_bit_0 s.options))
        memregion_decr_ref_count
        (add_mem_ref (ref_of s slot i))
        (mem_busy i s)
unfolding add_mem_ref
memregion_laws s slot i = record {
  takes = λ p k. memregion_claim-Takes i p s k;
  counts_down = memregion_decr-CountsDown;
  told = λ k r. record { devices = λ t. refl; refs = refl; count = λ q j. refl };
  add_returns = λ k. refl;
  add_devices = λ k t. refl;
  add_refs = λ k. refl;
  add_count = λ k q j. refl;
}

eventsrc_laws :
    (s : ClaimData) (slot i : ℕ)
    → ClaimLaws eventsrcs i
        (ref_of s slot i)
        (λ p. eventsrc_claim p i (has_bit_0 s.options))
        eventsrc_decr_ref_count
        (add_event_ref (ref_of s slot i))
        (event_busy i s)
unfolding add_event_ref
eventsrc_laws s slot i = record {
  takes = λ p k. eventsrc_claim-Takes i p s k;
  counts_down = eventsrc_decr-CountsDown;
  told = λ k r. record { devices = λ t. refl; refs = refl; count = λ q j. refl };
  add_returns = λ k. refl;
  add_devices = λ k t. refl;
  add_refs = λ k. refl;
  add_count = λ k q j. refl;
}

-- The claim of a region of a device that is there, the count being below the largest 32-bit pattern:
-- a region whose count is not 0 and, as a C int, not negative is refused with -EBUSY, unless bit 0 of
-- its flags (shared) or bit 0 of the options (hostile) is set. Then a
-- failing copy to user space gives -EOVERFLOW, and a failing allocation -ENOMEM. On success the
-- count of that region goes up by one and the reference is at the head of the list; after a failure
-- all counts of regions, their list and the table of devices are as before.
pub memregion_claim_at-Claimed :
    (c : Call) (page_size : ℕ) (rt : Bool) (s : ClaimData) (slot i : ℕ) (k : Kernel)
    → k.devices slot ≢ 0
    → memregions.count k (k.devices slot) i + 1 < int_mod
    → Claimed memregions c
        (k.devices slot)
        i
        (ref_of s slot i)
        (mem_busy i s k (k.devices slot))
        k
        (memregion_claim_at c page_size rt true s slot i k)
unfolding memregion_claim_at
memregion_claim_at-Claimed c page_size rt s slot i k there small =
    flow-Claimed (memregion_laws s slot i) c _ slot k there small

-- The claim of an event source, likewise.
pub eventsrc_claim_at-Claimed :
    (c : Call) (rt : Bool) (s : ClaimData) (slot i : ℕ) (k : Kernel)
    → k.devices slot ≢ 0
    → eventsrcs.count k (k.devices slot) i + 1 < int_mod
    → Claimed eventsrcs c
        (k.devices slot)
        i
        (ref_of s slot i)
        (event_busy i s k (k.devices slot))
        k
        (eventsrc_claim_at c rt true s slot i k)
unfolding eventsrc_claim_at
eventsrc_claim_at-Claimed c rt s slot i k there small =
    flow-Claimed (eventsrc_laws s slot i) c _ slot k there small
