-- ===== src/Refs/Counted.antt =====
-- When the reference count of every memory region is the number of references to it in the list,
-- and how changes of one count and of the list keep it so.
use cuddl.Base.{
  ℕ, suc, ◌-◌, ◌<◌, ◌≡◌, ◌≢◌, sym, refl, List, [], ◌∷◌, Bool, true, false, ◌&&◌, ◌||◌, arith, ◌==◌,
  if◌then◌else◌,
}
use native.Mathlib.Decide.{ℕ_discrete}
use cuddl.Kernel.{Kernel, ResourceRef}
use cuddl.Refs.{is_ref, remove_ref}

-- A kind of resource: the count of resource `i` of the device at `p`, and the list of references.
pub record Kind : Type 0 where
  pub count : Kernel → ℕ → ℕ → ℕ
  pub refs : Kernel → List ResourceRef

abbrev pub memregions : Kind
memregions = record { count = λ k p i. ((k.device p).mem i).ref_count; refs = λ k. k.mem_refs }

abbrev pub eventsrcs : Kind
eventsrcs = record { count = λ k p i. ((k.device p).events i).ref_count; refs = λ k. k.event_refs }

abbrev pub is_at : ℕ → ℕ → ResourceRef → Bool
is_at slot i r = r.device_index == slot && r.resource_index == i

-- How many references to region `i` of the device in `slot` the list has.
unfoldable pub held : ℕ → ℕ → List ResourceRef → ℕ
held slot i [] = 0
held slot i (r ∷ rs) = if is_at slot i r then suc (held slot i rs) else held slot i rs

pub record Counted (κ : Kind) (k : Kernel) : Type 0 where
  pub counted : (s i : ℕ) → k.devices s ≢ 0 → κ.count k (k.devices s) i ≡ held s i (κ.refs k)
  pub managed : (s i : ℕ) → k.devices s ≡ 0 → held s i (κ.refs k) ≡ 0
  pub distinct : (s t : ℕ) → s ≢ t → k.devices s ≢ 0 → k.devices s ≢ k.devices t

-- `k'` has the table of `k`, the list `list`, and the counts of `k` but for `n` at one region.
pub record Sets (κ : Kind) (p i n : ℕ) (list : List ResourceRef) (k k' : Kernel) : Type 0 where
  pub devices : (s : ℕ) → k'.devices s ≡ k.devices s
  pub refs : κ.refs k' ≡ list
  pub count : (q j : ℕ) → κ.count k' q j ≡ (if q == p && j == i then n else κ.count k q j)

-- The counts, the list and the table are those of `k`.
pub record Same (κ : Kind) (k k' : Kernel) : Type 0 where
  pub devices : (s : ℕ) → k'.devices s ≡ k.devices s
  pub refs : κ.refs k' ≡ κ.refs k
  pub count : (q j : ℕ) → κ.count k' q j ≡ κ.count k q j

pub Same-refl : (κ : Kind) (k : Kernel) → Same κ k k
Same-refl κ k = record { devices = λ s. refl; refs = refl; count = λ q j. refl }

module _ {κ : Kind} {k k' : Kernel} where
  pub Same-Counted : Same κ k k' → Counted κ k → Counted κ k'
  Same-Counted e h = record {
    counted = λ s i n. ground (arith, e.devices s, e.refs, e.count (k.devices s) i, h.counted s i);
    managed = λ s i n. ground (arith, e.devices s, e.refs, h.managed s i);
    distinct = λ s t n m. ground (arith, e.devices s, e.devices t, h.distinct s t n);
  }

-- Two slots with the same device are one slot.
pub same_slot :
    {κ : Kind} {k : Kernel} (s t : ℕ)
    → Counted κ k
    → k.devices t ≢ 0
    → k.devices s ≡ k.devices t
    → s ≡ t
same_slot s t h n e = elim (ℕ_discrete s t) [
  | yes q ↦ q
  | no q ↦ absurd (h.distinct t s (λ r. q (sym r)) n (sym e))
]

-- A change of the count of one region that goes with the same change of its references.
pub Sets-Counted :
    {κ : Kind} {k k' : Kernel} (slot i n : ℕ) (refs : List ResourceRef)
    → Counted κ k
    → k.devices slot ≢ 0
    → ((s j : ℕ) → held s j refs ≡ (if s == slot && j == i then n else held s j (κ.refs k)))
    → Sets κ (k.devices slot) i n refs k k'
    → Counted κ k'
Sets-Counted {κ} {k} {k'} slot i n refs h full held_refs e = record {
  counted = λ s j m. ground (
    arith,
    e.devices s,
    e.refs,
    e.count (k.devices s) j,
    held_refs s j,
    h.counted s j,
    same_slot {κ = κ} {k = k} s slot h full,
  );
  managed = λ s j m. ground (arith, e.devices s, e.refs, held_refs s j, h.managed s j);
  distinct = λ s t d m. ground (arith, e.devices s, e.devices t, h.distinct s t d);
}

pub held-cons :
    (slot i s j pid : ℕ) (refs : List ResourceRef)
    → held s j (record { device_index = slot; resource_index = i; pid = pid } ∷ refs)
      ≡ (if s == slot && j == i then suc (held slot i refs) else held s j refs)
unfolding held
held-cons slot i s j pid refs = ground arith

-- The process `pid` has a reference to the region.
unfoldable pub holds : ℕ → ℕ → ℕ → List ResourceRef → Bool
holds slot i pid [] = false
holds slot i pid (r ∷ rs) = is_ref slot i pid r || holds slot i pid rs

held-pos :
    (slot i pid : ℕ) (refs : List ResourceRef) → holds slot i pid refs ≡ true → 0 < held slot i refs
unfolding held holds
held-pos slot i pid [] h = cc
held-pos slot i pid (r ∷ rs) h = ground (arith, held-pos slot i pid rs)

pub held-remove_ref :
    (slot i s j pid : ℕ) (refs : List ResourceRef)
    → holds slot i pid refs ≡ true
    → held s j (remove_ref slot i pid refs)
      ≡ (if s == slot && j == i then held slot i refs - 1 else held s j refs)
unfolding held remove_ref holds
held-remove_ref slot i s j pid [] h = cc
held-remove_ref slot i s j pid (r ∷ rs) h =
    ground (arith, held-remove_ref slot i s j pid rs, held-pos slot i pid rs)
