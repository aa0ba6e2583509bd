-- ===== src/Refs/Cleanup.antt =====
-- cuddlk_manager_free_refs_for_pid: what the clean-up after a process does to counts and references.
use native.Mathlib.Decide.{ℕ_discrete}
use cuddl.Base.{
  ℕ, suc, ◌+◌, ◌-◌, ◌≡◌, ◌≢◌, refl, List, [], ◌∷◌, ok, sym, ◌∙◌, arith, ◌==◌, if◌then◌else◌,
  Bool-cases, inl, inr, Result,
}
use cuddl.Kernel.{Kernel, ResourceRef, M, ◌>>=◌, ignore, pure, bind_of_ok}
use cuddl.Kernel.Keeps.{Keeps, Keeps-bind, Keeps-ignore, Keeps-pure}
use cuddl.Refs.{memregion_decr_ref_count, eventsrc_decr_ref_count, free_refs}
use cuddl.Refs.Counted.{Kind, memregions, eventsrcs, Sets, held, is_at}

-- The references of the other processes.
unfoldable pub others : ℕ → List ResourceRef → List ResourceRef
others pid [] = []
others pid (r ∷ rs) = if r.pid == pid then others pid rs else r ∷ others pid rs

-- How a count of a kind goes down: a count that is not 0, of a device that is there.
pub record CountsDown (κ : Kind) (decr : ℕ → ℕ → M (Unit {0})) : Type 0 where
  pub down :
      (p i : ℕ) (k : Kernel)
      → p ≢ 0
      → κ.count k p i ≢ 0
      → ((ignore (decr p i) k).0 ≡ ok tt)
        × Sets κ p i (κ.count k p i - 1) (κ.refs k) k (ignore (decr p i) k).1

pub memregion_decr-CountsDown : CountsDown memregions memregion_decr_ref_count
unfolding memregion_decr_ref_count ignore
memregion_decr-CountsDown = record {
  down = λ p i k np n. (
    ground arith,
    record { devices = λ s. ground arith; refs = ground arith; count = λ q j. ground arith },
  );
}

pub eventsrc_decr-CountsDown : CountsDown eventsrcs eventsrc_decr_ref_count
unfolding eventsrc_decr_ref_count ignore
eventsrc_decr-CountsDown = record {
  down = λ p i k np n. (
    ground arith,
    record { devices = λ s. ground arith; refs = ground arith; count = λ q j. ground arith },
  );
}

-- The counts in the middle of the loop: `rest` are the references that it has not reached, and
-- `kept` counts those that it has passed by.
pub record Pending (κ : Kind) (k : Kernel) (rest : List ResourceRef) (kept : ℕ → ℕ → ℕ)
    : Type 0 where
  pub counted : (s i : ℕ) → k.devices s ≢ 0 → κ.count k (k.devices s) i ≡ held s i rest + kept s i
  pub managed : (s i : ℕ) → k.devices s ≡ 0 → held s i rest ≡ 0
  pub distinct : (s t : ℕ) → s ≢ t → k.devices s ≢ 0 → k.devices s ≢ k.devices t

-- The loop has gone through: `left` are the references that remain.
pub record Freed (κ : Kind) (k : Kernel) (left : List ResourceRef) (kept : ℕ → ℕ → ℕ)
    (r : Result (List ResourceRef) × Kernel) : Type 0 where
  pub returns : r.0 ≡ ok left
  pub devices : (s : ℕ) → r.1.devices s ≡ k.devices s
  pub refs : κ.refs r.1 ≡ κ.refs k
  pub counted : (s i : ℕ) → k.devices s ≢ 0 → κ.count r.1 (k.devices s) i ≡ held s i left + kept s i

abbrev one_more : ResourceRef → (ℕ → ℕ → ℕ) → ℕ → ℕ → ℕ
one_more r kept s i = if is_at s i r then suc (kept s i) else kept s i

module _ {κ : Kind} {k : Kernel} (r : ResourceRef) (rest : List ResourceRef) (kept : ℕ → ℕ → ℕ)
    (h : Pending κ k (r ∷ rest) kept) where
  pass_by : Pending κ k rest (one_more r kept)
  unfolding held
  pass_by = record {
    counted = λ s i n. ground (arith, h.counted s i);
    managed = λ s i n. ground (arith, h.managed s i);
    distinct = h.distinct;
  }

  device_there : k.devices r.device_index ≢ 0
  unfolding held
  device_there e = ground (arith, h.managed r.device_index r.resource_index e)

  count_there : κ.count k (k.devices r.device_index) r.resource_index ≢ 0
  unfolding held
  count_there e = ground (arith, h.counted r.device_index r.resource_index device_there)

  its_slot : (s : ℕ) → k.devices s ≡ k.devices r.device_index → s ≡ r.device_index
  its_slot s e = elim (ℕ_discrete s r.device_index) [
    | yes q ↦ q
    | no q ↦ absurd (h.distinct r.device_index s (λ q'. q (sym q')) device_there (sym e))
  ]

  after_decr :
      {k' : Kernel} {list : List ResourceRef}
      → Sets κ
          (k.devices r.device_index)
          r.resource_index
          (κ.count k (k.devices r.device_index) r.resource_index - 1)
          list
          k
          k'
      → Pending κ k' rest kept
  unfolding held
  after_decr e = record {
    counted =
        λ s i n. ground (arith, e.devices s, e.count (k.devices s) i, h.counted s i, its_slot s);
    managed = λ s i n. ground (arith, h.managed s i, e.devices s);
    distinct = λ s t d n. ground (arith, e.devices s, e.devices t, h.distinct s t d);
  }

from-Freed :
    {κ : Kind} {p i n : ℕ} {k k1 : Kernel} {left : List ResourceRef} {kept : ℕ → ℕ → ℕ}
    {r : Result (List ResourceRef) × Kernel}
    → Sets κ p i n (κ.refs k) k k1
    → Freed κ k1 left kept r
    → Freed κ k left kept r
from-Freed {k} e f = record {
  returns = f.returns;
  devices = λ s. f.devices s ∙ e.devices s;
  refs = f.refs ∙ e.refs;
  counted = λ s j n. ground (arith, e.devices s, f.counted s j);
}

keep-Freed :
    {κ : Kind} {k : Kernel} {left : List ResourceRef} {kept : ℕ → ℕ → ℕ} (r : ResourceRef)
    (rest : M (List ResourceRef))
    → Freed κ k left (one_more r kept) (rest k)
    → Freed κ k (r ∷ left) kept ((rest >>= λ l. pure (r ∷ l)) k)
unfolding ◌>>=◌ held
keep-Freed {k} r rest f = rw (bind_of_ok rest (λ l. pure (r ∷ l)) k f.returns) (record {
  returns = refl;
  devices = f.devices;
  refs = f.refs;
  counted = λ s i n. ground (arith, f.counted s i);
})

module _ {κ : Kind} {decr : ℕ → ℕ → M (Unit {0})} (c : CountsDown κ decr) (pid : ℕ) where
  pub free_refs-Freed :
      (refs : List ResourceRef) (kept : ℕ → ℕ → ℕ) (k : Kernel)
      → Pending κ k refs kept
      → Freed κ k (others pid refs) kept (free_refs decr pid refs k)
  unfolding free_refs others
  free_refs-Freed [] kept k h = record {
    returns = refl;
    devices = λ s. refl;
    refs = refl;
    counted = h.counted;
  }
  free_refs-Freed (r ∷ rs) kept k h = elim (Bool-cases (r.pid == pid)) [
    | inl e ↦
        let p = k.devices r.device_index in
        let d = c.down p r.resource_index k (device_there r rs kept h) (count_there r rs kept h) in
        rw
          (
            e,
            bind_of_ok (λ k'. ignore (decr (k'.devices r.device_index) r.resource_index) k')
                (λ _. free_refs decr pid rs) k d.0,
          )
          (from-Freed d.1 (free_refs-Freed rs kept _ (after_decr r rs kept h d.1)))
    | inr e ↦ rw e (
        keep-Freed r (free_refs decr pid rs)
          (free_refs-Freed rs (one_more r kept) k (pass_by r rs kept h)))
  ]

module _ {P : Kernel → Type 0} (decr : ℕ → ℕ → M (Unit {0})) (keep : (p i : ℕ) → Keeps P (decr p i))
    (pid : ℕ) where
  pub Keeps-free_refs : (refs : List ResourceRef) → Keeps P (free_refs decr pid refs)
  unfolding free_refs
  Keeps-free_refs [] = Keeps-pure []
  Keeps-free_refs (r ∷ rs) = elim (Bool-cases (r.pid == pid)) [
    | inl e ↦ rw e (
        Keeps-bind _ _
          (record {
            at = λ k h. (Keeps-ignore _ (keep (k.devices r.device_index) r.resource_index)).at k h;
          })
          (λ _. Keeps-free_refs rs))
    | inr e ↦ rw e (Keeps-bind _ _ (Keeps-free_refs rs) (λ left. Keeps-pure (r ∷ left)))
  ]
