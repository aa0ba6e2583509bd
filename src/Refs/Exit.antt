-- ===== src/Refs/Exit.antt =====
-- cuddlk_manager_free_refs_for_pid as a whole.
use cuddl.Base.{ℕ, ◌≤◌, ◌≡◌, refl, ◌∙◌, Bool, List, [], ◌∷◌, ok, true, false, arith, Result}
use cuddl.Kernel.{Kernel, ResourceRef, M, bind_of_ok, with_lock_of_ok}
use cuddl.Kernel.Keeps.{Keeps}
use cuddl.Refs.{
  memregion_decr_ref_count, eventsrc_decr_ref_count, free_refs, free_mem_refs, free_event_refs,
  free_refs_body, free_refs_for_pid, set_mem_refs, set_event_refs,
}
use cuddl.Refs.Counted.{Kind, memregions, eventsrcs, Counted, Same, Same-Counted, Same-refl, held}
use cuddl.Refs.Cleanup.{
  others, memregion_decr-CountsDown, eventsrc_decr-CountsDown, Pending, Freed, free_refs-Freed,
  Keeps-free_refs,
}

held-others-le :
    (pid s i : ℕ) (refs : List ResourceRef) → held s i (others pid refs) ≤ held s i refs
unfolding held others
held-others-le pid s i [] = omega arith
held-others-le pid s i (r ∷ rs) = ground (arith, held-others-le pid s i rs)

Pending-all : {κ : Kind} {k : Kernel} → Counted κ k → Pending κ k (κ.refs k) (λ s i. 0)
Pending-all h = record {
  counted = λ s i n. ground (arith, h.counted s i);
  managed = h.managed;
  distinct = h.distinct;
}

-- Once the list is what the loop has left, the counts fit it again.
Freed-Counted :
    {κ : Kind} {k k' : Kernel} (pid : ℕ) {r : Result (List ResourceRef) × Kernel}
    → Counted κ k
    → Freed κ k (others pid (κ.refs k)) (λ s i. 0) r
    → ((s : ℕ) → k'.devices s ≡ r.1.devices s)
    → κ.refs k' ≡ others pid (κ.refs k)
    → ((q j : ℕ) → κ.count k' q j ≡ κ.count r.1 q j)
    → Counted κ k'
Freed-Counted {κ} {k} pid h f devices refs count = record {
  counted =
      λ s i n. ground (arith, refs, devices s, f.devices s, count (k.devices s) i, f.counted s i);
  managed = λ s i n.
      ground
        (arith, refs, devices s, f.devices s, h.managed s i, held-others-le pid s i (κ.refs k));
  distinct =
      λ s t d n. ground (arith, devices s, devices t, f.devices s, f.devices t, h.distinct s t d);
}

pub eventsrcs_stay :
    (k0 : Kernel) (p i : ℕ) → Keeps (Same eventsrcs k0) (memregion_decr_ref_count p i)
unfolding memregion_decr_ref_count
eventsrcs_stay k0 p i = record {
  at = λ k h. record {
    devices = λ s. ground (arith, h.devices s);
    refs = ground (arith, h.refs);
    count = λ q j. ground (arith, h.count q j);
  };
}

pub memregions_stay :
    (k0 : Kernel) (p i : ℕ) → Keeps (Same memregions k0) (eventsrc_decr_ref_count p i)
unfolding eventsrc_decr_ref_count
memregions_stay k0 p i = record {
  at = λ k h. record {
    devices = λ s. ground (arith, h.devices s);
    refs = ground (arith, h.refs);
    count = λ q j. ground (arith, h.count q j);
  };
}

-- What one half of the clean-up does to the references of its kind and of the other.
record HalfClean (κ other_kind : Kind) (pid : ℕ) (k : Kernel) (r : Result (Unit {0}) × Kernel)
    : Type 0 where
  returns : r.0 ≡ ok tt
  refs : κ.refs r.1 ≡ others pid (κ.refs k)
  counted : Counted κ r.1
  other : Same other_kind k r.1

free_mem_refs-HalfClean :
    (pid : ℕ) (k : Kernel)
    → Counted memregions k
    → HalfClean memregions eventsrcs pid k (free_mem_refs pid k)
unfolding free_mem_refs
free_mem_refs-HalfClean pid k h = rw (bind_of_ok loop set_mem_refs k f.returns) (record {
  returns = refl;
  refs = refl;
  counted = Freed-Counted pid h f (λ s. refl) refl (λ q j. refl);
  other = record { devices = same.devices; refs = same.refs; count = same.count };
})
  where
    loop : M (List ResourceRef)
    loop = free_refs memregion_decr_ref_count pid k.mem_refs

    f : Freed memregions k (others pid k.mem_refs) (λ s i. 0) (loop k)
    f = free_refs-Freed memregion_decr-CountsDown pid k.mem_refs (λ s i. 0) k (Pending-all h)

    same : Same eventsrcs k (loop k).1
    same =
        (Keeps-free_refs memregion_decr_ref_count (eventsrcs_stay k) pid k.mem_refs).at k
          (Same-refl eventsrcs k)

free_event_refs-HalfClean :
    (pid : ℕ) (k : Kernel)
    → Counted eventsrcs k
    → HalfClean eventsrcs memregions pid k (free_event_refs pid k)
unfolding free_event_refs
free_event_refs-HalfClean pid k h = rw (bind_of_ok loop set_event_refs k f.returns) (record {
  returns = refl;
  refs = refl;
  counted = Freed-Counted pid h f (λ s. refl) refl (λ q j. refl);
  other = record { devices = same.devices; refs = same.refs; count = same.count };
})
  where
    loop : M (List ResourceRef)
    loop = free_refs eventsrc_decr_ref_count pid k.event_refs

    f : Freed eventsrcs k (others pid k.event_refs) (λ s i. 0) (loop k)
    f = free_refs-Freed eventsrc_decr-CountsDown pid k.event_refs (λ s i. 0) k (Pending-all h)

    same : Same memregions k (loop k).1
    same =
        (Keeps-free_refs eventsrc_decr_ref_count (memregions_stay k) pid k.event_refs).at k
          (Same-refl memregions k)

pub memregions_relocked :
    {k : Kernel} (b : Bool) → Counted memregions k → Counted memregions (record k { locked = b })
memregions_relocked b h = record { counted = h.counted; managed = h.managed; distinct = h.distinct }

pub eventsrcs_relocked :
    {k : Kernel} (b : Bool) → Counted eventsrcs k → Counted eventsrcs (record k { locked = b })
eventsrcs_relocked b h = record { counted = h.counted; managed = h.managed; distinct = h.distinct }

-- What the clean-up after process `pid` leaves.
pub record CleanedUp (pid : ℕ) (k : Kernel) (r : Result (Unit {0}) × Kernel) : Type 0 where
  pub returns : r.0 ≡ ok tt
  pub mem_refs : r.1.mem_refs ≡ others pid k.mem_refs
  pub event_refs : r.1.event_refs ≡ others pid k.event_refs
  pub memregions_counted : Counted memregions r.1
  pub eventsrcs_counted : Counted eventsrcs r.1
  pub devices : (s : ℕ) → r.1.devices s ≡ k.devices s
  pub unlocked : r.1.locked ≡ false

-- While the manager is not locked and the counts are those of the references, the clean-up after a
-- process follows no NULL pointer and returns. It leaves exactly the references of the other
-- processes, with the counts those of the references again, the table of devices as it was, and the
-- manager unlocked.
pub free_refs_for_pid-CleanedUp :
    (pid : ℕ) (k : Kernel)
    → k.locked ≡ false
    → Counted memregions k
    → Counted eventsrcs k
    → CleanedUp pid k (free_refs_for_pid pid k)
unfolding free_refs_for_pid free_refs_body
free_refs_for_pid-CleanedUp pid k free hm he =
    rw (with_lock_of_ok (free_refs_body pid) k free returns, body)
      (record {
        returns = refl;
        mem_refs = second.other.refs ∙ first.refs;
        event_refs = ground (arith, second.refs, first.other.refs);
        memregions_counted = memregions_relocked false (Same-Counted second.other first.counted);
        eventsrcs_counted = eventsrcs_relocked false second.counted;
        devices = λ s. second.other.devices s ∙ first.other.devices s;
        unlocked = refl;
      })
  where
    locked : Kernel
    locked = record k { locked = true }

    first : HalfClean memregions eventsrcs pid locked (free_mem_refs pid locked)
    first = free_mem_refs-HalfClean pid locked (memregions_relocked true hm)

    middle : Kernel
    middle = (free_mem_refs pid locked).1

    events : Counted eventsrcs middle
    events = Same-Counted first.other (eventsrcs_relocked true he)

    second : HalfClean eventsrcs memregions pid middle (free_event_refs pid middle)
    second = free_event_refs-HalfClean pid middle events

    body : free_refs_body pid locked ≡ free_event_refs pid middle
    body = bind_of_ok (free_mem_refs pid) (λ _. free_event_refs pid) locked first.returns

    returns : (free_refs_body pid locked).0 ≡ ok tt
    returns = rw body second.returns
