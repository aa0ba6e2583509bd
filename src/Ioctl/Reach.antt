-- ===== src/Ioctl/Reach.antt =====
-- Whole calls of cuddlk_manager_ioctl, and runs of many processes.
use cuddl.Base.{
  ℕ, ◌≡◌, Bool, Bool-cases, true, false, inl, inr, Result, ok, err, fault, List, [], ◌∷◌, enomem,
}
use cuddl.Kernel.{Kernel, M, Buffer, ◌>>=◌, with_lock, unlocked, continue}
use cuddl.Kernel.Keeps.{Keeps, Keeps-bind, Keeps-pure, Keeps-raise}
use cuddl.Refs.{free_refs_for_pid}
use cuddl.Refs.Exit.{memregions_relocked, eventsrcs_relocked, free_refs_for_pid-CleanedUp}
use cuddl.Ioctl.{dispatch, finish, then_free, manager_ioctl}
use cuddl.Ioctl.Buffers.{all_buffers, all_freed, alloc_buffers, free_buffers}
use cuddl.Ioctl.Commands.{Call, Request}
use cuddl.Ioctl.Sound.{Sound}
use cuddl.Ioctl.Duty.{Obeys, dispatch-Sound}

relocked : {k : Kernel} (b : Bool) → Sound k → Sound (record k { locked = b })
relocked b h = record {
  regions = memregions_relocked b h.regions;
  sources = eventsrcs_relocked b h.sources;
}

unlocked-Sound : (r : Result ℕ × Kernel) → Sound r.1 → Sound (unlocked r).1
unlocked-Sound (ok n, k) h = relocked false h
unlocked-Sound (err e, k) h = relocked false h
unlocked-Sound (fault, k) h = h

with_lock-Sound :
    (m : M ℕ) (k : Kernel)
    → Sound k
    → (Sound (record k { locked = true }) → Sound (m (record k { locked = true })).1)
    → Sound (with_lock m k).1
unfolding with_lock
with_lock-Sound m k h kept = elim (Bool-cases k.locked) [
  | inl e ↦ simp e h
  | inr e ↦ simp e (unlocked-Sound _ (kept (relocked true h)))
]

rebuffered : (k : Kernel) (bs : List Buffer) → Sound k → Sound (record k { buffers = bs })
rebuffered k bs h = record {
  regions = record {
    counted = h.regions.counted;
    managed = h.regions.managed;
    distinct = h.regions.distinct;
  };
  sources = record {
    counted = h.sources.counted;
    managed = h.sources.managed;
    distinct = h.sources.distinct;
  };
}

module _ (P : Kernel → Type 0)
    (other_buffers : (k : Kernel) (bs : List Buffer) → P k → P (record k { buffers = bs })) where
  pub free_buffers-Keeps : (bs : List Buffer) → Keeps P (free_buffers bs)
  unfolding free_buffers
  free_buffers-Keeps [] = Keeps-pure tt
  free_buffers-Keeps (b ∷ bs) = record {
    at = λ k h. (free_buffers-Keeps bs).at _ (other_buffers _ _ h);
  }

  pub alloc_buffers-Keeps :
      (f : Buffer → Bool) (done bs : List Buffer) → Keeps P (alloc_buffers f done bs)
  unfolding alloc_buffers
  alloc_buffers-Keeps f done [] = Keeps-pure tt
  alloc_buffers-Keeps f done (b ∷ bs) = elim (Bool-cases (f b)) [
    | inl e ↦
        rw e
          (record { at = λ k h. (alloc_buffers-Keeps f (b ∷ done) bs).at _ (other_buffers _ _ h) })
    | inr e ↦ rw e (Keeps-bind _ _ (free_buffers-Keeps done) (λ _. Keeps-raise enomem))
  ]

then_free-Sound : (r : Result ℕ) (k : Kernel) → Sound k → Sound (then_free r k).1
then_free-Sound (ok n) k h = (free_buffers-Keeps Sound rebuffered all_freed).at k h
then_free-Sound (err e) k h = (free_buffers-Keeps Sound rebuffered all_freed).at k h
then_free-Sound fault k h = h

finish-Sound : (m : M ℕ) (k : Kernel) → Sound (m k).1 → Sound (finish m k).1
unfolding finish
finish-Sound m k h = then_free-Sound (m k).0 (m k).1 h

locked_ioctl-Sound :
    (c : Call) (page_size : ℕ) (request : Request) (k : Kernel)
    → Sound k
    → Obeys c request k
    → Sound (finish (with_lock (dispatch c page_size request)) k).1
locked_ioctl-Sound c page_size request k h o =
    finish-Sound _ k (with_lock-Sound _ k h (λ h'. dispatch-Sound c page_size request _ h' o))

continue-Sound :
    (r : Result (Unit {0})) (m : M ℕ) (k : Kernel)
    → Sound k
    → Sound (m k).1
    → Sound (continue r (λ _. m) k).1
continue-Sound (ok _) m k h g = g
continue-Sound (err e) m k h g = h
continue-Sound fault m k h g = h

-- A call of cuddlk_manager_ioctl, with any command and whatever its calls outside return, keeps the
-- reference count of every resource of a managed device equal to the number of references to it,
-- for regions and for event sources, provided that the request obeys: a claim does not overflow a
-- count, a release is by a process that has the reference, the answer to an information request
-- reaches user space, and it is not one of the two commands that lower a count by hand.
pub manager_ioctl-Sound :
    (c : Call) (page_size : ℕ) (request : Request) (k : Kernel)
    → Sound k
    → Obeys c request k
    → Sound (manager_ioctl c page_size request k).1
unfolding manager_ioctl ◌>>=◌
manager_ioctl-Sound c page_size request k h o =
    continue-Sound (alloc_buffers c.kzalloc [] all_buffers k).0 _ _ both.0
      (locked_ioctl-Sound c page_size request _ both.0 both.1)
  where
    both :
        Sound (alloc_buffers c.kzalloc [] all_buffers k).1
        × Obeys c request (alloc_buffers c.kzalloc [] all_buffers k).1
    both =
        (alloc_buffers-Keeps (λ k. Sound k × Obeys c request k)
            (λ k bs g. (rebuffered k bs g.0, g.1)) c.kzalloc [] all_buffers).at
          k (h, o)

-- Runs: calls of processes that obey, and exits of processes.
pub data Reach (k : Kernel) : Kernel → Type 0 where
  start : Reach k k
  calls :
      {k' : Kernel} (c : Call) (page_size : ℕ) (request : Request)
      → Reach k k'
      → Obeys c request k'
      → Reach k (manager_ioctl c page_size request k').1
  exits :
      {k' : Kernel} (pid : ℕ)
      → Reach k k'
      → k'.locked ≡ false
      → Reach k (free_refs_for_pid pid k').1

-- After any run of calls that obey and of exits, in any order, from a state in which all counts are
-- those of the references, they are so again.
pub Reach-Sound : {k k' : Kernel} → Sound k → Reach k k' → Sound k'
Reach-Sound h start = h
Reach-Sound h (calls c page_size request r o) =
    manager_ioctl-Sound c page_size request _ (Reach-Sound h r) o
Reach-Sound h (exits pid r free) =
    let g = Reach-Sound h r in
    let d = free_refs_for_pid-CleanedUp pid _ free g.regions g.sources in
    record { regions = d.memregions_counted; sources = d.eventsrcs_counted }
