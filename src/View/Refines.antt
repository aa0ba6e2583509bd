-- ===== src/View/Refines.antt =====
-- The manager implements the ledger.
use cuddl.Base.{ℕ, refl, Bool-cases, true, inl, inr, List, [], ◌∷◌, Result, ok, err, fault}
use mathlib.Core.Path.{subst}
use cuddl.Kernel.{Kernel, M, ResourceRef, ◌>>=◌, with_lock, unlocked, continue}
use cuddl.Refs.{free_refs_for_pid}
use cuddl.Refs.Cleanup.{others}
use cuddl.Refs.Exit.{free_refs_for_pid-CleanedUp}
use cuddl.Ioctl.{dispatch, finish, then_free, manager_ioctl}
use cuddl.Ioctl.Buffers.{all_buffers, all_freed, alloc_buffers}
use cuddl.Ioctl.Commands.{Call, Request}
use cuddl.Ioctl.Sound.{Sound}
use cuddl.Ioctl.Reach.{
  Reach, start, calls, exits, Reach-Sound, free_buffers-Keeps, alloc_buffers-Keeps,
}
use cuddl.View.Lists.{Lists}
use cuddl.View.Ledger.{Ledger, Equal, without_process, ledger, view, process_dropped}
use cuddl.View.Steps.{Deed, asks, deed, Done, Accounted, shown, same}
use cuddl.View.Commands.{dispatch-Accounted}

-- A result and a kernel, of which the ledger was `l` before.
abbrev Answers : Deed → Ledger → Result ℕ × Kernel → Type 0
Answers d l r = Accounted d l r.0 (view r.1)

module _ (d : Deed) (l : Ledger) where
  unlocked-Answers : (r : Result ℕ × Kernel) → Answers d l r → Answers d l (unlocked r)
  unlocked-Answers (ok n, k) h = h
  unlocked-Answers (err e, k) h = h
  unlocked-Answers (fault, k) h = h

  with_lock-Answers :
      (m : M ℕ) (k : Kernel)
      → Equal l (view k)
      → Answers d l (m (record k { locked = true }))
      → Answers d l (with_lock m k)
  unfolding with_lock
  with_lock-Answers m k e h = elim (Bool-cases k.locked) [
    | inl b ↦ rw b e
    | inr b ↦ rw b (unlocked-Answers _ h)
  ]

  then_free-Answers : (r : Result ℕ) (k : Kernel) → Answers d l (r, k) → Answers d l (then_free r k)
  then_free-Answers (ok n) k h =
      (free_buffers-Keeps (λ q. Answers d l (ok n, q)) (λ q bs g. g) all_freed).at k h
  then_free-Answers (err e) k h =
      (free_buffers-Keeps (λ q. Answers d l (err e, q)) (λ q bs g. g) all_freed).at k h
  then_free-Answers fault k h = h

  continue-Answers :
      (r : Result (Unit {0})) (m : M ℕ) (k : Kernel)
      → Equal l (view k)
      → Answers d l (m k)
      → Answers d l (continue r (λ u. m) k)
  continue-Answers (ok u) m k e h = h
  continue-Answers (err c) m k e h = e
  continue-Answers fault m k e h = e

-- The ledger before, read off other lists that are the same.
reread :
    (d : Deed) (m e : List ResourceRef) (k : Kernel) (r : Result ℕ × Kernel)
    → Lists m e k
    → Answers d (view k) r
    → Answers d (ledger m e) r
reread d m e k r h a =
    subst (λ x. Answers d (ledger m x) r) h.1
      (subst (λ x. Answers d (ledger x k.event_refs) r) h.0 a)

-- Whatever the state, the command and the results of the calls outside: when cuddlk_manager_ioctl
-- returns an error code, the ledger is as before; a claim that succeeds has added one reference of
-- its process, to a resource in one of the slots; a release that succeeds has taken away one
-- reference of its process to the resource that its token names, if it had one; and no other command
-- changes the ledger.
pub manager_ioctl-Accounted :
    (c : Call) (page_size : ℕ) (request : Request) (k : Kernel)
    → let (r, k') = manager_ioctl c page_size request k in
      Accounted (deed request) (view k) r (view k')
unfolding manager_ioctl ◌>>=◌ finish
manager_ioctl-Accounted c page_size request k =
    continue-Answers d l (alloc_buffers c.kzalloc [] all_buffers k).0 _ k1 as_before (
      then_free-Answers d l (with_lock body k1).0 (with_lock body k1).1 (
        with_lock-Answers d l body k1 as_before (
          reread d k.mem_refs k.event_refs k1 (body (record k1 { locked = true })) lists
            (dispatch-Accounted (record k1 { locked = true }) c page_size request))))
  where
    d : Deed
    d = deed request

    l : Ledger
    l = view k

    k1 : Kernel
    k1 = (alloc_buffers c.kzalloc [] all_buffers k).1

    body : M ℕ
    body = dispatch c page_size request

    lists : Lists k.mem_refs k.event_refs k1
    lists =
        (alloc_buffers-Keeps (λ q. Lists k.mem_refs k.event_refs q) (λ q bs h. h) c.kzalloc []
            all_buffers).at
          k (refl, refl)

    as_before : Equal l (view k1)
    as_before = shown l k.mem_refs k.event_refs k1 (same k.mem_refs k.event_refs) lists

-- What a step of a run is to the ledger: a deed that the manager has done, or the exit of a process.
pub data Event : Type 0 where
  done : Deed → Event
  exited : ℕ → Event

-- A call that returns an error code, or does not return, has done nothing.
abbrev pub answered : Deed → Result ℕ → Event
answered d (ok n) = done d
answered d (err e) = done asks
answered d fault = done asks

-- The events of a run, the latest first: what its calls have asked for and were answered, and its exits.
abbrev pub events : {k k' : Kernel} → Reach k k' → List Event
events start = []
events (calls {k'} c page_size request r o) =
    answered (deed request) (manager_ioctl c page_size request k').0 ∷ events r
events (exits pid r free) = exited pid ∷ events r

-- What these events make of a ledger.
pub data History (l : Ledger) : List Event → Ledger → Type 0 where
  begins : History l [] l
  does :
      {es : List Event} {l' l'' : Ledger} (d : Deed)
      → History l es l'
      → Done d l' l''
      → History l (done d ∷ es) l''
  ends :
      {es : List Event} {l' l'' : Ledger} (p : ℕ)
      → History l es l'
      → Equal (without_process p l') l''
      → History l (exited p ∷ es) l''

one_step :
    {l l' l'' : Ledger} {es : List Event} (d : Deed) (r : Result ℕ)
    → History l es l'
    → Accounted d l' r l''
    → History l (answered d r ∷ es) l''
one_step d (ok n) h a = does d h a
one_step d (err e) h a = does asks h a
one_step d fault h a = does asks h a

-- A run of the manager, of calls that obey and of exits of processes, from a state in which all counts
-- are those of the references, makes of the ledger what its steps say, one after the other: a claim of
-- a process that succeeds adds one reference of this process and this kind, a release that succeeds
-- takes away one of its process to the resource that its token names, the exit of a process takes away
-- exactly all of its references, and every other step nothing.
pub Reach-History :
    {k k' : Kernel} → Sound k → (r : Reach k k') → History (view k) (events r) (view k')
Reach-History h start = begins
Reach-History h (calls c page_size request r o) =
    one_step (deed request) _ (Reach-History h r) (manager_ioctl-Accounted c page_size request _)
Reach-History {k} h (exits {k' = k1} pid r free) =
    let g = Reach-Sound h r in
    let f = free_refs_for_pid-CleanedUp pid k1 free g.regions g.sources in
    ends pid (Reach-History h r) (
      shown _ (others pid k1.mem_refs) (others pid k1.event_refs) (free_refs_for_pid pid k1).1
        (process_dropped pid k1.mem_refs k1.event_refs) (f.mem_refs, f.event_refs))
