-- ===== src/User/SetLaws.antt =====
-- Sets of event sources (user/src/cuddl_linux.c) as the descriptors that were added last.
use cuddl.Base.{
  ℕ, ◌<◌, ◌≤◌, ◌≡◌, refl, sym, ◌∙◌, ap, Bool, true, false, List, [], ◌∷◌, Result, ok, arith, ◌==◌,
  if◌then◌else◌,
}
use mathlib.Core.Path.{subst}
use cuddl.Act.{◌>>=◌, pure, bind_of_ok}
use cuddl.User.{Process, U, EventHandle, EventSet}
use cuddl.User.FdSet.{fits_fd_set}
use cuddl.User.EventSets.{
  eventsrcset_zero, eventsrcset_add, eventsrcset_remove, eventsrcset_contains, set_added,
  set_removed,
}

pub data SetCall : Type 0 where
  adds removes : EventHandle → SetCall

-- The calls in their order.
unfoldable pub run : List SetCall → EventSet → U EventSet
unfolding ◌>>=◌ eventsrcset_add eventsrcset_remove
run [] set = pure set
run (adds e ∷ calls) set = eventsrcset_add set e >>= run calls
run (removes e ∷ calls) set = eventsrcset_remove set e >>= run calls

-- Whether a descriptor that was a member if `b` is one after the calls.
unfoldable pub member_after : List SetCall → ℕ → Bool → Bool
member_after [] fd b = b
member_after (adds e ∷ calls) fd b = member_after calls fd (if e.fd == fd then true else b)
member_after (removes e ∷ calls) fd b = member_after calls fd (if e.fd == fd then false else b)

-- All descriptors fit into a set.
abbrev pub Fit : List SetCall → Type 0
Fit [] = Unit {0}
Fit (adds e ∷ calls) = (e.fd < 1024) × Fit calls
Fit (removes e ∷ calls) = (e.fd < 1024) × Fit calls

-- `set` has the members that `b` says, none above its greatest descriptor.
pub record Has (b : ℕ → Bool) (set : EventSet) : Type 0 where
  pub members : (fd : ℕ) → set.fds fd ≡ b fd
  pub bounded : (fd : ℕ) → set.fds fd ≡ true → fd ≤ set.max_fd
  pub small : set.max_fd < 1024

fits : (fd : ℕ) (p : Process) → fd < 1024 → fits_fd_set fd p ≡ (ok tt, p)
unfolding fits_fd_set pure
fits fd p l = ground arith

added :
    (e : EventHandle) (set : EventSet) (p : Process)
    → e.fd < 1024
    → eventsrcset_add set e p ≡ (ok (set_added set e), p)
unfolding eventsrcset_add ◌>>=◌ pure
added e set p l = rw (fits e.fd p l)

removed :
    (e : EventHandle) (set : EventSet) (p : Process)
    → e.fd < 1024
    → eventsrcset_remove set e p ≡ (ok (set_removed set e), p)
unfolding eventsrcset_remove ◌>>=◌ pure
removed e set p l = rw (fits e.fd p l)

module _ (b : ℕ → Bool) (set : EventSet) (h : Has b set) (e : EventHandle) where
  added-Has : e.fd < 1024 → Has (λ fd. if e.fd == fd then true else b fd) (set_added set e)
  added-Has l = record {
    members = λ fd. ground (arith, h.members fd);
    bounded = λ fd m. ground (arith, h.bounded fd);
    small = ground (arith, h.small);
  }

  removed-Has : Has (λ fd. if e.fd == fd then false else b fd) (set_removed set e)
  removed-Has = record {
    members = λ fd. ground (arith, h.members fd);
    bounded = λ fd m. ground (arith, h.bounded fd);
    small = h.small;
  }

-- What a sequence of calls leaves.
pub record Built (b : ℕ → Bool) (calls : List SetCall) (p : Process) (r : Result EventSet × Process)
    : Type 0 where
  pub set : EventSet
  pub returns : r ≡ (ok set, p)
  pub has : Has (λ fd. member_after calls fd (b fd)) set

run-Built :
    (calls : List SetCall) (b : ℕ → Bool) (set : EventSet) (p : Process)
    → Fit calls
    → Has b set
    → Built b calls p (run calls set p)
unfolding run member_after pure
run-Built [] b set p f h = record { set = set; returns = refl; has = h }
run-Built (adds e ∷ calls) b set p f h =
    subst (λ r. Built b (adds e ∷ calls) p r)
      (sym (
        bind_of_ok (eventsrcset_add set e) (run calls) p (ap (λ r. r.0) (added e set p f.0))
        ∙ ap (λ r. run calls (set_added set e) r.1) (added e set p f.0)))
      (let t = run-Built calls _ (set_added set e) p f.1 (added-Has b set h e f.0) in
        record { set = t.set; returns = t.returns; has = t.has })
run-Built (removes e ∷ calls) b set p f h =
    subst (λ r. Built b (removes e ∷ calls) p r)
      (sym (
        bind_of_ok (eventsrcset_remove set e) (run calls) p (ap (λ r. r.0) (removed e set p f.0))
        ∙ ap (λ r. run calls (set_removed set e) r.1) (removed e set p f.0)))
      (let t = run-Built calls _ (set_removed set e) p f.1 (removed-Has b set h e) in
        record { set = t.set; returns = t.returns; has = t.has })

zero-Has : Has (λ fd. false) eventsrcset_zero
unfolding eventsrcset_zero
zero-Has = record { members = λ fd. refl; bounded = λ fd m. ground arith; small = omega arith }

contained :
    (e : EventHandle) (set : EventSet) (p : Process)
    → e.fd < 1024
    → eventsrcset_contains set e p ≡ (ok (set.fds e.fd), p)
unfolding eventsrcset_contains ◌>>=◌ pure
contained e set p l = rw (fits e.fd p l)

-- Calls of eventsrcset_add and _remove on a set that eventsrcset_zero has emptied, with descriptors
-- below 1024, return and leave the process alone; in the set that they leave, eventsrcset_contains
-- answers for each event source as the last of the calls with its descriptor says, and 0 when there
-- is none; and no member is above the greatest descriptor of the set.
pub run-contains :
    (calls : List SetCall) (e : EventHandle) (p : Process)
    → Fit calls
    → e.fd < 1024
    → (set : EventSet) × (run calls eventsrcset_zero p ≡ (ok set, p))
      × (eventsrcset_contains set e p ≡ (ok (member_after calls e.fd false), p))
      × (set.fds e.fd ≡ true → e.fd ≤ set.max_fd)
run-contains calls e p f l =
    let t = run-Built calls (λ fd. false) eventsrcset_zero p f zero-Has in
    (
      t.set,
      t.returns,
      contained e t.set p l ∙ ap (λ b. (ok b, p)) (t.has.members e.fd),
      t.has.bounded e.fd,
    )
