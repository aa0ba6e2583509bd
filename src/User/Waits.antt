-- ===== src/User/Waits.antt =====
-- Waiting for events, and looking a resource up first, leave the descriptors as they are.
use cuddl.Base.{
  ℕ, refl, zero, suc, ◌+◌, Bool, true, false, List, Errno, Result, ok, err, fault, Bool-cases, inl,
  inr, not, ◌==◌, etimedout, update, ltb,
}
use cuddl.Act.{pure, raise, hang, lift, check, ◌>>=◌}
use cuddl.Act.Triples.{Triple, Triple-bind}
use cuddl.Ioctl.Commands.{int_result}
use cuddl.User.{
  Env, Process, U, EventHandle, EventSet, code, Timeval, sys_read, sys_write, sys_select, adjust,
}
use cuddl.User.FdSet.{fd_zero, fits_fd_set, fd_setsize}
use cuddl.User.Descriptors.{Open, Left, Left-Ends, Sure-Ends, done-Left, adjust-Sure}
use cuddl.User.Eventsrc.{
  Timespec, timeval_of, eventsrc_wait, eventsrc_timed_wait, eventsrc_try_wait, eventsrc_enable,
  eventsrc_disable, no_time,
}
use cuddl.User.EventSets.{with_ready, read_ready, eventsrcset_timed_wait}

module _ (maps fds : List ℕ) where
  given-Left : {A : Type 0} (r : Result A) (p : Process) → Open maps fds p → Left maps fds r p
  given-Left (ok a) p h = h
  given-Left (err e) p h = h
  given-Left fault p h = tt

  pub lift-Left : {A : Type 0} (r : Result A) → Triple (Open maps fds) (lift r) (Left maps fds)
  unfolding lift
  lift-Left r = record { at = λ p h. given-Left r p h }

  check-Left : (b : Bool) (e : Errno) → Triple (Open maps fds) (check b e) (Left maps fds)
  unfolding check pure raise
  check-Left true e = record { at = λ p h. h }
  check-Left false e = record { at = λ p h. h }

  fits-Left : (fd : ℕ) → Triple (Open maps fds) (fits_fd_set fd) (Left maps fds)
  unfolding fits_fd_set pure hang
  fits-Left fd = elim (Bool-cases (ltb fd fd_setsize)) [
    | inl e ↦ rw e (record { at = λ p h. h })
    | inr e ↦ rw e (record { at = λ p h. tt })
  ]

  pub then-Left :
      {A B : Type 0} (m : U A) (f : A → U B)
      → Triple (Open maps fds) m (Left maps fds)
      → ((a : A) → Triple (Open maps fds) (f a) (Left maps fds))
      → Triple (Open maps fds) (m >>= f) (Left maps fds)
  then-Left m f t u = Triple-bind m f t (Left-Ends maps fds) u

  module _ (env : Env) where
    sys_read-Left : (fd : ℕ) → Triple (Open maps fds) (sys_read env fd) (Left maps fds)
    unfolding sys_read
    sys_read-Left fd = record { at = λ p h. given-Left ((env.script p.clock).reads fd) _ h }

    sys_write-Left : (fd n : ℕ) → Triple (Open maps fds) (sys_write env fd n) (Left maps fds)
    unfolding sys_write
    sys_write-Left fd n = record {
      at = λ p h. given-Left (code ((env.script p.clock).writes fd n)) _ h;
    }

    sys_select-Left :
        (n : ℕ) (s : ℕ → Bool) (tv : Timeval)
        → Triple (Open maps fds) (sys_select env n s tv) (Left maps fds)
    unfolding sys_select
    sys_select-Left n s tv = record {
      at = λ p h. given-Left ((env.script p.clock).selects n s tv) _ h;
    }

    pub eventsrc_wait-Left :
        (e : EventHandle) → Triple (Open maps fds) (eventsrc_wait env e) (Left maps fds)
    unfolding eventsrc_wait
    eventsrc_wait-Left e =
        then-Left (sys_read env e.fd) _ (sys_read-Left e.fd) λ n. lift-Left (int_result n)

    pub eventsrc_timed_wait-Left :
        (e : EventHandle) (t : Timespec)
        → Triple (Open maps fds) (eventsrc_timed_wait env e t) (Left maps fds)
    unfolding eventsrc_timed_wait
    eventsrc_timed_wait-Left e t = then-Left (fits_fd_set e.fd) _ (fits-Left e.fd) λ _.
        then-Left (sys_select env _ _ _) _
          (sys_select-Left _ (update fd_zero e.fd true) (timeval_of t))
          λ s.
            then-Left (check (s e.fd) etimedout) _ (check-Left (s e.fd) etimedout) λ _.
              then-Left (sys_read env e.fd) _ (sys_read-Left e.fd) λ n. lift-Left (int_result n)

    pub eventsrc_try_wait-Left :
        (e : EventHandle) → Triple (Open maps fds) (eventsrc_try_wait env e) (Left maps fds)
    unfolding eventsrc_try_wait
    eventsrc_try_wait-Left e = eventsrc_timed_wait-Left e no_time

    pub eventsrc_enable-Left :
        (e : EventHandle) → Triple (Open maps fds) (eventsrc_enable env e) (Left maps fds)
    unfolding eventsrc_enable
    eventsrc_enable-Left e =
        then-Left (sys_write env e.fd 1) _ (sys_write-Left e.fd 1) λ _. done-Left maps fds 0

    pub eventsrc_disable-Left :
        (e : EventHandle) → Triple (Open maps fds) (eventsrc_disable env e) (Left maps fds)
    unfolding eventsrc_disable
    eventsrc_disable-Left e =
        then-Left (sys_write env e.fd 0) _ (sys_write-Left e.fd 0) λ _. done-Left maps fds 0

    read_ready-Left :
        (s : ℕ → Bool) (fd rounds n : ℕ)
        → Triple (Open maps fds) (read_ready env s fd rounds n) (Left maps fds)
    unfolding read_ready
    read_ready-Left s fd zero n = done-Left maps fds n
    read_ready-Left s fd (suc rounds) n = elim (Bool-cases (s fd)) [
      | inl e ↦ rw e (
          then-Left (sys_read env fd) _ (sys_read-Left fd)
            λ _. read_ready-Left s (suc fd) rounds (n + 1))
      | inr e ↦ rw e (read_ready-Left s (suc fd) rounds n)
    ]

    pub eventsrcset_timed_wait-Left :
        (set : EventSet) (t : Timespec)
        → Triple (Open maps fds) (eventsrcset_timed_wait env set t) (Left maps fds)
    unfolding eventsrcset_timed_wait
    eventsrcset_timed_wait-Left set t =
        Triple-bind (adjust (with_ready set set.fds)) _
          (adjust-Sure maps fds _ (λ p. refl) (λ p. refl)) (Sure-Ends maps fds fds)
          λ _.
            then-Left (sys_select env _ _ _) _
              (sys_select-Left (set.max_fd + 1) set.fds (timeval_of t))
              λ s.
                Triple-bind (adjust (with_ready set s)) _
                  (adjust-Sure maps fds _ (λ p. refl) (λ p. refl)) (Sure-Ends maps fds fds)
                  λ _.
                    then-Left (read_ready env s 0 _ 0) _ (read_ready-Left s 0 (set.max_fd + 1) 0)
                      λ n.
                        then-Left (check (not (n == 0)) etimedout) _
                          (check-Left (not (n == 0)) etimedout) λ _. done-Left maps fds n
