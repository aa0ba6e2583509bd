-- ===== src/User/Recorded/Waits.antt =====
-- What opening an event source (user/src/cuddl_linux.c) writes to its descriptor and reads from it
-- concerns nothing but the clock.
use cuddl.Base.{ℕ, ◌+◌, ◌∷◌, Bool, true, false, etimedout, update, ltb, if◌then◌else◌}
use cuddl.Act.{pure, hang, check}
use cuddl.Act.Keeps.{Keeps, Keeps-bind, Keeps-lift, Keeps-pure, Keeps-check, Keeps-hang}
use cuddl.Ioctl.Commands.{int_result}
use cuddl.User.{
  Env, Process, EventHandle, Timeval, adjust, with_read, next, code, sys_read, sys_write,
  sys_select,
}
use cuddl.User.FdSet.{fd_zero, fd_setsize, fits_fd_set}
use cuddl.User.Eventsrc.{
  timeval_of, no_time, eventsrc_timed_wait, eventsrc_try_wait, eventsrc_disable,
}
use cuddl.User.Recorded.{Aside, Keeps-next}

module _ {P : Process → Type 0} (aside : Aside P) (env : Env) (eventsrc : EventHandle) where
  Keeps-write : (fd value : ℕ) → Keeps P (sys_write env fd value)
  unfolding sys_write
  Keeps-write fd value =
      Keeps-bind (next env) _ (Keeps-next aside env) λ o. Keeps-lift (code (o.writes fd value))

  Keeps-with_read : (fd : ℕ) → Keeps P (adjust (with_read fd))
  unfolding adjust
  Keeps-with_read fd = record { at = λ p h. aside.read_from p (fd ∷ p.read_from) h }

  Keeps-read : (fd : ℕ) → Keeps P (sys_read env fd)
  unfolding sys_read
  Keeps-read fd =
      Keeps-bind (next env) _ (Keeps-next aside env)
        λ o. Keeps-bind (adjust (with_read fd)) _ (Keeps-with_read fd) λ u. Keeps-lift (o.reads fd)

  Keeps-select : (n : ℕ) (fds : ℕ → Bool) (tv : Timeval) → Keeps P (sys_select env n fds tv)
  unfolding sys_select
  Keeps-select n fds tv =
      Keeps-bind (next env) _ (Keeps-next aside env) λ o. Keeps-lift (o.selects n fds tv)

  Keeps-fits : (fd : ℕ) → Keeps P (fits_fd_set fd)
  unfolding fits_fd_set
  Keeps-fits fd = either (ltb fd fd_setsize)
    where
      either : (b : Bool) → Keeps P (if b then pure tt else hang)
      either true = Keeps-pure tt
      either false = Keeps-hang

  pub Keeps-disable : Keeps P (eventsrc_disable env eventsrc)
  unfolding eventsrc_disable
  Keeps-disable =
      Keeps-bind (sys_write env eventsrc.fd 0) _ (Keeps-write eventsrc.fd 0) λ u. Keeps-pure 0

  pub Keeps-try_wait : Keeps P (eventsrc_try_wait env eventsrc)
  unfolding eventsrc_try_wait eventsrc_timed_wait
  Keeps-try_wait = Keeps-bind (fits_fd_set eventsrc.fd) _ (Keeps-fits eventsrc.fd) λ u.
      Keeps-bind
        (sys_select env (eventsrc.fd + 1) (update fd_zero eventsrc.fd true) (timeval_of no_time)) _
        (Keeps-select _ _ _)
        λ fds.
          Keeps-bind (check (fds eventsrc.fd) etimedout) _ (Keeps-check (fds eventsrc.fd) etimedout)
            λ v.
              Keeps-bind (sys_read env eventsrc.fd) _ (Keeps-read eventsrc.fd)
                λ count. Keeps-lift (int_result count)
