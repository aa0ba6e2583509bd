-- ===== src/User/Sources.antt =====
-- Opening an event source and closing it (user/src/cuddl_linux.c).
use cuddl.Base.{
  arith, ◌+◌, Bool, true, update, etimedout, ℕ, zero, suc, ◌≡◌, refl, Option, some, List, ◌∷◌,
  Result, ok, err, fault, ℤ,
}
use cuddl.Act.{pure, hang, check, ◌>>=◌, attempt, ignore}
use cuddl.Act.Keeps.{Keeps, Keeps-bind, Keeps-pure, Keeps-lift, Keeps-check}
use cuddl.User.FdSet.{fd_zero, fits_fd_set}
use cuddl.Act.Triples.{Triple, Triple-ignore, Ends, Triple-bind, Triple-attempt, Triple-on_error}
use cuddl.Kernel.{EventsrcInfo}
use cuddl.Ioctl.Commands.{int_result}
use cuddl.CStr.{Str}
use cuddl.User.{
  Env, Process, U, EventHandle, Timeval, adjust, sys_read, sys_write, sys_select, sys_open,
  sys_close,
}
use cuddl.User.Descriptors.{
  Open, Left, Sure, Left-Ends, Sure-Ends, ignored-Sure, done-Left, sys_open-Opened, sys_close-Left,
}
use cuddl.User.Tokens.{bare-Left, copied-Left, claimed_eventsrc-Left}
use cuddl.User.Waits.{lift-Left}
use cuddl.User.Memregion.{claim_data, release_data, first_int, or_return}
use cuddl.User.Eventsrc.{
  eventsrc_open, eventsrc_close, eventsrc_disable, eventsrc_try_wait, opened_source,
  eventsrc_timed_wait, no_time, timeval_of, eventsrc_claim, eventsrc_release,
  eventsrc_release_by_token, eventsrc_claim_request, eventsrc_release_request, claimed_eventsrc,
  eventsrc_open_or_release, eventsrc_claim_and_open, eventsrc_close_and_release,
}

Keeps-fits_fd_set : (P : Process → Type 0) (fd : ℕ) → Keeps P (fits_fd_set fd)
unfolding fits_fd_set pure hang
Keeps-fits_fd_set P fd = record { at = λ p h. ground arith }

module _ (maps fds : List ℕ) where
  -- The caller has been handed the event source, with its descriptor open.
  abbrev pub Opens : EventHandle → Process → Type 0
  Opens e p = Open maps (e.fd ∷ fds) p

  -- After a call that hands out an event source when it returns 0, and leaves nothing open else.
  abbrev pub Handed : Result ℕ → Process → Type 0
  Handed (ok zero) p = (e : EventHandle) × (p.source ≡ some e) × Opens e p
  Handed (ok (suc n)) p = Open maps fds p
  Handed (err e) p = Open maps fds p
  Handed fault p = Unit {0}

  -- The event source is stored, and its descriptor open.
  abbrev Held : EventHandle → Process → Type 0
  Held e p = (p.source ≡ some e) × Opens e p

  abbrev Stored : {A : Type 0} → EventHandle → Result A → Process → Type 0
  Stored e (ok a) p = Held e p
  Stored e (err c) p = ⊥
  Stored e fault p = Unit {0}

  module _ (env : Env) (e : EventHandle) where
    Keeps-write : (fd n : ℕ) → Keeps (Held e) (sys_write env fd n)
    unfolding sys_write
    Keeps-write fd n = record { at = λ p h. h }

    Keeps-read : (fd : ℕ) → Keeps (Held e) (sys_read env fd)
    unfolding sys_read adjust
    Keeps-read fd = record { at = λ p h. h }

    Keeps-select : (n : ℕ) (s : ℕ → Bool) (tv : Timeval) → Keeps (Held e) (sys_select env n s tv)
    unfolding sys_select
    Keeps-select n s tv = record { at = λ p h. h }

    Keeps-disable : Keeps (Held e) (eventsrc_disable env e)
    unfolding eventsrc_disable
    Keeps-disable = Keeps-bind (sys_write env e.fd 0) _ (Keeps-write e.fd 0) λ u. Keeps-pure 0

    Keeps-try_wait : Keeps (Held e) (eventsrc_try_wait env e)
    unfolding eventsrc_try_wait eventsrc_timed_wait
    Keeps-try_wait = Keeps-bind (fits_fd_set e.fd) _ (Keeps-fits_fd_set (Held e) e.fd) λ u.
        Keeps-bind (sys_select env (e.fd + 1) (update fd_zero e.fd true) (timeval_of no_time)) _
          (Keeps-select _ _ _)
          λ s.
            Keeps-bind (check (s e.fd) etimedout) _ (Keeps-check (s e.fd) etimedout)
              λ v. Keeps-bind (sys_read env e.fd) _ (Keeps-read e.fd) λ n. Keeps-lift (int_result n)

  still-Stored :
      {A : Type 0} (e : EventHandle) (m : U A)
      → Keeps (Held e) m
      → Triple (Held e) (ignore m) (Stored e)
  still-Stored e m k =
      Triple-ignore {R = λ r p. Held e p} m (record { at = λ p h. k.at p h }) (λ p a h. h)
        (λ p c h. h) (λ p h. tt)

  Stored-Ends : {A : Type 0} (e : EventHandle) → Ends (Stored {A = A} e) Handed
  Stored-Ends e = record { failed = λ c k h. absurd h; stopped = λ k h. h }

  opened : (e : EventHandle) → Triple (Held e) (pure 0) Handed
  unfolding pure
  opened e = record { at = λ p h. (e, h.0, h.1) }

  pub eventsrc_open-Handed :
      (env : Env) (info : EventsrcInfo) → Triple (Open maps fds) (eventsrc_open env info) Handed
  unfolding eventsrc_open adjust pure
  eventsrc_open-Handed env info =
      Triple-bind (sys_open env) _ (sys_open-Opened maps env fds)
        (record { failed = λ e k h. h; stopped = λ k h. h })
        λ fd.
          let e = opened_source info fd in
          Triple-bind (adjust (λ p. record p { source = some e })) _ (stored e) (Stored-Ends e) λ _.
            Triple-bind (ignore (eventsrc_disable env e)) _ (still-Stored e _ (Keeps-disable env e))
              (Stored-Ends e)
              λ _.
                Triple-bind (ignore (eventsrc_try_wait env e)) _
                  (still-Stored e _ (Keeps-try_wait env e)) (Stored-Ends e) λ _. opened e
    where
      stored :
          (e : EventHandle)
          → Triple (Opens e) (adjust (λ p. record p { source = some e })) (Stored e)
      stored e = record { at = λ p h. (refl, h) }

  eventsrc_open_or_release-Handed :
      (env : Env) (info : EventsrcInfo)
      → Triple (Open maps fds) (eventsrc_open_or_release env info) Handed
  unfolding eventsrc_open_or_release eventsrc_release eventsrc_release_by_token
  eventsrc_open_or_release-Handed env info =
      Triple-on_error (eventsrc_open env info) (ignore (eventsrc_release env info))
        (eventsrc_open-Handed env info)
        (record {
          C = Sure maps fds;
          done = λ k a h. h;
          stopped = λ k h. h;
          cleanup = λ e. ignored-Sure maps fds (eventsrc_release env info) (
              bare-Left env maps fds
                (λ pid. eventsrc_release_request env (release_data info.token pid)));
          cleaned_ok = λ e k h. h;
          cleaned_err = λ e d k h. absurd h;
          cleaned_fault = λ k h. h;
        })

  module _ (env : Env) where
    Left-Handed-Ends : {A : Type 0} → Ends (Left maps {A = A} fds) Handed
    Left-Handed-Ends = record { failed = λ e k h. h; stopped = λ k h. h }

    claimed-Handed :
        (ret : ℕ)
        → Triple
            (Open maps fds)
            (or_return ret (claimed_eventsrc >>= λ info. eventsrc_open_or_release env info))
            Handed
    unfolding pure
    claimed-Handed zero =
        Triple-bind claimed_eventsrc _ (claimed_eventsrc-Left env maps fds) Left-Handed-Ends
          λ info. eventsrc_open_or_release-Handed env info
    claimed-Handed (suc n) = record { at = λ p h. h }

    pub eventsrc_claim_and_open-Handed :
        (g d r : Option Str) (i : ℤ) (o : ℕ)
        → Triple (Open maps fds) (eventsrc_claim_and_open env g d r i o) Handed
    unfolding eventsrc_claim_and_open eventsrc_claim
    eventsrc_claim_and_open-Handed g d r i o =
        Triple-bind (eventsrc_claim env g d r i o) _
          (copied-Left env maps fds
            (λ pid. eventsrc_claim_request env (claim_data env g d r i o pid)))
          Left-Handed-Ends claimed-Handed

    eventsrc_close-Left :
        (e : EventHandle) → Triple (Opens e) (eventsrc_close env e) (Left maps fds)
    unfolding eventsrc_close
    eventsrc_close-Left e =
        Triple-bind (sys_close env e.fd) _ (sys_close-Left maps env fds e.fd) (Left-Ends maps fds)
          λ _. done-Left maps fds 0

    -- After a call whose result is looked at.
    looked-Sure :
        {A : Type 0} {P : Process → Type 0} (m : U A)
        → Triple P m (Left maps fds)
        → Triple P (attempt m) (Sure maps fds)
    looked-Sure m t = Triple-attempt m t (λ k u h. h) (λ k e h. h) (λ k h. h)

    pub eventsrc_close_and_release-Left :
        (e : EventHandle) → Triple (Opens e) (eventsrc_close_and_release env e) (Left maps fds)
    unfolding eventsrc_close_and_release eventsrc_release_by_token
    eventsrc_close_and_release-Left e =
        Triple-bind (attempt (eventsrc_close env e)) _ (looked-Sure _ (eventsrc_close-Left e))
          (Sure-Ends maps fds fds)
          λ r1.
            Triple-bind (attempt (eventsrc_release_by_token env e.token)) _
              (looked-Sure _ (
                bare-Left env maps fds
                  (λ pid. eventsrc_release_request env (release_data e.token pid))))
              (Sure-Ends maps fds fds) λ r2. lift-Left maps fds (first_int r1 r2)
