-- ===== src/User/Eventsrc.antt =====
-- cuddl_eventsrc_*: claiming, opening and releasing event sources, and waiting for one.
use cuddl.Base.{ℕ, ◌/◌, ◌+◌, true, Option, some, etimedout, ℤ, pos, update, if◌then◌else◌}
use cuddl.Act.{◌>>=◌, ◌>>◌, pure, hang, lift, gets, ignore, attempt, on_error, check}
use cuddl.User.FdSet.{fd_zero, fits_fd_set}
use cuddl.CStr.{Str}
use cuddl.Kernel.{Reply, EventsrcInfo, Token}
use cuddl.Ioctl.Commands.{
  Request, ClaimData, ReleaseData, version_code, eventsrc_claim_udd, eventsrc_claim_uio,
  eventsrc_release_udd, eventsrc_release_uio, eventsrc_is_enabled, int_result,
}
use cuddl.User.{
  Env, U, EventHandle, Timeval, adjust, sys_open, sys_close, sys_read, sys_write, sys_select,
}
use cuddl.User.Calls.{data_call, int_call, deliver}
use cuddl.User.Memregion.{claim_data, release_data, or_return, first_int}

-- struct cuddl_timespec
pub record Timespec : Type 0 where
  pub tv_sec : ℕ
  pub tv_nsec : ℕ

-- CUDDLCI_EVENTSRC_CLAIM_IOCTL
abbrev pub eventsrc_claim_request : Env → ClaimData → Request
eventsrc_claim_request env s = if env.xeno then eventsrc_claim_udd s else eventsrc_claim_uio s

-- CUDDLCI_EVENTSRC_RELEASE_IOCTL
abbrev pub eventsrc_release_request : Env → ReleaseData → Request
eventsrc_release_request env s = if env.xeno then eventsrc_release_udd s else eventsrc_release_uio s

unfoldable pub eventsrc_claim : Env → Option Str → Option Str → Option Str → ℤ → ℕ → U ℕ
unfolding data_call deliver
eventsrc_claim env group device eventsrc instance_id options =
    data_call env
      (λ pid.
        eventsrc_claim_request env (claim_data env group device eventsrc instance_id options pid))
      deliver

unfoldable pub eventsrc_release_by_token : Env → Token → U ℕ
unfolding data_call
eventsrc_release_by_token env token =
    data_call env (λ pid. eventsrc_release_request env (release_data token pid)) (pure tt)

unfoldable pub eventsrc_release : Env → EventsrcInfo → U ℕ
unfolding eventsrc_release_by_token
eventsrc_release env eventinfo = eventsrc_release_by_token env eventinfo.token

-- The count that is read is returned as an `int`.
unfoldable pub eventsrc_wait : Env → EventHandle → U ℕ
unfolding ◌>>=◌ sys_read
eventsrc_wait env eventsrc = do count ← sys_read env eventsrc.fd; lift (int_result count)

abbrev pub timeval_of : Timespec → Timeval
timeval_of t = record { tv_sec = t.tv_sec; tv_usec = t.tv_nsec / 1000 }

-- `if (!FD_ISSET(fd, &fds)) return -ETIMEDOUT;`, and the read.
unfoldable pub eventsrc_timed_wait : Env → EventHandle → Timespec → U ℕ
unfolding ◌>>=◌ check fits_fd_set sys_select sys_read
eventsrc_timed_wait env eventsrc timeout = do
  fits_fd_set eventsrc.fd
  fds ← sys_select env (eventsrc.fd + 1) (update fd_zero eventsrc.fd true) (timeval_of timeout)
  check (fds eventsrc.fd) etimedout
  count ← sys_read env eventsrc.fd
  lift (int_result count)

abbrev pub no_time : Timespec
no_time = record { tv_sec = 0; tv_nsec = 0 }

unfoldable pub eventsrc_try_wait : Env → EventHandle → U ℕ
unfolding eventsrc_timed_wait
eventsrc_try_wait env eventsrc = eventsrc_timed_wait env eventsrc no_time

unfoldable pub eventsrc_enable : Env → EventHandle → U ℕ
unfolding ◌>>=◌ sys_write
eventsrc_enable env eventsrc = do sys_write env eventsrc.fd 1; pure 0

unfoldable pub eventsrc_disable : Env → EventHandle → U ℕ
unfolding ◌>>=◌ sys_write
eventsrc_disable env eventsrc = do sys_write env eventsrc.fd 0; pure 0

abbrev pub opened_source : EventsrcInfo → ℕ → EventHandle
opened_source eventinfo fd = record { flags = eventinfo.flags; fd = fd; token = eventinfo.token }

-- The event source is disabled, and a pending event is taken off; neither result is looked at.
unfoldable pub eventsrc_open : Env → EventsrcInfo → U ℕ
unfolding ◌>>=◌ ignore sys_open adjust eventsrc_disable eventsrc_try_wait
eventsrc_open env eventinfo = do
  fd ← sys_open env
  adjust (λ p. record p { source = some (opened_source eventinfo fd) })
  ignore (eventsrc_disable env (opened_source eventinfo fd))
  ignore (eventsrc_try_wait env (opened_source eventinfo fd))
  pure 0

unfoldable pub eventsrc_close : Env → EventHandle → U ℕ
unfolding ◌>>=◌ sys_close
eventsrc_close env eventsrc = do sys_close env eventsrc.fd; pure 0

-- The structure that a claim has filled in.
unfoldable pub eventsrc_in : Option Reply → U EventsrcInfo
unfolding pure hang
eventsrc_in (some (Reply.eventsrc_info info)) = pure info
eventsrc_in _ = hang

unfoldable pub claimed_eventsrc : U EventsrcInfo
unfolding ◌>>=◌ eventsrc_in
claimed_eventsrc = do out ← gets (λ p. p.out); eventsrc_in out

-- `if (ret) cuddl_eventsrc_release(&eventinfo); return ret;`
unfoldable pub eventsrc_open_or_release : Env → EventsrcInfo → U ℕ
unfolding on_error ignore eventsrc_open eventsrc_release
eventsrc_open_or_release env eventinfo =
    on_error (eventsrc_open env eventinfo) (ignore (eventsrc_release env eventinfo))

unfoldable pub eventsrc_claim_and_open : Env → Option Str → Option Str → Option Str → ℤ → ℕ → U ℕ
unfolding ◌>>=◌ eventsrc_claim claimed_eventsrc eventsrc_open_or_release
eventsrc_claim_and_open env group device resource instance_id claim_options = do
  ret ← eventsrc_claim env group device resource instance_id claim_options
  or_return ret (do eventinfo ← claimed_eventsrc; eventsrc_open_or_release env eventinfo)

unfoldable pub eventsrc_close_and_release : Env → EventHandle → U ℕ
unfolding ◌>>=◌ attempt eventsrc_close eventsrc_release_by_token
eventsrc_close_and_release env eventsrc = do
  ret1 ← attempt (eventsrc_close env eventsrc)
  ret2 ← attempt (eventsrc_release_by_token env eventsrc.token)
  lift (first_int ret1 ret2)

-- cuddl_eventsrc_is_enabled
unfoldable pub eventsrc_enabled : Env → EventHandle → U ℕ
unfolding int_call
eventsrc_enabled env eventsrc =
    int_call env
      (eventsrc_is_enabled (record { version_code = pos version_code; token = eventsrc.token }))
