-- ===== src/User/EventSets.antt =====
-- cuddl_eventsrcset_*: waiting for several event sources at once.
use cuddl.Base.{
  ℕ, zero, suc, ◌+◌, Bool, true, false, etimedout, update, not, ltb, ◌==◌, if◌then◌else◌,
}
use cuddl.Act.{◌>>=◌, ◌>>◌, pure, check}
use cuddl.User.{Env, Process, U, EventHandle, EventSet, adjust, sys_read, sys_select}
use cuddl.User.FdSet.{fd_zero, fits_fd_set}
use cuddl.User.Eventsrc.{Timespec, timeval_of}

unfoldable pub eventsrcset_zero : EventSet
eventsrcset_zero = record { fds = fd_zero; max_fd = 0 }

abbrev pub set_added : EventSet → EventHandle → EventSet
set_added set eventsrc = record {
  fds = update set.fds eventsrc.fd true;
  max_fd = if ltb set.max_fd eventsrc.fd then eventsrc.fd else set.max_fd;
}

unfoldable pub eventsrcset_add : EventSet → EventHandle → U EventSet
unfolding ◌>>=◌ fits_fd_set
eventsrcset_add set eventsrc = do fits_fd_set eventsrc.fd; pure (set_added set eventsrc)

abbrev pub set_removed : EventSet → EventHandle → EventSet
set_removed set eventsrc = record set { fds = update set.fds eventsrc.fd false }

unfoldable pub eventsrcset_remove : EventSet → EventHandle → U EventSet
unfolding ◌>>=◌ fits_fd_set
eventsrcset_remove set eventsrc = do fits_fd_set eventsrc.fd; pure (set_removed set eventsrc)

unfoldable pub eventsrcset_contains : EventSet → EventHandle → U Bool
unfolding ◌>>=◌ fits_fd_set
eventsrcset_contains set eventsrc = do fits_fd_set eventsrc.fd; pure (set.fds eventsrc.fd)

-- The loop over the descriptors, from `fd` on: how many are ready is counted in `n`.
unfoldable pub read_ready : Env → (ℕ → Bool) → ℕ → ℕ → ℕ → U ℕ
unfolding ◌>>=◌ sys_read
read_ready env fds fd zero n = pure n
read_ready env fds fd (suc rounds) n =
    let counted = read_ready env fds (suc fd) rounds (n + 1) in
    let skipped = read_ready env fds (suc fd) rounds n in
    if fds fd then (sys_read env fd >> counted) else skipped

abbrev pub with_ready : EventSet → (ℕ → Bool) → Process → Process
with_ready set fds p = record p { ready = record set { fds = fds } }

unfoldable pub eventsrcset_timed_wait : Env → EventSet → Timespec → U ℕ
unfolding ◌>>=◌ check adjust sys_select read_ready
eventsrcset_timed_wait env set timeout = do
  adjust (with_ready set set.fds)
  fds ← sys_select env (set.max_fd + 1) set.fds (timeval_of timeout)
  adjust (with_ready set fds)
  n ← read_ready env fds 0 (set.max_fd + 1) 0
  check (not (n == 0)) etimedout
  pure n
