-- ===== src/User/Lifetime.antt =====
-- The file that a process holds at the janitor while it lives, and its end.
use cuddl.Base.{ℕ, none, some, Result, ok, err, fault, os_error, ltb, if◌then◌else◌}
use cuddl.Act.{◌>>=◌, ◌>>◌, pure, lift, gets, attempt, ignore}
use cuddl.Kernel.{Kernel}
use cuddl.Janitor.{JanitorFile, janitor_open, janitor_ioctl, janitor_release, register_pid}
use cuddl.User.{Env, Process, U, adjust, next, sys_open, sys_close}

-- The ioctl of the janitor device on the file that was just opened.
unfoldable pub register_at : Env → U (Unit {0})
unfolding ◌>>=◌ next adjust janitor_ioctl janitor_open
register_at env = do
  o ← next env
  pid ← gets (λ p. p.pid)
  adjust (λ p. record p {
    janitor = some (janitor_ioctl o.janitor_calls (register_pid pid) janitor_open).1;
  })
  lift (janitor_ioctl o.janitor_calls (register_pid pid) janitor_open).0

-- The descriptor stays open, also when the ioctl fails.
unfoldable pub open_janitor : Env → U ℕ
unfolding ◌>>=◌ sys_open register_at
open_janitor env = do fd ← sys_open env; register_at env; pure fd

abbrev pub without_file : Process → Kernel → Process
without_file p k = record p { kernel = k; janitor = none }

-- `close` does not look at what the release of the file returns.
abbrev pub released_by : Process → Result JanitorFile × Kernel → Result (Unit {0}) × Process
released_by p (ok g, k) = (ok tt, without_file p k)
released_by p (err e, k) = (ok tt, without_file p k)
released_by p (fault, k) = (fault, without_file p k)

-- The last close of the file calls the janitor.
unfoldable pub leave_janitor : U (Unit {0})
leave_janitor p = elim p.janitor [
  | none ↦ (ok tt, p)
  | some f ↦ released_by p (janitor_release f p.kernel)
]

-- The value of `close`, 0 or -1, comes back as it is.
abbrev pub closed_code : Result (Unit {0}) → Result ℕ
closed_code (ok _) = ok 0
closed_code (err _) = err (os_error 1)
closed_code fault = fault

unfoldable pub close_descriptor : Env → ℕ → U ℕ
unfolding ◌>>=◌ attempt leave_janitor sys_close
close_descriptor env fd = do
  leave_janitor
  closed ← attempt (sys_close env fd)
  lift (closed_code closed)

-- `fd > 0`; a negative one is an error code.
unfoldable pub close_janitor : Env → Result ℕ → U ℕ
unfolding pure close_descriptor
close_janitor env (ok fd) = if ltb 0 fd then close_descriptor env fd else pure 0
close_janitor env (err e) = pure 0
close_janitor env fault = pure 0

-- The constructor and the destructor of the library.
unfoldable pub startup : Env → U (Unit {0})
unfolding ◌>>=◌ attempt adjust open_janitor
startup env = do fd ← attempt (open_janitor env); adjust (λ p. record p { janitor_fd = fd })

unfoldable pub cleanup : Env → U (Unit {0})
unfolding ◌>>=◌ ignore close_janitor
cleanup env = do fd ← gets (λ p. p.janitor_fd); ignore (close_janitor env fd)
