-- ===== src/User/FdSet.antt =====
-- The sets of descriptors of sys/select.h.
use cuddl.Base.{ℕ, Bool, false, ltb, if◌then◌else◌}
use cuddl.Act.{pure, hang}
use cuddl.User.{U}

abbrev pub fd_setsize : ℕ
fd_setsize = 1024

abbrev pub fd_zero : ℕ → Bool
fd_zero i = false

-- FD_SET and FD_CLR write behind the set for a descriptor from FD_SETSIZE on. That is undefined, and
-- does not return here.
unfoldable pub fits_fd_set : ℕ → U (Unit {0})
unfolding pure hang
fits_fd_set fd = if ltb fd fd_setsize then pure tt else hang
