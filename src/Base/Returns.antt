-- ===== src/Base/Returns.antt =====
-- Return codes. A function that returns `int` yields a value, a negative error code, or does not
-- return at all, since it follows a NULL pointer.
use Prim.Native.Nat.{ℕ}

-- The codes of errno.h that the code returns; `os_error n` is one that a call outside it reported.
pub data Errno : Type 0 where
  enxio enomem einval ebusy enospc ebadslt enodev eoverflow enoexec enosys etimedout : Errno
  os_error : ℕ → Errno

pub data Result {ℓ} (A : Type ℓ) : Type ℓ where
  ok : A → Result A
  err : Errno → Result A
  fault : Result A
