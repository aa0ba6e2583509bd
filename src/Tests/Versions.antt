-- ===== src/Tests/Versions.antt =====
-- Version codes.
use cuddl.Base.{ℕ, ◌<◌, ◌≤◌, ◌≡◌, ◌⊎◌, true, false, pos}
use cuddl.Ioctl.Commands.{version_code_is_compat}
use cuddl.Ioctl.Versions.{version_code_is_compat_lem}

version_code_is_compat_lem_example :
    ((version_code_is_compat (pos 65793) ≡ true) × ((n : ℕ) × (pos 65793 ≡ pos n) × (n < 131072)))
    ⊎ ((version_code_is_compat (pos 65793) ≡ false) × ((n : ℕ) → pos 65793 ≡ pos n → 131072 ≤ n))
version_code_is_compat_lem_example = version_code_is_compat_lem (pos 65793)
