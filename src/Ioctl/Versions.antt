-- ===== src/Ioctl/Versions.antt =====
-- Which versions of the user library the kernel accepts.
use cuddl.Base.{ℕ, ◌<◌, ◌≤◌, ◌≡◌, refl, true, false, ℤ, pos, negsuc, arith, ◌⊎◌, inl, inr}
use native.Mathlib.Decide.{dec_lt}
use cuddl.Ioctl.Commands.{version_code_is_compat, major_version_from_code}

-- A version code passes exactly when it is from 0.0.0 to 1.255.255, that is, not negative and below
-- 2.0.0.
pub version_code_is_compat_lem :
    (code : ℤ)
    → ((version_code_is_compat code ≡ true) × ((n : ℕ) × (code ≡ pos n) × (n < 131072)))
      ⊎ ((version_code_is_compat code ≡ false) × ((n : ℕ) → code ≡ pos n → 131072 ≤ n))
unfolding version_code_is_compat major_version_from_code
version_code_is_compat_lem (pos n) = elim (dec_lt n 131072) [
  | yes l ↦ inl (ground arith, (n, refl, l))
  | no l ↦ inr (ground arith, λ m e. ground arith)
]
version_code_is_compat_lem (negsuc n) = inr (refl, λ m e. ground arith)
