-- ===== src/Base/Int.antt =====
-- The C type `int`, where a value may be negative.
use Prim.Native.Nat.{ℕ, ◌/◌, ◌^◌}
use mathlib.Core.Path.{◌≡◌}
use mathlib.Core.Bool.{Bool, true, false}
use native.Mathlib.Omega.{arith}
use cuddl.Base.Tests.{◌==◌}

-- `negsuc n` is -(n + 1).
pub data ℤ : Type 0 where
  pos : ℕ → ℤ
  negsuc : ℕ → ℤ

infix 50 ◌==ℤ◌
abbrev pub ◌==ℤ◌ : ℤ → ℤ → Bool
pos a ==ℤ pos b = a == b
negsuc a ==ℤ negsuc b = a == b
_ ==ℤ _ = false

-- `a >> 16` on an `int` is an arithmetic shift: it rounds down.
abbrev pub shift_right_16 : ℤ → ℤ
shift_right_16 (pos n) = pos (n / 65536)
shift_right_16 (negsuc n) = negsuc (n / 65536)

pub ==ℤ→eq : (a b : ℤ) → (a ==ℤ b) ≡ true → a ≡ b
==ℤ→eq a b h = ground arith

pub ==ℤ-refl : (a : ℤ) → (a ==ℤ a) ≡ true
==ℤ-refl (pos n) = ground arith
==ℤ-refl (negsuc n) = ground arith

-- A 32-bit pattern below `int_max_suc` is the `int` that it shows; the others are negative.
abbrev pub int_mod : ℕ
int_mod = 2 ^ 32

abbrev pub int_max_suc : ℕ
int_max_suc = 2 ^ 31
