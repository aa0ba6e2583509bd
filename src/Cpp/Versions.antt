-- ===== src/Cpp/Versions.antt =====
-- The class Version (user/include/cuddl/version.hpp) on the version macros
-- (common/include/cuddl/common_impl.h).
pub mod Order
use Prim.Native.Nat.{bit_and, bit_or}
use cuddl.Base.{
  ℕ, ◌*◌, ◌/◌, ◌^◌, Bool, true, false, not, ◌∷◌, ◌++◌, ltb, ◌≡◌, refl, ℤ, pos, negsuc, ◌==ℤ◌,
  shift_right_16, complement,
}
use cuddl.CStr.{Str, codes}
use cuddl.Cpp.Strings.{to_string}

-- CUDDLCI_VERSION
unfoldable pub version_macro : ℕ → ℕ → ℕ → ℕ
version_macro major minor revision = bit_or (bit_or (major * 2 ^ 16) (minor * 2 ^ 8)) revision

-- The 32 bits of an `int`.
abbrev pub pattern_of : ℤ → ℕ
pattern_of (pos n) = n
pattern_of (negsuc n) = complement 32 n

-- CUDDLCI_MINOR_VERSION_FROM_CODE
unfoldable pub minor_version_from_code : ℤ → ℕ
minor_version_from_code code = bit_and (pattern_of code) 0xffff / 2 ^ 8

-- CUDDLCI_REVISION_LEVEL_FROM_CODE
unfoldable pub revision_level_from_code : ℤ → ℕ
revision_level_from_code code = bit_and (pattern_of code) 0xff

pub record Version : Type 0 where
  pub code : ℤ

-- The constructor from three numbers.
unfoldable pub version : ℕ → ℕ → ℕ → Version
unfolding version_macro
version major minor revision = record { code = pos (version_macro major minor revision) }

unfoldable pub major : Version → ℤ
major v = shift_right_16 v.code

unfoldable pub minor : Version → ℕ
unfolding minor_version_from_code
minor v = minor_version_from_code v.code

unfoldable pub revision : Version → ℕ
unfolding revision_level_from_code
revision v = revision_level_from_code v.code

unfoldable pub put_version : Version → Str
unfolding major minor revision to_string
put_version v =
    to_string (major v) ++ 46 ∷ (to_string (pos (minor v)) ++ 46 ∷ to_string (pos (revision v)))

-- `a < b` on `int`
abbrev pub int_lt : ℤ → ℤ → Bool
int_lt (pos a) (pos b) = ltb a b
int_lt (pos a) (negsuc b) = false
int_lt (negsuc a) (pos b) = true
int_lt (negsuc a) (negsuc b) = ltb b a

-- The comparison operators.
unfoldable pub version_eq : Version → Version → Bool
version_eq l r = l.code ==ℤ r.code

unfoldable pub version_ne : Version → Version → Bool
version_ne l r = not (l.code ==ℤ r.code)

unfoldable pub version_lt : Version → Version → Bool
version_lt l r = int_lt l.code r.code

unfoldable pub version_gt : Version → Version → Bool
version_gt l r = int_lt r.code l.code

unfoldable pub version_le : Version → Version → Bool
version_le l r = not (int_lt r.code l.code)

unfoldable pub version_ge : Version → Version → Bool
version_ge l r = not (int_lt l.code r.code)

printed : put_version (version 1 12 255) ≡ codes "1.12.255"
unfolding put_version version
printed = refl
