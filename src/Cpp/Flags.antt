-- ===== src/Cpp/Flags.antt =====
-- The class template Flags (user/include/cuddl/utility.hpp), and the flags of event sources and memory
-- regions with their stream output (eventsrc.hpp, memregion.hpp).
pub mod Laws
pub mod Output
use Prim.Native.Nat.{bit_and, bit_or}
use cuddl.Base.{ℕ, Bool, List, [], ◌∷◌, ◌++◌, not, ◌==◌, if◌then◌else◌, complement}
use cuddl.CStr.{Str, codes}

-- The member flags_, an `int`, by its 32 bits.
abbrev pub Flags : Type 0
Flags = ℕ

-- `flags_ & f`, as a truth value
unfoldable pub is_set : Flags → ℕ → Bool
is_set s f = not (bit_and s f == 0)

-- `flags_ |= f`
unfoldable pub set : Flags → ℕ → Flags
set s f = bit_or s f

-- `flags_ &= ~f`
unfoldable pub clear : Flags → ℕ → Flags
clear s f = bit_and s (complement 32 f)

-- `l | r`
unfoldable pub combined : ℕ → ℕ → Flags
unfolding set
combined l r = set (set 0 l) r

-- The members that change a set of flags, by one flag or by all of another set. `|=` is `set`.
pub data FlagsOp (F : Type 0) : Type 0 where
  set_flag clear_flag : F → FlagsOp F
  set_flags clear_flags : Flags → FlagsOp F

module _ {F : Type 0} (as_int : F → ℕ) where
  unfoldable pub apply : FlagsOp F → Flags → Flags
  unfolding set clear
  apply (set_flag f) s = set s (as_int f)
  apply (clear_flag f) s = clear s (as_int f)
  apply (set_flags t) s = set s t
  apply (clear_flags t) s = clear s t

  unfoldable pub apply_all : List (FlagsOp F) → Flags → Flags
  unfolding apply
  apply_all [] s = s
  apply_all (op ∷ ops) s = apply_all ops (apply op s)

  module _ (name : F → Str) where
    -- `if (f.is_set(flag)) {os << sep << flag; sep = flag_sep;}`, on what is written and `sep`
    unfoldable pub put_flag : Flags → F → Str × Str → Str × Str
    put_flag s f (os, sep) =
        if is_set s (as_int f) then (os ++ (sep ++ name f), codes " | ") else (os, sep)

    unfoldable pub put_flags : Flags → List F → Str × Str → Str × Str
    unfolding put_flag
    put_flags s [] out = out
    put_flags s (f ∷ fs) out = put_flags s fs (put_flag s f out)

pub data EventSrcFlag : Type 0 where
  shared waitable has_disable has_enable has_is_enabled : EventSrcFlag

pub data MemRegionFlag : Type 0 where
  shared : MemRegionFlag

abbrev pub eventsrc_flag_as_int : EventSrcFlag → ℕ
eventsrc_flag_as_int EventSrcFlag.shared = 1
eventsrc_flag_as_int EventSrcFlag.waitable = 2
eventsrc_flag_as_int EventSrcFlag.has_disable = 4
eventsrc_flag_as_int EventSrcFlag.has_enable = 8
eventsrc_flag_as_int EventSrcFlag.has_is_enabled = 16

abbrev pub memregion_flag_as_int : MemRegionFlag → ℕ
memregion_flag_as_int MemRegionFlag.shared = 1

abbrev pub eventsrc_flag_name : EventSrcFlag → Str
eventsrc_flag_name EventSrcFlag.shared = codes "SHARED"
eventsrc_flag_name EventSrcFlag.waitable = codes "WAITABLE"
eventsrc_flag_name EventSrcFlag.has_disable = codes "HAS_DISABLE"
eventsrc_flag_name EventSrcFlag.has_enable = codes "HAS_ENABLE"
eventsrc_flag_name EventSrcFlag.has_is_enabled = codes "HAS_IS_ENABLED"

abbrev pub memregion_flag_name : MemRegionFlag → Str
memregion_flag_name MemRegionFlag.shared = codes "SHARED"

unfoldable pub put_eventsrc_flags : Flags → Str
unfolding put_flags
put_eventsrc_flags s =
    (put_flags eventsrc_flag_as_int eventsrc_flag_name s
      (EventSrcFlag.shared ∷ EventSrcFlag.waitable ∷ EventSrcFlag.has_disable
        ∷ EventSrcFlag.has_enable ∷ EventSrcFlag.has_is_enabled ∷ [])
      ([], [])).0

unfoldable pub put_memregion_flags : Flags → Str
unfolding put_flags
put_memregion_flags s =
    (put_flags memregion_flag_as_int memregion_flag_name s (MemRegionFlag.shared ∷ []) ([], [])).0
