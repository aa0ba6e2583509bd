-- ===== src/Cpp/Flags/Output.antt =====
-- What the stream output of a set of flags writes.
use cuddl.Base.{ℕ, ◌≡◌, refl, sym, List, [], ◌∷◌, ◌++◌, if◌then◌else◌, arith}
use mathlib.Core.List.{append_assoc, append-nil}
use cuddl.CStr.{Str, codes}
use cuddl.Cpp.Flags.{Flags, is_set, put_flag, put_flags}

-- The parts, with the separator before each of them but the first.
abbrev pub joined : Str → List Str → Str
joined sep [] = []
joined sep (p ∷ []) = p
joined sep (p ∷ q ∷ ps) = p ++ (sep ++ joined sep (q ∷ ps))

module _ {F : Type 0} (as_int : F → ℕ) (name : F → Str) where
  -- The names of the flags that are set, in the order of the list.
  abbrev pub names_of : Flags → List F → List Str
  names_of s [] = []
  names_of s (f ∷ fs) =
      let rest = names_of s fs in if is_set s (as_int f) then name f ∷ rest else rest

  abbrev after_first : Str → List Str → Str
  after_first sep [] = []
  after_first sep (p ∷ ps) = sep ++ (p ++ after_first sep ps)

  joined-after_first : (sep p : Str) (ps : List Str) → joined sep (p ∷ ps) ≡ p ++ after_first sep ps
  joined-after_first sep p [] = sym (append-nil p)
  joined-after_first sep p (q ∷ ps) = rw (joined-after_first sep q ps) refl

  put_behind :
      (s : Flags) (fs : List F) (os : Str)
      → (put_flags as_int name s fs (os, codes " | ")).0
        ≡ os ++ after_first (codes " | ") (names_of s fs)
  unfolding put_flags put_flag
  put_behind s [] os = sym (append-nil os)
  put_behind s (f ∷ fs) os = ground (
    arith,
    put_behind s fs (os ++ (codes " | " ++ name f)),
    put_behind s fs os,
    append_assoc os (codes " | " ++ name f) (after_first (codes " | ") (names_of s fs)),
  )

  pub put_flags-joined :
      (s : Flags) (fs : List F)
      → (put_flags as_int name s fs ([], [])).0 ≡ joined (codes " | ") (names_of s fs)
  unfolding put_flags put_flag
  put_flags-joined s [] = refl
  put_flags-joined s (f ∷ fs) = ground (
    arith,
    put_behind s fs (name f),
    put_flags-joined s fs,
    joined-after_first (codes " | ") (name f) (names_of s fs),
  )
