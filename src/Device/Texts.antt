-- ===== src/Device/Texts.antt =====
-- When a name fits a query (the tests of kernel/src/cuddlk_common.c and cuddlk_manager_common.c), said
-- on their texts, and that the tests decide it.
use cuddl.Base.{
  ◌≡◌, ◌⊎◌, inl, inr, refl, Bool-cases, true, false, Option, none, some, [], ◌∷◌, take, arith,
}
use cuddl.CStr.{Str, text, strnlen}
use cuddl.CStr.Laws.{strncmp_eq_lem, eq-strncmp_lem}
use cuddl.Device.{is_given, same_str, str_fits, name_fits}

-- The query is NULL or an empty string.
abbrev pub IsOpen : Option Str → Type 0
IsOpen none = Unit
IsOpen (some q) = text q ≡ []

-- Both are strings, and they agree up to the terminator or in 256 bytes.
abbrev pub SameText : Option Str → Option Str → Type 0
SameText (some s) (some q) = take 256 (text s) ≡ take 256 (text q)
SameText _ _ = ⊥

abbrev pub StrFits : Option Str → Option Str → Type 0
StrFits field query = IsOpen query ⊎ SameText field query

is_given-text : (q : Str) → is_given (some q) ≡ false → text q ≡ []
unfolding strnlen text
is_given-text [] h = refl
is_given-text (c ∷ q) h = ground arith

pub open_not_given : (query : Option Str) → IsOpen query → is_given query ≡ false
unfolding strnlen text
open_not_given none h = refl
open_not_given (some []) h = refl
open_not_given (some (c ∷ q)) h = ground arith

pub not_given-IsOpen : (query : Option Str) → is_given query ≡ false → IsOpen query
not_given-IsOpen none h = tt
not_given-IsOpen (some q) h = is_given-text q h

same_str-SameText : (s q : Option Str) → same_str s q ≡ true → SameText s q
unfolding same_str
same_str-SameText (some s) (some q) h = strncmp_eq_lem s q 256 (ground arith)
same_str-SameText none q h = cc
same_str-SameText (some s) none h = cc

SameText-same_str : (s q : Option Str) → SameText s q → same_str s q ≡ true
unfolding same_str
SameText-same_str (some s) (some q) h = rw (eq-strncmp_lem s q 256 h)
SameText-same_str none none h = elim h [ ]
SameText-same_str none (some q) h = elim h [ ]
SameText-same_str (some s) none h = elim h [ ]

pub str_fits-StrFits : (s q : Option Str) → str_fits s q ≡ true → StrFits s q
unfolding str_fits
str_fits-StrFits s q h = elim (Bool-cases (is_given q)) [
  | inl e ↦ inr (same_str-SameText s q (ground arith))
  | inr e ↦ inl (not_given-IsOpen q e)
]

pub StrFits-str_fits : (s q : Option Str) → StrFits s q → str_fits s q ≡ true
unfolding str_fits
StrFits-str_fits s q (inl o) = rw (open_not_given q o)
StrFits-str_fits s q (inr e) = ground (arith, SameText-same_str s q e)

-- A resource without a name fits nothing.
abbrev pub NameFits : Option Str → Option Str → Type 0
NameFits none query = ⊥
NameFits (some s) query = StrFits (some s) query

pub name_fits-NameFits : (s q : Option Str) → name_fits s q ≡ true → NameFits s q
unfolding name_fits
name_fits-NameFits none q h = cc
name_fits-NameFits (some s) q h = str_fits-StrFits (some s) q (ground arith)

pub NameFits-name_fits : (s q : Option Str) → NameFits s q → name_fits s q ≡ true
unfolding name_fits
NameFits-name_fits none q f = absurd f
NameFits-name_fits (some s) q f = ground (arith, StrFits-str_fits (some s) q f)
