-- ===== src/Cpp/Strings/Laws.antt =====
-- Finding a separator behind a part that has none, and taking the part out.
use cuddl.Base.{
  ℕ, zero, suc, ◌+◌, ◌≡◌, ◌≢◌, refl, some, [], ◌∷◌, ◌++◌, arith, length, take, drop, ap,
}
use cuddl.CStr.{Str}
use cuddl.Cpp.Strings.{index, find, substr}

-- A part of a path: no terminator and no slash.
abbrev pub IsPart : Str → Type 0
IsPart [] = Unit
IsPart (c ∷ s) = (c ≢ 0) × (c ≢ 47) × IsPart s

index_behind : (p rest : Str) → IsPart p → index 47 (p ++ 47 ∷ rest) ≡ some (length p)
unfolding index
index_behind [] rest h = refl
index_behind (c ∷ p) rest (_, n, h) = ground (arith, index_behind p rest h)

pub drop-append : (p rest : Str) → drop (length p) (p ++ rest) ≡ rest
drop-append [] rest = refl
drop-append (c ∷ p) rest = drop-append p rest

take-append : (p rest : Str) → take (length p) (p ++ rest) ≡ p
take-append [] rest = refl
take-append (c ∷ p) rest = ap (λ s. c ∷ s) (take-append p rest)

drop-nil : (i : ℕ) → drop {A = ℕ} i [] ≡ []
drop-nil zero = refl
drop-nil (suc i) = refl

pub drop-drop : (i j : ℕ) (s : Str) → drop (i + j) s ≡ drop j (drop i s)
drop-drop zero j s = ground arith
drop-drop (suc i) j (c ∷ s) =
    let e : suc i + j ≡ suc (i + j) = omega arith in rw e (drop-drop i j s)
drop-drop (suc i) zero [] = ground arith
drop-drop (suc i) (suc j) [] = drop-nil (suc i + suc j)

-- The next slash behind the first `i` bytes, when these are followed by the part `p`.
pub find_behind :
    (s : Str) (i : ℕ) (p rest : Str)
    → drop i s ≡ p ++ 47 ∷ rest
    → IsPart p
    → find s 47 i ≡ some (i + length p)
unfolding find
find_behind s i p rest e h = rw (e, index_behind p rest h) refl

pub substr_behind :
    (s : Str) (i : ℕ) (p rest : Str) → drop i s ≡ p ++ rest → substr s i (length p) ≡ p
unfolding substr
substr_behind s i p rest e = rw e (take-append p rest)

pub drop_behind :
    (s : Str) (i : ℕ) (p rest : Str) → drop i s ≡ p ++ 47 ∷ rest → drop (i + length p + 1) s ≡ rest
drop_behind s i p rest e = rw (drop-drop, drop-drop, e, drop-append) refl

pub after_slash : (p rest : Str) → drop (length p + 1) (p ++ 47 ∷ rest) ≡ rest
after_slash p rest = rw (drop-drop, drop-append) refl
