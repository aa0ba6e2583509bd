-- ===== src/CStr/Laws.antt =====
-- Comparison of strings is equality of their texts.
use Prim.Native.Nat.{Ordering}
use cuddl.Base.{ℕ, zero, suc, ◌≡◌, refl, [], ◌∷◌, arith, take}
use cuddl.CStr.{Str, strncmp, text}

pub strncmp_refl : (s : Str) (n : ℕ) → strncmp s s n ≡ Ordering.eq
unfolding strncmp
strncmp_refl s zero = refl
strncmp_refl [] (suc n) = refl
strncmp_refl (c ∷ s) (suc n) = ground (arith, strncmp_refl s n)

-- `strncmp` returns 0 exactly if the texts agree in their first `n` bytes.
pub strncmp_eq_lem :
    (s t : Str) (n : ℕ) → strncmp s t n ≡ Ordering.eq → take n (text s) ≡ take n (text t)
unfolding strncmp text
strncmp_eq_lem s t zero h = refl
strncmp_eq_lem [] [] (suc n) h = refl
strncmp_eq_lem [] (d ∷ t) (suc n) h = ground arith
strncmp_eq_lem (c ∷ s) [] (suc n) h = ground arith
strncmp_eq_lem (c ∷ s) (d ∷ t) (suc n) h = ground (arith, strncmp_eq_lem s t n)

pub eq-strncmp_lem :
    (s t : Str) (n : ℕ) → take n (text s) ≡ take n (text t) → strncmp s t n ≡ Ordering.eq
unfolding strncmp text
eq-strncmp_lem s t zero h = refl
eq-strncmp_lem [] [] (suc n) h = refl
eq-strncmp_lem [] (d ∷ t) (suc n) h = ground arith
eq-strncmp_lem (c ∷ s) [] (suc n) h = ground arith
eq-strncmp_lem (c ∷ s) (d ∷ t) (suc n) h = ground (arith, eq-strncmp_lem s t n)
