-- ===== src/Act/Zeros.antt =====
-- Actions that return 0 when they return no error code.
use cuddl.Base.{ℕ, zero, suc, Errno, Result, ok, err, fault}
use cuddl.Act.{Act, continue, ◌>>=◌, pure, raise, hang, on_error, handle_error, after_error}

abbrev pub IsZero : Result ℕ → Type 0
IsZero (ok zero) = Unit {0}
IsZero (ok (suc n)) = ⊥
IsZero (err e) = Unit {0}
IsZero fault = Unit {0}

-- The value, if there is one, is in `R`.
abbrev pub Yields : {A : Type 0} → (A → Type 0) → Result A → Type 0
Yields R (ok a) = R a
Yields R (err e) = Unit {0}
Yields R fault = Unit {0}

pub zero_yielded : (r : Result ℕ) → IsZero r → Yields (λ n. IsZero (ok n)) r
zero_yielded (ok n) h = h
zero_yielded (err e) h = tt
zero_yielded fault h = tt

undone : (e : Errno) (r : Result (Unit {0})) → IsZero (after_error e r)
undone e (ok u) = tt
undone e (err c) = tt
undone e fault = tt

pub record Zeros {S : Type 0} (m : Act S ℕ) : Type 0 where
  pub at : (k : S) → IsZero (m k).0

module _ {S : Type 0} where
  pub Zeros-pure : Zeros {S = S} (pure 0)
  unfolding pure
  Zeros-pure = record { at = λ k. tt }

  pub Zeros-raise : (e : Errno) → Zeros {S = S} (raise e)
  unfolding raise
  Zeros-raise e = record { at = λ k. tt }

  pub Zeros-hang : Zeros {S = S} hang
  unfolding hang
  Zeros-hang = record { at = λ k. tt }

  module _ {A : Type 0} (R : A → Type 0) where
    continued :
        (r : Result A) (f : A → Act S ℕ) (k : S)
        → Yields R r
        → ((a : A) → R a → Zeros (f a))
        → IsZero (continue r f k).0
    continued (ok a) f k h z = (z a h).at k
    continued (err c) f k h z = tt
    continued fault f k h z = tt

    pub Zeros-behind :
        (m : Act S A) (f : A → Act S ℕ)
        → ((k : S) → Yields R (m k).0)
        → ((a : A) → R a → Zeros (f a))
        → Zeros (m >>= f)
    unfolding ◌>>=◌
    Zeros-behind m f y z = record { at = λ k. continued (m k).0 f (m k).1 (y k) z }

  pub Zeros-bind :
      {A : Type 0} (m : Act S A) (f : A → Act S ℕ) → ((a : A) → Zeros (f a)) → Zeros (m >>= f)
  unfolding ◌>>=◌
  Zeros-bind {A} m f z = record { at = λ k. any (m k).0 (m k).1 }
    where
      any : (r : Result A) (k : S) → IsZero (continue r f k).0
      any (ok a) k = (z a).at k
      any (err e) k = tt
      any fault k = tt

  handled : (r : Result ℕ) (c : Act S (Unit {0})) (k : S) → IsZero r → IsZero (handle_error r c k).0
  handled (ok n) c k h = h
  handled (err e) c k h = undone e (c k).0
  handled fault c k h = tt

  pub Zeros-on_error : (m : Act S ℕ) (c : Act S (Unit {0})) → Zeros m → Zeros (on_error m c)
  unfolding on_error
  Zeros-on_error m c z = record { at = λ k. handled (m k).0 c (m k).1 (z.at k) }
