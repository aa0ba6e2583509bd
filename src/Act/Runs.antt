-- ===== src/Act/Runs.antt =====
-- Actions that return, with or without an error, and keep an invariant.
use cuddl.Base.{◌≡◌, ◌≢◌, refl, Bool, true, false, Errno, Result, ok, err, fault, arith}
use cuddl.Act.{
  Act, pure, raise, lift, gets, continue, ◌>>=◌, check, when, ignore, on_error, handle_error,
}

-- From a state with `P`, `m` follows no NULL pointer, and leaves a state with `P`.
pub record Runs {S A : Type 0} (P : S → Type 0) (m : Act S A) : Type 0 where
  pub at : (k : S) → P k → ((m k).0 ≢ fault) × P (m k).1

module _ {S : Type 0} {P : S → Type 0} where
  pub Runs-lift : {A : Type 0} (r : Result A) → r ≢ fault → Runs P (lift r)
  unfolding lift
  Runs-lift r n = record { at = λ k h. (n, h) }

  pub Runs-pure : {A : Type 0} (a : A) → Runs P (pure a)
  unfolding pure
  Runs-pure a = record { at = λ k h. (λ e. cc, h) }

  pub Runs-raise : {A : Type 0} (e : Errno) → Runs P (raise {A = A} e)
  unfolding raise
  Runs-raise e = record { at = λ k h. (λ e. cc, h) }

  pub Runs-gets : {A : Type 0} (f : S → A) → Runs P (gets f)
  unfolding gets
  Runs-gets f = record { at = λ k h. (λ e. cc, h) }

  pub Runs-check : (b : Bool) (e : Errno) → Runs P (check b e)
  unfolding check
  Runs-check true e = record { at = λ k h. (λ e. cc, h) }
  Runs-check false e = record { at = λ k h. (λ e. cc, h) }

  pub Runs-when : (b : Bool) (m : Act S (Unit {0})) → (b ≡ true → Runs P m) → Runs P (when b m)
  unfolding when
  Runs-when true m km = km refl
  Runs-when false m km = record { at = λ k h. (λ e. cc, h) }

  pub Runs-ignore : {A : Type 0} (m : Act S A) → Runs P m → Runs P (ignore m)
  unfolding ignore
  Runs-ignore m km = record { at = λ k h. let (n, h') = km.at k h in (ground arith, h') }

  Runs-handle_error :
      {A : Type 0} (r : Result A) (c : Act S (Unit {0}))
      → r ≢ fault
      → Runs P c
      → Runs P (handle_error r c)
  Runs-handle_error (ok a) c n kc = record { at = λ k h. (λ e. cc, h) }
  Runs-handle_error (err e) c n kc = record {
    at = λ k h. let (n', h') = kc.at k h in (ground arith, h');
  }
  Runs-handle_error fault c n kc = absurd (n refl)

  pub Runs-on_error :
      {A : Type 0} (m : Act S A) (c : Act S (Unit {0}))
      → Runs P m
      → Runs P c
      → Runs P (on_error m c)
  unfolding on_error
  Runs-on_error m c km kc = record {
    at = λ k h. let (n, h') = km.at k h in (Runs-handle_error (m k).0 c n kc).at (m k).1 h';
  }

  Runs-continue :
      {A B : Type 0} (r : Result A) (f : A → Act S B)
      → r ≢ fault
      → ((a : A) → r ≡ ok a → Runs P (f a))
      → Runs P (continue r f)
  Runs-continue (ok a) f n kf = kf a refl
  Runs-continue (err e) f n kf = record { at = λ k h. (λ e. cc, h) }
  Runs-continue fault f n kf = absurd (n refl)

  pub Runs-bind :
      {A B : Type 0} (m : Act S A) (f : A → Act S B)
      → Runs P m
      → ((a : A) → Runs P (f a))
      → Runs P (m >>= f)
  unfolding ◌>>=◌
  Runs-bind m f km kf = record {
    at = λ k h. let (n, h') = km.at k h in (Runs-continue (m k).0 f n (λ a _. kf a)).at (m k).1 h';
  }

pub ruleset act_runs_rules = (
  Runs-pure, Runs-raise, Runs-gets, Runs-check, Runs-when, Runs-ignore, Runs-on_error, Runs-bind,
  Runs-lift,
)
