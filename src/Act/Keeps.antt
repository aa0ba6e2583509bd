-- ===== src/Act/Keeps.antt =====
-- Invariants of actions, by a rule for each way to build an action.
use cuddl.Base.{◌≡◌, refl, Bool, true, false, Result, ok, err, fault, Errno}
use cuddl.Act.{
  Act, pure, raise, hang, lift, gets, continue, ◌>>=◌, check, when, ignore, attempt, on_error,
  handle_error,
}

-- `m` keeps `P`, whatever it returns.
pub record Keeps {S A : Type 0} (P : S → Type 0) (m : Act S A) : Type 0 where
  pub at : (k : S) → P k → P (m k).1

module _ {S : Type 0} {P : S → Type 0} where
  pub Keeps-lift : {A : Type 0} (r : Result A) → Keeps P (lift r)
  unfolding lift
  Keeps-lift r = record { at = λ k h. h }

  pub Keeps-pure : {A : Type 0} (a : A) → Keeps P (pure a)
  unfolding pure
  Keeps-pure a = record { at = λ k h. h }

  pub Keeps-raise : {A : Type 0} (e : Errno) → Keeps P (raise {A = A} e)
  unfolding raise
  Keeps-raise e = record { at = λ k h. h }

  pub Keeps-hang : {A : Type 0} → Keeps P (hang {A = A})
  unfolding hang
  Keeps-hang = record { at = λ k h. h }

  pub Keeps-gets : {A : Type 0} (f : S → A) → Keeps P (gets f)
  unfolding gets
  Keeps-gets f = record { at = λ k h. h }

  pub Keeps-check : (b : Bool) (e : Errno) → Keeps P (check b e)
  unfolding check
  Keeps-check true e = record { at = λ k h. h }
  Keeps-check false e = record { at = λ k h. h }

  pub Keeps-when : (b : Bool) {m : Act S (Unit {0})} → (b ≡ true → Keeps P m) → Keeps P (when b m)
  unfolding when
  Keeps-when true km = km refl
  Keeps-when false km = record { at = λ k h. h }

  pub Keeps-ignore : {A : Type 0} (m : Act S A) → Keeps P m → Keeps P (ignore m)
  unfolding ignore
  Keeps-ignore m km = record { at = λ k h. km.at k h }

  pub Keeps-attempt : {A : Type 0} (m : Act S A) → Keeps P m → Keeps P (attempt m)
  unfolding attempt
  Keeps-attempt m km = record { at = λ k h. km.at k h }

  Keeps-handle_error :
      {A : Type 0} (r : Result A) (c : Act S (Unit {0})) → Keeps P c → Keeps P (handle_error r c)
  Keeps-handle_error (ok a) c kc = record { at = λ k h. h }
  Keeps-handle_error (err e) c kc = record { at = λ k h. kc.at k h }
  Keeps-handle_error fault c kc = record { at = λ k h. h }

  pub Keeps-on_error :
      {A : Type 0} (m : Act S A) (c : Act S (Unit {0}))
      → Keeps P m
      → Keeps P c
      → Keeps P (on_error m c)
  unfolding on_error
  Keeps-on_error m c km kc = record {
    at = λ k h. let (r, k') = m k in (Keeps-handle_error r c kc).at k' (km.at k h);
  }

  Keeps-continue :
      {A B : Type 0} (r : Result A) (f : A → Act S B)
      → ((a : A) → Keeps P (f a))
      → Keeps P (continue r f)
  Keeps-continue (ok a) f kf = kf a
  Keeps-continue (err e) f kf = record { at = λ k h. h }
  Keeps-continue fault f kf = record { at = λ k h. h }

  pub Keeps-bind :
      {A B : Type 0} (m : Act S A) (f : A → Act S B)
      → Keeps P m
      → ((a : A) → Keeps P (f a))
      → Keeps P (m >>= f)
  unfolding ◌>>=◌
  Keeps-bind m f km kf = record {
    at = λ k h. let (r, k') = m k in (Keeps-continue r f kf).at k' (km.at k h);
  }

pub ruleset act_keeps_rules = (
  Keeps-lift, Keeps-pure, Keeps-raise, Keeps-hang, Keeps-gets, Keeps-check, Keeps-when,
  Keeps-ignore, Keeps-on_error, Keeps-bind,
)
