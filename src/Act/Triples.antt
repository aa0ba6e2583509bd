-- ===== src/Act/Triples.antt =====
-- What an action leaves, in terms of what it found and of its result.
use cuddl.Base.{Errno, Result, ok, err, fault}
use cuddl.Act.{
  Act, continue, ◌>>=◌, ignore, attempt, caught, after_drop, handle_error, after_error, on_error,
}

pub record Triple {S A : Type 0} (P : S → Type 0) (m : Act S A) (Q : Result A → S → Type 0)
    : Type 0 where
  pub at : (k : S) → P k → Q (m k).0 (m k).1

-- `R` goes on as `Q` where a block ends early.
pub record Ends {S A B : Type 0} (R : Result A → S → Type 0) (Q : Result B → S → Type 0)
    : Type 0 where
  pub failed : (e : Errno) (k : S) → R (err e) k → Q (err e) k
  pub stopped : (k : S) → R fault k → Q fault k

continue_triple :
    {S A B : Type 0} {R : Result A → S → Type 0} {Q : Result B → S → Type 0} (r : Result A)
    (f : A → Act S B) (k : S)
    → Ends R Q
    → ((a : A) → Triple (R (ok a)) (f a) Q)
    → R r k
    → Q (continue r f k).0 (continue r f k).1
continue_triple (ok a) f k e t h = (t a).at k h
continue_triple (err c) f k e t h = e.failed c k h
continue_triple fault f k e t h = e.stopped k h

module _ {A : Type 0} (R : Result A → Type 0) where
  dropped :
      (Q : Result (Unit {0}) → Type 0) (r : Result A)
      → ((a : A) → R (ok a) → Q (ok tt))
      → ((e : Errno) → R (err e) → Q (ok tt))
      → (R fault → Q fault)
      → R r
      → Q (after_drop r)
  dropped Q (ok a) o e f h = o a h
  dropped Q (err c) o e f h = e c h
  dropped Q fault o e f h = f h

  attempted :
      (Q : Result (Result A) → Type 0) (r : Result A)
      → ((a : A) → R (ok a) → Q (ok (ok a)))
      → ((e : Errno) → R (err e) → Q (ok (err e)))
      → (R fault → Q fault)
      → R r
      → Q (caught r)
  attempted Q (ok a) o e f h = o a h
  attempted Q (err c) o e f h = e c h
  attempted Q fault o e f h = f h

-- `S` is what the cleanup leaves.
module _ {A : Type 0} (S : Result (Unit {0}) → Type 0) where
  cleaned :
      (Q : Result A → Type 0) (e : Errno) (r : Result (Unit {0}))
      → (S (ok tt) → Q (err e))
      → ((c : Errno) → S (err c) → Q (err e))
      → (S fault → Q fault)
      → S r
      → Q (after_error e r)
  cleaned Q e (ok u) o c f h = o h
  cleaned Q e (err d) o c f h = c d h
  cleaned Q e fault o c f h = f h

module _ {S : Type 0} {P : S → Type 0} where
  pub Triple-bind :
      {A B : Type 0} {R : Result A → S → Type 0} {Q : Result B → S → Type 0} (m : Act S A)
      (f : A → Act S B)
      → Triple P m R
      → Ends R Q
      → ((a : A) → Triple (R (ok a)) (f a) Q)
      → Triple P (m >>= f) Q
  unfolding ◌>>=◌
  Triple-bind m f tm e tf = record {
    at = λ k h. continue_triple (m k).0 f (m k).1 e tf (tm.at k h);
  }

  pub Triple-ignore :
      {A : Type 0} {R : Result A → S → Type 0} {Q : Result (Unit {0}) → S → Type 0} (m : Act S A)
      → Triple P m R
      → ((k : S) (a : A) → R (ok a) k → Q (ok tt) k)
      → ((k : S) (e : Errno) → R (err e) k → Q (ok tt) k)
      → ((k : S) → R fault k → Q fault k)
      → Triple P (ignore m) Q
  unfolding ignore
  Triple-ignore {R} {Q} m t o e f = record {
    at = λ k h.
        let k' = (m k).1 in
        dropped (λ r. R r k') (λ r. Q r k') (m k).0 (o k') (e k') (f k') (t.at k h);
  }

  pub Triple-attempt :
      {A : Type 0} {R : Result A → S → Type 0} {Q : Result (Result A) → S → Type 0} (m : Act S A)
      → Triple P m R
      → ((k : S) (a : A) → R (ok a) k → Q (ok (ok a)) k)
      → ((k : S) (e : Errno) → R (err e) k → Q (ok (err e)) k)
      → ((k : S) → R fault k → Q fault k)
      → Triple P (attempt m) Q
  unfolding attempt
  Triple-attempt {R} {Q} m t o e f = record {
    at = λ k h.
        let k' = (m k).1 in
        attempted (λ r. R r k') (λ r. Q r k') (m k).0 (o k') (e k') (f k') (t.at k h);
  }

-- What a clean-up that leaves `C` makes of what an action has left.
pub record Cleans {S A : Type 0} (R : Result A → S → Type 0) (c : Act S (Unit {0}))
    (Q : Result A → S → Type 0) : Type 1 where
  pub C : Result (Unit {0}) → S → Type 0
  pub done : (k : S) (a : A) → R (ok a) k → Q (ok a) k
  pub stopped : (k : S) → R fault k → Q fault k
  pub cleanup : (e : Errno) → Triple (R (err e)) c C
  pub cleaned_ok : (e : Errno) (k : S) → C (ok tt) k → Q (err e) k
  pub cleaned_err : (e d : Errno) (k : S) → C (err d) k → Q (err e) k
  pub cleaned_fault : (k : S) → C fault k → Q fault k

handled :
    {S A : Type 0} (R : Result A → S → Type 0) (Q : Result A → S → Type 0) (c : Act S (Unit {0}))
    (l : Cleans R c Q) (r : Result A) (k : S)
    → R r k
    → Q (handle_error r c k).0 (handle_error r c k).1
handled R Q c l (ok a) k h = l.done k a h
handled R Q c l (err e) k h =
    let k' = (c k).1 in
    cleaned (λ r. l.C r k') (λ r. Q r k') e (c k).0 (l.cleaned_ok e k') (λ d. l.cleaned_err e d k')
      (l.cleaned_fault k') ((l.cleanup e).at k h)
handled R Q c l fault k h = l.stopped k h

pub Triple-on_error :
    {S A : Type 0} {P : S → Type 0} {R : Result A → S → Type 0} {Q : Result A → S → Type 0}
    (m : Act S A) (c : Act S (Unit {0}))
    → Triple P m R
    → Cleans R c Q
    → Triple P (on_error m c) Q
unfolding on_error
Triple-on_error {R} {Q} m c tm l = record {
  at = λ k h. handled R Q c l (m k).0 (m k).1 (tm.at k h);
}
