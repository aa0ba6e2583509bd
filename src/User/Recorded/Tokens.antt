-- ===== src/User/Recorded/Tokens.antt =====
-- What the manager has recorded of a resource whose token a process keeps, between the call of the
-- library that claims it and the one that releases it (user/src/cuddl_linux.c).
use cuddl.Base.{ℕ, zero, suc, ◌≡◌, some, List, Result, ok, err, fault, pos}
use cuddl.Act.{◌>>=◌, pure, attempt, lift}
use cuddl.Act.Triples.{Triple, Triple-bind}
use cuddl.Act.Keeps.{Keeps}
use cuddl.Kernel.{Reply, ResourceRef, Token}
use cuddl.Ioctl.Commands.{Request}
use cuddl.User.{Env, Process, U, adjust}
use cuddl.User.Calls.{data_call, deliver}
use cuddl.User.Memregion.{first_int}
use cuddl.User.Recorded.{
  OnZero, Looked, Aside, kept-OnOk, any_end, any-OnZero, attempt-Looked, Looked-OnZero,
}
use cuddl.User.Recorded.Ioctls.{Calls, Calls-Aside, sys_ioctl-Looked, data_call-OnZero}
use cuddl.View.Lists.{Lists}
use cuddl.View.Handed.{OnOk, Names, Answered}
use cuddl.View.Answers.{Steady, Yields}

pub Lists-Steady : (m e : List ResourceRef) → Steady (Lists m e)
Lists-Steady m e = record { locks = λ k b h. h; buffers = λ k bs h. h }

-- `mems` and `events` are the manager's lists while the resource with this slot and index is held.
module _ (pid : ℕ) (mems events : ℕ → ℕ → List ResourceRef) where
  abbrev pub Held : ℕ → ℕ → Process → Type 0
  Held s i = Calls pid (Lists (mems s i) (events s i))

  -- The token names the resource that is held.
  abbrev pub Referred : Token → Process → Type 0
  Referred token p =
      (s i : ℕ) × (token.device_index ≡ pos s) × (token.resource_index ≡ pos i) × Held s i p

  pub Referred-Aside : (token : Token) → Aside (Referred token)
  Referred-Aside token = record {
    clock = λ p n h. h;
    fds = λ p l h. h;
    mappings = λ p l h. h;
    read_from = λ p l h. h;
  }

  -- The answer that the caller has been given names it.
  abbrev pub Told : Process → Type 0
  Told p = (r : Reply) × (p.out ≡ some r) × ((s i : ℕ) × Names r s i × Held s i p)

  Told-Aside : Aside Told
  Told-Aside = record {
    clock = λ p n h. h;
    fds = λ p l h. h;
    mappings = λ p l h. h;
    read_from = λ p l h. h;
  }

  module _ (m e : List ResourceRef) where
    Answered-Steady : Steady (Answered m e (λ s i. Lists (mems s i) (events s i)))
    Answered-Steady = record { locks = λ k b h. h; buffers = λ k bs h. h }

    copies :
        Triple (Calls pid (Answered m e (λ s i. Lists (mems s i) (events s i)))) deliver (OnOk Told)
    unfolding deliver adjust
    copies = record { at = λ p ((r, u, (s, i, n, l)), h). (r, u, (s, i, n, (l, h))) }

    pub claim-Told :
        (env : Env) (request : ℕ → Request)
        → Yields m e (Answered m e (λ s i. Lists (mems s i) (events s i))) (request pid)
        → Triple (Calls pid (Lists m e)) (data_call env request deliver) (OnZero Told)
    claim-Told env request y =
        data_call-OnZero env Told-Aside deliver copies request pid (Calls-Aside pid (Lists m e))
          (λ p h. h.1)
          (sys_ioctl-Looked env pid m e (Answered m e (λ s i. Lists (mems s i) (events s i)))
            Answered-Steady (request pid) y)

    pub release-Lists :
        (env : Env) (token : Token) (request : ℕ → Request)
        → ((s i : ℕ)
            → token.device_index ≡ pos s
            → token.resource_index ≡ pos i
            → Yields (mems s i) (events s i) (Lists m e) (request pid))
        → Triple (Referred token) (data_call env request (pure tt)) (OnZero (Calls pid (Lists m e)))
    release-Lists env token request y = record {
      at = λ p (s, i, d, r, h).
          (data_call-OnZero env (Calls-Aside pid (Lists m e)) (pure tt) nothing request pid
              (Calls-Aside pid (Lists (mems s i) (events s i))) (λ q g. g.1)
              (sys_ioctl-Looked env pid (mems s i) (events s i) (Lists m e) (Lists-Steady m e)
                (request pid) (y s i d r))).at
            p h;
    }
      where
        nothing : Triple (Calls pid (Lists m e)) (pure tt) (OnOk (Calls pid (Lists m e)))
        nothing = unfold pure in record { at = λ p h. h }

-- Two calls, of which the first error comes back: 0 says that both have returned 0.
module _ {P Q : Process → Type 0} (first second : U ℕ) (kept : Keeps P first)
    (done : Triple P second (OnZero Q)) where
  stays :
      {R : Process → Type 0} (r : Result ℕ)
      → ((r2 : Result ℕ) (p : Process) → OnZero Q (first_int r r2) p)
      → Triple R (attempt second >>= λ r2. lift (first_int r r2)) (OnZero Q)
  unfolding lift
  stays r o =
      Triple-bind (attempt second) _ (any_end (attempt second)) any-OnZero
        λ r2. record { at = λ p h. o r2 p }

  then_second :
      (r : Result ℕ)
      → Triple (Looked (OnOk P) (ok r)) (attempt second >>= λ r2. lift (first_int r r2)) (OnZero Q)
  unfolding lift
  then_second (ok zero) =
      Triple-bind (attempt second) _ (attempt-Looked second done) Looked-OnZero
        λ r2. record { at = λ p h. h }
  then_second (ok (suc n)) = stays (ok (suc n)) (λ r2 p. tt)
  then_second (err c) = stays (err c) (λ r2 p. tt)
  then_second fault = stays fault (λ r2 p. tt)

  pub both-OnZero :
      Triple P (attempt first >>= λ r1. attempt second >>= λ r2. lift (first_int r1 r2)) (OnZero Q)
  both-OnZero =
      Triple-bind (attempt first) _ (attempt-Looked first (kept-OnOk first kept)) Looked-OnZero
        then_second
