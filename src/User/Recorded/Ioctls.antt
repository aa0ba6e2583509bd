-- ===== src/User/Recorded/Ioctls.antt =====
-- What the manager has recorded of a process after an ioctl of the library (user/src/cuddl_linux.c) and
-- after the call around it, when it returns 0.
use cuddl.Base.{ℕ, zero, suc, ◌≡◌, none, List, Result, ok, err, fault}
use mathlib.Core.Path.{subst, sym}
use cuddl.Act.{◌>>◌, pure, raise, hang, gets, ignore}
use cuddl.Act.Triples.{Triple, Triple-bind}
use cuddl.Kernel.{Kernel, ResourceRef}
use cuddl.Ioctl.Commands.{Call, Request}
use cuddl.User.{Env, Process, U, next, enter_ioctl, sys_open, sys_close, sys_ioctl}
use cuddl.User.Calls.{after_data, data_call}
use cuddl.User.Recorded.{
  OnZero, Looked, Aside, kept-OnOk, OnOk-OnZero, any_end, any-OnZero, attempt-Looked, Looked-OnZero,
  Keeps-open, Keeps-close, Keeps-next,
}
use cuddl.View.Lists.{Lists}
use cuddl.View.Handed.{OnOk}
use cuddl.View.Answers.{Steady, Yields, manager_ioctl-OnOk}

-- The kernel that the process with this number calls.
abbrev pub Calls : ℕ → (Kernel → Type 0) → Process → Type 0
Calls pid Q p = Q p.kernel × (p.pid ≡ pid)

pub Calls-Aside : (pid : ℕ) (Q : Kernel → Type 0) → Aside (Calls pid Q)
Calls-Aside pid Q = record {
  clock = λ p n h. h;
  fds = λ p l h. h;
  mappings = λ p l h. h;
  read_from = λ p l h. h;
}

module _ (env : Env) (pid : ℕ) (m e : List ResourceRef) (Q : Kernel → Type 0) (steady : Steady Q)
    (request : Request) (y : Yields m e Q request) where
  called :
      (r : Result ℕ) (k : Kernel) (p : Process)
      → OnOk Q r k
      → p.pid ≡ pid
      → OnOk (Calls pid Q) r (record p { kernel = k })
  called (ok n) k p h i = (h, i)
  called (err c) k p h i = tt
  called fault k p h i = tt

  entered :
      (c : Call) → Triple (Calls pid (Lists m e)) (enter_ioctl env c request) (OnOk (Calls pid Q))
  entered c = record {
    at = λ p h.
        called _ _ p
          ((manager_ioctl-OnOk m e Q steady request c env.page_size y).at
            (record p.kernel { user = none }) h.0)
          h.1;
  }

  -- What a request leaves when its ioctl returns 0.
  pub sys_ioctl-Looked :
      Triple (Calls pid (Lists m e)) (sys_ioctl env request) (Looked (OnOk (Calls pid Q)))
  unfolding sys_ioctl
  sys_ioctl-Looked =
      Triple-bind (next env) _ (kept-OnOk (next env) (Keeps-next (Calls-Aside pid (Lists m e)) env))
        (record { failed = λ c p h. tt; stopped = λ p h. tt })
        λ o. attempt-Looked (enter_ioctl env o.call request) (entered o.call)

-- A call that hands out a structure: `T` is what copying it out leaves.
module _ (env : Env) {R T : Process → Type 0} (aside : Aside T) (out : U (Unit {0}))
    (copies : Triple R out (OnOk T)) where
  last : (n : ℕ) → Triple T (pure n) (OnZero T)
  unfolding pure
  last zero = record { at = λ p h. h }
  last (suc n) = record { at = λ p h. tt }

  refused : (fd n : ℕ) → Triple R (ignore (sys_close env fd) >> pure (suc n)) (OnZero T)
  unfolding pure
  refused fd n =
      Triple-bind (ignore (sys_close env fd)) _ (any_end (ignore (sys_close env fd))) any-OnZero
        λ u. record { at = λ p h. tt }

  after_data-OnZero :
      (fd : ℕ) (r : Result ℕ) → Triple (OnOk R r) (after_data env out fd r) (OnZero T)
  unfolding after_data raise hang
  after_data-OnZero fd (ok zero) = Triple-bind out _ copies OnOk-OnZero λ u.
      Triple-bind (sys_close env fd) _ (kept-OnOk (sys_close env fd) (Keeps-close aside env fd))
        OnOk-OnZero λ v. last 0
  after_data-OnZero fd (ok (suc n)) = refused fd n
  after_data-OnZero fd (err e) =
      Triple-bind (ignore (sys_close env fd)) _ (any_end (ignore (sys_close env fd))) any-OnZero
        λ u. record { at = λ p h. tt }
  after_data-OnZero fd fault = record { at = λ p h. tt }

  pub data_call-OnZero :
      {P : Process → Type 0} (request : ℕ → Request) (pid : ℕ)
      → Aside P
      → ((p : Process) → P p → p.pid ≡ pid)
      → Triple P (sys_ioctl env (request pid)) (Looked (OnOk R))
      → Triple P (data_call env request out) (OnZero T)
  unfolding data_call gets
  data_call-OnZero {P} request pid steady number ioctl =
      Triple-bind (sys_open env) _ (kept-OnOk (sys_open env) (Keeps-open steady env)) OnOk-OnZero
        λ fd.
          Triple-bind (gets (λ p. p.pid)) _ asked
            (record { failed = λ c p h. tt; stopped = λ p h. tt })
            λ n.
              Triple-bind (sys_ioctl env (request n)) _ (same n) Looked-OnZero
                λ r. after_data-OnZero fd r
    where
      Asked : Result ℕ → Process → Type 0
      Asked (ok n) p = P p × (pid ≡ n)
      Asked (err c) p = Unit {0}
      Asked fault p = Unit {0}

      asked : Triple P (gets (λ p. p.pid)) Asked
      asked = record { at = λ p h. (h, sym (number p h)) }

      same : (n : ℕ) → Triple (Asked (ok n)) (sys_ioctl env (request n)) (Looked (OnOk R))
      same n = record {
        at = λ p h.
            subst (λ x. let (r, q) = sys_ioctl env (request x) p in Looked (OnOk R) r q) h.1
              (ioctl.at p h.0);
      }
