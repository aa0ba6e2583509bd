-- ===== src/User/Recorded.antt =====
-- What a call of the library (user/src/cuddl_linux.c) leaves when it returns 0: the rules for its
-- system calls and its ioctls.
pub mod Ioctls
pub mod Tokens
pub mod Regions
pub mod Waits
pub mod Sources
use cuddl.Base.{ℕ, zero, suc, ◌+◌, none, some, Option, Errno, List, ◌∷◌, Result, ok, err, fault}
use cuddl.Act.{pure, attempt, caught, lift, on_error, handle_error, after_error}
use cuddl.Act.Triples.{Triple, Ends}
use cuddl.Act.Keeps.{Keeps, Keeps-bind, Keeps-lift, Keeps-pure}
use cuddl.User.{
  Env, Process, U, adjust, next, code, with_fd, without_fd, with_mapping, without_mapping, sys_open,
  sys_close, sys_mmap, sys_munmap,
}
use cuddl.View.Handed.{OnOk}

-- What holds when a call returns 0.
abbrev pub OnZero : (Process → Type 0) → Result ℕ → Process → Type 0
OnZero P (ok zero) p = P p
OnZero P (ok (suc n)) p = Unit {0}
OnZero P (err e) p = Unit {0}
OnZero P fault p = Unit {0}

-- After an action whose result is looked at.
abbrev pub Looked :
    {A : Type 0} → (Result A → Process → Type 0) → Result (Result A) → Process → Type 0
Looked Q (ok r) p = Q r p
Looked Q (err e) p = Unit {0}
Looked Q fault p = Unit {0}

-- A fact that does not depend on the descriptors, the mappings, the clock, or what has been read from.
pub record Aside (P : Process → Type 0) : Type 0 where
  pub clock : (p : Process) (n : ℕ) → P p → P (record p { clock = n })
  pub fds : (p : Process) (l : List ℕ) → P p → P (record p { fds = l })
  pub mappings : (p : Process) (l : List ℕ) → P p → P (record p { mappings = l })
  pub read_from : (p : Process) (l : List ℕ) → P p → P (record p { read_from = l })

module _ {A : Type 0} where
  pub kept-OnOk : {P : Process → Type 0} (a : U A) → Keeps P a → Triple P a (OnOk P)
  kept-OnOk {P} a k = record { at = λ p h. weaker (a p).0 (a p).1 (k.at p h) }
    where
      weaker : (r : Result A) (p : Process) → P p → OnOk P r p
      weaker (ok x) p h = h
      weaker (err e) p h = tt
      weaker fault p h = tt

  pub OnOk-OnZero : {P Q : Process → Type 0} → Ends (OnOk {A = A} P) (OnZero Q)
  OnOk-OnZero = record { failed = λ e p h. tt; stopped = λ p h. tt }

  pub OnOk-OnOk : {P Q : Process → Type 0} → Ends (OnOk {A = A} P) (OnOk {A = ℕ} Q)
  OnOk-OnOk = record { failed = λ e p h. tt; stopped = λ p h. tt }

  -- Of an action of which nothing is asked.
  pub any_end : {P : Process → Type 0} (a : U A) → Triple P a (λ r p. Unit {0})
  any_end a = record { at = λ p h. tt }

  pub any-OnZero : {Q : Process → Type 0} → Ends {A = A} (λ r p. Unit {0}) (OnZero Q)
  any-OnZero = record { failed = λ e p h. tt; stopped = λ p h. tt }

  pub Looked-OnZero :
      {R : Result A → Process → Type 0} {Q : Process → Type 0} → Ends (Looked R) (OnZero Q)
  Looked-OnZero = record { failed = λ e p h. tt; stopped = λ p h. tt }

  pub attempt-Looked :
      {P : Process → Type 0} {Q : Result A → Process → Type 0} (a : U A)
      → Triple P a Q
      → Triple P (attempt a) (Looked Q)
  unfolding attempt
  attempt-Looked {Q} a t = record { at = λ p h. looked (a p).0 (a p).1 (t.at p h) }
    where
      looked : (r : Result A) (p : Process) → Q r p → Looked Q (caught r) p
      looked (ok x) p h = h
      looked (err e) p h = h
      looked fault p h = tt

pub on_error-OnZero :
    {P Q : Process → Type 0} (a : U ℕ) (c : U (Unit {0}))
    → Triple P a (OnZero Q)
    → Triple P (on_error a c) (OnZero Q)
unfolding on_error
on_error-OnZero {Q} a c t = record { at = λ p h. handled (a p).0 (a p).1 (t.at p h) }
  where
    refused : (e : Errno) (r : Result (Unit {0})) (p : Process) → OnZero Q (after_error e r) p
    refused e (ok u) p = tt
    refused e (err d) p = tt
    refused e fault p = tt

    handled :
        (r : Result ℕ) (p : Process)
        → OnZero Q r p
        → OnZero Q (handle_error r c p).0 (handle_error r c p).1
    handled (ok n) p h = h
    handled (err e) p h = refused e (c p).0 (c p).1
    handled fault p h = tt

-- The system calls other than ioctls.
module _ {P : Process → Type 0} (aside : Aside P) (env : Env) where
  Keeps-fds : (f : Process → List ℕ) → Keeps P (adjust (λ p. record p { fds = f p }))
  unfolding adjust
  Keeps-fds f = record { at = λ p h. aside.fds p (f p) h }

  Keeps-mappings : (f : Process → List ℕ) → Keeps P (adjust (λ p. record p { mappings = f p }))
  unfolding adjust
  Keeps-mappings f = record { at = λ p h. aside.mappings p (f p) h }

  pub Keeps-next : Keeps P (next env)
  unfolding next
  Keeps-next = record { at = λ p h. aside.clock p (p.clock + 1) h }

  pub Keeps-open : Keeps P (sys_open env)
  unfolding sys_open
  Keeps-open = Keeps-bind (next env) _ Keeps-next λ o.
      Keeps-bind (lift o.opens) _ (Keeps-lift o.opens)
        λ fd. Keeps-bind (adjust (with_fd fd)) _ (Keeps-fds (λ p. fd ∷ p.fds)) λ u. Keeps-pure fd

  pub Keeps-close : (fd : ℕ) → Keeps P (sys_close env fd)
  unfolding sys_close
  Keeps-close fd = Keeps-bind (next env) _ Keeps-next λ o.
      Keeps-bind (adjust (without_fd fd)) _ (Keeps-fds (λ p. (without_fd fd p).fds))
        λ u. Keeps-lift (code o.closes)

  pub Keeps-mmap : Keeps P (sys_mmap env)
  unfolding sys_mmap
  Keeps-mmap = Keeps-bind (next env) _ Keeps-next λ o.
      Keeps-bind (lift o.maps) _ (Keeps-lift o.maps) λ a.
        Keeps-bind (adjust (with_mapping a)) _ (Keeps-mappings (λ p. a ∷ p.mappings))
          λ u. Keeps-pure a

  Keeps-without_mapping : (c : Option Errno) (a : ℕ) → Keeps P (adjust (without_mapping c a))
  unfolding adjust
  Keeps-without_mapping none a = record { at = λ p h. aside.mappings p _ h }
  Keeps-without_mapping (some e) a = record { at = λ p h. h }

  pub Keeps-munmap : (a : ℕ) → Keeps P (sys_munmap env a)
  unfolding sys_munmap
  Keeps-munmap a = Keeps-bind (next env) _ Keeps-next λ o.
      Keeps-bind (adjust (without_mapping o.unmaps a)) _ (Keeps-without_mapping o.unmaps a)
        λ u. Keeps-lift (code o.unmaps)
