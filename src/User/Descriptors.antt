-- ===== src/User/Descriptors.antt =====
-- Every call of the library closes what it opens.
use cuddl.Base.{
  ℕ, ◌+◌, ap, zero, suc, ◌≡◌, ◌∙◌, List, ◌∷◌, Errno, Result, ok, err, fault, Option, none, some,
  arith,
}
use cuddl.Act.{caught, continue, ◌>>=◌, ◌>>◌, pure, raise, gets, ignore}
use cuddl.Act.Triples.{Triple, Ends, Triple-bind, Triple-ignore}
use cuddl.Ioctl.Commands.{Request}
use cuddl.User.{
  Env, Process, with_fd, U, without_number, code, adjust, sys_open, sys_close, sys_ioctl,
}
use cuddl.User.Calls.{after_data, data_call, after_int, int_call}

pub without_first : (fd : ℕ) (fds : List ℕ) → without_number fd (fd ∷ fds) ≡ fds
unfolding without_number
without_first fd fds = ground arith

-- `maps` are the mappings, which these calls leave alone.
module _ (maps : List ℕ) where
  abbrev pub Open : List ℕ → Process → Type 0
  Open fds p = (p.fds ≡ fds) × (p.mappings ≡ maps)

  -- After an action: the open descriptors are `fds`, unless it does not return.
  abbrev pub Left : {A : Type 0} → List ℕ → Result A → Process → Type 0
  Left fds (ok a) p = Open fds p
  Left fds (err e) p = Open fds p
  Left fds fault p = Unit {0}

  -- The same of an action that does not fail.
  abbrev pub Sure : {A : Type 0} → List ℕ → Result A → Process → Type 0
  Sure fds (ok a) p = Open fds p
  Sure fds (err e) p = ⊥
  Sure fds fault p = Unit {0}

  -- After `open`, which adds its descriptor when it succeeds.
  abbrev pub Opened : List ℕ → Result ℕ → Process → Type 0
  Opened fds (ok fd) p = Open (fd ∷ fds) p
  Opened fds (err e) p = Open fds p
  Opened fds fault p = Unit {0}

  coded-Left : (fds : List ℕ) (x : Option Errno) (p : Process) → Open fds p → Left fds (code x) p
  coded-Left fds none p h = h
  coded-Left fds (some e) p h = h

  pub caught-Sure :
      {A : Type 0} (fds : List ℕ) (r : Result A) (p : Process) → Open fds p → Sure fds (caught r) p
  caught-Sure fds (ok a) p h = h
  caught-Sure fds (err e) p h = h
  caught-Sure fds fault p h = tt

  pub Sure-Ends : {A B : Type 0} (fds fds' : List ℕ) → Ends (Sure {A = A} fds) (Left {A = B} fds')
  Sure-Ends fds fds' = record { failed = λ e k h. absurd h; stopped = λ k h. h }

  pub Left-Ends : {A B : Type 0} (fds : List ℕ) → Ends (Left {A = A} fds) (Left {A = B} fds)
  Left-Ends fds = record { failed = λ e k h. h; stopped = λ k h. h }

  pub Opened-Ends : {B : Type 0} (fds : List ℕ) → Ends (Opened fds) (Left {A = B} fds)
  Opened-Ends fds = record { failed = λ e k h. h; stopped = λ k h. h }

  pub done-Left : {A : Type 0} (fds : List ℕ) (a : A) → Triple (Open fds) (pure a) (Left fds)
  unfolding pure
  done-Left fds a = record { at = λ p h. h }

  pub raised-Left :
      {A : Type 0} (fds : List ℕ) (e : Errno) → Triple (Open fds) (raise e) (Left {A = A} fds)
  unfolding raise
  raised-Left fds e = record { at = λ p h. h }

  pub adjust-Sure :
      (fds : List ℕ) (f : Process → Process)
      → ((p : Process) → (f p).fds ≡ p.fds)
      → ((p : Process) → (f p).mappings ≡ p.mappings)
      → Triple (Open fds) (adjust f) (Sure fds)
  unfolding adjust
  adjust-Sure fds f e m = record { at = λ p h. (e p ∙ h.0, m p ∙ h.1) }

  pub gets-Sure :
      {A : Type 0} (fds : List ℕ) (f : Process → A) → Triple (Open fds) (gets f) (Sure fds)
  unfolding gets
  gets-Sure fds f = record { at = λ p h. h }

  pub ignored-Sure :
      {A : Type 0} (fds : List ℕ) (m : U A)
      → Triple (Open fds) m (Left fds)
      → Triple (Open fds) (ignore m) (Sure fds)
  ignored-Sure fds m t = Triple-ignore m t (λ p a h. h) (λ p e h. h) (λ p h. h)

  module _ (env : Env) (fds : List ℕ) where
    opened :
        (r : Result ℕ) (p : Process)
        → Open fds p
        → let (r', p') = continue r (λ fd. adjust (with_fd fd) >> pure fd) p in Opened fds r' p'
    unfolding ◌>>=◌ adjust
    opened (ok fd) p h = (ap (λ l. fd ∷ l) h.0, h.1)
    opened (err e) p h = h
    opened fault p h = tt

    pub sys_open-Opened : Triple (Open fds) (sys_open env) (Opened fds)
    unfolding sys_open
    sys_open-Opened = record {
      at = λ p h. opened (env.script p.clock).opens (record p { clock = p.clock + 1 }) h;
    }

    pub sys_close-Left : (fd : ℕ) → Triple (Open (fd ∷ fds)) (sys_close env fd) (Left fds)
    unfolding sys_close
    sys_close-Left fd = record {
      at = λ p h.
          coded-Left fds (env.script p.clock).closes _
            (ap (without_number fd) h.0 ∙ without_first fd fds, h.1);
    }

    pub closed-Sure : (fd : ℕ) → Triple (Open (fd ∷ fds)) (ignore (sys_close env fd)) (Sure fds)
    closed-Sure fd =
        Triple-ignore (sys_close env fd) (sys_close-Left fd) (λ p a h. h) (λ p e h. h) (λ p h. h)

    pub sys_ioctl-Sure : (request : Request) → Triple (Open fds) (sys_ioctl env request) (Sure fds)
    unfolding sys_ioctl
    sys_ioctl-Sure request = record { at = λ p h. caught-Sure fds _ _ h }

  module _ (env : Env) (fds : List ℕ) where
    after_data-Left :
        (out : U (Unit {0})) (fd : ℕ) (r : Result ℕ)
        → Triple (Open (fd ∷ fds)) out (Sure (fd ∷ fds))
        → Triple (Open (fd ∷ fds)) (after_data env out fd r) (Left fds)
    unfolding after_data
    after_data-Left out fd (ok zero) t = Triple-bind out _ t (Sure-Ends (fd ∷ fds) fds) λ _.
        Triple-bind (sys_close env fd) _ (sys_close-Left env fds fd) (Left-Ends fds)
          λ _. done-Left fds 0
    after_data-Left out fd (ok (suc n)) t =
        Triple-bind (ignore (sys_close env fd)) _ (closed-Sure env fds fd) (Sure-Ends fds fds)
          λ _. done-Left fds (suc n)
    after_data-Left out fd (err e) t =
        Triple-bind (ignore (sys_close env fd)) _ (closed-Sure env fds fd) (Sure-Ends fds fds)
          λ _. raised-Left fds e
    after_data-Left out fd fault t = record { at = λ p h. tt }

    pub data_call-Left :
        (request : ℕ → Request) (out : U (Unit {0}))
        → ((l : List ℕ) → Triple (Open l) out (Sure l))
        → Triple (Open fds) (data_call env request out) (Left fds)
    unfolding data_call
    data_call-Left request out t =
        Triple-bind (sys_open env) _ (sys_open-Opened env fds) (Opened-Ends fds) λ fd.
          Triple-bind (gets (λ p. p.pid)) _ (gets-Sure (fd ∷ fds) _) (Sure-Ends (fd ∷ fds) fds)
            λ pid.
              Triple-bind (sys_ioctl env (request pid)) _ (sys_ioctl-Sure env (fd ∷ fds) _)
                (Sure-Ends (fd ∷ fds) fds) λ r. after_data-Left out fd r (t (fd ∷ fds))

    after_int-Left :
        (fd : ℕ) (r : Result ℕ) → Triple (Open (fd ∷ fds)) (after_int env fd r) (Left fds)
    unfolding after_int
    after_int-Left fd (ok n) =
        Triple-bind (sys_close env fd) _ (sys_close-Left env fds fd) (Left-Ends fds)
          λ _. done-Left fds n
    after_int-Left fd (err e) =
        Triple-bind (ignore (sys_close env fd)) _ (closed-Sure env fds fd) (Sure-Ends fds fds)
          λ _. raised-Left fds e
    after_int-Left fd fault = record { at = λ p h. tt }

    pub int_call-Left : (request : Request) → Triple (Open fds) (int_call env request) (Left fds)
    unfolding int_call
    int_call-Left request =
        Triple-bind (sys_open env) _ (sys_open-Opened env fds) (Opened-Ends fds) λ fd.
          Triple-bind (sys_ioctl env request) _ (sys_ioctl-Sure env (fd ∷ fds) request)
            (Sure-Ends (fd ∷ fds) fds) λ r. after_int-Left fd r
