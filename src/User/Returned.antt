-- ===== src/User/Returned.antt =====
-- Unmapping a region and releasing it (user/src/cuddl_linux.c).
use cuddl.Base.{
  ℕ, zero, suc, ap, ◌≡◌, ◌∙◌, ◌⊎◌, inl, inr, Option, none, some, List, ◌∷◌, Errno, Result, ok, err,
  fault,
}
use cuddl.Act.{lift, ◌>>=◌, attempt, caught}
use cuddl.Act.Triples.{Triple, Ends, Triple-bind, Triple-attempt}
use cuddl.Kernel.{Token}
use cuddl.User.{
  Env, Process, MappedRegion, code, without_mapping, without_number, sys_close, sys_munmap,
}
use cuddl.User.Descriptors.{Open, Left, sys_close-Left, without_first}
use cuddl.User.Tokens.{bare-Left}
use cuddl.User.Memregion.{
  first_int, first_code, release_data, memregion_release_request, memregion_release_by_token,
  memregion_unmap, memregion_unmap_and_release,
}

module _ (maps fds : List ℕ) (a : ℕ) where
  -- The descriptor is given back, the mapping perhaps not.
  abbrev pub Closed : Process → Type 0
  Closed p = (p.fds ≡ fds) × ((p.mappings ≡ maps) ⊎ (p.mappings ≡ a ∷ maps))

  -- After a call that takes a mapping at `a` and a descriptor back.
  abbrev pub GivenBack : Result ℕ → Process → Type 0
  GivenBack (ok n) p = Open maps fds p
  GivenBack (err e) p = Closed p
  GivenBack fault p = Unit {0}

  -- After `munmap`, as a value.
  abbrev Unmapped : List ℕ → Result (Result (Unit {0})) → Process → Type 0
  Unmapped l (ok (ok u)) p = Open maps l p
  Unmapped l (ok (err e)) p = Open (a ∷ maps) l p
  Unmapped l (ok fault) p = ⊥
  Unmapped l (err e) p = ⊥
  Unmapped l fault p = Unit {0}

  -- After an action whose result is looked at.
  abbrev Caught : {A : Type 0} → (Process → Type 0) → Result (Result A) → Process → Type 0
  Caught P (ok (ok r)) p = P p
  Caught P (ok (err r)) p = P p
  Caught P (ok fault) p = ⊥
  Caught P (err e) p = ⊥
  Caught P fault p = Unit {0}

  weaker :
      {A : Type 0} (P Q : Process → Type 0) (r : Result (Result A)) (p : Process)
      → (P p → Q p)
      → Caught P r p
      → Caught Q r p
  weaker P Q (ok (ok r)) p f h = f h
  weaker P Q (ok (err e)) p f h = f h
  weaker P Q (ok fault) p f h = h
  weaker P Q (err e) p f h = h
  weaker P Q fault p f h = h

  -- The same as a value that is looked at.
  abbrev Ended : Result (Result ℕ) → Process → Type 0
  Ended (ok (ok n)) p = Open maps fds p
  Ended (ok (err e)) p = Closed p
  Ended (ok fault) p = ⊥
  Ended (err e) p = ⊥
  Ended fault p = Unit {0}

  Caught-Ends : {A : Type 0} {P : Process → Type 0} → Ends (Caught {A = A} P) GivenBack
  Caught-Ends = record { failed = λ e k h. absurd h; stopped = λ k h. h }

  module _ (env : Env) (fd : ℕ) where
    unmapped :
        (c : Option Errno) (l : List ℕ) (p : Process)
        → Open (a ∷ maps) l p
        → Unmapped l (caught (code c)) (without_mapping c a p)
    unmapped none l p h = (h.0, ap (without_number a) h.1 ∙ without_first a maps)
    unmapped (some e) l p h = h

    sys_munmap-Unmapped :
        (l : List ℕ) → Triple (Open (a ∷ maps) l) (attempt (sys_munmap env a)) (Unmapped l)
    unfolding sys_munmap attempt
    sys_munmap-Unmapped l = record { at = λ p h. unmapped (env.script p.clock).unmaps l _ h }

    closed-Caught :
        (ms : List ℕ)
        → Triple (Open ms (fd ∷ fds)) (attempt (sys_close env fd)) (Caught (Open ms fds))
    closed-Caught ms =
        Triple-attempt (sys_close env fd) (sys_close-Left ms env fds fd) (λ k u h. h) (λ k e h. h)
          (λ k h. h)

    closed_last :
        (u : Result (Unit {0}))
        → Triple
            (Unmapped (fd ∷ fds) (ok u))
            (attempt (sys_close env fd) >>= λ c. lift (first_code u c))
            GivenBack
    unfolding lift
    closed_last (ok u) =
        Triple-bind (attempt (sys_close env fd)) _ (closed-Caught maps) Caught-Ends λ c. both c
      where
        both :
            (c : Result (Unit {0}))
            → Triple (Caught (Open maps fds) (ok c)) (lift (first_code (ok u) c)) GivenBack
        both (ok v) = record { at = λ p h. h }
        both (err e) = record { at = λ p h. (h.0, inl h.1) }
        both fault = record { at = λ p h. tt }
    closed_last (err e) =
        Triple-bind (attempt (sys_close env fd)) _ (closed-Caught (a ∷ maps)) Caught-Ends
          λ c. both c
      where
        both :
            (c : Result (Unit {0}))
            → Triple (Caught (Open (a ∷ maps) fds) (ok c)) (lift (first_code (err e) c)) GivenBack
        both (ok v) = record { at = λ p h. (h.0, inr h.1) }
        both (err d) = record { at = λ p h. (h.0, inr h.1) }
        both fault = record { at = λ p h. absurd h }
    closed_last fault = record { at = λ p h. absurd h }

  -- Unmapping a region that is mapped at `a`, with its descriptor the latest.
  pub memregion_unmap-GivenBack :
      (env : Env) (r : MappedRegion)
      → r.pa_addr ≡ a
      → Triple (Open (a ∷ maps) (r.fd ∷ fds)) (memregion_unmap env r) GivenBack
  unfolding memregion_unmap
  memregion_unmap-GivenBack env r e = rw e (
      Triple-bind (attempt (sys_munmap env a)) _ (sys_munmap-Unmapped env r.fd (r.fd ∷ fds))
        (record { failed = λ e k h. absurd h; stopped = λ k h. h }) λ u. closed_last env r.fd u)

  module _ (env : Env) (token : Token) where
    let_go :
        (ms : List ℕ) → Triple (Open ms fds) (memregion_release_by_token env token) (Left ms fds)
    unfolding memregion_release_by_token
    let_go ms = bare-Left env ms fds (λ pid. memregion_release_request env (release_data token pid))

    released-Caught :
        (ms : List ℕ)
        → Triple
            (Open ms fds)
            (attempt (memregion_release_by_token env token))
            (Caught (Open ms fds))
    released-Caught ms =
        Triple-attempt (memregion_release_by_token env token) (let_go ms) (λ k u h. h) (λ k e h. h)
          (λ k h. h)

    released-Closed : Triple Closed (attempt (memregion_release_by_token env token)) (Caught Closed)
    released-Closed = record { at = either }
      where
        either :
            (p : Process)
            → Closed p
            → let (r, q) = attempt (memregion_release_by_token env token) p in Caught Closed r q
        either p (e, inl m) =
            weaker (Open maps fds) Closed (attempt (memregion_release_by_token env token) p).0
              (attempt (memregion_release_by_token env token) p).1 (λ h. (h.0, inl h.1))
              ((released-Caught maps).at p (e, m))
        either p (e, inr m) =
            weaker (Open (a ∷ maps) fds) Closed (attempt (memregion_release_by_token env token) p).0
              (attempt (memregion_release_by_token env token) p).1 (λ h. (h.0, inr h.1))
              ((released-Caught (a ∷ maps)).at p (e, m))

    released_last :
        (r : Result ℕ)
        → Triple
            (Ended (ok r))
            (attempt (memregion_release_by_token env token) >>= λ r2. lift (first_int r r2))
            GivenBack
    unfolding lift
    released_last (ok zero) =
        Triple-bind (attempt (memregion_release_by_token env token)) _ (released-Caught maps)
          Caught-Ends λ c. last c
      where
        last : (c : Result ℕ) → Triple (Caught (Open maps fds) (ok c)) (lift c) GivenBack
        last (ok n) = record { at = λ p h. h }
        last (err e) = record { at = λ p h. (h.0, inl h.1) }
        last fault = record { at = λ p h. tt }
    released_last (ok (suc n)) =
        Triple-bind (attempt (memregion_release_by_token env token)) _ (released-Caught maps)
          Caught-Ends λ c. last c
      where
        last : (c : Result ℕ) → Triple (Caught (Open maps fds) (ok c)) (lift (ok (suc n))) GivenBack
        last (ok m) = record { at = λ p h. h }
        last (err e) = record { at = λ p h. h }
        last fault = record { at = λ p h. absurd h }
    released_last (err e) =
        Triple-bind (attempt (memregion_release_by_token env token)) _ released-Closed Caught-Ends
          λ c. last c
      where
        last : (c : Result ℕ) → Triple (Caught Closed (ok c)) (lift (err e)) GivenBack
        last (ok m) = record { at = λ p h. h }
        last (err d) = record { at = λ p h. h }
        last fault = record { at = λ p h. absurd h }
    released_last fault = record { at = λ p h. absurd h }

  pub memregion_unmap_and_release-GivenBack :
      (env : Env) (r : MappedRegion)
      → r.pa_addr ≡ a
      → Triple (Open (a ∷ maps) (r.fd ∷ fds)) (memregion_unmap_and_release env r) GivenBack
  unfolding memregion_unmap_and_release
  memregion_unmap_and_release-GivenBack env r e =
      Triple-bind (attempt (memregion_unmap env r)) _
        (Triple-attempt {Q = Ended} (memregion_unmap env r) (memregion_unmap-GivenBack env r e)
          (λ k n h. h) (λ k c h. h) (λ k h. h))
        (record { failed = λ c k h. absurd h; stopped = λ k h. h }) λ u. released_last env r.token u
