-- ===== src/User/Recorded/Sources.antt =====
-- What the manager has recorded of an event source while a process has it open, and after the process has
-- closed and released it (user/src/cuddl_linux.c).
use cuddl.Base.{ℕ, zero, suc, ◌≡◌, refl, ◌∙◌, Option, some, List, ◌∷◌, Result, ok, err, fault, ℤ}
use mathlib.Core.Path.{subst, sym}
use mathlib.Core.Option.{some-injective}
use cuddl.Act.{◌>>=◌, pure, hang, gets, ignore}
use cuddl.Act.Triples.{Triple, Triple-bind}
use cuddl.Act.Keeps.{Keeps, Keeps-bind, Keeps-pure, Keeps-ignore}
use cuddl.CStr.{Str}
use cuddl.Kernel.{Reply, EventsrcInfo, ResourceRef}
use cuddl.User.{Env, Process, EventHandle, adjust, sys_open, sys_close}
use cuddl.User.Memregion.{or_return, claim_data, release_data}
use cuddl.User.Eventsrc.{
  opened_source, eventsrc_claim_request, eventsrc_release_request, eventsrc_claim, eventsrc_open,
  eventsrc_release, eventsrc_release_by_token, eventsrc_open_or_release, eventsrc_in,
  claimed_eventsrc, eventsrc_claim_and_open, eventsrc_close, eventsrc_close_and_release,
  eventsrc_disable, eventsrc_try_wait,
}
use cuddl.User.Recorded.Waits.{Keeps-disable, Keeps-try_wait}
use cuddl.User.Recorded.{
  OnZero, kept-OnOk, OnOk-OnZero, on_error-OnZero, Keeps-open, Keeps-close, Aside,
}
use cuddl.User.Recorded.Ioctls.{Calls}
use cuddl.User.Recorded.Tokens.{
  Held, Referred, Referred-Aside, Told, claim-Told, release-Lists, both-OnZero,
}
use cuddl.View.Lists.{Lists}
use cuddl.View.Handed.{Names}
use cuddl.View.Answers.{source_claim-Yields, source_release-Yields}

module _ (env : Env) (pid : ℕ) (m e : List ResourceRef) where
  abbrev mems : ℕ → ℕ → List ResourceRef
  mems s i = m

  abbrev events : ℕ → ℕ → List ResourceRef
  events s i = record { device_index = s; resource_index = i; pid = pid } ∷ e

  -- The caller has been handed an open event source, for which the manager has one reference.
  abbrev Handed : Process → Type 0
  Handed p = (r : EventHandle) × (p.source ≡ some r) × Referred pid mems events r.token p

  Handed-Aside : Aside Handed
  Handed-Aside = record {
    clock = λ p n h. h;
    fds = λ p l h. h;
    mappings = λ p l h. h;
    read_from = λ p l h. h;
  }

  eventsrc_claim-Told :
      (g d n : Option Str) (i : ℤ) (o : ℕ)
      → Triple
          (Calls pid (Lists m e))
          (eventsrc_claim env g d n i o)
          (OnZero (Told pid mems events))
  unfolding eventsrc_claim
  eventsrc_claim-Told g d n i o =
      claim-Told pid mems events m e env
        (λ x. eventsrc_claim_request env (claim_data env g d n i o x))
        (source_claim-Yields m e env (claim_data env g d n i o pid))

  -- After the structure has been read.
  abbrev Read : Result EventsrcInfo → Process → Type 0
  Read (ok info) p = Referred pid mems events info.token p
  Read (err c) p = Unit {0}
  Read fault p = Unit {0}

  claimed_eventsrc-Read : Triple (Told pid mems events) claimed_eventsrc Read
  unfolding claimed_eventsrc ◌>>=◌ gets eventsrc_in pure hang
  claimed_eventsrc-Read = record {
    at = λ p (r, u, h).
        subst (λ x. Read (eventsrc_in x p).0 (eventsrc_in x p).1) (sym u) (read r p h);
  }
    where
      read :
          (r : Reply) (p : Process)
          → ((s i : ℕ) × Names r s i × Held pid mems events s i p)
          → Read (eventsrc_in (some r) p).0 (eventsrc_in (some r) p).1
      read (Reply.memregion_info info) p h = tt
      read (Reply.eventsrc_info info) p (s, i, n, h) = (s, i, n.0, n.1, h)
      read (Reply.resource_id id) p h = tt
      read (Reply.text_info t) p h = tt

  done : Triple Handed (pure 0) (OnZero Handed)
  unfolding pure
  done = record { at = λ p h. h }

  eventsrc_open-Handed :
      (info : EventsrcInfo)
      → Triple (Referred pid mems events info.token) (eventsrc_open env info) (OnZero Handed)
  unfolding eventsrc_open adjust
  eventsrc_open-Handed info =
      let steady = Referred-Aside pid mems events info.token in
      let aside = Handed-Aside in
      Triple-bind (sys_open env) _ (kept-OnOk (sys_open env) (Keeps-open steady env)) OnOk-OnZero
        λ fd.
          let source = opened_source info fd in
          Triple-bind (adjust (λ p. record p { source = some source })) _
            (record { at = λ p h. (source, refl, h) }) (OnOk-OnZero {P = Handed})
            λ u.
              Triple-bind (ignore (eventsrc_disable env source)) _
                (kept-OnOk (ignore (eventsrc_disable env source))
                  (Keeps-ignore (eventsrc_disable env source) (Keeps-disable aside env source)))
                OnOk-OnZero
                λ v.
                  Triple-bind (ignore (eventsrc_try_wait env source)) _
                    (kept-OnOk (ignore (eventsrc_try_wait env source)) (
                      Keeps-ignore (eventsrc_try_wait env source)
                        (Keeps-try_wait aside env source)))
                    OnOk-OnZero λ w. done

  opened-Handed :
      (ret : ℕ)
      → Triple
          (OnZero (Told pid mems events) (ok ret))
          (or_return ret (claimed_eventsrc >>= λ info. eventsrc_open_or_release env info))
          (OnZero Handed)
  unfolding eventsrc_open_or_release pure
  opened-Handed zero =
      Triple-bind claimed_eventsrc _ claimed_eventsrc-Read
        (record { failed = λ c p h. tt; stopped = λ p h. tt })
        λ info.
          on_error-OnZero (eventsrc_open env info) (ignore (eventsrc_release env info))
            (eventsrc_open-Handed info)
  opened-Handed (suc n) = record { at = λ p h. tt }

  -- When claiming and opening returns 0, the manager has one reference more, to the resource that the
  -- token of the event source names.
  eventsrc_claim_and_open-Handed_reference :
      (g d n : Option Str) (i : ℤ) (o : ℕ)
      → Triple (Calls pid (Lists m e)) (eventsrc_claim_and_open env g d n i o) (OnZero Handed)
  unfolding eventsrc_claim_and_open
  eventsrc_claim_and_open-Handed_reference g d n i o =
      Triple-bind (eventsrc_claim env g d n i o) _ (eventsrc_claim-Told g d n i o)
        (record { failed = λ c p h. tt; stopped = λ p h. tt }) opened-Handed

  module _ (r : EventHandle) where
    Keeps-eventsrc_close : Keeps (Referred pid mems events r.token) (eventsrc_close env r)
    unfolding eventsrc_close
    Keeps-eventsrc_close =
        Keeps-bind (sys_close env r.fd) _
          (Keeps-close (Referred-Aside pid mems events r.token) env r.fd) λ u. Keeps-pure 0

    release_by_token-Lists :
        Triple
          (Referred pid mems events r.token)
          (eventsrc_release_by_token env r.token)
          (OnZero (Calls pid (Lists m e)))
    unfolding eventsrc_release_by_token
    release_by_token-Lists =
        release-Lists pid mems events m e env r.token
          (λ x. eventsrc_release_request env (release_data r.token x))
          λ s i d t. source_release-Yields m e (release_data r.token pid) s i d t env

    -- When closing and releasing an event source returns 0, its reference is gone.
    eventsrc_close_and_release-Lists :
        Triple
          (Referred pid mems events r.token)
          (eventsrc_close_and_release env r)
          (OnZero (Calls pid (Lists m e)))
    unfolding eventsrc_close_and_release
    eventsrc_close_and_release-Lists =
        both-OnZero (eventsrc_close env r) (eventsrc_release_by_token env r.token)
          Keeps-eventsrc_close release_by_token-Lists

    same_source : (p : Process) → Handed p → p.source ≡ some r → Referred pid mems events r.token p
    same_source p (r', u, h) s =
        subst (λ x. Referred pid mems events x.token p) (some-injective r' r (sym u ∙ s)) h

-- Opening an event source and closing it again, when both return 0, leaves the manager with the references
-- that it had.
pub open_and_release-Lists :
    (env : Env) (g d n : Option Str) (i : ℤ) (o : ℕ) (p : Process) (r : EventHandle)
    → (eventsrc_claim_and_open env g d n i o p).0 ≡ ok 0
    → (eventsrc_claim_and_open env g d n i o p).1.source ≡ some r
    → let (result, q) =
        eventsrc_close_and_release env r (eventsrc_claim_and_open env g d n i o p).1 in
      OnZero (Calls p.pid (Lists p.kernel.mem_refs p.kernel.event_refs)) result q
open_and_release-Lists env g d n i o p r z s =
    let m = p.kernel.mem_refs in
    let e = p.kernel.event_refs in
    let q = (eventsrc_claim_and_open env g d n i o p).1 in
    (eventsrc_close_and_release-Lists env p.pid m e r).at q (
      same_source env p.pid m e r q
        (subst (λ x. OnZero (Handed env p.pid m e) x q) z
          ((eventsrc_claim_and_open-Handed_reference env p.pid m e g d n i o).at p
            ((refl, refl), refl)))
        s)
