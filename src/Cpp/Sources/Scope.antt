-- ===== src/Cpp/Sources/Scope.antt =====
-- An object of the class EventSrc as a local variable (user/include/cuddl/eventsrc.hpp).
use cuddl.Base.{
  ℕ, zero, suc, ◌≡◌, refl, sym, ◌∙◌, Bool, true, false, Option, none, some, List, Result, ok, err,
  fault, if◌then◌else◌,
}
use mathlib.Core.Path.{subst}
use cuddl.Act.{pure, hang, gets, ignore, attempt}
use cuddl.Act.Triples.{Triple, Ends, Triple-bind, Triple-attempt, Triple-ignore}
use cuddl.Act.Zeros.{IsZero}
use cuddl.Kernel.{ResourceId}
use cuddl.User.{Env, Process, U, EventHandle, adjust}
use cuddl.User.Descriptors.{Open, Left, Sure, adjust-Sure}
use cuddl.User.Sources.{
  Handed, Opens, eventsrc_claim_and_open-Handed, eventsrc_close_and_release-Left,
}
use cuddl.User.Claims.{eventsrc_claim_and_open-Zeros}
use cuddl.User.Eventsrc.{eventsrc_claim_and_open, eventsrc_close_and_release}
use cuddl.Cpp.Errors.{Ended, returned, threw}
use cuddl.Cpp.Scope.{scope, Closes, Made, StillOwned, OwningClass, scope-Closes}
use cuddl.Cpp.Flags.{Flags}
use cuddl.Cpp.Objects.{filled, constructed}
use cuddl.Cpp.Sources.{
  EventSrc, closed_source, source_claimed, claim_and_open, close_and_release, new_source,
  delete_source,
}

module _ (maps fds : List ℕ) where
  -- What the object owns.
  abbrev pub Owned : EventSrc → Process → Type 0
  Owned s p = if s.opened then Opens maps fds s.eventsrc p else Open maps fds p

  -- After the result of a claim has been looked at.
  abbrev Looked : Result (Result ℕ) → Process → Type 0
  Looked (ok r) p = Handed maps fds r p × IsZero r
  Looked (err e) p = ⊥
  Looked fault p = Unit {0}

  abbrev Read : Result ℕ → Result (Option EventHandle) → Process → Type 0
  Read ret (ok source) p = (source ≡ p.source) × (Handed maps fds ret p × IsZero ret)
  Read ret (err e) p = ⊥
  Read ret fault p = Unit {0}

  -- After claim_and_open on an object that owns nothing.
  abbrev Claimed : Result (Ended (Unit {0}) × EventSrc) → Process → Type 0
  Claimed (ok (returned u, s)) p = (s.opened ≡ true) × Opens maps fds s.eventsrc p
  Claimed (ok (threw e, s)) p = Open maps fds p
  Claimed (err e) p = ⊥
  Claimed fault p = Unit {0}

  Sure-Claimed : {A : Type 0} → Ends (Sure maps {A = A} fds) Claimed
  Sure-Claimed = record { failed = λ e k h. absurd h; stopped = λ k h. h }

  module _ (env : Env) (id : ResourceId) (f : Flags) where
    abbrev call : U ℕ
    call =
        eventsrc_claim_and_open env (some id.group) (some id.device) (some id.resource)
          id.instance_id f

    looked : Triple (Open maps fds) (attempt call) Looked
    looked =
        Triple-attempt {R = λ r p. Handed maps fds r p × IsZero r} call
          (record {
            at = λ p h. (
              (eventsrc_claim_and_open-Handed maps fds env (some id.group) (some id.device)
                    (some id.resource) id.instance_id f).at
                  p h,
              (eventsrc_claim_and_open-Zeros env (some id.group) (some id.device) (some id.resource)
                    id.instance_id f).at
                  p,
            );
          })
          (λ p n h. h) (λ p e h. h) (λ p h. tt)

    claimed :
        (ret : Result ℕ) (source : Option EventHandle)
        → Triple
            (Read ret (ok source))
            (source_claimed id ret
              (record closed_source { eventsrc = filled closed_source.eventsrc source }))
            Claimed
    unfolding source_claimed pure hang
    claimed (ok zero) source = record {
      at = λ p (e, ((s, t, h), z)).
          (refl, subst (λ x. Opens maps fds (filled closed_source.eventsrc x) p) (sym (e ∙ t)) h);
    }
    claimed (ok (suc n)) source = record { at = λ p (e, (h, z)). absurd z }
    claimed (err c) source = record { at = λ p (e, (h, z)). h }
    claimed fault source = record { at = λ p h. tt }

    claim_and_open-Claimed : Triple (Open maps fds) (claim_and_open env id f closed_source) Claimed
    unfolding claim_and_open
    claim_and_open-Claimed =
        Triple-bind (adjust (λ p. record p { source = none })) _
          (adjust-Sure maps fds _ (λ p. refl) (λ p. refl)) Sure-Claimed
          λ _.
            Triple-bind (attempt call) _ looked
              (record { failed = λ e k h. absurd h; stopped = λ k h. h })
              λ ret.
                Triple-bind {R = Read ret} (gets (λ p. p.source)) _ (seen ret)
                  (record { failed = λ e k h. absurd h; stopped = λ k h. h })
                  λ source. claimed ret source
      where
        seen : (ret : Result ℕ) → Triple (Looked (ok ret)) (gets (λ p. p.source)) (Read ret)
        seen ret = record { at = λ p h. (refl, h) }

    new_source-Made : Triple (Open maps fds) (new_source env id f) (Made (Open maps fds) Owned)
    unfolding new_source pure
    new_source-Made =
        Triple-bind (claim_and_open env id f closed_source) _ claim_and_open-Claimed
          (record { failed = λ e k h. h; stopped = λ k h. h }) made
      where
        made :
            (r : Ended (Unit {0}) × EventSrc)
            → Triple (Claimed (ok r)) (pure (constructed r)) (Made (Open maps fds) Owned)
        made (returned u, s) = record { at = λ p (e, h). rw e h }
        made (threw e, s) = record { at = λ p h. h }

  -- After `close_and_release`.
  abbrev pub Freed : Result EventSrc → Process → Type 0
  Freed (ok s) p = (s.opened ≡ false) × Open maps fds p
  Freed (err e) p = ⊥
  Freed fault p = Unit {0}

  module _ (env : Env) where
    freed :
        (e : EventHandle) (b : Bool)
        → let s : EventSrc = record { eventsrc = e; opened = b } in
          Triple (Owned s) (close_and_release env s) Freed
    unfolding close_and_release pure
    freed e true =
        Triple-bind {R = Closes (Open maps fds)} (ignore (eventsrc_close_and_release env e)) _
          (Triple-ignore {R = Left maps fds} (eventsrc_close_and_release env e)
            (eventsrc_close_and_release-Left maps fds env e) (λ p n h. h) (λ p c h. h) (λ p h. tt))
          (record { failed = λ c k h. h; stopped = λ k h. h }) λ u. record { at = λ p h. (refl, h) }
    freed e false = record { at = λ p h. (refl, h) }

    -- An object that owns what it should owns nothing after `close_and_release`.
    pub close_and_release-Freed : (s : EventSrc) → Triple (Owned s) (close_and_release env s) Freed
    close_and_release-Freed s = freed s.eventsrc s.opened

    delete_source-Closes :
        (s : EventSrc) → Triple (Owned s) (delete_source env s) (Closes (Open maps fds))
    unfolding delete_source pure
    delete_source-Closes s =
        Triple-bind (close_and_release env s) _ (close_and_release-Freed s)
          (record { failed = λ e k h. h; stopped = λ k h. h }) λ t. record { at = λ p h. h.1 }

    source_class : ResourceId → Flags → OwningClass EventSrc
    source_class id f = record {
      new = new_source env id f;
      delete = delete_source env;
      Before = Open maps fds;
      Owned = Owned;
      Gone = Open maps fds;
      new-Made = new_source-Made env id f;
      delete-Closes = delete_source-Closes;
      nothing_made = λ p h. h;
    }

    -- However the system calls turn out, and whether the constructor throws, the body throws, or
    -- neither: when a scope with an object of the class EventSrc ends, whose body leaves the object
    -- with what it owns or owning nothing, the process has the descriptors and the mappings from
    -- before it.
    pub source_scope-Closes :
        {B : Type 0} (id : ResourceId) (f : Flags) (body : EventSrc → U (Ended B × EventSrc))
        → ((s : EventSrc) → Triple (Owned s) (body s) (StillOwned Owned))
        → Triple
            (Open maps fds)
            (scope (delete_source env) (new_source env id f) body)
            (Closes (Open maps fds))
    unfolding source_class
    source_scope-Closes id f body keeps = scope-Closes (source_class id f) body keeps
