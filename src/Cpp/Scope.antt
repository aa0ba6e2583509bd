-- ===== src/Cpp/Scope.antt =====
-- Local variables of a class with a destructor: what C++ does at the end of their scope.
use cuddl.Base.{Result, ok, err, fault}
use cuddl.Act.{◌>>=◌, ◌>>◌, pure}
use cuddl.Act.Triples.{Triple, Ends, Triple-bind}
use cuddl.User.{Process, U}
use cuddl.Cpp.Errors.{Ended, returned, threw}

-- `{ Object m{...}; body }`: the body may change the object, and may throw; the destructor runs at its
-- end either way, but not when the constructor has thrown.
module _ {Object : Type 0} (delete : Object → U (Unit {0})) where
  unfoldable pub in_scope :
      {B : Type 0} → Ended Object → (Object → U (Ended B × Object)) → U (Ended B)
  unfolding ◌>>=◌
  in_scope (returned m) body = do r ← body m; delete r.1; pure r.0
  in_scope (threw e) body = pure (threw e)

  unfoldable pub scope :
      {B : Type 0} → U (Ended Object) → (Object → U (Ended B × Object)) → U (Ended B)
  unfolding ◌>>=◌ in_scope
  scope new body = do made ← new; in_scope made body

-- After an action that takes away what an object owns.
abbrev pub Closes : {B : Type 0} → (Process → Type 0) → Result B → Process → Type 0
Closes Gone (ok r) p = Gone p
Closes Gone (err e) p = ⊥
Closes Gone fault p = Unit {0}

-- After the constructor.
abbrev pub Made :
    {Object : Type 0}
    → (Process → Type 0)
    → (Object → Process → Type 0)
    → Result (Ended Object)
    → Process
    → Type 0
Made Before Owned (ok (returned m)) p = Owned m p
Made Before Owned (ok (threw e)) p = Before p
Made Before Owned (err e) p = ⊥
Made Before Owned fault p = Unit {0}

-- After a body that returns or throws, with the object as it has left it.
abbrev pub StillOwned :
    {Object B : Type 0} → (Object → Process → Type 0) → Result (Ended B × Object) → Process → Type 0
StillOwned Owned (ok r) p = Owned r.1 p
StillOwned Owned (err e) p = ⊥
StillOwned Owned fault p = Unit {0}

-- A class whose objects own something: what a process has before the constructor runs, what an
-- object owns, and what is left when its destructor has run.
pub record OwningClass (Object : Type 0) : Type 1 where
  pub new : U (Ended Object)
  pub delete : Object → U (Unit {0})
  pub Before : Process → Type 0
  pub Owned : Object → Process → Type 0
  pub Gone : Process → Type 0
  pub new-Made : Triple Before new (Made Before Owned)
  pub delete-Closes : (m : Object) → Triple (Owned m) (delete m) (Closes Gone)
  pub nothing_made : (p : Process) → Before p → Gone p

Closes-Ends :
    {A B : Type 0} (Gone : Process → Type 0) → Ends (Closes {B = A} Gone) (Closes {B = B} Gone)
Closes-Ends Gone = record { failed = λ e k h. h; stopped = λ k h. h }

module _ {Object B : Type 0} (c : OwningClass Object) (body : Object → U (Ended B × Object))
    (keeps : (m : Object) → Triple (c.Owned m) (body m) (StillOwned c.Owned)) where
  scoped :
      (made : Ended Object)
      → Triple (Made c.Before c.Owned (ok made)) (in_scope c.delete made body) (Closes c.Gone)
  unfolding in_scope pure
  scoped (returned m) =
      Triple-bind (body m) _ (keeps m) (record { failed = λ e k h. h; stopped = λ k h. h })
        λ r.
          Triple-bind (c.delete r.1) _ (c.delete-Closes r.1) (Closes-Ends c.Gone)
            λ u. record { at = λ p h. h }
  scoped (threw e) = record { at = λ p h. c.nothing_made p h }

  pub scope-Closes : Triple c.Before (scope c.delete c.new body) (Closes c.Gone)
  unfolding scope
  scope-Closes =
      Triple-bind c.new _ c.new-Made (record { failed = λ e k h. h; stopped = λ k h. h }) scoped
