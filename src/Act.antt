-- ===== src/Act.antt =====
-- Actions: C functions that read and write a state and return a value, an error code, or nothing at
-- all. Each source of state (the kernel module, a process) has its own type of states.
pub mod Keeps
pub mod Runs
pub mod Triples
pub mod Zeros
use cuddl.Base.{◌≡◌, Bool, Errno, Result, ok, err, fault, if◌then◌else◌}

abbrev pub Act : Type 0 → Type 0 → Type 0
Act S A = S → Result A × S

module _ {S A : Type 0} where
  unfoldable pub pure : A → Act S A
  pure a k = (ok a, k)

  unfoldable pub raise : Errno → Act S A
  raise e k = (err e, k)

  unfoldable pub hang : Act S A
  hang k = (fault, k)

  unfoldable pub lift : Result A → Act S A
  lift r k = (r, k)

  unfoldable pub gets : (S → A) → Act S A
  gets f k = (ok (f k), k)

module _ {S A B : Type 0} where
  abbrev pub continue : Result A → (A → Act S B) → Act S B
  continue (ok a) f k = f a k
  continue (err e) f k = (err e, k)
  continue fault f k = (fault, k)

  infixl 10 ◌>>=◌ ◌>>◌
  -- Opening this opens the actions above too.
  unfoldable pub ◌>>=◌ : Act S A → (A → Act S B) → Act S B
  unfolding pure raise hang lift gets
  ◌>>=◌ m f k = let (r, k') = m k in continue r f k'

  abbrev pub ◌>>◌ : Act S A → Act S B → Act S B
  m >> n = m >>= λ _. n

-- `if (!b) return -e;`
unfoldable pub check : {S : Type 0} → Bool → Errno → Act S (Unit {0})
unfolding pure raise
check b e = if b then pure tt else raise e

-- `if (b) m;`
unfoldable pub when : {S : Type 0} → Bool → Act S (Unit {0}) → Act S (Unit {0})
unfolding pure
when b m = if b then m else pure tt

abbrev pub after_drop : {A : Type 0} → Result A → Result (Unit {0})
after_drop (ok a) = ok tt
after_drop (err e) = ok tt
after_drop fault = fault

-- A call whose return value is dropped.
unfoldable pub ignore : {S A : Type 0} → Act S A → Act S (Unit {0})
ignore m k = let (r, k') = m k in (after_drop r, k')

abbrev pub after_error : {A : Type 0} → Errno → Result (Unit {0}) → Result A
after_error e fault = fault
after_error e _ = err e

abbrev pub handle_error : {S A : Type 0} → Result A → Act S (Unit {0}) → Act S A
handle_error (ok a) cleanup k = (ok a, k)
handle_error (err e) cleanup k = let (r, k') = cleanup k in (after_error e r, k')
handle_error fault cleanup k = (fault, k)

-- `if (ret) goto fail;`, where `fail` runs the cleanup and returns `ret`.
unfoldable pub on_error : {S A : Type 0} → Act S A → Act S (Unit {0}) → Act S A
on_error m cleanup k = let (r, k') = m k in handle_error r cleanup k'

-- A block whose first action succeeds goes on from the state that it left.
pub bind_of_ok :
    {S A B : Type 0} (m : Act S A) (f : A → Act S B) (k : S) {a : A}
    → (m k).0 ≡ ok a
    → (m >>= f) k ≡ f a (m k).1
unfolding ◌>>=◌
bind_of_ok m f k e = rw e

abbrev pub caught : {A : Type 0} → Result A → Result (Result A)
caught fault = fault
caught r = ok r

-- A call whose return value is looked at, an error code like any other.
unfoldable pub attempt : {S A : Type 0} → Act S A → Act S (Result A)
attempt m k = let (r, k') = m k in (caught r, k')
