-- ===== src/User/Ready.antt =====
-- Waiting for a set of event sources counts those that are ready (user/src/cuddl_linux.c).
use cuddl.Base.{
  ℕ, zero, suc, ◌+◌, ◌≡◌, refl, sym, ◌∙◌, ap, Bool, true, false, not, Bool-cases, inl, inr, Result,
  List, [], ◌∷◌, ◌++◌, ok, err, etimedout, arith, ◌==◌, if◌then◌else◌,
}
use mathlib.Core.Path.{subst}
use cuddl.Act.{◌>>=◌, ◌>>◌, pure, check, bind_of_ok}
use cuddl.User.{Env, Process, U, EventSet, adjust, sys_read, sys_select, with_read}
use cuddl.User.Eventsrc.{Timespec, timeval_of}
use cuddl.User.EventSets.{read_ready, eventsrcset_timed_wait, with_ready}

-- How many descriptors below `n` are in the set.
unfoldable pub ready_below : (ℕ → Bool) → ℕ → ℕ
ready_below s zero = 0
ready_below s (suc n) = if s n then suc (ready_below s n) else ready_below s n

module _ (s : ℕ → Bool) (fd : ℕ) where
  ready_here : s fd ≡ true → ready_below s (suc fd) ≡ suc (ready_below s fd)
  unfolding ready_below
  ready_here e = rw e

  not_ready_here : s fd ≡ false → ready_below s (suc fd) ≡ ready_below s fd
  unfolding ready_below
  not_ready_here e = rw e

  ready_shift : (n : ℕ) → ready_below s (suc fd + n) ≡ ready_below s (fd + suc n)
  ready_shift n = let e : suc fd + n ≡ fd + suc n = omega arith in ap (ready_below s) e

  ready_none : ready_below s fd ≡ ready_below s (fd + 0)
  ready_none = let e : fd ≡ fd + 0 = omega arith in ap (ready_below s) e

-- These descriptors, the greatest first.
unfoldable pub ready_list : (ℕ → Bool) → ℕ → List ℕ
ready_list s zero = []
ready_list s (suc n) = if s n then n ∷ ready_list s n else ready_list s n

module _ (s : ℕ → Bool) (fd : ℕ) (l : List ℕ) where
  listed_here : s fd ≡ true → ready_list s (suc fd) ++ l ≡ fd ∷ (ready_list s fd ++ l)
  unfolding ready_list
  listed_here e = rw e

  not_listed_here : s fd ≡ false → ready_list s (suc fd) ++ l ≡ ready_list s fd ++ l
  unfolding ready_list
  not_listed_here e = rw e

  list_shift : (n : ℕ) → ready_list s (suc fd + n) ++ l ≡ ready_list s (fd + suc n) ++ l
  list_shift n = let e : suc fd + n ≡ fd + suc n = omega arith in ap (λ x. ready_list s x ++ l) e

  list_none : ready_list s fd ++ l ≡ ready_list s (fd + 0) ++ l
  list_none = let e : fd ≡ fd + 0 = omega arith in ap (λ x. ready_list s x ++ l) e

-- Every read succeeds.
abbrev pub AllRead : Env → Type 0
AllRead env = (n fd : ℕ) → (c : ℕ) × ((env.script n).reads fd ≡ ok c)

module _ (env : Env) (reads : AllRead env) (s : ℕ → Bool) where
  read_returns : (fd : ℕ) (p : Process) → (sys_read env fd p).0 ≡ ok (reads p.clock fd).0
  unfolding sys_read adjust
  read_returns fd p = (reads p.clock fd).1

  -- A process that has made `n` more system calls.
  abbrev later : ℕ → Process → Process
  later n p = record p { clock = p.clock + n }

  read_later : (fd : ℕ) (p : Process) → (sys_read env fd p).1 ≡ with_read fd (later 1 p)
  unfolding sys_read adjust
  read_later fd p = refl

  record Counts (fd rounds n : ℕ) (p : Process) (r : Result ℕ × Process) : Type 0 where
    total : ℕ
    returns : r.0 ≡ ok total
    counted : total + ready_below s fd ≡ n + ready_below s (fd + rounds)
    listed :
        (l : List ℕ)
        → p.read_from ≡ ready_list s fd ++ l
        → r.1.read_from ≡ ready_list s (fd + rounds) ++ l
    made : r.1.clock + n ≡ p.clock + total
    same : r.1.ready ≡ p.ready

  read_ready-Counts :
      (fd rounds n : ℕ) (p : Process) → Counts fd rounds n p (read_ready env s fd rounds n p)
  unfolding read_ready pure
  read_ready-Counts fd zero n p = record {
    total = n;
    returns = refl;
    counted = ap (λ x. n + x) (ready_none s fd);
    listed = λ l h. h ∙ list_none s fd l;
    made = refl;
    same = refl;
  }
  read_ready-Counts fd (suc rounds) n p = elim (Bool-cases (s fd)) [
    | inl e ↦ rw e (
        rw
          (bind_of_ok (sys_read env fd) (λ u. read_ready env s (suc fd) rounds (n + 1)) p
            (read_returns fd p))
          (rw (read_later fd p) (
            let c = read_ready-Counts (suc fd) rounds (n + 1) (with_read fd (later 1 p)) in
            record {
              total = c.total;
              returns = c.returns;
              counted = omega (arith, c.counted, ready_here s fd e, ready_shift s fd rounds);
              listed = λ l h.
                  c.listed l (ap (λ x. fd ∷ x) h ∙ sym (listed_here s fd l e))
                  ∙ list_shift s fd l rounds;
              made = omega (arith, c.made);
              same = c.same;
            })))
    | inr e ↦ rw e (
        let c = read_ready-Counts (suc fd) rounds n p in
        record {
          total = c.total;
          returns = c.returns;
          counted = omega (arith, c.counted, not_ready_here s fd e, ready_shift s fd rounds);
          listed =
              λ l h. c.listed l (h ∙ sym (not_listed_here s fd l e)) ∙ list_shift s fd l rounds;
          made = c.made;
          same = c.same;
        })
  ]

-- What a wait on a set returns when `select` leaves the descriptors `s` of it, which it has read, and
-- how many system calls it makes.
pub record Waited (set : EventSet) (s : ℕ → Bool) (p : Process) (r : Result ℕ × Process)
    : Type 0 where
  pub returns : r.0 ≡ (
      if ready_below s (set.max_fd + 1) == 0
      then err etimedout
      else ok (ready_below s (set.max_fd + 1)))
  pub stored : (r.1.ready.fds ≡ s) × (r.1.ready.max_fd ≡ set.max_fd)
  pub read : r.1.read_from ≡ ready_list s (set.max_fd + 1) ++ p.read_from
  pub calls_made : r.1.clock ≡ p.clock + 1 + ready_below s (set.max_fd + 1)

checked :
    (n : ℕ) (p : Process)
    → (check (not (n == 0)) etimedout >> pure n) p ≡ ((if n == 0 then err etimedout else ok n), p)
unfolding check ◌>>=◌ pure
checked n p = elim (Bool-cases (n == 0)) [ inl e ↦ rw e | inr e ↦ rw e ]

adjust_then :
    {A : Type 0} (f : Process → Process) (m : U A) (p : Process) → (adjust f >> m) p ≡ m (f p)
unfolding adjust
adjust_then f m p = bind_of_ok (adjust f) (λ u. m) p refl

module _ (env : Env) (reads : AllRead env) (set : EventSet) (t : Timespec) (s : ℕ → Bool) where
  counted_or_none : ℕ → U ℕ
  counted_or_none n = check (not (n == 0)) etimedout >> pure n

  read_all : (ℕ → Bool) → U ℕ
  read_all fds = read_ready env fds 0 (set.max_fd + 1) 0 >>= counted_or_none

  select_and_read : U ℕ
  select_and_read = sys_select env (set.max_fd + 1) set.fds (timeval_of t) >>= λ fds.
      adjust (with_ready set fds) >> read_all fds

  -- The descriptors that `select` has left are stored and read.
  read_all-Waited :
      (p : Process) → Waited set s p (read_all s (with_ready set s (later env reads s 1 p)))
  unfolding read_all counted_or_none ready_below ready_list
  read_all-Waited p =
      let q = with_ready set s (later env reads s 1 p) in
      let c = read_ready-Counts env reads s 0 (set.max_fd + 1) 0 q in
      let total : c.total ≡ ready_below s (set.max_fd + 1) =
        let e : 0 + (set.max_fd + 1) ≡ set.max_fd + 1 = omega arith in
        let f : ready_below s (0 + (set.max_fd + 1)) ≡ ready_below s (set.max_fd + 1) =
          ap (ready_below s) e in
        omega (arith, c.counted, f) in
      let list_end : ready_list s (0 + (set.max_fd + 1)) ++ p.read_from
          ≡ ready_list s (set.max_fd + 1) ++ p.read_from =
        let e : 0 + (set.max_fd + 1) ≡ set.max_fd + 1 = omega arith in
        ap (λ x. ready_list s x ++ p.read_from) e in
      let chain =
        bind_of_ok (read_ready env s 0 (set.max_fd + 1) 0) counted_or_none q c.returns
        ∙ checked c.total (read_ready env s 0 (set.max_fd + 1) 0 q).1 in
      subst (λ r. Waited set s p r) (sym chain)
        (record {
          returns = rw total;
          stored = (ap (λ x. x.fds) c.same, ap (λ x. x.max_fd) c.same);
          read = c.listed p.read_from refl ∙ list_end;
          calls_made = omega (arith, c.made, total);
        })

  -- When every read succeeds, a wait on a set of event sources returns how many of the descriptors
  -- up to the greatest of the set `select` has left, or -ETIMEDOUT when it has left none; it stores
  -- them in the result, and reads from each of them once, the smallest first, and from nothing else.
  pub eventsrcset_timed_wait-Waited :
      (p : Process)
      → (env.script p.clock).selects (set.max_fd + 1) set.fds (timeval_of t) ≡ ok s
      → Waited set s p (eventsrcset_timed_wait env set t p)
  unfolding eventsrcset_timed_wait select_and_read read_all counted_or_none sys_select
  eventsrcset_timed_wait-Waited p e =
      let p1 = with_ready set set.fds p in
      subst (λ r. Waited set s p r)
        (sym (
          adjust_then (with_ready set set.fds) select_and_read p
          ∙ bind_of_ok (sys_select env (set.max_fd + 1) set.fds (timeval_of t))
              (λ fds. adjust (with_ready set fds) >> read_all fds) p1 e
          ∙ adjust_then (with_ready set s) (read_all s) (later env reads s 1 p1)))
        (read_all-Waited p)
