-- ===== src/User/Lives.antt =====
-- The life of a process that is linked with the library: its constructor, and its destructor, which
-- makes the janitor clean up behind it (user/src/cuddl_linux.c, kernel/linux/src/).
use cuddl.Base.{
  ℕ, ◌+◌, ◌<◌, ◌≡◌, refl, sym, ◌∙◌, true, false, Option, none, some, Errno, Result, ok, err, fault,
  ltb, arith, ap,
}
use mathlib.Core.Path.{subst}
use cuddl.Act.{◌>>=◌, bind_of_ok, attempt, caught, lift, after_drop, ignore}
use cuddl.Kernel.{Kernel}
use cuddl.Refs.Counted.{memregions, eventsrcs, Counted}
use cuddl.Refs.Exit.{CleanedUp}
use cuddl.Janitor.{JanitorFile, janitor_open, janitor_ioctl, janitor_release}
use cuddl.Janitor.Laws.{registered, janitor_release-CleanedUp}
use cuddl.User.{Env, Process, U, code, sys_close}
use cuddl.User.Lifetime.{
  without_file, released_by, closed_code, leave_janitor, close_janitor, close_descriptor, startup,
  cleanup,
}

-- What the constructor leaves when its system calls succeed.
record Registered (env : Env) (fd : ℕ) (p q : Process) : Type 0 where
  kept_fd : q.janitor_fd ≡ ok fd
  file : q.janitor ≡ some (registered (env.script (p.clock + 1)).janitor_calls p.pid janitor_open)

module _ (env : Env) (p : Process) (fd : ℕ) (opens : (env.script p.clock).opens ≡ ok fd)
    (copied : (env.script (p.clock + 1)).janitor_calls.copy_in ≡ true)
    (allocated : (env.script (p.clock + 1)).janitor_calls.kzalloc ≡ true) where
  startup-Registered : Registered env fd p (startup env p).1
  unfolding startup janitor_ioctl janitor_open
  startup-Registered = record {
    kept_fd = rw (opens, copied, allocated);
    file = rw (opens, copied, allocated);
  }

caught-code : (x : Option Errno) → caught (code x) ≡ ok (code x)
caught-code none = refl
caught-code (some e) = refl

after_drop-closed_code : (x : Option Errno) → after_drop (closed_code (code x)) ≡ ok tt
after_drop-closed_code none = refl
after_drop-closed_code (some e) = refl

module _ (env : Env) (fd : ℕ) where
  closing : U ℕ
  closing = attempt (sys_close env fd) >>= λ c. lift (closed_code c)

  -- Closing the descriptor leaves the kernel module alone.
  closing_lem :
      (p : Process) → (after_drop (closing p).0 ≡ ok tt) × ((closing p).1.kernel ≡ p.kernel)
  unfolding closing sys_close attempt lift
  closing_lem p =
      let x = (env.script p.clock).closes in
      let e =
        bind_of_ok (attempt (sys_close env fd)) (λ c. lift (closed_code c)) p (caught-code x) in
      (ap (λ r. after_drop r.0) e ∙ after_drop-closed_code x, ap (λ r. r.1.kernel) e)

  released_ok :
      (q : Process) (r : Result JanitorFile × Kernel) {g : JanitorFile}
      → r.0 ≡ ok g
      → released_by q r ≡ (ok tt, without_file q r.1)
  released_ok q (ok h, k) e = refl
  released_ok q (err h, k) e = refl
  released_ok q (fault, k) e = cc

  leaves :
      (q : Process) (f : JanitorFile)
      → q.janitor ≡ some f
      → leave_janitor q ≡ released_by q (janitor_release f q.kernel)
  unfolding leave_janitor
  leaves q f e =
      ap {B = Result (Unit {0}) × Process}
        (λ x. elim x [ none ↦ (ok tt, q) | some g ↦ released_by q (janitor_release g q.kernel) ]) e

  left :
      (q : Process) (f : JanitorFile) {g : JanitorFile}
      → q.janitor ≡ some f
      → (janitor_release f q.kernel).0 ≡ ok g
      → leave_janitor q ≡ (ok tt, without_file q (janitor_release f q.kernel).1)
  left q f e r = leaves q f e ∙ released_ok q (janitor_release f q.kernel) r

  closes : (q : Process) → 0 < fd → close_janitor env (ok fd) q ≡ (leave_janitor >>= λ u. closing) q
  unfolding close_janitor close_descriptor closing
  closes q l = let e : ltb 0 fd ≡ true = ground arith in rw e

  -- The destructor of a process that has a file at the janitor is the last close of the file.
  ended :
      (q : Process) (f : JanitorFile) {g : JanitorFile}
      → q.janitor_fd ≡ ok fd
      → 0 < fd
      → q.janitor ≡ some f
      → (janitor_release f q.kernel).0 ≡ ok g
      → ((cleanup env q).0 ≡ ok tt) × ((cleanup env q).1.kernel ≡ (janitor_release f q.kernel).1)
  unfolding cleanup ignore
  ended q f d l e r =
      let step = left q f e r in
      let chain =
        ap (λ x. close_janitor env x q) d
        ∙ closes q l
        ∙ bind_of_ok leave_janitor (λ u. closing) q (ap (λ x. x.0) step)
        ∙ ap (λ x. closing x.1) step in
      let last = closing_lem (without_file q (janitor_release f q.kernel).1) in
      (ap (λ x. after_drop x.0) chain ∙ last.0, ap (λ x. x.1.kernel) chain ∙ last.1)

-- A process whose constructor has opened the janitor, with a descriptor that is not 0, and registered
-- itself there with both calls of the registration succeeding; in any later state in which it still
-- has this file and this descriptor, the manager is not locked and all counts are those of the
-- references: its destructor returns, and the kernel module has cleaned up after exactly this process.
pub startup-cleanup :
    (env : Env) (p q : Process) (fd : ℕ)
    → (env.script p.clock).opens ≡ ok fd
    → 0 < fd
    → (env.script (p.clock + 1)).janitor_calls.copy_in ≡ true
    → (env.script (p.clock + 1)).janitor_calls.kzalloc ≡ true
    → q.janitor ≡ (startup env p).1.janitor
    → q.janitor_fd ≡ (startup env p).1.janitor_fd
    → q.kernel.locked ≡ false
    → Counted memregions q.kernel
    → Counted eventsrcs q.kernel
    → ((cleanup env q).0 ≡ ok tt) × CleanedUp p.pid q.kernel (ok tt, (cleanup env q).1.kernel)
startup-cleanup env p q fd opens positive copied allocated same_file same_fd free hm he =
    let s = startup-Registered env p fd opens copied allocated in
    let calls = (env.script (p.clock + 1)).janitor_calls in
    let released = janitor_release-CleanedUp p.pid q.kernel free hm he calls copied allocated in
    let e =
      ended env fd q (registered calls p.pid janitor_open) (same_fd ∙ s.kept_fd) positive
        (same_file ∙ s.file) released.0 in
    (e.0, subst (λ k. CleanedUp p.pid q.kernel (ok tt, k)) (sym e.1) released.1)
