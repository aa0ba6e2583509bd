-- ===== src/Kernel/Runs.antt =====
-- The rules of Act.Runs with one for following a pointer to a device.
use cuddl.Base.{ℕ, ◌≢◌, ne→==}
pub use cuddl.Act.Runs.{
  Runs, Runs-lift, Runs-pure, Runs-raise, Runs-gets, Runs-check, Runs-when, Runs-ignore,
  Runs-on_error, Runs-bind, act_runs_rules,
}
use cuddl.Kernel.{Kernel, load}

module _ {P : Kernel → Type 0} where
  pub Runs-load : (p : ℕ) → p ≢ 0 → Runs P (load p)
  unfolding load
  Runs-load p n = record { at = λ k h. rw (ne→== p 0 n) (λ e. cc, h) }

pub ruleset runs_rules = (act_runs_rules, Runs-load)
