-- ===== src/Kernel/Keeps.antt =====
-- The rules of Act.Keeps with one for following a pointer to a device.
use cuddl.Base.{ℕ, arith}
pub use cuddl.Act.Keeps.{
  Keeps, Keeps-lift, Keeps-pure, Keeps-raise, Keeps-hang, Keeps-gets, Keeps-check, Keeps-when,
  Keeps-ignore, Keeps-on_error, Keeps-bind, act_keeps_rules,
}
use cuddl.Kernel.{Kernel, load}

module _ {P : Kernel → Type 0} where
  pub Keeps-load : (p : ℕ) → Keeps P (load p)
  unfolding load
  Keeps-load p = record { at = λ k h. ground arith }

pub ruleset keeps_rules = (act_keeps_rules, Keeps-load)
