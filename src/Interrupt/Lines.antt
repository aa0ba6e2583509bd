-- ===== src/Interrupt/Lines.antt =====
-- Taking and giving back an interrupt line (kernel/linux/src/cuddlk_linux.c).
use cuddl.Base.{
  Bool, true, false, Option, none, some, List, [], ◌∷◌, Errno, ℤ, ◌==ℤ◌, if◌then◌else◌,
}
use cuddl.Device.{Interrupt, has_bit_0}

-- The lines that are taken, the latest first, each with whether it may be shared.
abbrev pub Lines : Type 0
Lines = List (ℤ × Bool)

-- `code` is what request_irq or rtdm_irq_request returns.
abbrev taken : Option Errno → ℤ × Bool → Lines → Lines
taken none line lines = line ∷ lines
taken (some e) line lines = lines

-- With UDD no flags are passed on. `use_udd` is CUDDLK_USE_UDD.
unfoldable pub interrupt_register : Bool → Option Errno → Interrupt → Lines → Option Errno × Lines
interrupt_register use_udd code intr lines =
    (code, taken code (intr.irq, if use_udd then false else has_bit_0 intr.flags) lines)

pub without_line : ℤ → Lines → Lines
without_line irq [] = []
without_line irq (line ∷ lines) =
    let rest = without_line irq lines in if irq ==ℤ line.0 then lines else line ∷ rest

-- free_irq has no result; `code` is what rtdm_irq_free returns.
unfoldable pub interrupt_unregister : Bool → Option Errno → Interrupt → Lines → Option Errno × Lines
unfolding without_line
interrupt_unregister true none intr lines = (none, without_line intr.irq lines)
interrupt_unregister true (some e) intr lines = (some e, lines)
interrupt_unregister false code intr lines = (none, without_line intr.irq lines)
