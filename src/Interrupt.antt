-- ===== src/Interrupt.antt =====
-- The event source of a device (kernel/linux/src/cuddlk_linux.c): the counters of open files, the
-- interrupt handlers, the control of the interrupt, and the notification of waiting processes.
pub mod Delivery
pub mod Lines
use cuddl.Base.{
  ℕ, ◌+◌, ◌-◌, ◌%◌, Bool, true, false, Option, none, some, Result, err, einval, int_mod, ◌&&◌, ◌==◌,
  if◌then◌else◌,
}
use cuddl.Device.{Interrupt}
use cuddl.Refs.{is_positive_int}

-- `uio_open_count` and `udd_open_count` are C ints, kept as patterns. The calls of uio_event_notify,
-- udd_notify_event and rtdm_nrtsig_pend are counted; the last ones are those still to be handled.
pub record EventState : Type 0 where
  pub uio_open_count : ℕ
  pub udd_open_count : ℕ
  pub uio_events : ℕ
  pub udd_events : ℕ
  pub pending : ℕ

abbrev pub plus_one : ℕ → ℕ
plus_one n = (n + 1) % int_mod

abbrev pub minus_one : ℕ → ℕ
minus_one n = (n + (int_mod - 1)) % int_mod

unfoldable pub udd_eventsrc_open : EventState → EventState
udd_eventsrc_open e = record e { udd_open_count = plus_one e.udd_open_count }

unfoldable pub uio_eventsrc_or_mem_open : EventState → EventState
uio_eventsrc_or_mem_open e = record e { uio_open_count = plus_one e.uio_open_count }

unfoldable pub udd_eventsrc_close : EventState → EventState
udd_eventsrc_close e = record e { udd_open_count = minus_one e.udd_open_count }

unfoldable pub uio_eventsrc_or_mem_close : EventState → EventState
uio_eventsrc_or_mem_close e = record e { uio_open_count = minus_one e.uio_open_count }

abbrev pend : EventState → EventState
pend e = record e { pending = e.pending + 1 }

-- The handler of the real-time signal.
unfoldable pub event_nrtsig_handler : EventState → EventState
event_nrtsig_handler e = record e { uio_events = e.uio_events + 1; pending = e.pending - 1 }

-- `use_udd` is CUDDLK_USE_UDD.
unfoldable pub eventsrc_notify : Bool → EventState → EventState
eventsrc_notify true e =
    let told = record e { udd_events = e.udd_events + 1 } in
    if is_positive_int e.uio_open_count then pend told else told
eventsrc_notify false e = record e { uio_events = e.uio_events + 1 }

-- `handled` is whether the driver's handler returned CUDDLK_RET_INTR_HANDLED; then the caller counts
-- an event of its own kind.
unfoldable pub udd_interrupt_handler : Bool → EventState → EventState
udd_interrupt_handler handled e =
    let signalled = if is_positive_int e.uio_open_count && handled then pend e else e in
    if handled then record signalled { udd_events = signalled.udd_events + 1 } else signalled

unfoldable pub uio_interrupt_handler : Bool → EventState → EventState
uio_interrupt_handler handled e = if handled then record e { uio_events = e.uio_events + 1 } else e

abbrev or_einval : Option (Result ℕ) → Result ℕ
or_einval none = err einval
or_einval (some r) = r

-- The third case is any other request.
pub data IrqRequest : Type 0 where
  irq_enable irq_disable irq_other : IrqRequest

unfoldable pub udd_eventsrc_ioctl : Interrupt → IrqRequest → Result ℕ
udd_eventsrc_ioctl intr irq_enable = or_einval intr.enable
udd_eventsrc_ioctl intr irq_disable = or_einval intr.disable
udd_eventsrc_ioctl intr irq_other = err einval

unfoldable pub uio_eventsrc_or_mem_irqcontrol : Interrupt → ℕ → Result ℕ
uio_eventsrc_or_mem_irqcontrol intr irq_on =
    if irq_on == 0 then or_einval intr.disable else or_einval intr.enable
