-- ===== src/Interrupt/Delivery.antt =====
-- Which events reach the files that are open.
use cuddl.Base.{ℕ, suc, ◌+◌, ◌<◌, ◌≡◌, refl, Bool, true, int_max_suc, arith, if◌then◌else◌, ltb}
use cuddl.Interrupt.{
  EventState, udd_eventsrc_open, uio_eventsrc_or_mem_open, udd_eventsrc_close,
  uio_eventsrc_or_mem_close, event_nrtsig_handler, eventsrc_notify, udd_interrupt_handler,
}

-- Histories of an event source: `n` UIO files are open and `heard` events were notified or raised by
-- a handled interrupt while at least one of them was.
pub data History (use_udd : Bool) : ℕ → ℕ → EventState → Type 0 where
  fresh : History use_udd 0 0 (record {
    uio_open_count = 0;
    udd_open_count = 0;
    uio_events = 0;
    udd_events = 0;
    pending = 0;
  })
  uio_opened :
      {n heard : ℕ} {e : EventState}
      → History use_udd n heard e
      → n + 1 < int_max_suc
      → History use_udd (n + 1) heard (uio_eventsrc_or_mem_open e)
  uio_closed :
      {n heard : ℕ} {e : EventState}
      → History use_udd (n + 1) heard e
      → History use_udd n heard (uio_eventsrc_or_mem_close e)
  udd_opened :
      {n heard : ℕ} {e : EventState}
      → History use_udd n heard e
      → History use_udd n heard (udd_eventsrc_open e)
  udd_closed :
      {n heard : ℕ} {e : EventState}
      → History use_udd n heard e
      → History use_udd n heard (udd_eventsrc_close e)
  notified :
      {n heard : ℕ} {e : EventState}
      → History use_udd n heard e
      → History use_udd n (if ltb 0 n then suc heard else heard) (eventsrc_notify use_udd e)
  interrupted :
      {n heard : ℕ} {e : EventState} (handled : Bool)
      → History use_udd n heard e
      → use_udd ≡ true
      → History use_udd n
          (if ltb 0 n then (if handled then suc heard else heard) else heard)
          (udd_interrupt_handler handled e)
  signalled :
      {n heard : ℕ} {e : EventState}
      → History use_udd n heard e
      → 0 < e.pending
      → History use_udd n heard (event_nrtsig_handler e)

pub record Delivered (n heard : ℕ) (e : EventState) : Type 0 where
  pub opened : e.uio_open_count ≡ n
  pub small : n < int_max_suc
  pub delivered : e.uio_events + e.pending ≡ heard

-- On Xenomai, after any history of opens, closes, notifications, interrupts and signals, in which no
-- more files are closed than are open and fewer than 2^31 are open at a time: the counter is the
-- number of open UIO files, and the events that have reached UIO or are still pending for it are
-- exactly those that came while a UIO file was open.
pub History-Delivered :
    {n heard : ℕ} {e : EventState} → History true n heard e → Delivered n heard e
unfolding uio_eventsrc_or_mem_open uio_eventsrc_or_mem_close udd_eventsrc_open udd_eventsrc_close
    event_nrtsig_handler eventsrc_notify udd_interrupt_handler
History-Delivered fresh = record { opened = refl; small = omega arith; delivered = refl }
History-Delivered (uio_opened h l) =
    let d = History-Delivered h in
    record { opened = ground (arith, d.opened); small = l; delivered = d.delivered }
History-Delivered (uio_closed h) =
    let d = History-Delivered h in
    record {
      opened = ground (arith, d.opened, d.small);
      small = ground (arith, d.small);
      delivered = d.delivered;
    }
History-Delivered (udd_opened h) =
    let d = History-Delivered h in
    record { opened = d.opened; small = d.small; delivered = d.delivered }
History-Delivered (udd_closed h) =
    let d = History-Delivered h in
    record { opened = d.opened; small = d.small; delivered = d.delivered }
History-Delivered (notified h) =
    let d = History-Delivered h in
    record {
      opened = ground (arith, d.opened);
      small = d.small;
      delivered = ground (arith, d.opened, d.small, d.delivered);
    }
History-Delivered (interrupted handled h t) =
    let d = History-Delivered h in
    record {
      opened = ground (arith, d.opened);
      small = d.small;
      delivered = ground (arith, d.opened, d.small, d.delivered);
    }
History-Delivered (signalled h p) =
    let d = History-Delivered h in
    record { opened = d.opened; small = d.small; delivered = ground (arith, d.delivered) }
