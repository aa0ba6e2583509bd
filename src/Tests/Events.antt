-- ===== src/Tests/Events.antt =====
-- A history of an event source: a UIO file is opened, and an event comes.
use cuddl.Base.{true, arith}
use cuddl.Interrupt.{EventState, eventsrc_notify, uio_eventsrc_or_mem_open}
use cuddl.Interrupt.Delivery.{History, fresh, uio_opened, notified, Delivered, History-Delivered}

abbrev none_yet : EventState
none_yet = record {
  uio_open_count = 0;
  udd_open_count = 0;
  uio_events = 0;
  udd_events = 0;
  pending = 0;
}

one_event : History true 1 1 (eventsrc_notify true (uio_eventsrc_or_mem_open none_yet))
one_event = notified (uio_opened fresh (omega arith))

History-Delivered_example : Delivered 1 1 (eventsrc_notify true (uio_eventsrc_or_mem_open none_yet))
History-Delivered_example = History-Delivered one_event
