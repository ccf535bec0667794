-- ===== src/Delivery/Examples.antt =====
-- Two schedulers and a new task that is sent an event.
use fiberize.Base.{
  ◌∷◌, ◌++◌, ℕ, ◌≤◌, ◌<◌, ◌≡◌, refl, sym, ◌∙◌, ◌==◌, Bool-cases, inl, inr, true, false, [], arith,
  total, update,
}
use fiberize.Identity.{dev_null}
use fiberize.Mailbox.{events, PendingEvent, new_mailbox}
use fiberize.Mailbox.Fifo.{events-enqueue}
use fiberize.Task.{construct}
use fiberize.Scheduling.{set_task, resume, resume_at}
use fiberize.Scheduling.Invariant.{waiting}
use fiberize.Delivery.{send_local}
use fiberize.Delivery.Steps.{Post, Posts, start, later, creates, sends}
use fiberize.Delivery.Order.{Logs, Trace, Trace-fifo}
use fiberize.Delivery.Order
use fiberize.Delivery.Attended.{Posts-scheduled}
use fiberize.Samples.{raw_task, idle_scheduler}

abbrev event : PendingEvent
event = record { path = dev_null; payload = 5; free_data = true }

abbrev posted : Post
posted = record {
  system = send_local 1 0 event (
      set_task 0 (construct raw_task)
        (record { tasks = λ i. raw_task; schedulers = λ k. idle_scheduler }));
  settled = update (λ i. false) 0 false;
}

Posts-posted : Posts 2 posted
unfolding construct
Posts-posted =
    later
      (later
        (start (record { tasks = λ i. raw_task; schedulers = λ k. idle_scheduler })
          (record { no_task = λ i. (refl, refl); no_work = λ k. refl }))
        (λ i. omega arith) (creates 0 raw_task refl refl))
      (λ i. elim (Bool-cases (0 == i)) [ inl e ↦ rw e (omega arith) | inr e ↦ rw e (omega arith) ])
      (sends 1 0 event (omega arith) (inl refl))

Posts-scheduled_example :
    (total (waiting 0) 2 posted.system.schedulers ≡ 1)
    × ((k : ℕ) × (k < 2) × (1 ≤ waiting 0 (posted.system.schedulers k)))
unfolding send_local construct resume resume_at
Posts-scheduled_example =
    Posts-scheduled 0 posted Posts-posted (inl refl) refl
      (λ e. ground (arith, sym (events-enqueue new_mailbox event) ∙ e))

abbrev posted_logs : Logs
posted_logs = record {
  sent = update (update (λ i. []) 0 []) 0 (event ∷ []);
  received = update (λ i. []) 0 [];
}

Trace-posted : Trace 2 posted posted_logs
unfolding construct
Trace-posted =
    Order.later
      (Order.later
        (Order.start (record { tasks = λ i. raw_task; schedulers = λ k. idle_scheduler })
          (record { no_task = λ i. (refl, refl); no_work = λ k. refl }) (λ i. refl))
        (λ i. omega arith) (creates 0 raw_task refl refl))
      (λ i. elim (Bool-cases (0 == i)) [ inl e ↦ rw e (omega arith) | inr e ↦ rw e (omega arith) ])
      (sends 1 0 event (omega arith) (inl refl))

Trace-fifo_example :
    posted_logs.sent 0 ≡ posted_logs.received 0 ++ events (posted.system.tasks 0).mailbox
Trace-fifo_example = Trace-fifo 0 posted posted_logs Trace-posted
