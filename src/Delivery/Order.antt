-- ===== src/Delivery/Order.antt =====
-- The order in which the events that fiberize/src/fiberize/detail/localfiberref.cpp sends to a task
-- reach it.
use fiberize.Base.{
  ℕ, ◌≡◌, refl, sym, ap, ◌∙◌, inl, inr, false, Option, none, some, List, [], ◌∷◌, ◌++◌, ◌==◌,
  append_assoc, u64_max, update, arith, Bool-cases, ==_refl, ==_iff,
}
use fiberize.Mailbox.{PendingEvent, DequeMailbox, enqueue, dequeue, events}
use fiberize.Mailbox.Fifo.{events-enqueue, dequeue-Dequeues}
use fiberize.Task.{Task, construct}
use fiberize.Scheduling.{System, set_task, resume}
use fiberize.Scheduling.Steps.{IsInitial}
use fiberize.Delivery.{send_local}
use fiberize.Delivery.Steps.{
  Post, PostStep, moves, suspends, ends_run, settles, gives_way, creates, sends, receives, IsSmall,
}
use fiberize.Delivery.Suspending.{finish_suspending-Evolves, end_task-Evolves, resume-Evolves}
use fiberize.Delivery.Plain.{Step-Evolves}

-- What was sent to each task since it was created, and what it has taken out of its mailbox.
pub record Logs : Type 0 where
  pub sent : ℕ → List PendingEvent
  pub received : ℕ → List PendingEvent

abbrev snoc : (ℕ → List PendingEvent) → ℕ → PendingEvent → ℕ → List PendingEvent
snoc logs i event = update logs i (logs i ++ event ∷ [])

abbrev logged : {n : ℕ} {s t : Post} → PostStep n s t → Logs → Logs
logged (moves step plain) l = l
logged (suspends k lt ready) l = l
logged (ends_run k i lt executes ready) l = l
logged (settles k i lt executes ready) l = l
logged (gives_way k i lt executes) l = l
logged (creates i raw gone nothing) l = record {
  sent = update l.sent i [];
  received = update l.received i [];
}
logged (sends k i event lt allowed) l = record l { sent = snoc l.sent i event }
logged (receives k i event rest lt executes found) l = record l {
  received = snoc l.received i event;
}

-- The runs of the schedulers, senders and tasks, from tasks with empty mailboxes, with their logs.
pub data Trace (n : ℕ) : Post → Logs → Type 0 where
  start :
      (s : System)
      → IsInitial s
      → ((i : ℕ) → events (s.tasks i).mailbox ≡ [])
      → Trace n
          (record { system = s; settled = λ i. false })
          (record { sent = λ i. []; received = λ i. [] })
  later :
      {s t : Post} {l : Logs}
      → Trace n s l
      → IsSmall s.system
      → (step : PostStep n s t) → Trace n t (logged step l)

abbrev Balances : Logs → System → Type 0
Balances l s = (i : ℕ) → l.sent i ≡ l.received i ++ events (s.tasks i).mailbox

-- Steps that leave the mailboxes alone.
kept :
    (l : Logs) (s t : System)
    → Balances l s
    → ((i : ℕ) → (t.tasks i).mailbox ≡ (s.tasks i).mailbox)
    → Balances l t
kept l s t old same i = old i ∙ ap (λ (m : DequeMailbox). l.received i ++ events m) (sym (same i))

kept_by :
    (l : Logs) (s : System) (i : ℕ) (u : Task)
    → Balances l s
    → u.mailbox ≡ (s.tasks i).mailbox
    → Balances l (set_task i u s)
kept_by l s i u old same = kept l s (set_task i u s) old (λ j. elim (Bool-cases (i == j)) [
  | inl e ↦ rw e (same ∙ ap (λ (x : ℕ). (s.tasks x).mailbox) ((==_iff i j).0 e))
  | inr e ↦ rw e refl
])

created :
    (l : Logs) (s : System) (i : ℕ) (u : Task)
    → Balances l s
    → events u.mailbox ≡ []
    → Balances
        (record { sent = update l.sent i []; received = update l.received i [] })
        (set_task i u s)
created l s i u old nothing j = elim (Bool-cases (i == j)) [
  | inl e ↦ rw e (sym nothing)
  | inr e ↦ rw e (old j)
]

given :
    (l : Logs) (s : System) (i : ℕ) (event : PendingEvent) (u : Task)
    → Balances l s
    → u.mailbox ≡ enqueue (s.tasks i).mailbox event
    → Balances (record l { sent = snoc l.sent i event }) (set_task i u s)
given l s i event u old put j = elim (Bool-cases (i == j)) [
  | inl e ↦ rw e (
      ap (λ (es : List PendingEvent). es ++ event ∷ []) (old i)
      ∙ append_assoc (l.received i) (events (s.tasks i).mailbox) (event ∷ [])
      ∙ ap (λ (es : List PendingEvent). l.received i ++ es)
          (sym (ap events put ∙ events-enqueue (s.tasks i).mailbox event))
      ∙ ap (λ (x : ℕ). l.received x ++ events u.mailbox) ((==_iff i j).0 e))
  | inr e ↦ rw e (old j)
]

taken :
    (l : Logs) (s : System) (i : ℕ) (event : PendingEvent) (u : Task)
    → Balances l s
    → events (s.tasks i).mailbox ≡ event ∷ events u.mailbox
    → Balances (record l { received = snoc l.received i event }) (set_task i u s)
taken l s i event u old list j = elim (Bool-cases (i == j)) [
  | inl e ↦ rw e (
      ap l.sent (sym ((==_iff i j).0 e))
      ∙ old i
      ∙ ap (λ (es : List PendingEvent). l.received i ++ es) list
      ∙ sym (append_assoc (l.received i) (event ∷ []) (events u.mailbox)))
  | inr e ↦ rw e (old j)
]

sent_on :
    (l : Logs) (s : System) (k i : ℕ) (event : PendingEvent)
    → IsSmall s
    → Balances l s
    → Balances (record l { sent = snoc l.sent i event }) (send_local k i event s)
unfolding send_local
sent_on l s k i event small old =
    kept (record l { sent = snoc l.sent i event }) (set_task i u s) (resume k i (set_task i u s))
      (given l s i event u old refl)
      (λ j. (resume-Evolves k i j (set_task i u s) (rw (==_refl i) (small i))).mail)
  where
    u : Task
    u = record (s.tasks i) { mailbox = enqueue (s.tasks i).mailbox event }

first_of :
    (m rest : DequeMailbox) (event : PendingEvent)
    → dequeue m ≡ some (some event, rest)
    → events m ≡ event ∷ events rest
first_of m rest event found = elim (dequeue-Dequeues m) [
  | inl (_, nothing, _) ↦ absurd (ground (arith, nothing, found))
  | inr (e, r, list, got, _) ↦
      list
      ∙ ap
          (λ (o : Option (Option PendingEvent × DequeMailbox)). elim o [
            | none ↦ e ∷ events r
            | some (h, q) ↦ elim h [ none ↦ e ∷ events r | some x ↦ x ∷ events q ]
          ])
          (sym got ∙ found)
]

PostStep-Balances :
    {n : ℕ} {s t : Post} (l : Logs)
    → Balances l s.system
    → IsSmall s.system
    → (step : PostStep n s t) → Balances (logged step l) t.system
PostStep-Balances {n} {s} l old small (moves {t} step plain) =
    kept l s.system t old (λ j. (Step-Evolves j step plain small).mail)
PostStep-Balances {n} {s} {t} l old small (suspends k lt ready) =
    kept l s.system t.system old
      (λ j. (finish_suspending-Evolves s.settled k j s.system small ready).mail)
PostStep-Balances {n} {s} {t} l old small (ends_run k i lt executes ready) =
    kept l s.system t.system old (λ j. (end_task-Evolves s.settled k i j s.system small ready).mail)
PostStep-Balances {n} {s} l old small (settles k i lt executes ready) =
    kept_by l s.system i
      (record (s.system.tasks i) { resumes_expected = (s.system.tasks i).resumes }) old refl
PostStep-Balances {n} {s} l old small (gives_way k i lt executes) =
    kept_by l s.system i (record (s.system.tasks i) { resumes_expected = u64_max }) old refl
PostStep-Balances {n} {s} l old small (creates i raw gone nothing) =
    created l s.system i (construct raw) old (unfold construct in nothing)
PostStep-Balances {n} {s} l old small (sends k i event lt allowed) =
    sent_on l s.system k i event small old
PostStep-Balances {n} {s} l old small (receives k i event rest lt executes found) =
    taken l s.system i event (record (s.system.tasks i) { mailbox = rest }) old
      (first_of (s.system.tasks i).mailbox rest event found)

-- Whatever the schedulers, the senders and the running tasks do, in whatever order: the events that were sent
-- to a task since it was created are those that it has received, in the order of sending, followed by
-- those in its mailbox. None is lost, none is received twice and none overtakes another. No count of
-- resumes comes near to 2 ^ 64.
pub Trace-fifo :
    {n : ℕ} (i : ℕ) (s : Post) (l : Logs)
    → Trace n s l
    → l.sent i ≡ l.received i ++ events (s.system.tasks i).mailbox
Trace-fifo i _ _ (start s initial nothing) = sym (nothing i)
Trace-fifo i _ _ (later {s} {t} {l} trace small step) =
    PostStep-Balances l (λ j. Trace-fifo j s l trace) small step i
