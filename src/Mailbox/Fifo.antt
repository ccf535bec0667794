-- ===== src/Mailbox/Fifo.antt =====
-- The order of the events in the mailbox of fiberize/src/fiberize/mailbox.cpp.
use fiberize.Base.{
  ◌≡◌, refl, ◌⊎◌, Option, true, false, none, some, List, [], ◌∷◌, ◌++◌, arith, inl, inr,
  append_assoc, ◌∙◌, append-nil, ap, sym,
}
use fiberize.Deque.View.{to_list-push_back, front-Fronts}
use fiberize.Mailbox.{PendingEvent, DequeMailbox, enqueue, dequeue, empty, events}

pub events-enqueue :
    (m : DequeMailbox) (e : PendingEvent) → events (enqueue m e) ≡ events m ++ e ∷ []
unfolding enqueue
events-enqueue m e = to_list-push_back m.pending_events e

-- A mailbox is empty and yields nothing, or yields its oldest event.
abbrev pub Dequeues : DequeMailbox → Type 0
Dequeues m =
    ((events m ≡ []) × (dequeue m ≡ some (none, m)) × (empty m ≡ true))
    ⊎ ((e : PendingEvent) × (rest : DequeMailbox) × (events m ≡ e ∷ events rest)
        × (dequeue m ≡ some (some e, rest))
        × (empty m ≡ false))

pub dequeue-Dequeues : (m : DequeMailbox) → Dequeues m
unfolding dequeue empty
dequeue-Dequeues m = elim (front-Fronts m.pending_events) [
  | inl (nil, none_left) ↦ inl (nil, ground arith, none_left)
  | inr (e, rest, list, more, front, popped) ↦
      inr (e, record { pending_events = rest }, list, ground arith, more)
]

pub data MailCall : Type 0 where
  puts : PendingEvent → MailCall
  takes : MailCall

-- The events that the calls put in, in order.
abbrev pub put_events : List MailCall → List PendingEvent
put_events [] = []
put_events (puts e ∷ calls) = e ∷ put_events calls
put_events (takes ∷ calls) = put_events calls

abbrev with_taken :
    Option PendingEvent
    → Option (List PendingEvent × DequeMailbox)
    → Option (List PendingEvent × DequeMailbox)
with_taken o none = none
with_taken none (some (es, m)) = some (es, m)
with_taken (some e) (some (es, m)) = some (e ∷ es, m)

-- The events that a history of calls takes out, in order, and the mailbox that it leaves.
pub history : DequeMailbox → List MailCall → Option (List PendingEvent × DequeMailbox)
history m [] = some ([], m)
history m (puts e ∷ calls) = history (enqueue m e) calls
history m (takes ∷ calls) = elim (dequeue m) [
  | none ↦ none
  | some (o, rest) ↦ with_taken o (history rest calls)
]

-- No history of calls is undefined, and the events come out in the order in which they came in:
-- those taken, followed by those left, are those at the start followed by those put.
pub history_fifo :
    (m : DequeMailbox) (calls : List MailCall)
    → (taken : List PendingEvent) × (left : DequeMailbox) × (history m calls ≡ some (taken, left))
      × (taken ++ events left ≡ events m ++ put_events calls)
unfolding history
history_fifo m [] = ([], m, refl, sym (append-nil (events m)))
history_fifo m (puts e ∷ calls) =
    let (taken, left, runs, order) = history_fifo (enqueue m e) calls in
    (
      taken,
      left,
      runs,
      order ∙ rw (events-enqueue m e) (append_assoc (events m) (e ∷ []) (put_events calls)),
    )
history_fifo m (takes ∷ calls) = elim (dequeue-Dequeues m) [
  | inl (nil, nothing, _) ↦
      let (taken, left, runs, order) = history_fifo m calls in (taken, left, ground arith, order)
  | inr (e, rest, list, got, _) ↦
      let (taken, left, runs, order) = history_fifo rest calls in
      (e ∷ taken, left, ground arith, rw list (ap (λ (l : List PendingEvent). e ∷ l) order))
]
