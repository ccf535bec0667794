-- ===== src/Mailbox.antt =====
-- fiberize/include/fiberize/mailbox.hpp and fiberize/src/fiberize/mailbox.cpp: the events that wait
-- for a task. A payload is the address that `data` holds; what is handed to `freeData` is listed in
-- call order.
pub mod Fifo
pub mod Ownership
use fiberize.Base.{
  ℕ, suc, Bool, true, false, Option, none, some, List, [], ◌∷◌, ◌++◌, length, if◌then◌else◌,
}
use fiberize.Identity.{TaskPath}
use fiberize.Deque
use fiberize.Deque.{LazyDeque, lazy}
use fiberize.Deque.View.{to_list}

pub record PendingEvent : Type 0 where
  pub path : TaskPath
  pub payload : ℕ
  pub free_data : Bool

pub record DequeMailbox : Type 0 where
  pub pending_events : LazyDeque PendingEvent

abbrev pub new_mailbox : DequeMailbox
new_mailbox = record { pending_events = lazy }

pub enqueue : DequeMailbox → PendingEvent → DequeMailbox
enqueue m event = record { pending_events = Deque.push_back m.pending_events event }

-- The event, if there is one, and the mailbox after the call; `none` is undefined behaviour.
unfoldable pub dequeue : DequeMailbox → Option (Option PendingEvent × DequeMailbox)
dequeue m =
    if Deque.empty m.pending_events then some (none, m) else elim (Deque.front m.pending_events) [
      | none ↦ none
      | some event ↦ elim (Deque.pop_front m.pending_events) [
        | none ↦ none
        | some rest ↦ some (some event, record { pending_events = rest })
      ]
    ]

pub empty : DequeMailbox → Bool
empty m = Deque.empty m.pending_events

-- `if (event.freeData) event.freeData(event.data);`
abbrev pub free : PendingEvent → List ℕ
free event = if event.free_data then event.payload ∷ [] else []

abbrev pub free_all : List PendingEvent → List ℕ
free_all [] = []
free_all (event ∷ events) = free event ++ free_all events

-- The events in the order of arrival.
abbrev pub events : DequeMailbox → List PendingEvent
events m = to_list m.pending_events

-- `clear` frees the payloads and leaves the events where they are: the mailbox after the call, and
-- what was freed. The fuel of the loop is one more than the events.
pub clear : DequeMailbox → Option (DequeMailbox × List ℕ)
clear m = elim (Deque.visit (suc (length (events m))) m.pending_events) [
  | none ↦ none
  | some visited ↦ some (m, free_all visited)
]

-- The destructor.
pub destroy : DequeMailbox → Option (List ℕ)
destroy m = elim (clear m) [ none ↦ none | some (_, freed) ↦ some freed ]
