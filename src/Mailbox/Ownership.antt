-- ===== src/Mailbox/Ownership.antt =====
-- Who frees the payloads of the mailbox of fiberize/src/fiberize/mailbox.cpp.
use fiberize.Base.{ℕ, ◌≤◌, ◌≡◌, refl, true, some, List, [], ◌∷◌, ◌++◌, arith, count, count-append}
use fiberize.Deque.Laws.{visit-to_list}
use fiberize.Mailbox.{PendingEvent, DequeMailbox, free_all, events, clear, destroy}

pub clear_lem : (m : DequeMailbox) → clear m ≡ some (m, free_all (events m))
unfolding clear
clear_lem m = ground (arith, visit-to_list m.pending_events)

pub destroy_lem : (m : DequeMailbox) → destroy m ≡ some (free_all (events m))
unfolding destroy
destroy_lem m = ground (arith, clear_lem m)

free_all-append : (xs ys : List PendingEvent) → free_all (xs ++ ys) ≡ free_all xs ++ free_all ys
free_all-append [] ys = refl
free_all-append (x ∷ xs) ys = ground (arith, free_all-append xs ys)

count-free_all :
    (before after : List PendingEvent) (e : PendingEvent)
    → e.free_data ≡ true
    → 1 ≤ count e.payload (free_all (before ++ e ∷ after))
count-free_all [] after e owns = ground arith
count-free_all (x ∷ before) after e owns =
    grind (arith, count-append, count-free_all before after e owns)

-- The destructor after `clear`, which is what becomes of the mailbox of a killed task, frees the
-- payload of every event that was still pending a second time.
pub clear-destroy_frees_twice :
    (m : DequeMailbox) (before after : List PendingEvent) (e : PendingEvent)
    → events m ≡ before ++ e ∷ after
    → e.free_data ≡ true
    → (cleared : DequeMailbox) × (fs gs : List ℕ) × (clear m ≡ some (cleared, fs))
      × (destroy cleared ≡ some gs)
      × (2 ≤ count e.payload (fs ++ gs))
clear-destroy_frees_twice m before after e held owns = (
  m,
  free_all (events m),
  free_all (events m),
  clear_lem m,
  destroy_lem m,
  rw (count-append e.payload (free_all (events m)), held)
      (omega (arith, count-free_all before after e owns)),
)
