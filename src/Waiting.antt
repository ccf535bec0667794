-- ===== src/Waiting.antt =====
-- The ticket queue that fiberize/src/fiberize/mutex.cpp and fiberize/src/fiberize/condition.cpp are
-- both written with: the members `released`, `nextTicket` and `queue`, and the code that reads and
-- changes them.
pub mod Woken
use fiberize.Base.{ℕ, zero, suc, ◌+◌, ◌-◌, Bool, true, false, Option, none, some, u64}
use fiberize.Deque.{LazyDeque, lazy, push_back, pop_front, front, empty, assign}

-- A task that gave up is a null pointer in the queue.
pub record Waiters : Type 0 where
  pub released : ℕ
  pub next_ticket : ℕ
  pub queue : LazyDeque (Option ℕ)

unfoldable pub new_waiters : Waiters
new_waiters = record { released = 0; next_ticket = 1; queue = lazy }

-- `queue.push_back(task()); uint64_t ticket = nextTicket++;`
unfoldable pub enroll : ℕ → Waiters → ℕ × Waiters
enroll task w = (
  w.next_ticket,
  record w { queue = push_back w.queue (some task); next_ticket = u64 (w.next_ticket + 1) },
)

-- `queue[ticket - rel - 1] = nullptr`, or undefined behaviour.
unfoldable pub withdraw : ℕ → Waiters → Option Waiters
withdraw ticket w = elim (assign w.queue (ticket - w.released - 1) none) [
  | none ↦ none
  | some q ↦ some (record w { queue = q })
]

-- The loop that looks for a task to wake up: the task, if there is one. Undefined behaviour, and fuel
-- that runs out, give `none`.
unfoldable pub wake : ℕ → Waiters → Option (Option ℕ × Waiters)
wake zero w = none
wake (suc fuel) w = elim (empty w.queue) [
  | true ↦ some (none, w)
  | false ↦ elim (front w.queue) [
    | none ↦ none
    | some task ↦ elim (pop_front w.queue) [
      | none ↦ none
      | some q ↦ elim task [
        | some i ↦ some (some i, record w { queue = q; released = u64 (w.released + 1) })
        | none ↦ wake fuel (record w { queue = q; released = u64 (w.released + 1) })
      ]
    ]
  ]
]
