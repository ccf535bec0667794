-- ===== src/Condition.antt =====
-- fiberize/src/fiberize/condition.cpp: a condition variable on the ticket queue. Each function below
-- runs under the spinlock of the caller, which `signal` and `signalAll` give up while they resume a
-- task.
pub mod Steps
pub mod Signaling
pub mod Forwarding
pub mod Broadcast
mod Examples
use fiberize.Base.{
  ℕ, zero, suc, ◌+◌, Bool, true, false, Option, none, some, List, [], ◌∷◌, leb, if◌then◌else◌, u64,
}
use fiberize.Deque.{LazyDeque, front, pop_front, empty}
use fiberize.Waiting.{Waiters, new_waiters, enroll, withdraw, wake}

pub record Condition : Type 0 where
  pub waiters : Waiters

pub new_condition : Condition
new_condition = record { waiters = new_waiters }

-- `await` up to the unlock: the ticket, and the condition.
pub await_enter : ℕ → Condition → ℕ × Condition
await_enter task c = ((enroll task c.waiters).0, record { waiters = (enroll task c.waiters).1 })

-- The test of the loop of `await`.
abbrev pub is_signaled : ℕ → Condition → Bool
is_signaled ticket c = leb ticket c.waiters.released

abbrev on_condition : Option (Option ℕ × Waiters) → Option (Option ℕ × Condition)
on_condition none = none
on_condition (some (task, w)) = some (task, record { waiters = w })

abbrev withdrawn : Option Waiters → Option (Option ℕ × Condition)
withdrawn none = none
withdrawn (some w) = some (none, record { waiters = w })

-- The task that is woken up, if there is one, and the condition.
pub signal : ℕ → Condition → Option (Option ℕ × Condition)
signal fuel c = on_condition (wake fuel c.waiters)

-- The `catch` of `await`: a task that was signaled passes the signal on, another one leaves the queue.
pub await_failed : ℕ → ℕ → Condition → Option (Option ℕ × Condition)
await_failed fuel ticket c =
    if is_signaled ticket c then signal fuel c else withdrawn (withdraw ticket c.waiters)

abbrev added : ℕ → Option (List ℕ × Condition) → Option (List ℕ × Condition)
added i none = none
added i (some (tasks, c)) = some (i ∷ tasks, c)

-- `signalAll`: the tasks that it resumes, in order. `meanwhile` is what other threads do to the
-- condition while the lock is free.
pub signal_all : ℕ → (Condition → Condition) → Condition → Option (List ℕ × Condition)
signal_all zero meanwhile c = none
signal_all (suc fuel) meanwhile c = elim (empty c.waiters.queue) [
  | true ↦ some ([], c)
  | false ↦ elim (front c.waiters.queue) [
    | none ↦ none
    | some task ↦ elim (pop_front c.waiters.queue) [
      | none ↦ none
      | some q ↦
          let popped : Condition = record {
            waiters = record (c.waiters) { queue = q; released = u64 (c.waiters.released + 1) };
          } in
          elim task [
            | none ↦ signal_all fuel meanwhile popped
            | some i ↦ added i (signal_all fuel meanwhile (meanwhile popped))
          ]
    ]
  ]
]
