-- ===== src/Mutex.antt =====
-- fiberize/src/fiberize/mutex.cpp: a mutex that hands itself over to the task that waited longest.
-- A function is one critical section of its spinlock, save for the last ones, which add the call that
-- follows it.
pub mod Steps
pub mod Tickets
pub mod Fairness
pub mod Exclusion
mod Leaving
pub mod Releasing
pub mod Handover
pub mod Entering
mod Examples
use fiberize.Base.{ℕ, Bool, true, false, Option, none, some, List, [], ◌∷◌, leb, if◌then◌else◌}
use fiberize.Waiting.{Waiters, new_waiters, enroll, withdraw, wake}

pub record Mutex : Type 0 where
  pub locked : Bool
  pub waiters : Waiters

pub new_mutex : Bool → Mutex
new_mutex locked = record { locked = locked; waiters = new_waiters }

-- `lock` of a task up to the end of its critical section: the lock is taken, or a ticket.
pub lock_enter : ℕ → Mutex → Option ℕ × Mutex
lock_enter task m =
    if m.locked
    then (some (enroll task m.waiters).0, record m { waiters = (enroll task m.waiters).1 })
    else (none, record m { locked = true })

-- The test of the loop of `lock`: the task may go on and has the lock.
abbrev pub is_released : ℕ → Mutex → Bool
is_released ticket m = leb ticket m.waiters.released

pub try_lock : Mutex → Bool × Mutex
try_lock m = if m.locked then (false, m) else (true, record m { locked = true })

-- The task that the lock is handed to, if there is one, and the mutex.
pub unlock : ℕ → Mutex → Option (Option ℕ × Mutex)
unlock fuel m = elim (wake fuel m.waiters) [
  | none ↦ none
  | some (task, waiters) ↦ elim task [
    | none ↦ some (none, record { locked = false; waiters = waiters })
    | some i ↦ some (some i, record m { waiters = waiters })
  ]
]

-- The `catch` of `lock`: a task that does not want the lock any more leaves the queue, or unlocks.
pub lock_failed : ℕ → ℕ → Mutex → Option (Option ℕ × Mutex)
lock_failed fuel ticket m =
    if is_released ticket m then unlock fuel m else elim (withdraw ticket m.waiters) [
      | none ↦ none
      | some waiters ↦ some (none, record m { waiters = waiters })
    ]

-- `context::detail::resume(task)` after the spinlock has been released, at a moment when `deleted` says
-- which tasks have been deleted: the resumed tasks, or `none` for a call with a dangling pointer.
abbrev pub then_resume : (ℕ → Bool) → Option (Option ℕ × Mutex) → Option (List ℕ × Mutex)
then_resume deleted none = none
then_resume deleted (some (none, m)) = some ([], m)
then_resume deleted (some (some task, m)) = if deleted task then none else some (task ∷ [], m)

-- `unlock`, and the `catch` of `lock`, with the task that they resume.
unfoldable pub unlock_call : ℕ → (ℕ → Bool) → Mutex → Option (List ℕ × Mutex)
unlock_call fuel deleted m = then_resume deleted (unlock fuel m)

unfoldable pub lock_failed_call : ℕ → (ℕ → Bool) → ℕ → Mutex → Option (List ℕ × Mutex)
lock_failed_call fuel deleted ticket m = then_resume deleted (lock_failed fuel ticket m)
