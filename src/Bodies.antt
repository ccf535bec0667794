-- ===== src/Bodies.antt =====
-- fiberize/include/fiberize/detail/tasktraits.hpp and fiberize/include/fiberize/detail/runnable.hpp:
-- the code that a new task runs around the closure of the user, and the rounds that
-- fiberize/src/fiberize/detail/multitaskscheduler.cpp gives to a task. The closure is a parameter: it
-- changes the task and a memory of its own, and returns or throws.
pub mod Rounds
pub mod Futures
mod Examples
use fiberize.Base.{ℕ, Bool, true, false, Option, none, some, List, [], ◌⊎◌, inl, inr}
use fiberize.Handlers.{HandlerTable}
use fiberize.Identity.{TaskPath}
use fiberize.Mailbox.{DequeMailbox}
use fiberize.Task.{Task, Exn, running, listening, starting, construct}
use fiberize.Context.{
  Outcome, returned, threw, undefined, exhausted, World, UserCode, Processing, process,
}
use fiberize.Results.{Result, result}
use fiberize.Condition.{Condition}
use fiberize.Promise.{Promise, complete}

abbrev pub Body : Type 0 → Type 0
Body M = World M → World M × Option Exn

-- A closure with a result, whose exceptions are numbers.
abbrev pub Computation : Type 0 → Type 0 → Type 0
Computation M A = World M → World M × (A ⊎ ℕ)

-- `new Task` with the members that `newTask` of the traits sets; `code` stands for the closure that the
-- runnable holds.
unfoldable pub new_task : Task → TaskPath → DequeMailbox → Option ℕ → ℕ → Task
new_task raw path mailbox pin code = record (construct raw) {
  pin = pin;
  path = path;
  mailbox = mailbox;
  runnable = some code;
}

-- `context::stop`
unfoldable pub stop : {M : Type 0} → World M → World M
stop w = record { task = record (w.task) { stopped = true }; memory = w.memory }

-- `context::process`, which locks the task and unlocks it at the end.
abbrev pub unlocked : {M : Type 0} → Outcome (Processing M) → Outcome (Processing M)
unlocked (returned s) = returned (record s { owns_lock = false })
unlocked (threw x s) = threw x s
unlocked undefined = undefined
unlocked exhausted = exhausted

unfoldable pub process_locked : {M : Type 0} → UserCode M → ℕ → World M → Outcome (Processing M)
process_locked call fuel w =
    unlocked (process call fuel (record { world = w; owns_lock = true; freed = [] }))

-- The runnable of `FiberTraits::newTask`: whatever the closure throws is dropped.
unfoldable pub run_fiber : {M : Type 0} → Body M → World M → World M
run_fiber body w = stop (body w).0

-- The runnable of `ActorTraits::newTask`.
unfoldable pub run_actor : {M : Type 0} → UserCode M → ℕ → Body M → World M → Outcome (Processing M)
run_actor call fuel body w = process_locked call fuel (body w).0

-- The runnable of `FutureTraits::newTask`, with the promise of the `Future`: the world that it leaves, and
-- what the completion of the promise gives. `meanwhile` is what others do to the condition of the
-- promise while its lock is free.
unfoldable pub run_future :
    {M A : Type 0}
    → ℕ
    → (Condition → Condition)
    → Computation M A
    → World M × Promise (Result A)
    → World M × Option (Bool × List ℕ × Promise (Result A))
run_future fuel meanwhile body (w, p) =
    let (v, outcome) = body w in (stop v, complete fuel meanwhile (some (result outcome)) p)

-- The round of a listening task, which is called with the lock held: an exception that escapes stops the
-- task, and the lock is taken again.
abbrev pub caught : {M : Type 0} → Outcome (Processing M) → Outcome (Processing M)
caught (returned t) = returned t
caught (threw x t) = returned (record t { world = stop t.world; owns_lock = true })
caught undefined = undefined
caught exhausted = exhausted

unfoldable pub listen : {M : Type 0} → UserCode M → ℕ → Processing M → Outcome (Processing M)
listen call fuel s = caught (process call fuel s)
