-- ===== src/Threads.antt =====
-- fiberize/src/fiberize/detail/singletaskscheduler.cpp with `resume` of
-- fiberize/src/fiberize/context.cpp, and the start of a thread in
-- fiberize/src/fiberize/detail/runner.cpp: a task that has a thread of its own. Each function is one
-- critical section of the lock of the task, or a read of the flag. An assertion that fails gives
-- `none`.
pub mod Wakeups
mod Examples
use fiberize.Base.{
  ℕ, ◌+◌, Bool, true, false, not, ◌&&◌, ◌||◌, Option, none, some, ◌==◌, if◌then◌else◌, u64,
}
use fiberize.Identity.{TaskPath}
use fiberize.Mailbox.{DequeMailbox}
use fiberize.Task.{Task, TaskStatus, running, suspended, listening, construct, status_eq}
use fiberize.Scheduling.{is_resumable}

-- The task, the flag `resumed`, and whether the thread is in the loop of `suspend`.
pub record Thread : Type 0 where
  pub task : Task
  pub resumed : Bool
  pub in_loop : Bool

abbrev pub with_status : TaskStatus → Task → Task
with_status status t = record t { status = status }

-- `SingleTaskScheduler::SingleTaskScheduler` of the scheduler `k`, which leaves the flag as it is in memory.
unfoldable pub attach : ℕ → Bool → Task → Thread
attach k raw t = record { task = record t { pin = some k }; resumed = raw; in_loop = false }

-- The start of a new task on a thread of its own, up to the run of its runnable.
unfoldable pub start_thread : ℕ → Bool → Task → Thread
start_thread k raw t = attach k raw t

-- `FiberSystem::fiberize` of fiberize/include/fiberize/fibersystem.hpp: the calling thread becomes a
-- task that runs.
unfoldable pub fiberize_thread : ℕ → Bool → Task → TaskPath → DequeMailbox → Thread
fiberize_thread k raw task path mailbox = attach k raw (record (construct task) {
  pin = none;
  path = path;
  mailbox = mailbox;
  status = running;
  scheduled = false;
})

-- `SingleTaskScheduler::resume`
unfoldable pub wake_thread : Thread → Option Thread
wake_thread s =
    if (status_eq s.task.status suspended || status_eq s.task.status listening)
      && not s.task.scheduled
    then some (record s {
      task = record (s.task) {
        status = running;
        scheduled = false;
        resumes = u64 (s.task.resumes + 1);
      };
      resumed = true;
    })
    else none

-- `context::detail::resume` of a task that is pinned to its own scheduler.
unfoldable pub resume_thread : Thread → Option Thread
resume_thread s =
    let counted = record s { task = record (s.task) { resumes = u64 (s.task.resumes + 1) } } in
    if is_resumable s.task.status && not s.task.scheduled then wake_thread counted else some counted

-- `SingleTaskScheduler::suspend` up to its loop.
unfoldable pub suspend_thread : Thread → Option Thread
suspend_thread s =
    if status_eq s.task.status running && not s.task.scheduled
    then if not (s.task.resumes == s.task.resumes_expected)
      then some s
      else some (record { task = with_status suspended s.task; resumed = false; in_loop = true })
    else none

-- One round of the loop: it ends when the flag is set.
unfoldable pub poll_thread : Thread → Thread
poll_thread s = if s.resumed then record s { in_loop = false } else s
