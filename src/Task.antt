-- ===== src/Task.antt =====
-- fiberize/include/fiberize/detail/task.hpp and fiberize/include/fiberize/exceptions.hpp: the state of
-- a task, its reference count, and the exceptions that a closure can raise.
use fiberize.Base.{ℕ, ◌+◌, ◌-◌, ◌^◌, Bool, true, false, ◌&&◌, Option, [], ◌==◌, u32}
use fiberize.Identity.{TaskPath}
use fiberize.Handlers.{HandlerTable}
use fiberize.Mailbox.{DequeMailbox}

pub data TaskStatus : Type 0 where
  starting running suspended listening dead : TaskStatus

pub data Exn : Type 0 where
  killed null_awaitable bad_function_call : Exn
  other : ℕ → Exn

-- `Task`, less its spinlock and saved context. A scheduler is its number; the runnable is the code
-- of its closure.
pub record Task : Type 0 where
  pub status : TaskStatus
  pub scheduled : Bool
  pub path : TaskPath
  pub pin : Option ℕ
  pub handlers_initialized : Bool
  pub resumes : ℕ
  pub resumes_expected : ℕ
  pub stopped : Bool
  pub ref_count : ℕ
  pub handlers : HandlerTable
  pub mailbox : DequeMailbox
  pub runnable : Option ℕ

-- The constructor sets no path, pin, expected count, mailbox or runnable: those of `raw` remain.
unfoldable pub construct : Task → Task
construct raw = record raw {
  status = starting;
  scheduled = false;
  handlers_initialized = false;
  resumes = 0;
  stopped = false;
  ref_count = 0;
  handlers = [];
}

abbrev pub status_eq : TaskStatus → TaskStatus → Bool
status_eq starting starting = true
status_eq running running = true
status_eq suspended suspended = true
status_eq listening listening = true
status_eq dead dead = true
status_eq _ _ = false

-- `Task::grab`, with the count a `uint32_t`.
unfoldable pub grab : Task → Task
grab t = record t { ref_count = u32 (t.ref_count + 1) }

-- `Task::drop`: the task after the call, and whether the call destroyed it.
unfoldable pub drop : Task → Task × Bool
drop t =
    let count = u32 (t.ref_count + 2 ^ 32 - 1) in
    (record t { ref_count = count }, count == 0 && status_eq t.status dead)
