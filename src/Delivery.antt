-- ===== src/Delivery.antt =====
-- Sending an event to a fiber: fiberize/include/fiberize/fiberref-inl.hpp and
-- fiberize/src/fiberize/fiberref.cpp over the references of
-- fiberize/src/fiberize/detail/localfiberref.cpp and fiberize/src/fiberize/detail/devnullfiberref.cpp.
pub mod Steps
pub mod Evolution
pub mod Suspending
pub mod Plain
pub mod Heard
pub mod Attended
pub mod Order
mod Examples
use fiberize.Base.{ℕ, Bool, true, false, not, ◌&&◌, ◌||◌, if◌then◌else◌}
use fiberize.Identity.{TaskPath, dev_null, path_eq}
use fiberize.Mailbox.{PendingEvent, enqueue}
use fiberize.Context.{kill_path}
use fiberize.Task.{Task}
use fiberize.Scheduling.{System, set_task, resume}

-- A reference that drops everything, or one to a task.
pub data FiberRef : Type 0 where
  dev_null_ref : FiberRef
  local_ref : ℕ → FiberRef

-- `locality() != DevNull`
abbrev is_local : FiberRef → Bool
is_local dev_null_ref = false
is_local (local_ref i) = true

abbrev path_of : (ℕ → Task) → FiberRef → TaskPath
path_of tasks dev_null_ref = dev_null
path_of tasks (local_ref i) = (tasks i).path

-- `LocalFiberRef::send`, which holds the lock of the task, with `k` the scheduler that `resume` selects.
unfoldable pub send_local : ℕ → ℕ → PendingEvent → System → System
send_local k i event s =
    resume k i (set_task i (record (s.tasks i) { mailbox = enqueue (s.tasks i).mailbox event }) s)

-- `FiberRefImpl::send`
unfoldable pub send_impl : ℕ → FiberRef → PendingEvent → System → System
send_impl k dev_null_ref event s = s
send_impl k (local_ref i) event s = send_local k i event s

-- `FiberRef::send` of a value that is stored at the address `payload`.
unfoldable pub send : ℕ → FiberRef → TaskPath → ℕ → System → System
send k ref path payload s =
    if is_local ref && not (path_eq path dev_null)
    then send_impl k ref (record { path = path; payload = payload; free_data = true }) s
    else s

-- `FiberRef::send<void>`, and `FiberRef::kill`.
unfoldable pub send_void : ℕ → FiberRef → TaskPath → System → System
send_void k ref path s =
    if is_local ref && not (path_eq path dev_null)
    then send_impl k ref (record { path = path; payload = 0; free_data = false }) s
    else s

unfoldable pub kill : ℕ → FiberRef → System → System
kill k ref s = send_void k ref kill_path s
