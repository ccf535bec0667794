-- ===== src/Scheduling.antt =====
-- fiberize/src/fiberize/detail/multitaskscheduler.cpp with `resume` of
-- fiberize/src/fiberize/context.cpp: tasks that move between the run queues of several schedulers.
-- Each function below is one critical section, or one stretch of code that touches nothing but its own
-- scheduler and one queue.
pub mod Steps
pub mod Invariant
pub mod Resuming
pub mod Moving
pub mod Clear
pub mod Running
pub mod Reachable
pub mod Exclusion
pub mod Home
pub mod Pins
pub mod Choice
mod Examples
use fiberize.Base.{
  ℕ, suc, ◌+◌, Bool, true, false, not, Option, none, some, List, [], ◌∷◌, ◌++◌, ◌==◌, ◌&&◌,
  if◌then◌else◌, u64, update,
}
use fiberize.Task.{Task, TaskStatus, starting, running, suspended, listening, dead, status_eq}

pub data Priority : Type 0 where
  soft hard : Priority

-- What the thread of a scheduler executes: the loop on an unowned stack, the code of `ownedLoop`
-- behind a jump to the suspended task that is now current, or the current task.
pub data Location : Type 0 where
  looping arriving in_task : Location

-- The front of a queue is the head of its list. `pushing_soft` and `pushing_hard` hold the tasks
-- that some thread has marked as scheduled and is about to push: it has left the lock of the task
-- and has not got the lock of the queue yet.
pub record Scheduler : Type 0 where
  pub soft_tasks : List ℕ
  pub hard_tasks : List ℕ
  pub pushing_soft : List ℕ
  pub pushing_hard : List ℕ
  pub location : Location
  pub suspending_task : Option ℕ
  pub current_task : Option ℕ

pub record System : Type 0 where
  pub tasks : ℕ → Task
  pub schedulers : ℕ → Scheduler

abbrev pub set_task : ℕ → Task → System → System
set_task i t s = record s { tasks = update s.tasks i t }

abbrev pub set_scheduler : ℕ → Scheduler → System → System
set_scheduler k c s = record s { schedulers = update s.schedulers k c }

-- `status == Starting || status == Listening`
abbrev pub is_soft : TaskStatus → Bool
is_soft starting = true
is_soft listening = true
is_soft _ = false

abbrev pub announce : Priority → ℕ → Scheduler → Scheduler
announce soft i c = record c { pushing_soft = i ∷ c.pushing_soft }
announce hard i c = record c { pushing_hard = i ∷ c.pushing_hard }

abbrev pub priority_of : TaskStatus → Priority
priority_of status = if is_soft status then soft else hard

-- `MultiTaskScheduler::resume` of scheduler `k` up to `lock.unlock()`.
unfoldable pub resume_at : ℕ → ℕ → System → System
resume_at k i s =
    let t = s.tasks i in
    set_task i (record t { resumes = u64 (t.resumes + 1); scheduled = true })
      (set_scheduler k (announce (priority_of t.status) i (s.schedulers k)) s)

-- The rest of it: `softTasks.push_front(task)`, or the same for the hard ones.
unfoldable pub push : Priority → ℕ → List ℕ → Scheduler → Scheduler
push soft i rest c = record c { soft_tasks = i ∷ c.soft_tasks; pushing_soft = rest }
push hard i rest c = record c { hard_tasks = i ∷ c.hard_tasks; pushing_hard = rest }

-- `status != Suspended && status != Starting && status != Listening`, negated.
abbrev pub is_resumable : TaskStatus → Bool
is_resumable starting = true
is_resumable suspended = true
is_resumable listening = true
is_resumable _ = false

abbrev pub resume_if : Bool → ℕ → ℕ → System → System
resume_if true k i s = resume_at k i s
resume_if false k i s = s

-- `context::detail::resume` of the task `i` on a multitasking scheduler, `k` being the one that it
-- selects. A scheduled or running task is not resumed.
unfoldable pub resume : ℕ → ℕ → System → System
resume k i s =
    let t = s.tasks i in
    resume_if (is_resumable t.status && not t.scheduled) k i
      (set_task i (record t { resumes = u64 (t.resumes + 1) }) s)

-- `finishSuspending` of scheduler `k` for the task `i`; it is rescheduled if required.
unfoldable pub suspend_task : ℕ → ℕ → System → System
suspend_task k i s =
    let t = s.tasks i in
    resume_if (not (t.resumes == t.resumes_expected)) k i (
      set_task i (record t { status = suspended; scheduled = false })
        (set_scheduler k (record (s.schedulers k) { suspending_task = none }) s))

unfoldable pub finish_suspending : ℕ → System → System
finish_suspending k s = elim (s.schedulers k).suspending_task [
  | none ↦ s
  | some i ↦ suspend_task k i s
]

-- `status = Running; scheduled = false;` for the current task, which then executes.
unfoldable pub begin_task : ℕ → ℕ → System → System
begin_task k i s =
    set_task i (record (s.tasks i) { status = running; scheduled = false })
      (set_scheduler k (record (s.schedulers k) { location = in_task }) s)

-- The jump of `unownedLoop` to the saved context of a suspended task.
unfoldable pub jump_to_task : ℕ → System → System
jump_to_task k s = set_scheduler k (record (s.schedulers k) { location = arriving }) s

-- The front of a queue of `dequeue`, and the back of one of `steal`, as the lists around the task.
abbrev pub queue : Priority → Scheduler → List ℕ
queue soft c = c.soft_tasks
queue hard c = c.hard_tasks

abbrev pub with_queue : Priority → List ℕ → Scheduler → Scheduler
with_queue soft q c = record c { soft_tasks = q }
with_queue hard q c = record c { hard_tasks = q }

-- `currentTask_ = task;`
abbrev pub take : ℕ → Scheduler → Scheduler
take i c = record c { current_task = some i }

-- Scheduler `k` takes the task `i` out of a queue of `m`, which leaves `q`.
unfoldable pub fetch : ℕ → ℕ → Priority → ℕ → List ℕ → System → System
fetch k m p i q s =
    let removed = set_scheduler m (with_queue p q (s.schedulers m)) s in
    set_scheduler k (take i (removed.schedulers k)) removed

-- `ownedLoop` hands its task over: `suspendingTask = currentTask_; currentTask_ = nullptr;`
unfoldable pub hand_over : ℕ → System → System
hand_over k s =
    let c = s.schedulers k in
    set_scheduler k
      (record c { suspending_task = c.current_task; current_task = none; location = looping }) s

-- Where `ownedLoop` jumps to with a task in hand: to an unowned stack, or to the task.
unfoldable pub owned_jump : ℕ → ℕ → System → System
owned_jump k i s =
    if is_soft (s.tasks i).status
    then s
    else set_scheduler k (record (s.schedulers k) { location = arriving }) s

-- The end of a task's run on an unowned stack: back to listening, or `kill`.
unfoldable pub end_task : ℕ → ℕ → System → System
end_task k i s =
    let t = s.tasks i in
    let left =
      set_scheduler k (record (s.schedulers k) { current_task = none; location = looping }) s in
    if t.stopped
    then set_task i (record t { status = dead; scheduled = false }) left
    else resume_if (not (t.resumes_expected == t.resumes)) k i
        (set_task i (record t { status = listening }) left)
