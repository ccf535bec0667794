-- ===== src/Scheduling/Invariant.antt =====
-- The invariant on where a task stands in the schedulers of
-- fiberize/src/fiberize/detail/multitaskscheduler.cpp, on its status and on its `scheduled` flag.
use fiberize.Base.{
  ℕ, ◌+◌, ◌≤◌, ◌<◌, ◌≡◌, refl, ◌⊎◌, inl, inr, Bool, true, false, Option, none, some, ◌==◌,
  if◌then◌else◌, count, total, total-update, le-total, update, arith, Bool-cases,
}
use fiberize.Task.{Task, TaskStatus, starting, running, suspended, listening, dead, status_eq}
use fiberize.Scheduling.{Location, in_task, Scheduler, System, set_task, set_scheduler}

abbrev pub holds : ℕ → Option ℕ → ℕ
holds i none = 0
holds i (some j) = if j == i then 1 else 0

-- The task as current one, by what the scheduler's thread executes.
abbrev pub fetched : ℕ → Location → Option ℕ → ℕ
fetched i in_task o = 0
fetched i _ o = holds i o

abbrev pub executed : ℕ → Location → Option ℕ → ℕ
executed i in_task o = holds i o
executed i _ o = 0

-- How often a task waits in a scheduler: in its queues, on the way there, and taken out to be run.
unfoldable pub waiting : ℕ → Scheduler → ℕ
waiting i c =
    count i c.soft_tasks
    + count i c.hard_tasks
    + count i c.pushing_soft
    + count i c.pushing_hard
    + fetched i c.location c.current_task

-- How often a scheduler executes a task, or has yet to suspend it.
unfoldable pub active : ℕ → Scheduler → ℕ
active i c = executed i c.location c.current_task + holds i c.suspending_task

abbrev pub bit : Bool → ℕ
bit true = 1
bit false = 0

-- A suspended or listening task that is not scheduled has no resume that it did not expect.
abbrev pub Awaits : Task → Type 0
Awaits t =
    ((t.status ≡ suspended) ⊎ (t.status ≡ listening))
    → t.scheduled ≡ false
    → t.resumes ≡ t.resumes_expected

pub record IsCoherent (t : Task) : Type 0 where
  pub apart : t.status ≡ running → t.scheduled ≡ false
  pub gone : t.status ≡ dead → t.scheduled ≡ false
  pub awaits : Awaits t

-- A task waits in one place if it is scheduled, and nowhere if not; it is executed by one scheduler,
-- or about to be suspended by one, if its status says that it runs, and by none if not.
pub record IsCounted (n i : ℕ) (s : System) : Type 0 where
  pub waits : total (waiting i) n s.schedulers ≡ bit (s.tasks i).scheduled
  pub runs : total (active i) n s.schedulers ≡ bit (status_eq (s.tasks i).status running)

pub record IsPlaced (n i : ℕ) (s : System) : Type 0 where
  pub counts : IsCounted n i s
  pub own : IsCoherent (s.tasks i)

-- The change of one scheduler and one task, with the balance that it has to keep for the task `j`.
pub record Keeps (k i j : ℕ) (c : Scheduler) (t : Task) (s : System) : Type 0 where
  pub waits :
      waiting j c + (if i == j then bit (s.tasks i).scheduled else 0)
      ≡ waiting j (s.schedulers k) + (if i == j then bit t.scheduled else 0)
  pub runs :
      active j c + (if i == j then bit (status_eq (s.tasks i).status running) else 0)
      ≡ active j (s.schedulers k) + (if i == j then bit (status_eq t.status running) else 0)

Status-cases : (a : TaskStatus) → (a ≡ running) ⊎ (status_eq a running ≡ false)
Status-cases running = inl refl
Status-cases starting = inr refl
Status-cases suspended = inr refl
Status-cases listening = inr refl
Status-cases dead = inr refl

-- The other tasks stay as they are.
abbrev pub Others : ℕ → ℕ → System → Type 0
Others i j s = i == j ≡ false → IsCoherent (s.tasks j)

pub IsCoherent-at :
    (i j : ℕ) (t : Task) (s : System)
    → IsCoherent t
    → Others i j s
    → IsCoherent (update s.tasks i t j)
IsCoherent-at i j t s new old = elim (Bool-cases (i == j)) [
  | inl e ↦ rw e new
  | inr e ↦ rw e (old e)
]

pub Keeps-IsCounted :
    {n : ℕ} (k i j : ℕ) (c : Scheduler) (t : Task) (s : System)
    → k < n
    → IsCounted n j s
    → Keeps k i j c t s
    → IsCounted n j (set_task i t (set_scheduler k c s))
Keeps-IsCounted {n} k i j c t s lt counts keeps = record {
  waits = ground (arith, total-update (waiting j) n s.schedulers k c lt, keeps.waits, counts.waits);
  runs = ground (arith, total-update (active j) n s.schedulers k c lt, keeps.runs, counts.runs);
}

pub Keeps-IsPlaced :
    {n : ℕ} (k i j : ℕ) (c : Scheduler) (t : Task) (s : System)
    → k < n
    → IsCounted n j s
    → IsCoherent t
    → Others i j s
    → Keeps k i j c t s
    → IsPlaced n j (set_task i t (set_scheduler k c s))
Keeps-IsPlaced k i j c t s lt counts new old keeps = record {
  counts = Keeps-IsCounted k i j c t s lt counts keeps;
  own = IsCoherent-at i j t s new old;
}

-- What a scheduler executes or has yet to suspend runs, and what waits in it is scheduled.
pub active-running :
    {n : ℕ} (k i : ℕ) (s : System)
    → k < n
    → IsCounted n i s
    → 1 ≤ active i (s.schedulers k)
    → (s.tasks i).status ≡ running
active-running {n} k i s lt counts one = elim (Status-cases (s.tasks i).status) [
  | inl e ↦ e
  | inr e ↦ absurd (ground (arith, le-total (active i) n s.schedulers k lt, counts.runs))
]

pub waiting-scheduled :
    {n : ℕ} (k i : ℕ) (s : System)
    → k < n
    → IsCounted n i s
    → 1 ≤ waiting i (s.schedulers k)
    → (s.tasks i).scheduled ≡ true
waiting-scheduled {n} k i s lt counts one = elim (Bool-cases (s.tasks i).scheduled) [
  | inl e ↦ e
  | inr e ↦ absurd (ground (arith, le-total (waiting i) n s.schedulers k lt, counts.waits))
]

-- The change of a task alone, which keeps its flag and whether it runs.
pub set_task-IsCounted :
    {n : ℕ} (i j : ℕ) (t : Task) (s : System)
    → t.scheduled ≡ (s.tasks i).scheduled
    → status_eq t.status running ≡ status_eq (s.tasks i).status running
    → IsCounted n j s
    → IsCounted n j (set_task i t s)
set_task-IsCounted i j t s flag run counts = record {
  waits = ground (arith, counts.waits);
  runs = ground (arith, counts.runs);
}

pub set_task-IsPlaced :
    {n : ℕ} (i j : ℕ) (t : Task) (s : System)
    → t.scheduled ≡ (s.tasks i).scheduled
    → status_eq t.status running ≡ status_eq (s.tasks i).status running
    → IsCoherent t
    → IsPlaced n j s
    → IsPlaced n j (set_task i t s)
set_task-IsPlaced i j t s flag run new placed = record {
  counts = set_task-IsCounted i j t s flag run placed.counts;
  own = IsCoherent-at i j t s new (λ _. placed.own);
}

-- The change of a scheduler alone.
pub set_scheduler-IsPlaced :
    {n : ℕ} (k j : ℕ) (c : Scheduler) (s : System)
    → k < n
    → waiting j c ≡ waiting j (s.schedulers k)
    → active j c ≡ active j (s.schedulers k)
    → IsPlaced n j s
    → IsPlaced n j (set_scheduler k c s)
set_scheduler-IsPlaced {n} k j c s lt waits runs placed = record {
  counts = record {
    waits = omega (arith, total-update (waiting j) n s.schedulers k c lt, placed.counts.waits);
    runs = omega (arith, total-update (active j) n s.schedulers k c lt, placed.counts.runs);
  };
  own = placed.own;
}
