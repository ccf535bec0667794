-- ===== src/Scheduling/Exclusion.antt =====
-- What the places of tasks mean for the schedulers of
-- fiberize/src/fiberize/detail/multitaskscheduler.cpp.
use fiberize.Base.{
  ℕ, ◌+◌, ◌≤◌, ◌<◌, ◌≡◌, ◌≢◌, ◌⊎◌, inl, inr, true, false, some, arith, ==_refl, Bool-cases, total,
  le-total, le-total_two, total-some, count, ==_iff, ◌==◌,
}
use fiberize.Task.{suspended, listening, dead}
use fiberize.Scheduling.{System}
use fiberize.Scheduling.Steps.{Reach, Executes}
use fiberize.Scheduling.Invariant.{waiting, active}
use fiberize.Scheduling.Running.{Executes-running}
use fiberize.Scheduling.Reachable.{Reach-IsSound}

Executes-active : (k i : ℕ) (s : System) → Executes k i s → 1 ≤ active i (s.schedulers k)
unfolding active
Executes-active k i s executes = rw (executes.0, executes.1) (rw (==_refl i) (omega arith))

-- A task that a scheduler executes stands in no queue of any scheduler, nor is it on the way to one
-- or taken from one.
pub Reach-Executes_alone :
    {n : ℕ} (k m i : ℕ) (s : System)
    → Reach n s
    → k < n
    → m < n
    → Executes k i s
    → waiting i (s.schedulers m) ≡ 0
Reach-Executes_alone {n} k m i s reach lt_k lt_m executes = ground (
  arith,
  idle,
  le-total (waiting i) n s.schedulers m lt_m,
  ((Reach-IsSound reach).placed i).counts.waits,
)
  where
    idle : (s.tasks i).scheduled ≡ false
    idle =
        ((Reach-IsSound reach).placed i).own.apart
          (Executes-running k i s lt_k executes (Reach-IsSound reach).placed)

-- A task that one scheduler executes occurs in no other one.
pub Reach-alone :
    {n : ℕ} (k m i : ℕ) (s : System)
    → Reach n s
    → k < n
    → m < n
    → Executes k i s
    → 1 ≤ waiting i (s.schedulers m) + active i (s.schedulers m)
    → m ≡ k
Reach-alone {n} k m i s reach lt_k lt_m here there = elim (Bool-cases (m == k)) [
  | inl e ↦ (==_iff m k).0 e
  | inr e ↦ absurd (
      ground (
        arith,
        there,
        Reach-Executes_alone k m i s reach lt_k lt_m here,
        le-total_two (active i) n s.schedulers m k lt_m lt_k
            (λ b. ground (arith, e, (==_iff m k).1 b)),
        ((Reach-IsSound reach).placed i).counts.runs,
        Executes-active k i s here,
      ))
]

-- Whatever the schedulers and the threads that resume tasks do, in whatever order, two schedulers
-- never execute one task at the same time.
pub Reach-Executes_unique :
    {n : ℕ} (k m i : ℕ) (s : System)
    → Reach n s
    → k < n
    → m < n
    → Executes k i s
    → Executes m i s
    → k ≡ m
Reach-Executes_unique k m i s reach lt_k lt_m here there =
    Reach-alone m k i s reach lt_m lt_k there (omega (arith, Executes-active k i s here))

-- No wake-up is lost: a suspended or listening task that was resumed more often than it expects
-- waits, once, in some scheduler.
pub Reach-no_lost_wakeup :
    {n : ℕ} (i : ℕ) (s : System)
    → Reach n s
    → ((s.tasks i).status ≡ suspended) ⊎ ((s.tasks i).status ≡ listening)
    → (s.tasks i).resumes ≢ (s.tasks i).resumes_expected
    → (total (waiting i) n s.schedulers ≡ 1)
      × ((k : ℕ) × (k < n) × (1 ≤ waiting i (s.schedulers k)))
Reach-no_lost_wakeup {n} i s reach asleep more =
    (once, total-some (waiting i) n s.schedulers (omega (arith, once)))
  where
    flag : (s.tasks i).scheduled ≡ true
    flag = elim (Bool-cases (s.tasks i).scheduled) [
      | inl e ↦ e
      | inr e ↦ absurd (more (((Reach-IsSound reach).placed i).own.awaits asleep e))
    ]

    once : total (waiting i) n s.schedulers ≡ 1
    once = ground (arith, flag, ((Reach-IsSound reach).placed i).counts.waits)

pub Reach-dead_absent :
    {n : ℕ} (k i : ℕ) (s : System)
    → Reach n s
    → k < n
    → (s.tasks i).status ≡ dead
    → waiting i (s.schedulers k) + active i (s.schedulers k) ≡ 0
Reach-dead_absent {n} k i s reach lt gone = ground (
  arith,
  gone,
  le-total (waiting i) n s.schedulers k lt,
  le-total (active i) n s.schedulers k lt,
  ((Reach-IsSound reach).placed i).counts.waits,
  ((Reach-IsSound reach).placed i).counts.runs,
  ((Reach-IsSound reach).placed i).own.gone gone,
)

-- No scheduler refers to a dead task: it stands in no queue, and it is neither current nor to be
-- suspended.
pub Reach-dead_nowhere :
    {n : ℕ} (k i : ℕ) (s : System)
    → Reach n s
    → k < n
    → (s.tasks i).status ≡ dead
    → (count i (s.schedulers k).soft_tasks + count i (s.schedulers k).hard_tasks ≡ 0)
      × ((s.schedulers k).current_task ≢ some i)
      × ((s.schedulers k).suspending_task ≢ some i)
unfolding waiting active
Reach-dead_nowhere {n} k i s reach lt gone = (queued, current, left)
  where
    absent : waiting i (s.schedulers k) + active i (s.schedulers k) ≡ 0
    absent = Reach-dead_absent k i s reach lt gone

    queued : count i (s.schedulers k).soft_tasks + count i (s.schedulers k).hard_tasks ≡ 0
    queued = omega (arith, absent)

    current : (s.schedulers k).current_task ≢ some i
    current held = ground (arith, absent, held, ==_refl i)

    left : (s.schedulers k).suspending_task ≢ some i
    left held = ground (arith, absent, held, ==_refl i)
