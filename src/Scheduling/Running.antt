-- ===== src/Scheduling/Running.antt =====
-- The place of a task across its creation and across what its code does while it runs.
-- fiberize/src/fiberize/context.cpp, fiberize/src/fiberize/scopedpin.cpp.
use fiberize.Base.{ℕ, ◌<◌, ◌≡◌, refl, false, arith, ==_refl}
use fiberize.Task.{Task, running, dead, construct}
use fiberize.Scheduling.{System, set_task}
use fiberize.Scheduling.Steps.{Executes}
use fiberize.Scheduling.Invariant.{IsPlaced, set_task-IsPlaced, active, active-running}

pub Executes-running :
    {n : ℕ} (k i : ℕ) (s : System)
    → k < n
    → Executes k i s
    → ((i : ℕ) → IsPlaced n i s)
    → (s.tasks i).status ≡ running
Executes-running k i s lt executes placed =
    active-running k i s lt (placed i).counts
      (unfold active in rw (executes.0, executes.1) (rw (==_refl i) (omega arith)))

-- A running task changes anything but its status and its flag.
pub run_task-IsPlaced :
    {n : ℕ} (k i j : ℕ) (t : Task) (s : System)
    → k < n
    → Executes k i s
    → t.status ≡ (s.tasks i).status
    → t.scheduled ≡ (s.tasks i).scheduled
    → ((i : ℕ) → IsPlaced n i s)
    → IsPlaced n j (set_task i t s)
run_task-IsPlaced k i j t s lt executes status flag placed =
    set_task-IsPlaced i j t s flag (rw status refl)
      (record {
        apart = ground (arith, runs, idle);
        gone = ground (arith, runs, idle);
        awaits = ground (arith, runs, idle);
      })
      (placed j)
  where
    runs : (s.tasks i).status ≡ running
    runs = Executes-running k i s lt executes placed

    idle : (s.tasks i).scheduled ≡ false
    idle = (placed i).own.apart runs

-- A new task is neither scheduled nor running.
pub spawn-IsPlaced :
    {n : ℕ} (i j : ℕ) (raw : Task) (s : System)
    → (s.tasks i).status ≡ dead
    → ((i : ℕ) → IsPlaced n i s)
    → IsPlaced n j (set_task i (construct raw) s)
unfolding construct
spawn-IsPlaced i j raw s gone placed =
    set_task-IsPlaced i j (construct raw) s (ground (arith, idle)) (rw gone refl)
      (record { apart = ground arith; gone = ground arith; awaits = ground arith }) (placed j)
  where
    idle : (s.tasks i).scheduled ≡ false
    idle = (placed i).own.gone gone
