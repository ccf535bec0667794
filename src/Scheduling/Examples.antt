-- ===== src/Scheduling/Examples.antt =====
-- Two schedulers and a task that is spawned, run, pinned, stopped and ended, for the theorems about
-- fiberize/src/fiberize/detail/multitaskscheduler.cpp at concrete states.
use fiberize.Base.{
  ℕ, ◌+◌, ◌≤◌, ◌<◌, ◌≡◌, ◌≢◌, refl, inl, inr, true, none, some, [], ◌∷◌, arith, total, count,
}
use fiberize.Task.{construct}
use fiberize.Scheduling.{
  soft, System, resume, resume_at, push, fetch, begin_task, end_task, set_task, set_scheduler,
}
use fiberize.Scheduling.Steps.{
  Reach, start, later, spawns, resumes, pushes, fetches, begins, ends, pins, stops, Executes,
}
use fiberize.Scheduling.Invariant.{waiting}
use fiberize.Scheduling.Exclusion.{
  Reach-Executes_unique, Reach-Executes_alone, Reach-no_lost_wakeup, Reach-dead_nowhere,
}
use fiberize.Scheduling.Choice.{Found, IsTaken, dequeue, steal, search-Takes}
use fiberize.Scheduling.Pins.{Reach-Executes_pinned}
use fiberize.Samples.{raw_task, idle_scheduler}

abbrev at_start : System
at_start = record { tasks = λ i. raw_task; schedulers = λ k. idle_scheduler }

abbrev spawned : System
spawned = set_task 0 (construct raw_task) at_start

abbrev resumed : System
resumed = resume 1 0 spawned

abbrev pushed : System
pushed = set_scheduler 1 (push soft 0 [] (resumed.schedulers 1)) resumed

abbrev fetched : System
fetched = fetch 0 1 soft 0 [] pushed

abbrev begun : System
begun = begin_task 0 0 fetched

abbrev pinned : System
pinned = set_task 0 (record (begun.tasks 0) { pin = some 0 }) begun

abbrev stopped : System
stopped = set_task 0 (record (begun.tasks 0) { stopped = true }) begun

Reach-begun : Reach 2 begun
unfolding construct resume resume_at push fetch begin_task
Reach-begun =
    later
      (later
        (later
          (later
            (later
              (start {s = at_start} (record { no_task = λ i. (refl, refl); no_work = λ k. refl }))
              (spawns 0 raw_task refl))
            (resumes 1 0 (omega arith) (inl refl)))
          (pushes 1 0 soft [] [] (omega arith) refl))
        (fetches 0 1 0 soft [] (omega arith) (omega arith) (refl, refl) refl (inr (refl, refl))))
      (begins 0 0 (omega arith) (refl, refl) refl refl)

Executes-begun : Executes 0 0 begun
unfolding construct resume resume_at push fetch begin_task
Executes-begun = (refl, refl)

Reach-ended : Reach 2 (end_task 0 0 begun)
Reach-ended = later Reach-begun (ends 0 0 (omega arith) Executes-begun)

Reach-pinned : Reach 2 pinned
unfolding construct resume resume_at push fetch begin_task
Reach-pinned = later Reach-begun (pins 0 0 (omega arith) Executes-begun refl)

Reach-dead : Reach 2 (end_task 0 0 stopped)
unfolding construct resume resume_at push fetch begin_task
Reach-dead =
    later (later Reach-begun (stops 0 0 (omega arith) Executes-begun))
      (ends 0 0 (omega arith) (refl, refl))

Reach-Executes_unique_example : ◌≡◌ {A = ℕ} 0 0
Reach-Executes_unique_example =
    Reach-Executes_unique 0 0 0 begun Reach-begun (omega arith) (omega arith) Executes-begun
      Executes-begun

Reach-Executes_alone_example : waiting 0 (begun.schedulers 1) ≡ 0
Reach-Executes_alone_example =
    Reach-Executes_alone 0 1 0 begun Reach-begun (omega arith) (omega arith) Executes-begun

-- The task was resumed once more than it ever expected, while it ran.
Reach-no_lost_wakeup_example :
    (total (waiting 0) 2 (end_task 0 0 begun).schedulers ≡ 1)
    × ((k : ℕ) × (k < 2) × (1 ≤ waiting 0 ((end_task 0 0 begun).schedulers k)))
unfolding construct resume resume_at push fetch begin_task end_task
Reach-no_lost_wakeup_example =
    Reach-no_lost_wakeup 0 (end_task 0 0 begun) Reach-ended (inr refl)
      (λ e. absurd (omega (arith, e)))

Reach-dead_nowhere_example :
    (count 0 ((end_task 0 0 stopped).schedulers 0).soft_tasks
        + count 0 ((end_task 0 0 stopped).schedulers 0).hard_tasks
      ≡ 0)
    × (((end_task 0 0 stopped).schedulers 0).current_task ≢ some 0)
    × (((end_task 0 0 stopped).schedulers 0).suspending_task ≢ some 0)
unfolding construct resume resume_at push fetch begin_task end_task
Reach-dead_nowhere_example =
    Reach-dead_nowhere 0 0 (end_task 0 0 stopped) Reach-dead (omega arith) refl

Reach-Executes_pinned_example : ◌≡◌ {A = ℕ} 0 0
unfolding construct resume resume_at push fetch begin_task
Reach-Executes_pinned_example =
    Reach-Executes_pinned 0 0 0 pinned Reach-pinned (omega arith) refl (refl, refl)

abbrev stolen : Found
stolen = record { scheduler = 1; priority = soft; task = 0; rest = [] }

search-Takes_example :
    (dequeue 1 soft (λ t. pushed) ≡ some stolen → (t : ℕ) × IsTaken 1 stolen pushed)
    × (steal (1 ∷ 1 ∷ []) soft (λ t. pushed) 0 ≡ some stolen → (t : ℕ) × IsTaken 1 stolen pushed)
    × (dequeue 1 soft (λ t. pushed) ≡ none
        → ((pushed.schedulers 1).soft_tasks ≡ []) × ((pushed.schedulers 1).hard_tasks ≡ []))
search-Takes_example = search-Takes 1 soft (1 ∷ 1 ∷ []) (λ t. pushed) stolen
