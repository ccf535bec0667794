-- ===== src/Scheduling/Resuming.antt =====
-- The place of a task across the steps of fiberize/src/fiberize/detail/multitaskscheduler.cpp that
-- schedule it.
use fiberize.Base.{
  ℕ, ◌+◌, ◌<◌, ◌≡◌, refl, inl, inr, Bool, true, false, Option, none, some, ◌==◌, if◌then◌else◌, u64,
  arith, Bool-cases, ==_iff, ==_refl, subst, not, ◌&&◌,
}
use fiberize.Task.{Task, running, suspended, listening, dead}
use fiberize.Scheduling.{
  Scheduler, System, resume_at, resume, announce, priority_of, is_resumable, set_task,
  set_scheduler, finish_suspending, end_task, resume_if, suspend_task, in_task, looping,
}
use fiberize.Scheduling.Invariant.{
  IsCoherent, IsCounted, IsPlaced, Keeps, Others, Keeps-IsPlaced, Keeps-IsCounted, active-running,
  set_task-IsCounted, waiting, active,
}

-- Marking an idle task as scheduled while it goes to a queue.
resume_at-IsPlaced :
    {n : ℕ} (k i j : ℕ) (s : System)
    → k < n
    → (s.tasks i).scheduled ≡ false
    → is_resumable (s.tasks i).status ≡ true
    → IsCounted n j s
    → Others i j s
    → IsPlaced n j (resume_at k i s)
unfolding resume_at
resume_at-IsPlaced k i j s lt idle able counts others =
    Keeps-IsPlaced k i j (announce (priority_of t.status) i (s.schedulers k)) t' s lt counts
      (record { apart = ground arith; gone = ground arith; awaits = ground arith }) others
      (record { waits = unfold waiting in ground arith; runs = unfold active in ground arith })
  where
    t : Task
    t = s.tasks i

    t' : Task
    t' = record t { resumes = u64 (t.resumes + 1); scheduled = true }

resume_if-IsPlaced :
    {n : ℕ} (b : Bool) (k i j : ℕ) (s : System)
    → k < n
    → IsCounted n j s
    → Others i j s
    → (b ≡ true → ((s.tasks i).scheduled ≡ false) × (is_resumable (s.tasks i).status ≡ true))
    → (b ≡ false → IsCoherent (s.tasks i))
    → IsPlaced n j (resume_if b k i s)
resume_if-IsPlaced true k i j s lt counts others ready here =
    resume_at-IsPlaced k i j s lt (ready refl).0 (ready refl).1 counts others
resume_if-IsPlaced false k i j s lt counts others ready here = record {
  counts = counts;
  own = elim (Bool-cases (i == j)) [
    | inl e ↦ subst (λ (x : ℕ). IsCoherent (s.tasks x)) ((==_iff i j).0 e) (here refl)
    | inr e ↦ others e
  ];
}

pub resume-IsPlaced :
    {n : ℕ} (k i j : ℕ) (s : System)
    → k < n
    → ((i : ℕ) → IsPlaced n i s)
    → IsPlaced n j (resume k i s)
unfolding resume
resume-IsPlaced {n} k i j s lt placed =
    resume_if-IsPlaced (is_resumable t.status && not t.scheduled) k i j (set_task i t' s) lt
      (set_task-IsCounted i j t' s refl refl (placed j).counts) (λ e. rw e (placed j).own)
      (λ e. (ground arith, ground arith))
      (λ e. rw (==_refl i) (record {
        apart = (placed i).own.apart;
        gone = (placed i).own.gone;
        awaits = λ r idle. ground arith;
      }))
  where
    t : Task
    t = s.tasks i

    t' : Task
    t' = record t { resumes = u64 (t.resumes + 1) }

pub suspend_task-IsPlaced :
    {n : ℕ} (k i j : ℕ) (s : System)
    → k < n
    → (s.schedulers k).suspending_task ≡ some i
    → ((i : ℕ) → IsPlaced n i s)
    → IsPlaced n j (suspend_task k i s)
unfolding suspend_task
suspend_task-IsPlaced {n} k i j s lt held placed =
    resume_if-IsPlaced (not (t.resumes == t.resumes_expected)) k i j
      (set_task i t' (set_scheduler k c s)) lt
      (Keeps-IsCounted k i j c t' s lt (placed j).counts keeps) (λ e. rw e (placed j).own)
      (λ e. (ground arith, ground arith))
      (λ e.
        rw (==_refl i)
          (record { apart = ground arith; gone = ground arith; awaits = ground arith }))
  where
    t : Task
    t = s.tasks i

    t' : Task
    t' = record t { status = suspended; scheduled = false }

    c : Scheduler
    c = record (s.schedulers k) { suspending_task = none }

    runs : t.status ≡ running
    runs =
        active-running k i s lt (placed i).counts
          (unfold active in rw held (rw (==_refl i) (omega arith)))

    keeps : Keeps k i j c t' s
    keeps = record {
      waits = unfold waiting in ground (arith, (placed i).own.apart runs);
      runs = unfold active in ground (arith, runs);
    }

pub finish_suspending-IsPlaced :
    {n : ℕ} (k j : ℕ) (s : System)
    → k < n
    → ((i : ℕ) → IsPlaced n i s)
    → IsPlaced n j (finish_suspending k s)
unfolding finish_suspending
finish_suspending-IsPlaced {n} k j s lt placed = go (s.schedulers k).suspending_task refl
  where
    go :
        (o : Option ℕ)
        → (s.schedulers k).suspending_task ≡ o
        → IsPlaced n j (elim o [ none ↦ s | some i ↦ suspend_task k i s ])
    go none e = placed j
    go (some i) e = suspend_task-IsPlaced k i j s lt e placed

pub end_task-IsPlaced :
    {n : ℕ} (k i j : ℕ) (s : System)
    → k < n
    → (s.schedulers k).location ≡ in_task
    → (s.schedulers k).current_task ≡ some i
    → ((i : ℕ) → IsPlaced n i s)
    → IsPlaced n j (end_task k i s)
unfolding end_task
end_task-IsPlaced {n} k i j s lt there held placed = go t.stopped
  where
    t : Task
    t = s.tasks i

    c : Scheduler
    c = record (s.schedulers k) { current_task = none; location = looping }

    runs : t.status ≡ running
    runs =
        active-running k i s lt (placed i).counts
          (unfold active in rw (there, held) (rw (==_refl i) (omega arith)))

    idle : t.scheduled ≡ false
    idle = (placed i).own.apart runs

    stops :
        IsPlaced n j
          (set_task i (record t { status = dead; scheduled = false }) (set_scheduler k c s))
    stops =
        Keeps-IsPlaced k i j c (record t { status = dead; scheduled = false }) s lt
          (placed j).counts
          (record { apart = ground arith; gone = ground arith; awaits = ground arith })
          (λ e. (placed j).own)
          (record {
            waits = unfold waiting in ground (arith, idle);
            runs = unfold active in ground (arith, runs);
          })

    keeps : Keeps k i j c (record t { status = listening }) s
    keeps = record {
      waits = unfold waiting in ground (arith, idle);
      runs = unfold active in ground (arith, runs);
    }

    listens : IsPlaced n j (
        resume_if
          (not (t.resumes_expected == t.resumes))
          k
          i
          (set_task i (record t { status = listening }) (set_scheduler k c s)))
    listens =
        resume_if-IsPlaced (not (t.resumes_expected == t.resumes)) k i j
          (set_task i (record t { status = listening }) (set_scheduler k c s)) lt
          (Keeps-IsCounted k i j c (record t { status = listening }) s lt (placed j).counts keeps)
          (λ e. rw e (placed j).own) (λ e. (ground (arith, idle), ground arith))
          (λ e.
            rw (==_refl i)
              (record { apart = ground arith; gone = ground arith; awaits = ground arith }))

    go :
        (b : Bool)
        → IsPlaced n j (
            if b
            then set_task i (record t { status = dead; scheduled = false }) (set_scheduler k c s)
            else resume_if
                (not (t.resumes_expected == t.resumes))
                k
                i
                (set_task i (record t { status = listening }) (set_scheduler k c s)))
    go true = stops
    go false = listens
