-- ===== src/Scheduling/Home.antt =====
-- The scheduler that a pinned task belongs to, across the single changes that the steps of
-- fiberize/src/fiberize/detail/multitaskscheduler.cpp are made of.
use fiberize.Base.{
  ℕ, ◌+◌, ◌≤◌, ◌<◌, ◌≡◌, refl, ◌⊎◌, inl, inr, Bool, true, false, not, ◌&&◌, Option, none, some,
  List, ◌∷◌, ◌++◌, ◌==◌, if◌then◌else◌, count-append, u64, arith, Bool-cases, ==_iff, ==_refl,
  subst, sym,
}
use fiberize.Task.{Task, suspended, listening, dead}
use fiberize.Scheduling.{
  Priority, soft, hard, looping, in_task, Scheduler, System, set_task, set_scheduler, announce,
  priority_of, resume_at, resume_if, resume, is_resumable, push, suspend_task, finish_suspending,
  end_task,
}
use fiberize.Scheduling.Steps.{Allows, pushing}
use fiberize.Scheduling.Invariant.{waiting, active}

-- How often a task occurs in a scheduler.
abbrev pub presence : ℕ → Scheduler → ℕ
presence i c = waiting i c + active i c

-- Where a task occurs, its pin allows it.
abbrev pub IsHome : ℕ → System → Type 0
IsHome n s = (k i : ℕ) → k < n → 1 ≤ presence i (s.schedulers k) → Allows k (s.tasks i)

-- The tasks of a scheduler were there before, but for one that may be there.
abbrev pub Gains : ℕ → ℕ → Scheduler → System → Type 0
Gains k i c s =
    (j : ℕ)
    → 1 ≤ presence j c
    → (1 ≤ presence j (s.schedulers k)) ⊎ ((i ≡ j) × Allows k (s.tasks j))

pub set_scheduler-IsHome :
    {n : ℕ} (k i : ℕ) (c : Scheduler) (s : System)
    → IsHome n s
    → Gains k i c s
    → IsHome n (set_scheduler k c s)
set_scheduler-IsHome {n} k i c s home gains m j lt there = elim (Bool-cases (k == m)) [
  | inl e ↦
      subst (λ (x : ℕ). Allows x (s.tasks j)) ((==_iff k m).0 e)
        (elim (gains j (ground (arith, there, e))) [
          | inl old ↦ home k j (subst (λ (x : ℕ). x < n) (sym ((==_iff k m).0 e)) lt) old
          | inr new ↦ new.1
        ])
  | inr e ↦ home m j lt (ground (arith, there, e))
]

-- A task changes, and keeps its pin.
pub set_task-IsHome :
    {n : ℕ} (i : ℕ) (t : Task) (s : System)
    → t.pin ≡ (s.tasks i).pin
    → IsHome n s
    → IsHome n (set_task i t s)
set_task-IsHome i t s same home k j lt there = elim (Bool-cases (i == j)) [
  | inl e ↦
      rw (e, same)
        (subst (λ (x : ℕ). Allows k (s.tasks x)) (sym ((==_iff i j).0 e)) (home k j lt there))
  | inr e ↦ rw e (home k j lt there)
]

announce-Gains :
    (k i : ℕ) (p : Priority) (s : System)
    → Allows k (s.tasks i)
    → Gains k i (announce p i (s.schedulers k)) s
announce-Gains k i p s allowed j there = elim (Bool-cases (i == j)) [
  | inl e ↦
      inr ((==_iff i j).0 e, subst (λ (x : ℕ). Allows k (s.tasks x)) ((==_iff i j).0 e) allowed)
  | inr e ↦ inl (announced p e there)
]
  where
    announced :
        (p : Priority)
        → i == j ≡ false
        → 1 ≤ presence j (announce p i (s.schedulers k))
        → 1 ≤ presence j (s.schedulers k)
    announced soft e there = unfold waiting in unfold active in ground (arith, there, e)
    announced hard e there = unfold waiting in unfold active in ground (arith, there, e)

-- A scheduler that holds no task more often than before.
pub keep_scheduler-IsHome :
    {n : ℕ} (k : ℕ) (c : Scheduler) (s : System)
    → IsHome n s
    → ((j : ℕ) → presence j c ≤ presence j (s.schedulers k))
    → IsHome n (set_scheduler k c s)
keep_scheduler-IsHome k c s home less =
    set_scheduler-IsHome k 0 c s home (λ j there. inl (omega (arith, there, less j)))

pub resume_if-IsHome :
    {n : ℕ} (b : Bool) (k i : ℕ) (s : System)
    → Allows k (s.tasks i)
    → IsHome n s
    → IsHome n (resume_if b k i s)
unfolding resume_at
resume_if-IsHome true k i s allowed home =
    set_task-IsHome i (record t { resumes = u64 (t.resumes + 1); scheduled = true })
      (set_scheduler k (announce (priority_of t.status) i (s.schedulers k)) s) refl
      (set_scheduler-IsHome k i (announce (priority_of t.status) i (s.schedulers k)) s home
        (announce-Gains k i (priority_of t.status) s allowed))
  where
    t : Task
    t = s.tasks i
resume_if-IsHome false k i s allowed home = home

pub resume-IsHome :
    {n : ℕ} (k i : ℕ) (s : System) → Allows k (s.tasks i) → IsHome n s → IsHome n (resume k i s)
unfolding resume
resume-IsHome k i s allowed home =
    resume_if-IsHome (is_resumable t.status && not t.scheduled) k i (set_task i t' s)
      (rw (==_refl i) allowed) (set_task-IsHome i t' s refl home)
  where
    t : Task
    t = s.tasks i

    t' : Task
    t' = record t { resumes = u64 (t.resumes + 1) }

pub push-IsHome :
    {n : ℕ} (k i : ℕ) (p : Priority) (before after : List ℕ) (s : System)
    → pushing p (s.schedulers k) ≡ before ++ i ∷ after
    → IsHome n s
    → IsHome n (set_scheduler k (push p i (before ++ after) (s.schedulers k)) s)
unfolding push
push-IsHome k i p before after s on home =
    keep_scheduler-IsHome k (push p i (before ++ after) (s.schedulers k)) s home (pushed p on)
  where
    pushed :
        (p : Priority)
        → pushing p (s.schedulers k) ≡ before ++ i ∷ after
        → (j : ℕ)
        → presence j (push p i (before ++ after) (s.schedulers k)) ≤ presence j (s.schedulers k)
    pushed soft on j =
        unfold waiting in
        unfold active in
        rw (on, count-append j before after, count-append j before (i ∷ after)) (ground arith)
    pushed hard on j =
        unfold waiting in
        unfold active in
        rw (on, count-append j before after, count-append j before (i ∷ after)) (ground arith)

pub suspend_task-IsHome :
    {n : ℕ} (k i : ℕ) (s : System)
    → k < n
    → (s.schedulers k).suspending_task ≡ some i
    → IsHome n s
    → IsHome n (suspend_task k i s)
unfolding suspend_task
suspend_task-IsHome k i s lt held home =
    resume_if-IsHome (not (t.resumes == t.resumes_expected)) k i
      (set_task i t' (set_scheduler k c s))
      (rw (==_refl i)
        (home k i lt (unfold waiting in unfold active in rw held (rw (==_refl i) (omega arith)))))
      (set_task-IsHome i t' (set_scheduler k c s) refl
        (keep_scheduler-IsHome k c s home (λ j. unfold waiting in unfold active in omega arith)))
  where
    t : Task
    t = s.tasks i

    t' : Task
    t' = record t { status = suspended; scheduled = false }

    c : Scheduler
    c = record (s.schedulers k) { suspending_task = none }

pub finish_suspending-IsHome :
    {n : ℕ} (k : ℕ) (s : System) → k < n → IsHome n s → IsHome n (finish_suspending k s)
unfolding finish_suspending
finish_suspending-IsHome {n} k s lt home = go (s.schedulers k).suspending_task refl
  where
    go :
        (o : Option ℕ)
        → (s.schedulers k).suspending_task ≡ o
        → IsHome n (elim o [ none ↦ s | some i ↦ suspend_task k i s ])
    go none e = home
    go (some i) e = suspend_task-IsHome k i s lt e home

pub end_task-IsHome :
    {n : ℕ} (k i : ℕ) (s : System)
    → k < n
    → (s.schedulers k).location ≡ in_task
    → (s.schedulers k).current_task ≡ some i
    → IsHome n s
    → IsHome n (end_task k i s)
unfolding end_task
end_task-IsHome {n} k i s lt there held home = go t.stopped
  where
    t : Task
    t = s.tasks i

    c : Scheduler
    c = record (s.schedulers k) { current_task = none; location = looping }

    left : IsHome n (set_scheduler k c s)
    left =
        keep_scheduler-IsHome k c s home
          (λ j. unfold waiting in unfold active in rw (there, held) (omega arith))

    allowed : Allows k t
    allowed =
        home k i lt
          (unfold waiting in unfold active in rw (there, held) (rw (==_refl i) (omega arith)))

    go :
        (b : Bool)
        → IsHome n (
            if b
            then set_task i (record t { status = dead; scheduled = false }) (set_scheduler k c s)
            else resume_if
                (not (t.resumes_expected == t.resumes))
                k
                i
                (set_task i (record t { status = listening }) (set_scheduler k c s)))
    go true =
        set_task-IsHome i (record t { status = dead; scheduled = false }) (set_scheduler k c s) refl
          left
    go false =
        resume_if-IsHome (not (t.resumes_expected == t.resumes)) k i
          (set_task i (record t { status = listening }) (set_scheduler k c s))
          (rw (==_refl i) allowed)
          (set_task-IsHome i (record t { status = listening }) (set_scheduler k c s) refl left)
