-- ===== src/Scheduling/Clear.antt =====
-- When a scheduler of fiberize/src/fiberize/detail/multitaskscheduler.cpp suspends the task that it
-- left.
use fiberize.Base.{
  ℕ, ◌+◌, ◌≡◌, ◌≢◌, refl, inl, inr, Bool, true, false, Option, none, some, List, ◌==◌, ◌&&◌, u64,
  if◌then◌else◌, update, arith, Bool-cases, not,
}
use fiberize.Task.{Task, suspended, listening, dead}
use fiberize.Scheduling.{
  Priority, soft, hard, Scheduler, System, set_task, set_scheduler, in_task, looping, arriving,
  is_soft, resume, resume_at, resume_if, push, finish_suspending, suspend_task, announce,
  priority_of, is_resumable, begin_task, jump_to_task, with_queue, take, fetch, hand_over,
  owned_jump, end_task,
}

-- A scheduler that executes a task has suspended the one before it.
abbrev pub IsClear : Scheduler → Type 0
IsClear c = c.location ≡ in_task → c.suspending_task ≡ none

looping-in_task : looping ≢ in_task
looping-in_task e = absurd (ground arith)

arriving-in_task : arriving ≢ in_task
arriving-in_task e = absurd (ground arith)

-- A change of one scheduler that leaves it clear leaves the others so.
pub IsClear-update :
    (k : ℕ) (c : Scheduler) (f : ℕ → Scheduler)
    → IsClear c
    → ((m : ℕ) → IsClear (f m))
    → (m : ℕ) → IsClear (update f k c m)
IsClear-update k c f new old m = elim (Bool-cases (k == m)) [
  | inl e ↦ rw e new
  | inr e ↦ rw e (old m)
]

announce-IsClear : (p : Priority) (i : ℕ) (c : Scheduler) → IsClear c → IsClear (announce p i c)
announce-IsClear soft i c clear = clear
announce-IsClear hard i c clear = clear

pub push-IsClear :
    (p : Priority) (i : ℕ) (rest : List ℕ) (c : Scheduler) → IsClear c → IsClear (push p i rest c)
unfolding push
push-IsClear soft i rest c clear = clear
push-IsClear hard i rest c clear = clear

with_queue-IsClear :
    (p : Priority) (q : List ℕ) (c : Scheduler) → IsClear c → IsClear (with_queue p q c)
with_queue-IsClear soft q c clear = clear
with_queue-IsClear hard q c clear = clear

abbrev pub AllClear : System → Type 0
AllClear s = (k : ℕ) → IsClear (s.schedulers k)

pub resume_if-IsClear :
    (b : Bool) (k i : ℕ) (s : System) → AllClear s → AllClear (resume_if b k i s)
unfolding resume_at
resume_if-IsClear true k i s clear =
    IsClear-update k (announce (priority_of (s.tasks i).status) i (s.schedulers k)) s.schedulers
      (announce-IsClear (priority_of (s.tasks i).status) i (s.schedulers k) (clear k)) clear
resume_if-IsClear false k i s clear = clear

pub finish_suspending-IsClear : (k : ℕ) (s : System) → AllClear s → AllClear (finish_suspending k s)
unfolding finish_suspending suspend_task
finish_suspending-IsClear k s clear = go (s.schedulers k).suspending_task
  where
    go : (o : Option ℕ) → AllClear (elim o [ none ↦ s | some i ↦ suspend_task k i s ])
    go none = clear
    go (some i) =
        resume_if-IsClear (not ((s.tasks i).resumes == (s.tasks i).resumes_expected)) k i
          (set_task i (record (s.tasks i) { status = suspended; scheduled = false })
            (set_scheduler k c s))
          (IsClear-update k c s.schedulers (λ e. refl) clear)
      where
        c : Scheduler
        c = record (s.schedulers k) { suspending_task = none }

pub end_task-IsClear : (k i : ℕ) (s : System) → AllClear s → AllClear (end_task k i s)
unfolding end_task
end_task-IsClear k i s clear = go (s.tasks i).stopped
  where
    t : Task
    t = s.tasks i

    c : Scheduler
    c = record (s.schedulers k) { current_task = none; location = looping }

    left : AllClear (set_scheduler k c s)
    left = IsClear-update k c s.schedulers (λ e. absurd (looping-in_task e)) clear

    go :
        (b : Bool)
        → AllClear (
            if b
            then set_task i (record t { status = dead; scheduled = false }) (set_scheduler k c s)
            else resume_if
                (not (t.resumes_expected == t.resumes))
                k
                i
                (set_task i (record t { status = listening }) (set_scheduler k c s)))
    go true = left
    go false =
        resume_if-IsClear (not (t.resumes_expected == t.resumes)) k i
          (set_task i (record t { status = listening }) (set_scheduler k c s)) left

pub fetch-IsClear :
    (k m i : ℕ) (p : Priority) (q : List ℕ) (s : System) → AllClear s → AllClear (fetch k m p i q s)
unfolding fetch
fetch-IsClear k m i p q s clear = IsClear-update k (take i (removed k)) removed (between k) between
  where
    removed : ℕ → Scheduler
    removed = update s.schedulers m (with_queue p q (s.schedulers m))

    between : (j : ℕ) → IsClear (removed j)
    between =
        IsClear-update m (with_queue p q (s.schedulers m)) s.schedulers
          (with_queue-IsClear p q (s.schedulers m) (clear m)) clear

pub resume-IsClear : (k i : ℕ) (s : System) → AllClear s → AllClear (resume k i s)
unfolding resume
resume-IsClear k i s clear =
    resume_if-IsClear (is_resumable t.status && not t.scheduled) k i
      (set_task i (record t { resumes = u64 (t.resumes + 1) }) s) clear
  where
    t : Task
    t = s.tasks i

pub begin_task-IsClear :
    (k i : ℕ) (s : System)
    → (s.schedulers k).suspending_task ≡ none
    → AllClear s
    → AllClear (begin_task k i s)
unfolding begin_task
begin_task-IsClear k i s nothing clear =
    IsClear-update k (record (s.schedulers k) { location = in_task }) s.schedulers (λ e. nothing)
      clear

pub jump_to_task-IsClear : (k : ℕ) (s : System) → AllClear s → AllClear (jump_to_task k s)
unfolding jump_to_task
jump_to_task-IsClear k s clear =
    IsClear-update k (record (s.schedulers k) { location = arriving }) s.schedulers
      (λ e. absurd (arriving-in_task e)) clear

pub hand_over-IsClear : (k : ℕ) (s : System) → AllClear s → AllClear (hand_over k s)
unfolding hand_over
hand_over-IsClear k s clear =
    IsClear-update k
      (record (s.schedulers k) {
        suspending_task = (s.schedulers k).current_task;
        current_task = none;
        location = looping;
      })
      s.schedulers (λ e. absurd (looping-in_task e)) clear

pub owned_jump-IsClear : (k i : ℕ) (s : System) → AllClear s → AllClear (owned_jump k i s)
unfolding owned_jump
owned_jump-IsClear k i s clear = go (is_soft (s.tasks i).status)
  where
    c : Scheduler
    c = record (s.schedulers k) { location = arriving }

    go : (b : Bool) → AllClear (if b then s else set_scheduler k c s)
    go true = clear
    go false = IsClear-update k c s.schedulers (λ e. absurd (arriving-in_task e)) clear
