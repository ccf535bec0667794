-- ===== src/Scheduling/Steps.antt =====
-- The interleavings of fiberize/src/fiberize/detail/multitaskscheduler.cpp: `n` schedulers, and
-- threads outside them that resume tasks, one critical section at a time.
use fiberize.Base.{ℕ, ◌<◌, ◌≡◌, ◌⊎◌, true, false, none, some, List, [], ◌∷◌, ◌++◌, u64_max}
use fiberize.Task.{Task, suspended, dead, construct}
use fiberize.Scheduling.{
  Priority, soft, hard, Scheduler, looping, arriving, in_task, System, set_task, set_scheduler,
  is_soft, resume, push, finish_suspending, begin_task, jump_to_task, queue, fetch, hand_over,
  owned_jump, end_task,
}

-- Scheduler `k` finds the task `i`: at the front of a queue of its own, or at the back of a queue of
-- `m`, and there only if the task is not pinned.
abbrev pub Takes : ℕ → ℕ → Priority → ℕ → List ℕ → System → Type 0
Takes k m p i q s =
    ((k ≡ m) × (queue p (s.schedulers m) ≡ i ∷ q))
    ⊎ ((queue p (s.schedulers m) ≡ q ++ i ∷ []) × ((s.tasks i).pin ≡ none))

abbrev pub pushing : Priority → Scheduler → List ℕ
pushing soft c = c.pushing_soft
pushing hard c = c.pushing_hard

-- A pinned task goes to the scheduler that it is pinned to.
abbrev pub Allows : ℕ → Task → Type 0
Allows k t = (t.pin ≡ none) ⊎ (t.pin ≡ some k)

-- Scheduler `k` executes the task `i`.
abbrev pub Executes : ℕ → ℕ → System → Type 0
Executes k i s = ((s.schedulers k).location ≡ in_task) × ((s.schedulers k).current_task ≡ some i)

-- Scheduler `k` is in the code behind a jump, with no task left to suspend.
abbrev pub IsIdleAt : ℕ → System → Type 0
IsIdleAt k s = ((s.schedulers k).location ≡ looping) × ((s.schedulers k).suspending_task ≡ none)

pub data Step (n : ℕ) (s : System) : System → Type 0 where
  resumes : (k i : ℕ) → k < n → Allows k (s.tasks i) → Step n s (resume k i s)
  pushes :
      (k i : ℕ) (p : Priority) (before after : List ℕ)
      → k < n
      → pushing p (s.schedulers k) ≡ before ++ i ∷ after
      → Step n s (set_scheduler k (push p i (before ++ after) (s.schedulers k)) s)
  finishes : (k : ℕ) → k < n → Step n s (finish_suspending k s)
  fetches :
      (k m i : ℕ) (p : Priority) (q : List ℕ)
      → k < n
      → m < n
      → IsIdleAt k s
      → (s.schedulers k).current_task ≡ none
      → Takes k m p i q s
      → Step n s (fetch k m p i q s)
  begins :
      (k i : ℕ)
      → k < n
      → IsIdleAt k s
      → (s.schedulers k).current_task ≡ some i
      → is_soft (s.tasks i).status ≡ true
      → Step n s (begin_task k i s)
  jumps :
      (k i : ℕ)
      → k < n
      → IsIdleAt k s
      → (s.schedulers k).current_task ≡ some i
      → (s.tasks i).status ≡ suspended
      → Step n s (jump_to_task k s)
  arrives :
      (k i : ℕ)
      → k < n
      → (s.schedulers k).location ≡ arriving
      → (s.schedulers k).suspending_task ≡ none
      → (s.schedulers k).current_task ≡ some i
      → Step n s (begin_task k i s)
  switches : (k j : ℕ) → k < n → Executes k j s → Step n s (hand_over k s)
  switches_to :
      (k j m i : ℕ) (p : Priority) (q : List ℕ)
      → k < n
      → m < n
      → Executes k j s
      → Takes k m p i q (hand_over k s)
      → Step n s (owned_jump k i (fetch k m p i q (hand_over k s)))
  ends : (k i : ℕ) → k < n → Executes k i s → Step n s (end_task k i s)
  -- What the code of the running task does to it: `process`, `yield`, `stop` and a `ScopedPin`.
  processes :
      (k i : ℕ)
      → k < n
      → Executes k i s
      → Step n s (set_task i (record (s.tasks i) { resumes_expected = (s.tasks i).resumes }) s)
  yields :
      (k i : ℕ)
      → k < n
      → Executes k i s
      → Step n s (set_task i (record (s.tasks i) { resumes_expected = u64_max }) s)
  stops :
      (k i : ℕ)
      → k < n
      → Executes k i s
      → Step n s (set_task i (record (s.tasks i) { stopped = true }) s)
  pins :
      (k i : ℕ)
      → k < n
      → Executes k i s
      → (s.tasks i).pin ≡ none
      → Step n s (set_task i (record (s.tasks i) { pin = some k }) s)
  unpins :
      (k i : ℕ)
      → k < n
      → Executes k i s
      → Step n s (set_task i (record (s.tasks i) { pin = none }) s)
  -- A new task, in memory that no live task uses.
  spawns :
      (i : ℕ) (raw : Task) → (s.tasks i).status ≡ dead → Step n s (set_task i (construct raw) s)

-- Schedulers with nothing to do, and no live task.
pub record IsInitial (s : System) : Type 0 where
  pub no_task : (i : ℕ) → ((s.tasks i).status ≡ dead) × ((s.tasks i).scheduled ≡ false)
  pub no_work :
      (k : ℕ)
      → s.schedulers k ≡ record {
        soft_tasks = [];
        hard_tasks = [];
        pushing_soft = [];
        pushing_hard = [];
        location = looping;
        suspending_task = none;
        current_task = none;
      }

pub data Reach (n : ℕ) : System → Type 0 where
  start : {s : System} → IsInitial s → Reach n s
  later : {s t : System} → Reach n s → Step n s t → Reach n t
