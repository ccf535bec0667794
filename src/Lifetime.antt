-- ===== src/Lifetime.antt =====
-- `Scheduler::kill` of fiberize/src/fiberize/scheduler.cpp against `Task::grab` and `Task::drop`: when
-- a task is deleted. Each function is one critical section of the spinlock of the task, or the stretch
-- between.
pub mod Living
pub mod Once
mod Examples
use fiberize.Base.{
  ℕ, zero, suc, ◌+◌, ◌-◌, ◌^◌, ◌≤◌, ◌<◌, ◌≡◌, refl, ◌⊎◌, inl, inr, Bool, true, false, Option, none,
  some, List, [], ◌∷◌, ◌==◌, if◌then◌else◌, u32, arith, Bool-cases, Option-cases, ◌∙◌,
}
use fiberize.Mailbox.{clear}
use fiberize.Task.{Task, TaskStatus, dead, grab, drop, status_eq}

-- `kill` up to the unlock: the task, and whether it was deleted at once.
pub kill_begin : Task → Task × Bool
kill_begin t =
    if t.ref_count == 0
    then (t, true)
    else (record t { status = dead; scheduled = false; ref_count = u32 (t.ref_count + 1) }, false)

-- `runnable.reset(); mailbox->clear(); handlers.clear();` with the payloads that it frees.
pub kill_release : Task → Option (Task × List ℕ)
kill_release t = elim (clear t.mailbox) [
  | none ↦ none
  | some (mailbox, freed) ↦
      some (record t { runnable = none; mailbox = mailbox; handlers = [] }, freed)
]

-- The rest of `kill`.
pub kill_end : Task → Task × Bool
kill_end t =
    let count = u32 (t.ref_count + 2 ^ 32 - 1) in (record t { ref_count = count }, count == 0)

pub data Stage : Type 0 where
  alive killing killed : Stage

-- A task, the references to it that others hold, how far its scheduler has got with killing it, and
-- how often it was deleted.
pub record Life : Type 0 where
  pub task : Task
  pub references : ℕ
  pub stage : Stage
  pub deletions : ℕ

abbrev pub one_if : Bool → ℕ
one_if true = 1
one_if false = 0

-- Whoever grabs the task runs in it, or holds a reference. Each reference is dropped once, and the
-- scheduler kills the task once. There are fewer references than the count can tell.
pub data LifeStep (s : Life) : Life → Type 0 where
  grabs :
      (s.stage ≡ alive) ⊎ (1 ≤ s.references)
      → suc (suc (suc s.references)) < 2 ^ 32
      → LifeStep s (record s { task = grab s.task; references = suc s.references })
  drops :
      (left : ℕ)
      → s.references ≡ suc left
      → LifeStep s (record s {
        task = (drop s.task).0;
        references = left;
        deletions = s.deletions + one_if (drop s.task).1;
      })
  begins :
      s.stage ≡ alive
      → LifeStep s (record s {
        task = (kill_begin s.task).0;
        stage = if (kill_begin s.task).1 then killed else killing;
        deletions = s.deletions + one_if (kill_begin s.task).1;
      })
  releases :
      (t : Task) (freed : List ℕ)
      → s.stage ≡ killing
      → kill_release s.task ≡ some (t, freed)
      → LifeStep s (record s { task = t })
  ends :
      s.stage ≡ killing
      → LifeStep s (record s {
        task = (kill_end s.task).0;
        stage = killed;
        deletions = s.deletions + one_if (kill_end s.task).1;
      })

pub data Lives : Life → Type 0 where
  fresh :
      (t : Task)
      → t.ref_count ≡ 0
      → status_eq t.status dead ≡ false
      → Lives (record { task = t; references = 0; stage = alive; deletions = 0 })
  then_does : {s t : Life} → Lives s → LifeStep s t → Lives t
