-- ===== src/Lifetime/Examples.antt =====
-- A task that is referred to once while its scheduler kills it, and outlives `kill`.
use fiberize.Base.{ℕ, ◌≤◌, ◌≡◌, refl, ◌⊎◌, inl, arith}
use fiberize.Task.{Task, listening, grab, drop}
use fiberize.Lifetime.{
  Life, Lives, fresh, then_does, grabs, drops, begins, ends, alive, killing, killed, kill_begin,
  kill_end,
}
use fiberize.Lifetime.Once.{Lives-deleted_once}
use fiberize.Samples.{raw_task}

abbrev kept_task : Task
kept_task = record raw_task { status = listening }

abbrev outlived : Life
outlived = record {
  task = (drop (kill_end (kill_begin (grab kept_task)).0).0).0;
  references = 0;
  stage = killed;
  deletions = 1;
}

Lives-outlived : Lives outlived
unfolding grab drop kill_begin kill_end
Lives-outlived =
    then_does
      (then_does
        (then_does (then_does (fresh kept_task refl refl) (grabs (inl refl) (omega arith)))
          (begins refl))
        (ends refl))
      (drops 0 refl)

Lives-deleted_once_example :
    (1 ≤ 1)
    × (1 ≤ 0 → ◌≡◌ {A = ℕ} 1 0)
    × ((killed ≡ alive) ⊎ (killed ≡ killing) → ◌≡◌ {A = ℕ} 1 0)
    × (killed ≡ killed → ◌≡◌ {A = ℕ} 0 0 → ◌≡◌ {A = ℕ} 1 1)
Lives-deleted_once_example = Lives-deleted_once outlived Lives-outlived
