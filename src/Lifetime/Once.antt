-- ===== src/Lifetime/Once.antt =====
-- When a task is deleted: in `kill` of fiberize/src/fiberize/scheduler.cpp, or at the drop of the last
-- reference.
use fiberize.Base.{◌≤◌, ◌≡◌, refl, ◌⊎◌, inl, inr, arith}
use fiberize.Lifetime.{
  Stage, alive, killing, killed, Life, grabs, drops, begins, releases, ends, Lives, fresh,
  then_does,
}
use fiberize.Lifetime.Living.{
  grab-IsLiving, drop-IsLiving, kill_begin-IsLiving, kill_release-IsLiving, kill_end-IsLiving,
  IsLiving,
}

Lives-IsLiving : {s : Life} → Lives s → IsLiving s
Lives-IsLiving (fresh t none_held undead) = record {
  small = omega arith;
  counted_alive = λ e. (none_held, undead);
  counted_killing = λ e. absurd (ground (arith, e));
  counted_killed = λ e one. absurd (ground (arith, e));
  deletions_before = λ e. refl;
  deletions_after = λ e. absurd (ground (arith, e));
}
Lives-IsLiving (then_does {s} lives (grabs may small)) =
    grab-IsLiving s may small (Lives-IsLiving lives)
Lives-IsLiving (then_does {s} lives (drops left held)) =
    drop-IsLiving left s held (Lives-IsLiving lives)
Lives-IsLiving (then_does {s} lives (begins there)) =
    kill_begin-IsLiving s there (Lives-IsLiving lives)
Lives-IsLiving (then_does {s} lives (releases t freed there done)) =
    kill_release-IsLiving t freed s there done (Lives-IsLiving lives)
Lives-IsLiving (then_does {s} lives (ends there)) = kill_end-IsLiving s there (Lives-IsLiving lives)

-- In whatever order references are taken and dropped while the scheduler kills the task: the task is
-- deleted at most once, never while a reference to it is held or before `kill` is done, and once the
-- two are over it has been deleted.
pub Lives-deleted_once :
    (s : Life)
    → Lives s
    → (s.deletions ≤ 1)
      × (1 ≤ s.references → s.deletions ≡ 0)
      × ((s.stage ≡ alive) ⊎ (s.stage ≡ killing) → s.deletions ≡ 0)
      × (s.stage ≡ killed → s.references ≡ 0 → s.deletions ≡ 1)
Lives-deleted_once s lives = (
  ground (arith, counted),
  λ one. ground (arith, counted, one),
  living.deletions_before,
  λ e gone. ground (arith, living.deletions_after e, gone),
)
  where
    living : IsLiving s
    living = Lives-IsLiving lives

    counted : (s.deletions ≡ 0) ⊎ ((s.deletions ≡ 1) × (s.references ≡ 0))
    counted = stages s.stage refl
      where
        stages :
            (p : Stage) → s.stage ≡ p → (s.deletions ≡ 0) ⊎ ((s.deletions ≡ 1) × (s.references ≡ 0))
        stages alive e = inl (living.deletions_before (inl e))
        stages killing e = inl (living.deletions_before (inr e))
        stages killed e = ground (arith, living.deletions_after e)
