-- ===== src/Lifetime/Living.antt =====
-- The count of a task and the references to it, across the steps of
-- fiberize/src/fiberize/scheduler.cpp and fiberize/include/fiberize/detail/task.hpp.
use fiberize.Base.{
  ℕ, suc, ◌+◌, ◌^◌, ◌≤◌, ◌<◌, ◌≡◌, refl, ◌⊎◌, inl, inr, Bool, true, false, some, List, ◌==◌,
  if◌then◌else◌, u32, arith, Option-cases, ◌∙◌,
}
use fiberize.Mailbox.{clear}
use fiberize.Task.{Task, dead, grab, drop, status_eq}
use fiberize.Lifetime.{kill_begin, kill_release, kill_end, alive, killing, killed, Life, one_if}

-- The count is that of the references, and of `kill` while it runs; a task is deleted when `kill` is
-- done with it and the last reference is gone.
pub record IsLiving (s : Life) : Type 0 where
  pub small : suc (suc s.references) < 2 ^ 32
  pub counted_alive :
      s.stage ≡ alive → (s.task.ref_count ≡ s.references) × (status_eq s.task.status dead ≡ false)
  pub counted_killing :
      s.stage ≡ killing
      → (s.task.ref_count ≡ suc s.references) × (status_eq s.task.status dead ≡ true)
  pub counted_killed :
      s.stage ≡ killed
      → 1 ≤ s.references
      → (s.task.ref_count ≡ s.references) × (status_eq s.task.status dead ≡ true)
  pub deletions_before : (s.stage ≡ alive) ⊎ (s.stage ≡ killing) → s.deletions ≡ 0
  pub deletions_after : s.stage ≡ killed → s.deletions ≡ (if s.references == 0 then 1 else 0)

pub grab-IsLiving :
    (s : Life)
    → (s.stage ≡ alive) ⊎ (1 ≤ s.references)
    → suc (suc (suc s.references)) < 2 ^ 32
    → IsLiving s
    → IsLiving (record s { task = grab s.task; references = suc s.references })
unfolding grab
grab-IsLiving s may small living = record {
  small = small;
  counted_alive = λ e. (ground (arith, living.counted_alive e, small), (living.counted_alive e).1);
  counted_killing =
      λ e. (ground (arith, living.counted_killing e, small), (living.counted_killing e).1);
  counted_killed = λ e one. (
    ground (arith, living.counted_killed e (held e), small),
    (living.counted_killed e (held e)).1,
  );
  deletions_before = living.deletions_before;
  deletions_after = λ e. ground (arith, living.deletions_after e, held e);
}
  where
    held : s.stage ≡ killed → 1 ≤ s.references
    held e = elim may [ inl there ↦ absurd (ground (arith, e, there)) | inr one ↦ one ]

pub drop-IsLiving :
    (left : ℕ) (s : Life)
    → s.references ≡ suc left
    → IsLiving s
    → IsLiving (record s {
      task = (drop s.task).0;
      references = left;
      deletions = s.deletions + one_if (drop s.task).1;
    })
unfolding drop
drop-IsLiving left s held living = record {
  small = ground (arith, held, living.small);
  counted_alive =
      λ e. (ground (arith, living.counted_alive e, held, living.small), (living.counted_alive e).1);
  counted_killing = λ e.
      (ground (arith, living.counted_killing e, held, living.small), (living.counted_killing e).1);
  counted_killed = λ e one. (
    ground (arith, living.counted_killed e (omega (arith, held)), held, living.small),
    (living.counted_killed e (omega (arith, held))).1,
  );
  deletions_before = before;
  deletions_after = λ e. ground (
    arith,
    living.deletions_after e,
    living.counted_killed e (omega (arith, held)),
    held,
    living.small,
  );
}
  where
    before : (s.stage ≡ alive) ⊎ (s.stage ≡ killing) → s.deletions + one_if (drop s.task).1 ≡ 0
    before (inl e) = ground (arith, living.deletions_before (inl e), living.counted_alive e, held)
    before (inr e) =
        ground
          (arith, living.deletions_before (inr e), living.counted_killing e, held, living.small)

pub kill_begin-IsLiving :
    (s : Life)
    → s.stage ≡ alive
    → IsLiving s
    → IsLiving (record s {
      task = (kill_begin s.task).0;
      stage = if (kill_begin s.task).1 then killed else killing;
      deletions = s.deletions + one_if (kill_begin s.task).1;
    })
unfolding kill_begin
kill_begin-IsLiving s there living = go (s.task.ref_count == 0) refl
  where
    after : Bool → Task × Bool
    after b = if b then (s.task, true) else (
      record (s.task) { status = dead; scheduled = false; ref_count = u32 (s.task.ref_count + 1) },
      false,
    )

    count : s.task.ref_count ≡ s.references
    count = (living.counted_alive there).0

    none_yet : s.deletions ≡ 0
    none_yet = living.deletions_before (inl there)

    go :
        (b : Bool)
        → s.task.ref_count == 0 ≡ b
        → IsLiving (record s {
          task = (after b).0;
          stage = if (after b).1 then killed else killing;
          deletions = s.deletions + one_if (after b).1;
        })
    go true e = record {
      small = living.small;
      counted_alive = λ d. absurd (ground (arith, d));
      counted_killing = λ d. absurd (ground (arith, d));
      counted_killed = λ d one. absurd (ground (arith, e, count, one));
      deletions_before = λ d. absurd (ground (arith, d));
      deletions_after = λ d. ground (arith, e, count, none_yet);
    }
    go false e = record {
      small = living.small;
      counted_alive = λ d. absurd (ground (arith, d));
      counted_killing = λ d. (ground (arith, count, living.small), refl);
      counted_killed = λ d one. absurd (ground (arith, d));
      deletions_before = λ d. ground (arith, none_yet);
      deletions_after = λ d. absurd (ground (arith, d));
    }

kill_release-kept :
    (s t : Task) (freed : List ℕ)
    → kill_release s ≡ some (t, freed)
    → (t.ref_count ≡ s.ref_count) × (t.status ≡ s.status)
unfolding kill_release
kill_release-kept s t freed e = elim (Option-cases (clear s.mailbox)) [
  | inl nothing ↦ absurd (ground (arith, nothing, e))
  | inr (r, there) ↦ (ground (arith, there, e), ground (arith, there, e))
]

pub kill_release-IsLiving :
    (t : Task) (freed : List ℕ) (s : Life)
    → s.stage ≡ killing
    → kill_release s.task ≡ some (t, freed)
    → IsLiving s
    → IsLiving (record s { task = t })
kill_release-IsLiving t freed s there done living = record {
  small = living.small;
  counted_alive = λ e. absurd (ground (arith, e, there));
  counted_killing =
      λ e. (kept.0 ∙ (living.counted_killing e).0, rw kept.1 (living.counted_killing e).1);
  counted_killed = λ e one. absurd (ground (arith, e, there));
  deletions_before = living.deletions_before;
  deletions_after = living.deletions_after;
}
  where
    kept : (t.ref_count ≡ s.task.ref_count) × (t.status ≡ s.task.status)
    kept = kill_release-kept s.task t freed done

pub kill_end-IsLiving :
    (s : Life)
    → s.stage ≡ killing
    → IsLiving s
    → IsLiving (record s {
      task = (kill_end s.task).0;
      stage = killed;
      deletions = s.deletions + one_if (kill_end s.task).1;
    })
unfolding kill_end
kill_end-IsLiving s there living = record {
  small = living.small;
  counted_alive = λ e. absurd (ground (arith, e));
  counted_killing = λ e. absurd (ground (arith, e));
  counted_killed = λ e one. (
    ground (arith, living.counted_killing there, living.small),
    (living.counted_killing there).1,
  );
  deletions_before = λ e. absurd (ground (arith, e));
  deletions_after = λ e.
      ground
        (arith, living.counted_killing there, living.deletions_before (inr there), living.small);
}
