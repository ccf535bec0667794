-- ===== src/Delivery/Suspending.antt =====
-- How `resume` of fiberize/src/fiberize/context.cpp and the end of a run in
-- fiberize/src/fiberize/detail/multitaskscheduler.cpp change a task.
use fiberize.Base.{
  ℕ, ◌+◌, ◌<◌, ◌≡◌, refl, subst, ◌⊎◌, inl, inr, Bool, true, false, Option, none, some, ◌==◌, ◌&&◌,
  not, u64, u64_max, update, if◌then◌else◌, arith, ==_refl,
}
use fiberize.Task.{Task, suspended, listening, dead}
use fiberize.Scheduling.{
  System, set_task, resume, resume_at, resume_if, is_resumable, finish_suspending, suspend_task,
  end_task, set_scheduler, looping,
}
use fiberize.Delivery.Evolution.{Evolves, Evolves-refl, Evolves-slower, Evolves-at, Evolves-trans}

resume_if-Evolves :
    (b : Bool) (k i j : ℕ) (s : System)
    → (s.tasks i).resumes + 1 < u64_max
    → Evolves 1 false (s.tasks j) ((resume_if b k i s).tasks j)
unfolding resume_at
resume_if-Evolves true k i j s small =
    Evolves-at false i j
      (record (s.tasks i) { resumes = u64 ((s.tasks i).resumes + 1); scheduled = true }) s.tasks
      (λ _. record {
        mail = refl;
        expects = refl;
        grows = omega (arith, small);
        slowly = omega (arith, small);
        halts = λ h. h;
        sleeps = λ a. inl a;
        starts = λ e f. absurd (ground (arith, f));
      })
resume_if-Evolves false k i j s small =
    Evolves-slower 1 false (s.tasks j) (s.tasks j) (omega arith) (Evolves-refl false (s.tasks j))

-- A change of a task alone, and then a resume of it under a condition.
changed_and_resumed :
    {c : ℕ} (settled b : Bool) (k i j : ℕ) (u : Task) (s t : System)
    → t.tasks ≡ update s.tasks i u
    → u.resumes + 1 < u64_max
    → (i ≡ j → Evolves c settled (s.tasks i) u)
    → Evolves (c + 1) settled (s.tasks j) ((resume_if b k i t).tasks j)
changed_and_resumed {c} settled b k i j u s t e small change =
    Evolves-trans settled (s.tasks j) (t.tasks j) ((resume_if b k i t).tasks j)
      (rw e (Evolves-at settled i j u s.tasks change))
      (resume_if-Evolves b k i j t (rw e (rw (==_refl i) small)))

pub resume-Evolves :
    (k i j : ℕ) (s : System)
    → (s.tasks i).resumes + 2 < u64_max
    → Evolves 2 false (s.tasks j) ((resume k i s).tasks j)
unfolding resume
resume-Evolves k i j s small =
    changed_and_resumed {c = 1} false (is_resumable t.status && not t.scheduled) k i j u s
      (set_task i u s) refl (omega (arith, small))
      (λ _. record {
        mail = refl;
        expects = refl;
        grows = omega (arith, small);
        slowly = omega (arith, small);
        halts = λ h. h;
        sleeps = λ a. inl a;
        starts = λ e f. (e, f);
      })
  where
    t : Task
    t = s.tasks i

    u : Task
    u = record t { resumes = u64 (t.resumes + 1) }

pub finish_suspending-Evolves :
    (settled : ℕ → Bool) (k j : ℕ) (s : System)
    → ((i : ℕ) → (s.tasks i).resumes + 2 < u64_max)
    → ((i : ℕ) → (s.schedulers k).suspending_task ≡ some i → settled i ≡ true)
    → Evolves 2 (settled j) (s.tasks j) ((finish_suspending k s).tasks j)
unfolding finish_suspending suspend_task
finish_suspending-Evolves settled k j s small ready = go (s.schedulers k).suspending_task refl
  where
    go :
        (o : Option ℕ)
        → (s.schedulers k).suspending_task ≡ o
        → Evolves 2
            (settled j)
            (s.tasks j)
            ((elim o as (λ _. System) [ none ↦ s | some i ↦ suspend_task k i s ]).tasks j)
    go none e =
        Evolves-slower 2 (settled j) (s.tasks j) (s.tasks j) (omega arith)
          (Evolves-refl (settled j) (s.tasks j))
    go (some i) e =
        changed_and_resumed {c = 1} (settled j)
          (not ((s.tasks i).resumes == (s.tasks i).resumes_expected)) k i j
          (record (s.tasks i) { status = suspended; scheduled = false }) s _ refl
          (omega (arith, small i))
          (λ same. record {
            mail = refl;
            expects = refl;
            grows = omega arith;
            slowly = omega arith;
            halts = λ h. h;
            sleeps = λ a. inr (inl (subst (λ (x : ℕ). settled x ≡ true) same (ready i e)));
            starts = λ d f. absurd (ground (arith, d));
          })

pub end_task-Evolves :
    (settled : ℕ → Bool) (k i j : ℕ) (s : System)
    → ((i : ℕ) → (s.tasks i).resumes + 2 < u64_max)
    → (settled i ≡ true) ⊎ ((s.tasks i).stopped ≡ true)
    → Evolves 2 (settled j) (s.tasks j) ((end_task k i s).tasks j)
unfolding end_task
end_task-Evolves settled k i j s small ready = go t.stopped refl
  where
    t : Task
    t = s.tasks i

    left : System
    left = set_scheduler k (record (s.schedulers k) { current_task = none; location = looping }) s

    go :
        (b : Bool)
        → t.stopped ≡ b
        → Evolves 2 (settled j) (s.tasks j) (
            (if b
                then set_task i (record t { status = dead; scheduled = false }) left
                else resume_if
                    (not (t.resumes_expected == t.resumes))
                    k
                    i
                    (set_task i (record t { status = listening }) left)).tasks
              j)
    go true e =
        Evolves-at (settled j) i j (record t { status = dead; scheduled = false }) s.tasks
          (λ _. record {
            mail = refl;
            expects = refl;
            grows = omega arith;
            slowly = omega arith;
            halts = λ h. h;
            sleeps = λ a. absurd (ground (arith, a));
            starts = λ d f. absurd (ground (arith, d));
          })
    go false e =
        changed_and_resumed {c = 1} (settled j) (not (t.resumes_expected == t.resumes)) k i j
          (record t { status = listening }) s _ refl (omega (arith, small i))
          (λ same. record {
            mail = refl;
            expects = refl;
            grows = omega arith;
            slowly = omega arith;
            halts = λ h. h;
            sleeps = λ a. elim ready [
              | inl r ↦ inr (inl (subst (λ (x : ℕ). settled x ≡ true) same r))
              | inr r ↦ inr (inr r)
            ];
            starts = λ d f. absurd (ground (arith, d));
          })
