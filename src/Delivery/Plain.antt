-- ===== src/Delivery/Plain.antt =====
-- How the other steps of fiberize/src/fiberize/detail/multitaskscheduler.cpp change a task.
use fiberize.Base.{
  ℕ, ◌+◌, ◌<◌, ◌≡◌, refl, sym, subst, inl, Bool, true, false, none, some, u64_max, update,
  if◌then◌else◌, arith, ◌∙◌,
}
use fiberize.Task.{Task, running}
use fiberize.Scheduling.{
  System, begin_task, jump_to_task, fetch, hand_over, owned_jump, is_soft, set_scheduler, arriving,
}
use fiberize.Scheduling.Steps.{
  Step, resumes, pushes, finishes, fetches, begins, jumps, arrives, switches, switches_to, ends,
  processes, yields, stops, pins, unpins, spawns,
}
use fiberize.Delivery.Steps.{is_plain}
use fiberize.Delivery.Evolution.{IsAsleep, Evolves, Evolves-refl, Evolves-slower, Evolves-at}
use fiberize.Delivery.Suspending.{resume-Evolves}

owned_jump-tasks : (k i : ℕ) (s : System) → (owned_jump k i s).tasks ≡ s.tasks
unfolding owned_jump
owned_jump-tasks k i s = go (is_soft (s.tasks i).status)
  where
    go :
        (b : Bool)
        → (if b
            then s
            else set_scheduler k (record (s.schedulers k) { location = arriving }) s).tasks
          ≡ s.tasks
    go true = refl
    go false = refl

same-Evolves : (t : Task) → Evolves 2 false t t
same-Evolves t = Evolves-slower 2 false t t (omega arith) (Evolves-refl false t)

begin_task-Evolves :
    (k i j : ℕ) (s : System) → Evolves 2 false (s.tasks j) ((begin_task k i s).tasks j)
unfolding begin_task
begin_task-Evolves k i j s =
    Evolves-at false i j (record (s.tasks i) { status = running; scheduled = false }) s.tasks
      (λ _. record {
        mail = refl;
        expects = refl;
        grows = omega arith;
        slowly = omega arith;
        halts = λ h. h;
        sleeps = λ a. absurd (ground (arith, a));
        starts = λ d f. absurd (ground (arith, d));
      })

-- A change of the pin, or the stop of a task.
steered :
    (i j : ℕ) (u : Task) (s : System)
    → u.mailbox ≡ (s.tasks i).mailbox
    → u.resumes_expected ≡ (s.tasks i).resumes_expected
    → u.resumes ≡ (s.tasks i).resumes
    → ((s.tasks i).stopped ≡ true → u.stopped ≡ true)
    → u.status ≡ (s.tasks i).status
    → u.scheduled ≡ (s.tasks i).scheduled
    → Evolves 2 false (s.tasks j) (update s.tasks i u j)
steered i j u s mail expects count halts status flag = Evolves-at false i j u s.tasks (λ _. record {
  mail = mail;
  expects = expects;
  grows = omega (arith, count);
  slowly = omega (arith, count);
  halts = halts;
  sleeps = λ a. inl (subst IsAsleep status a);
  starts = λ d f. (sym status ∙ d, sym flag ∙ f);
})

-- The steps that ask nothing of the code of a task.
pub Step-Evolves :
    {n : ℕ} (j : ℕ) {s t : System} (step : Step n s t)
    → is_plain step ≡ true
    → ((i : ℕ) → (s.tasks i).resumes + 2 < u64_max)
    → Evolves 2 false (s.tasks j) (t.tasks j)
unfolding fetch hand_over jump_to_task
Step-Evolves j {s} (resumes k i lt allowed) plain small = resume-Evolves k i j s (small i)
Step-Evolves j {s} (pushes k i p before after lt on) plain small = same-Evolves (s.tasks j)
Step-Evolves j {s} (finishes k lt) plain small = absurd (ground (arith, plain))
Step-Evolves j {s} (fetches k m i p q lt_k lt_m idle nothing found) plain small =
    same-Evolves (s.tasks j)
Step-Evolves j {s} (begins k i lt idle held fresh) plain small = begin_task-Evolves k i j s
Step-Evolves j {s} (jumps k i lt idle held old) plain small = same-Evolves (s.tasks j)
Step-Evolves j {s} (arrives k i lt there nothing held) plain small = begin_task-Evolves k i j s
Step-Evolves j {s} (switches k m lt executes) plain small = same-Evolves (s.tasks j)
Step-Evolves j {s} (switches_to k l m i p q lt_k lt_m executes found) plain small =
    rw (owned_jump-tasks k i (fetch k m p i q (hand_over k s))) (same-Evolves (s.tasks j))
Step-Evolves j {s} (ends k i lt executes) plain small = absurd (ground (arith, plain))
Step-Evolves j {s} (processes k i lt executes) plain small = absurd (ground (arith, plain))
Step-Evolves j {s} (yields k i lt executes) plain small = absurd (ground (arith, plain))
Step-Evolves j {s} (stops k i lt executes) plain small =
    steered i j (record (s.tasks i) { stopped = true }) s refl refl refl (λ h. refl) refl refl
Step-Evolves j {s} (pins k i lt executes free) plain small =
    steered i j (record (s.tasks i) { pin = some k }) s refl refl refl (λ h. h) refl refl
Step-Evolves j {s} (unpins k i lt executes) plain small =
    steered i j (record (s.tasks i) { pin = none }) s refl refl refl (λ h. h) refl refl
Step-Evolves j {s} (spawns i raw gone) plain small = absurd (ground (arith, plain))
