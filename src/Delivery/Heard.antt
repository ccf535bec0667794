-- ===== src/Delivery/Heard.antt =====
-- The events that fiberize/src/fiberize/detail/localfiberref.cpp puts into the mailbox of a sleeping
-- task, and whether the task is scheduled.
use fiberize.Base.{
  ℕ, suc, ◌+◌, ◌≤◌, ◌<◌, ◌≡◌, ◌≢◌, refl, subst, ap, ◌⊎◌, inl, inr, Bool, true, false, [], ◌==◌,
  ◌&&◌, not, u64, u64_max, update, arith, Bool-cases, ==_iff, ==_refl, ◌∙◌,
}
use fiberize.Mailbox.{PendingEvent, enqueue, events}
use fiberize.Task.{Task, starting}
use fiberize.Scheduling.{System, set_task, resume, resume_at, resume_if, is_resumable}
use fiberize.Scheduling.Steps.{Executes}
use fiberize.Scheduling.Invariant.{IsPlaced, set_task-IsPlaced}
use fiberize.Scheduling.Resuming.{resume-IsPlaced}
use fiberize.Scheduling.Clear.{resume-IsClear}
use fiberize.Scheduling.Running.{run_task-IsPlaced}
use fiberize.Scheduling.Reachable.{IsSound}
use fiberize.Delivery.{send_local}
use fiberize.Delivery.Steps.{Post, IsSmall}
use fiberize.Delivery.Evolution.{IsAsleep, Evolves, Evolves-quieter}
use fiberize.Delivery.Suspending.{resume-Evolves}

-- A task that has settled once was resumed since if it has pending events, unless it is stopped; a task
-- that sleeps has settled; a new task that was not resumed has no events.
pub record IsHeard (settled : Bool) (t : Task) : Type 0 where
  pub known : settled ≡ true → (t.resumes_expected ≤ t.resumes) ⊎ (t.resumes_expected ≡ u64_max)
  pub told :
      settled ≡ true
      → (events t.mailbox ≡ []) ⊎ (t.resumes_expected ≢ t.resumes) ⊎ (t.stopped ≡ true)
  pub slept : IsAsleep t.status → (settled ≡ true) ⊎ (t.stopped ≡ true)
  pub unheard : t.status ≡ starting → t.scheduled ≡ false → events t.mailbox ≡ []

-- Both hold if no event was added.
Evolves-known :
    {c : ℕ} (settled b : Bool) (t u : Task)
    → IsHeard settled t
    → Evolves c b t u
    → settled ≡ true
    → (u.resumes_expected ≤ u.resumes) ⊎ (u.resumes_expected ≡ u64_max)
Evolves-known settled b t u heard change on = elim (heard.known on) [
  | inl le ↦ inl (omega (arith, le, change.grows, change.expects))
  | inr top ↦ inr (change.expects ∙ top)
]

pub Evolves-IsHeard :
    (settled : Bool) (t u : Task)
    → IsHeard settled t
    → t.resumes + 2 < u64_max
    → Evolves 2 settled t u
    → IsHeard settled u
Evolves-IsHeard settled t u heard small change = record {
  known = λ on. Evolves-known settled settled t u heard change on;
  told = λ on. elim (heard.told on) [
    | inl nil ↦ inl (ap events change.mail ∙ nil)
    | inr (inl apart) ↦ inr (
        inl (λ e. elim (heard.known on) [
          | inl le ↦ apart (omega (arith, le, e, change.grows, change.expects))
          | inr top ↦ absurd (omega (arith, top, e, change.slowly, change.expects, small))
        ]))
    | inr (inr halted) ↦ inr (inr (change.halts halted))
  ];
  slept = λ a. elim (change.sleeps a) [
    | inl b ↦ elim (heard.slept b) [ inl on ↦ inl on | inr h ↦ inr (change.halts h) ]
    | inr (inl on) ↦ inl on
    | inr (inr h) ↦ inr h
  ];
  unheard = λ e f. let (a, b) = change.starts e f in ap events change.mail ∙ heard.unheard a b;
}

resume_if-raised :
    (b : Bool) (k i : ℕ) (t : Task) (s : System)
    → s.tasks i ≡ t
    → t.resumes + 1 < u64_max
    → (t.resumes ≤ ((resume_if b k i s).tasks i).resumes)
      × (b ≡ true → ((resume_if b k i s).tasks i).scheduled ≡ true)
      × (b ≡ false → (resume_if b k i s).tasks i ≡ t)
unfolding resume_at
resume_if-raised true k i t s e small = (
  rw (==_refl i) (rw e (omega (arith, small))),
  λ _. rw (==_refl i) refl,
  λ d. absurd (ground (arith, d)),
)
resume_if-raised false k i t s e small =
    (rw e (omega arith), λ d. absurd (ground (arith, d)), λ _. e)

-- A resumed task has one more resume, and is scheduled if it is new.
resume-raised :
    (k i : ℕ) (s : System)
    → (s.tasks i).resumes + 2 < u64_max
    → (suc (s.tasks i).resumes ≤ ((resume k i s).tasks i).resumes)
      × ((s.tasks i).status ≡ starting → ((resume k i s).tasks i).scheduled ≡ true)
unfolding resume
resume-raised k i s small = (
  omega (arith, raised.0, small),
  λ e. elim (Bool-cases (s.tasks i).scheduled) [
    | inl f ↦ ap (λ (t : Task). t.scheduled) (raised.2 (ground (arith, e, f))) ∙ f
    | inr f ↦ raised.1 (ground (arith, e, f))
  ],
)
  where
    t : Task
    t = s.tasks i

    u : Task
    u = record t { resumes = u64 (t.resumes + 1) }

    b : Bool
    b = is_resumable t.status && not t.scheduled

    raised :
        (u.resumes ≤ ((resume_if b k i (set_task i u s)).tasks i).resumes)
        × (b ≡ true → ((resume_if b k i (set_task i u s)).tasks i).scheduled ≡ true)
        × (b ≡ false → (resume_if b k i (set_task i u s)).tasks i ≡ u)
    raised = resume_if-raised b k i u (set_task i u s) (rw (==_refl i) refl) (omega (arith, small))

-- The receiver of an event and the other tasks.
pub send_local-IsHeard :
    (settled : ℕ → Bool) (k i j : ℕ) (event : PendingEvent) (s : System)
    → ((i : ℕ) → IsHeard (settled i) (s.tasks i))
    → IsSmall s
    → IsHeard (settled j) ((send_local k i event s).tasks j)
unfolding send_local
send_local-IsHeard settled k i j event s heard small = elim (Bool-cases (i == j)) [
  | inl e ↦
      subst (λ (x : ℕ). IsHeard (settled x) ((resume k i given).tasks x)) ((==_iff i j).0 e)
        receiver
  | inr e ↦
      Evolves-IsHeard (settled j) (s.tasks j) ((resume k i given).tasks j) (heard j) (small j) (
        Evolves-quieter (settled j) (
          subst (λ (t : Task). Evolves 2 false t ((resume k i given).tasks j)) (rw e refl)
            (resume-Evolves k i j given (rw (==_refl i) (small i)))))
]
  where
    t : Task
    t = s.tasks i

    u : Task
    u = record t { mailbox = enqueue t.mailbox event }

    given : System
    given = set_task i u s

    change : Evolves 2 false u ((resume k i given).tasks i)
    change =
        subst (λ (t : Task). Evolves 2 false t ((resume k i given).tasks i)) (rw (==_refl i) refl)
          (resume-Evolves k i i given (rw (==_refl i) (small i)))

    raised :
        (suc t.resumes ≤ ((resume k i given).tasks i).resumes)
        × (t.status ≡ starting → ((resume k i given).tasks i).scheduled ≡ true)
    raised =
        subst
          (λ (v : Task).
            (suc v.resumes ≤ ((resume k i given).tasks i).resumes)
            × (v.status ≡ starting → ((resume k i given).tasks i).scheduled ≡ true))
          here (resume-raised k i given (rw (==_refl i) (small i)))
      where
        here : given.tasks i ≡ u
        here = rw (==_refl i) refl

    receiver : IsHeard (settled i) ((resume k i given).tasks i)
    receiver = record {
      known = λ on. elim ((heard i).known on) [
        | inl le ↦ inl (omega (arith, le, change.grows, change.expects))
        | inr top ↦ inr (change.expects ∙ top)
      ];
      told = λ on. inr (
          inl (λ e. elim ((heard i).known on) [
            | inl le ↦ absurd (omega (arith, le, e, raised.0, change.expects))
            | inr top ↦ absurd (omega (arith, top, e, change.slowly, change.expects, small i))
          ]));
      slept = λ a. elim (change.sleeps a) [
        | inl b ↦ elim ((heard i).slept b) [ inl on ↦ inl on | inr h ↦ inr (change.halts h) ]
        | inr (inl d) ↦ absurd (ground (arith, d))
        | inr (inr h) ↦ inr h
      ];
      unheard = λ e f. absurd (ground (arith, f, raised.1 (change.starts e f).0));
    }

-- What is kept: each task is in its place, and no task has events that it was not resumed for.
pub record IsAttended (n : ℕ) (s : Post) : Type 0 where
  pub sound : IsSound n s.system
  pub heard : (i : ℕ) → IsHeard (s.settled i) (s.system.tasks i)

pub IsHeard-at :
    (i j : ℕ) (b : Bool) (u : Task) (settled : ℕ → Bool) (tasks : ℕ → Task)
    → IsHeard b u
    → ((i : ℕ) → IsHeard (settled i) (tasks i))
    → IsHeard (update settled i b j) (update tasks i u j)
IsHeard-at i j b u settled tasks new old = elim (Bool-cases (i == j)) [
  | inl e ↦ rw e new
  | inr e ↦ rw e (old j)
]

-- What a running task changes.
pub run_task-IsSound :
    {n : ℕ} (k i : ℕ) (t : Task) (s : System)
    → k < n
    → Executes k i s
    → t.status ≡ (s.tasks i).status
    → t.scheduled ≡ (s.tasks i).scheduled
    → IsSound n s
    → IsSound n (set_task i t s)
run_task-IsSound k i t s lt executes status flag sound = record {
  placed = λ j. run_task-IsPlaced k i j t s lt executes status flag sound.placed;
  clear = sound.clear;
}

pub send_local-IsSound :
    {n : ℕ} (k i : ℕ) (event : PendingEvent) (s : System)
    → k < n
    → IsSound n s
    → IsSound n (send_local k i event s)
unfolding send_local
send_local-IsSound {n} k i event s lt sound = record {
  placed = λ j. resume-IsPlaced k i j given lt given-IsPlaced;
  clear = resume-IsClear k i given sound.clear;
}
  where
    u : Task
    u = record (s.tasks i) { mailbox = enqueue (s.tasks i).mailbox event }

    given : System
    given = set_task i u s

    given-IsPlaced : (j : ℕ) → IsPlaced n j given
    given-IsPlaced j =
        set_task-IsPlaced i j u s refl refl
          (record {
            apart = (sound.placed i).own.apart;
            gone = (sound.placed i).own.gone;
            awaits = (sound.placed i).own.awaits;
          })
          (sound.placed j)
