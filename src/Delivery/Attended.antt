-- ===== src/Delivery/Attended.antt =====
-- The sleeping tasks with pending events, in the states that the schedulers, the senders of
-- fiberize/src/fiberize/detail/localfiberref.cpp and the running tasks reach.
use fiberize.Base.{
  ℕ, ◌≤◌, ◌<◌, ◌≡◌, ◌≢◌, refl, sym, ◌⊎◌, inl, inr, true, false, [], ◌==◌, u64_max, arith,
  Bool-cases, ==_iff, total, total-some, subst, update,
}
use fiberize.Mailbox.{events}
use fiberize.Mailbox.Fifo.{dequeue-Dequeues}
use fiberize.Task.{Task, starting, running, construct}
use fiberize.Scheduling.{finish_suspending, end_task}
use fiberize.Scheduling.Steps.{Executes}
use fiberize.Scheduling.Invariant.{waiting}
use fiberize.Scheduling.Resuming.{finish_suspending-IsPlaced, end_task-IsPlaced}
use fiberize.Scheduling.Clear.{finish_suspending-IsClear, end_task-IsClear}
use fiberize.Scheduling.Running.{spawn-IsPlaced, Executes-running}
use fiberize.Scheduling.Reachable.{Step-IsSound, IsInitial-IsSound}
use fiberize.Delivery.Steps.{
  Post, PostStep, moves, suspends, ends_run, settles, gives_way, creates, sends, receives, IsSmall,
  Posts, start, later,
}
use fiberize.Delivery.Evolution.{Evolves-quieter, IsAsleep}
use fiberize.Delivery.Suspending.{finish_suspending-Evolves, end_task-Evolves}
use fiberize.Delivery.Plain.{Step-Evolves}
use fiberize.Delivery.Heard.{
  IsHeard, IsAttended, Evolves-IsHeard, IsHeard-at, send_local-IsHeard, run_task-IsSound,
  send_local-IsSound,
}

-- The running task takes its oldest event out.
received :
    {n : ℕ} (k i : ℕ) (u : Task) (s : Post)
    → k < n
    → Executes k i s.system
    → events (s.system.tasks i).mailbox ≢ []
    → IsAttended n s
    → u.resumes ≡ (s.system.tasks i).resumes
    → u.resumes_expected ≡ (s.system.tasks i).resumes_expected
    → u.stopped ≡ (s.system.tasks i).stopped
    → u.status ≡ (s.system.tasks i).status
    → (j : ℕ) → IsHeard (s.settled j) (update s.system.tasks i u j)
received {n} k i u s lt executes more attended count expects halted status j =
    elim (Bool-cases (i == j)) [
      | inl e ↦ rw e (subst (λ (x : ℕ). IsHeard (s.settled x) u) ((==_iff i j).0 e) new)
      | inr e ↦ rw e (attended.heard j)
    ]
  where
    t : Task
    t = s.system.tasks i

    runs : t.status ≡ running
    runs = Executes-running k i s.system lt executes attended.sound.placed

    new : IsHeard (s.settled i) u
    new = record {
      known = λ on. elim ((attended.heard i).known on) [
        | inl le ↦ inl (omega (arith, le, count, expects))
        | inr top ↦ inr (omega (arith, expects, top))
      ];
      told = λ on. elim ((attended.heard i).told on) [
        | inl nil ↦ absurd (more nil)
        | inr (inl apart) ↦ inr (inl (λ e. apart (omega (arith, e, count, expects))))
        | inr (inr h) ↦ inr (inr (ground (arith, halted, h)))
      ];
      slept = λ a. absurd (ground (arith, a, runs, status));
      unheard = λ e f. absurd (ground (arith, e, runs, status));
    }

PostStep-IsAttended :
    {n : ℕ} {s t : Post} → IsAttended n s → IsSmall s.system → PostStep n s t → IsAttended n t
PostStep-IsAttended {n} {s} attended small (moves {t} step plain) = record {
  sound = Step-IsSound attended.sound step;
  heard = λ j.
      Evolves-IsHeard (s.settled j) (s.system.tasks j) (t.tasks j) (attended.heard j) (small j)
        (Evolves-quieter (s.settled j) (Step-Evolves j step plain small));
}
PostStep-IsAttended {n} {s} attended small (suspends k lt ready) = record {
  sound = record {
    placed = λ j. finish_suspending-IsPlaced k j s.system lt attended.sound.placed;
    clear = finish_suspending-IsClear k s.system attended.sound.clear;
  };
  heard = λ j.
      Evolves-IsHeard (s.settled j) (s.system.tasks j) ((finish_suspending k s.system).tasks j)
        (attended.heard j) (small j) (finish_suspending-Evolves s.settled k j s.system small ready);
}
PostStep-IsAttended {n} {s} attended small (ends_run k i lt executes ready) = record {
  sound = record {
    placed = λ j. end_task-IsPlaced k i j s.system lt executes.0 executes.1 attended.sound.placed;
    clear = end_task-IsClear k i s.system attended.sound.clear;
  };
  heard = λ j.
      Evolves-IsHeard (s.settled j) (s.system.tasks j) ((end_task k i s.system).tasks j)
        (attended.heard j) (small j) (end_task-Evolves s.settled k i j s.system small ready);
}
PostStep-IsAttended {n} {s} attended small (settles k i lt executes ready) = record {
  sound = run_task-IsSound k i u s.system lt executes refl refl attended.sound;
  heard = λ j. IsHeard-at i j true u s.settled s.system.tasks new attended.heard;
}
  where
    u : Task
    u = record (s.system.tasks i) { resumes_expected = (s.system.tasks i).resumes }

    new : IsHeard true u
    new = record {
      known = λ on. inl (omega arith);
      told = λ on. elim ready [ inl nil ↦ inl nil | inr h ↦ inr (inr h) ];
      slept = λ a. inl refl;
      unheard = (attended.heard i).unheard;
    }
PostStep-IsAttended {n} {s} attended small (gives_way k i lt executes) = record {
  sound = run_task-IsSound k i u s.system lt executes refl refl attended.sound;
  heard = λ j. IsHeard-at i j true u s.settled s.system.tasks new attended.heard;
}
  where
    u : Task
    u = record (s.system.tasks i) { resumes_expected = u64_max }

    new : IsHeard true u
    new = record {
      known = λ on. inr refl;
      told = λ on. inr (inl (λ e. absurd (omega (arith, e, small i))));
      slept = λ a. inl refl;
      unheard = (attended.heard i).unheard;
    }
PostStep-IsAttended {n} {s} attended small (creates i raw gone nothing) = record {
  sound = record {
    placed = λ j. spawn-IsPlaced i j raw s.system gone attended.sound.placed;
    clear = attended.sound.clear;
  };
  heard = λ j. IsHeard-at i j false (construct raw) s.settled s.system.tasks new attended.heard;
}
  where
    new : IsHeard false (construct raw)
    new =
        unfold construct in
        record {
          known = λ on. absurd (ground (arith, on));
          told = λ on. absurd (ground (arith, on));
          slept = λ a. absurd (ground (arith, a));
          unheard = λ e f. nothing;
        }
PostStep-IsAttended {n} {s} attended small (sends k i event lt allowed) = record {
  sound = send_local-IsSound k i event s.system lt attended.sound;
  heard = λ j. send_local-IsHeard s.settled k i j event s.system attended.heard small;
}
PostStep-IsAttended {n} {s} attended small (receives k i event rest lt executes found) = record {
  sound = run_task-IsSound k i u s.system lt executes refl refl attended.sound;
  heard = received k i u s lt executes more attended refl refl refl refl;
}
  where
    u : Task
    u = record (s.system.tasks i) { mailbox = rest }

    more : events (s.system.tasks i).mailbox ≢ []
    more nil = elim (dequeue-Dequeues (s.system.tasks i).mailbox) [
      | inl (none_left, nothing, _) ↦ absurd (ground (arith, nothing, found))
      | inr (e, r, list, _, _) ↦ absurd (ground (arith, nil, list))
    ]

Posts-IsAttended : {n : ℕ} {s : Post} → Posts n s → IsAttended n s
Posts-IsAttended {n} (start s initial) = record {
  sound = IsInitial-IsSound n s initial;
  heard = λ i. record {
    known = λ on. absurd (ground (arith, on));
    told = λ on. absurd (ground (arith, on));
    slept = λ a. absurd (ground (arith, a, initial.no_task i));
    unheard = λ e f. absurd (ground (arith, e, initial.no_task i));
  };
}
Posts-IsAttended (later posts small step) = PostStep-IsAttended (Posts-IsAttended posts) small step

-- No event is stranded. Whatever the schedulers, the senders and the running tasks do, in whatever
-- order: a task that is new, suspended or listening, that is not stopped and has a pending event, waits
-- in exactly one place of one scheduler, provided that every task settles before it is suspended or its
-- run ends, or is stopped before its run ends, that a new task gets an empty mailbox, and that no
-- count of resumes comes near to 2 ^ 64.
pub Posts-scheduled :
    {n : ℕ} (i : ℕ) (s : Post)
    → Posts n s
    → ((s.system.tasks i).status ≡ starting) ⊎ IsAsleep (s.system.tasks i).status
    → (s.system.tasks i).stopped ≡ false
    → events (s.system.tasks i).mailbox ≢ []
    → (total (waiting i) n s.system.schedulers ≡ 1)
      × ((k : ℕ) × (k < n) × (1 ≤ waiting i (s.system.schedulers k)))
Posts-scheduled {n} i s posts status live more =
    (once, total-some (waiting i) n s.system.schedulers (omega (arith, once)))
  where
    attended : IsAttended n s
    attended = Posts-IsAttended posts

    idle : (s.system.tasks i).scheduled ≢ false
    idle f = elim status [
      | inl new ↦ more ((attended.heard i).unheard new f)
      | inr asleep ↦ elim ((attended.heard i).slept asleep) [
        | inr h ↦ ground (arith, h, live)
        | inl on ↦ elim ((attended.heard i).told on) [
          | inl nil ↦ more nil
          | inr (inl apart) ↦ apart (sym ((attended.sound.placed i).own.awaits asleep f))
          | inr (inr h) ↦ ground (arith, h, live)
        ]
      ]
    ]

    once : total (waiting i) n s.system.schedulers ≡ 1
    once = elim (Bool-cases (s.system.tasks i).scheduled) [
      | inl e ↦ ground (arith, e, (attended.sound.placed i).counts.waits)
      | inr e ↦ absurd (idle e)
    ]
