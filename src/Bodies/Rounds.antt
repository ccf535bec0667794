-- ===== src/Bodies/Rounds.antt =====
-- What a round of fiberize/src/fiberize/detail/multitaskscheduler.cpp leaves behind, by the traits of
-- fiberize/include/fiberize/detail/tasktraits.hpp.
use fiberize.Base.{ℕ, suc, ◌<◌, ◌≡◌, refl, ◌⊎◌, inl, inr, true, false, some, List, [], length}
use fiberize.Mailbox.{PendingEvent, DequeMailbox, dequeue, events}
use fiberize.Task.{Task, Exn, killed}
use fiberize.Context.{
  Outcome, returned, threw, undefined, exhausted, World, UserCode, Processing, process,
}
use fiberize.Context.Process.{IsSettled, Accounts, KeepsMailbox, process-IsSettled}
use fiberize.Context.Accounting.{process-Accounts}
use fiberize.Context.Killing.{kill_event, process-killed}
use fiberize.Bodies.{Body, stop, process_locked, run_fiber, run_actor, listen, caught, unlocked}

-- The task may listen again or be killed: it is stopped, or expects the resumes that it has had and has
-- no pending event.
abbrev pub IsRested : Task → Type 0
IsRested t = (t.stopped ≡ true) ⊎ ((t.resumes_expected ≡ t.resumes) × (events t.mailbox ≡ []))

-- The round of a listening task returns with the lock held and the task at rest, unless its behaviour is
-- undefined.
abbrev pub Rests : {M : Type 0} → Outcome (Processing M) → Type 0
Rests {M} r =
    (r ≡ undefined)
    ⊎ ((t : Processing M) × (r ≡ returned t) × (t.owns_lock ≡ true) × IsRested t.task)

-- The first run of an actor returns with the task at rest, or throws what a handler threw.
abbrev pub EndsRun : {M : Type 0} → Outcome (Processing M) → Type 0
EndsRun {M} r =
    (r ≡ undefined)
    ⊎ ((t : Processing M) × (r ≡ returned t) × IsRested t.task)
    ⊎ ((x : Exn) × (t : Processing M) × (r ≡ threw x t))

caught-Rests :
    {M : Type 0} (before : List PendingEvent) (freed : List ℕ) (r : Outcome (Processing M))
    → IsSettled r
    → Accounts before freed r
    → Rests (caught r)
unfolding stop
caught-Rests before freed (returned t) (locked, same, rest) a =
    inr (t, refl, locked, elim rest [ inl h ↦ inl h | inr nil ↦ inr (same, nil) ])
caught-Rests before freed (threw x t) settled a = inr (_, refl, refl, inl refl)
caught-Rests before freed undefined settled a = inl refl
caught-Rests before freed exhausted settled a = absurd a

unlocked-EndsRun :
    {M : Type 0} (before : List PendingEvent) (freed : List ℕ) (r : Outcome (Processing M))
    → IsSettled r
    → Accounts before freed r
    → EndsRun (unlocked r)
unlocked-EndsRun before freed (returned t) (locked, same, rest) a =
    inr (inl (_, refl, elim rest [ inl h ↦ inl h | inr nil ↦ inr (same, nil) ]))
unlocked-EndsRun before freed (threw x t) settled a = inr (inr (x, t, refl))
unlocked-EndsRun before freed undefined settled a = inl refl
unlocked-EndsRun before freed exhausted settled a = absurd a

module _ {M : Type 0} (call : UserCode M) (keeps : KeepsMailbox call) where
  -- With closures that leave the mailbox alone and fuel for the pending events, every round of a task
  -- ends. The round of a listening task throws nothing, and leaves the lock held and the task either
  -- stopped, or without a pending event and expecting the resumes that it has had; the first run of
  -- an actor leaves the task so or throws. A fiber is stopped at the end of its run, whatever its
  -- closure throws. The first two say so unless the behaviour is undefined.
  pub rounds_end :
      (fuel : ℕ) (s : Processing M) (body : Body M) (w : World M)
      → s.owns_lock ≡ true
      → length (events s.task.mailbox) < fuel
      → length (events (body w).0.task.mailbox) < fuel
      → Rests (listen call fuel s)
        × EndsRun (run_actor call fuel body w)
        × ((run_fiber body w).task.stopped ≡ true)
  unfolding listen run_actor run_fiber process_locked stop
  rounds_end fuel s body w locked enough enough_body = (
    caught-Rests (events s.task.mailbox) s.freed (process call fuel s)
        (process-IsSettled call fuel s locked) (process-Accounts call keeps fuel s enough),
    unlocked-EndsRun (events started.task.mailbox) [] (process call fuel started)
        (process-IsSettled call fuel started refl)
        (process-Accounts call keeps fuel started enough_body),
    refl,
  )
    where
      started : Processing M
      started = record { world = (body w).0; owns_lock = true; freed = [] }

module _ {M : Type 0} (call : UserCode M) where
  -- An actor whose closure leaves the task with a kill event next, and with no handler bound, does not end
  -- its run in the way a fiber does: the exception of the kill event escapes from it, and the lock of
  -- the task is free.
  pub run_actor-killed :
      (fuel : ℕ) (body : Body M) (w : World M) (rest : DequeMailbox)
      → (body w).0.task.stopped ≡ false
      → (body w).0.task.handlers_initialized ≡ false
      → (body w).0.task.handlers ≡ []
      → dequeue (body w).0.task.mailbox ≡ some (some kill_event, rest)
      → (t : Processing M) × (run_actor call (suc fuel) body w ≡ threw killed t)
        × (t.owns_lock ≡ false)
  unfolding run_actor process_locked
  run_actor-killed fuel body w rest live fresh nothing next =
      let (t, thrown, free) =
        process-killed call fuel (record { world = (body w).0; owns_lock = true; freed = [] }) rest
          live fresh nothing next in
      (t, rw thrown refl, free)
