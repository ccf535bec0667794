-- ===== src/Threads/Wakeups.antt =====
-- The wake-ups of a task with a thread of its own in
-- fiberize/src/fiberize/detail/singletaskscheduler.cpp.
use fiberize.Base.{
  ℕ, ◌+◌, ◌≡◌, ◌≢◌, refl, inl, inr, Bool, true, false, Option, none, some, ◌==◌, u64, arith,
  Bool-cases, ==_iff, subst, sym, some_injective,
}
use fiberize.Identity.{TaskPath}
use fiberize.Mailbox.{DequeMailbox}
use fiberize.Task.{Task, running, suspended, construct}
use fiberize.Threads.{
  Thread, resume_thread, wake_thread, suspend_thread, poll_thread, start_thread, fiberize_thread,
  attach, with_status,
}

-- The thread suspends itself, goes round the loop, or settles outside of it, and anyone resumes the task at
-- any time.
pub data ThreadStep (s : Thread) : Option Thread → Type 0 where
  resumes : ThreadStep s (resume_thread s)
  suspends : s.in_loop ≡ false → ThreadStep s (suspend_thread s)
  polls : s.in_loop ≡ true → ThreadStep s (some (poll_thread s))
  settles :
      s.in_loop ≡ false
      → ThreadStep s
          (some (record s { task = record (s.task) { resumes_expected = s.task.resumes } }))

pub data Lives : Thread → Type 0 where
  attached :
      (k : ℕ) (raw : Bool) (t : Task) (path : TaskPath) (mailbox : DequeMailbox)
      → Lives (fiberize_thread k raw t path mailbox)
  then_does : {s t : Thread} → Lives s → ThreadStep s (some t) → Lives t

-- The thread is outside of the loop and runs; or it sleeps, with no resume that it did not expect; or it
-- was resumed in the loop.
data IsAwake (s : Thread) : Type 0 where
  outside : s.task.scheduled ≡ false → s.task.status ≡ running → s.in_loop ≡ false → IsAwake s
  sleeping :
      s.in_loop ≡ true
      → s.resumed ≡ false
      → s.task.scheduled ≡ false
      → s.task.status ≡ suspended
      → s.task.resumes ≡ s.task.resumes_expected
      → IsAwake s
  woken :
      s.in_loop ≡ true
      → s.task.scheduled ≡ false
      → s.task.status ≡ running
      → s.resumed ≡ true
      → IsAwake s

ThreadStep-IsAwake :
    {s : Thread} (o : Option Thread)
    → IsAwake s
    → ThreadStep s o
    → (t : Thread) × (o ≡ some t) × IsAwake t
unfolding resume_thread wake_thread suspend_thread poll_thread
ThreadStep-IsAwake {s} _ (outside idle runs out) resumes = (
  record s { task = record (s.task) { resumes = u64 (s.task.resumes + 1) } },
  ground (arith, idle, runs),
  outside idle runs out,
)
ThreadStep-IsAwake {s} _ (sleeping inside asleep idle slept same) resumes = (
  record s {
    task = record (s.task) {
      resumes = u64 (u64 (s.task.resumes + 1) + 1);
      status = running;
      scheduled = false;
    };
    resumed = true;
  },
  ground (arith, idle, slept),
  woken inside refl refl refl,
)
ThreadStep-IsAwake {s} _ (woken inside idle runs flag) resumes = (
  record s { task = record (s.task) { resumes = u64 (s.task.resumes + 1) } },
  ground (arith, idle, runs),
  woken inside idle runs flag,
)
ThreadStep-IsAwake {s} _ (outside idle runs out) (suspends _) =
    elim (Bool-cases (s.task.resumes == s.task.resumes_expected)) [
      | inl e ↦ (
        record { task = with_status suspended s.task; resumed = false; in_loop = true },
        ground (arith, idle, runs, e),
        sleeping refl refl idle refl ((==_iff s.task.resumes s.task.resumes_expected).0 e),
      )
      | inr e ↦ (s, ground (arith, idle, runs, e), outside idle runs out)
    ]
ThreadStep-IsAwake {s} _ (sleeping inside asleep idle slept same) (suspends out) =
    absurd (ground (arith, inside, out))
ThreadStep-IsAwake {s} _ (woken inside idle runs flag) (suspends out) =
    absurd (ground (arith, inside, out))
ThreadStep-IsAwake {s} _ (outside idle runs out) (polls within) =
    absurd (ground (arith, out, within))
ThreadStep-IsAwake {s} _ (sleeping inside asleep idle slept same) (polls within) =
    elim (Bool-cases s.resumed) [
      | inl e ↦ absurd (ground (arith, e, asleep))
      | inr e ↦ (s, ground (arith, e), sleeping inside asleep idle slept same)
    ]
ThreadStep-IsAwake {s} _ (woken inside idle runs flag) (polls within) =
    (record s { in_loop = false }, ground (arith, flag), outside idle runs refl)
ThreadStep-IsAwake {s} _ (outside idle runs out) (settles _) = (_, refl, outside idle runs out)
ThreadStep-IsAwake {s} _ (sleeping inside asleep idle slept same) (settles out) =
    absurd (ground (arith, inside, out))
ThreadStep-IsAwake {s} _ (woken inside idle runs flag) (settles out) =
    absurd (ground (arith, inside, out))

fiberize_thread-IsAwake :
    (k : ℕ) (raw : Bool) (t : Task) (path : TaskPath) (mailbox : DequeMailbox)
    → IsAwake (fiberize_thread k raw t path mailbox)
unfolding fiberize_thread attach
fiberize_thread-IsAwake k raw t path mailbox = outside refl refl refl

Lives-IsAwake : (s : Thread) → Lives s → IsAwake s
Lives-IsAwake _ (attached k raw t path mailbox) = fiberize_thread-IsAwake k raw t path mailbox
Lives-IsAwake _ (then_does {s} {t} lives step) =
    let next = ThreadStep-IsAwake (some t) (Lives-IsAwake s lives) step in
    subst IsAwake (some_injective next.0 t (sym next.1)) next.2

-- A thread that `fiberize` made into a task loses no wake-up, whoever resumes it at whatever time: no
-- assertion of `suspend` or `resume` fails, the task runs whenever the thread is outside the loop of
-- `suspend`, and a thread in that loop leaves it in the next round if the task was resumed more often
-- than it expects.
pub Lives-wakes :
    (s : Thread)
    → Lives s
    → ((o : Option Thread) → ThreadStep s o → o ≢ none)
      × (s.in_loop ≡ false → s.task.status ≡ running)
      × (s.in_loop ≡ true
          → s.task.resumes ≢ s.task.resumes_expected
          → (poll_thread s).in_loop ≡ false)
unfolding poll_thread
Lives-wakes s lives = (
  (λ o step gone.
      let next = ThreadStep-IsAwake o (Lives-IsAwake s lives) step in ground (arith, next.1, gone)),
  (λ out. elim (Lives-IsAwake s lives) [
    | outside idle runs _ ↦ runs
    | sleeping inside asleep idle slept same ↦ absurd (ground (arith, inside, out))
    | woken inside idle runs flag ↦ runs
  ]),
  (λ within more. elim (Lives-IsAwake s lives) [
    | outside idle runs out ↦ absurd (ground (arith, within, out))
    | sleeping inside asleep idle slept same ↦ absurd (more same)
    | woken inside idle runs flag ↦ ground (arith, flag)
  ]),
)

-- A new task that is started on a thread of its own has not got the status that the scheduler of the thread
-- needs: the assertion of its first `suspend` fails, and so does that of the first `resume` by another
-- thread.
start_thread-not_running :
    (k : ℕ) (raw : Bool) (t : Task)
    → (suspend_thread (start_thread k raw (construct t)) ≡ none)
      × (resume_thread (start_thread k raw (construct t)) ≡ none)
unfolding start_thread attach construct suspend_thread resume_thread wake_thread
start_thread-not_running k raw t = (refl, refl)
