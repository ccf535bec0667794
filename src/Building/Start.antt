-- ===== src/Building/Start.antt =====
-- What `Builder::run` of fiberize/include/fiberize/builder-inl.hpp does to the system.
use fiberize.Base.{
  ℕ, suc, ◌≡◌, ◌≢◌, refl, ◌⊎◌, inl, inr, true, false, none, some, arith, Bool-cases, ==_refl,
  ==_apart,
}
use fiberize.Identity.{prefixed, UniqueIdentGenerator}
use fiberize.Task.{starting, construct, grab}
use fiberize.Scheduling.{System, set_task, resume, resume_at}
use fiberize.Scheduling.Invariant.{waiting}
use fiberize.Bodies.{new_task}
use fiberize.Delivery.{dev_null_ref, local_ref}
use fiberize.Building.{
  Builder, FiberSystem, Started, microthread, ident, built, invalidate, run, start_task,
}

-- The new task `i` has one reference and waits once more in scheduler `k`; nothing else has changed.
pub record IsStarted (sys : FiberSystem) (g : UniqueIdentGenerator) (k i : ℕ) (b : Builder)
    (s t : System) : Type 0 where
  pub references : (t.tasks i).ref_count ≡ 1
  pub path : (t.tasks i).path ≡ prefixed sys.uuid (ident b.name g).0
  pub mailbox : (t.tasks i).mailbox ≡ b.mailbox
  pub pin : (t.tasks i).pin ≡ b.pin
  pub status : (t.tasks i).status ≡ starting
  pub scheduled : (t.tasks i).scheduled ≡ true
  pub stopped : (t.tasks i).stopped ≡ false
  pub waits : waiting i (t.schedulers k) ≡ suc (waiting i (s.schedulers k))
  pub others : (j : ℕ) → i ≢ j → t.tasks j ≡ s.tasks j
  pub elsewhere : (m : ℕ) → k ≢ m → t.schedulers m ≡ s.schedulers m

resume-IsStarted :
    (sys : FiberSystem) (g : UniqueIdentGenerator) (k i : ℕ) (b : Builder) (s : System)
    → IsStarted sys g k i b s
        (resume k i (set_task i (grab (built sys (s.tasks i) (ident b.name g).0 b)) s))
unfolding resume resume_at new_task construct grab
resume-IsStarted sys g k i b s = record {
  references = rw (==_refl i) (rw (==_refl i) refl);
  path = rw (==_refl i) (rw (==_refl i) refl);
  mailbox = rw (==_refl i) (rw (==_refl i) refl);
  pin = rw (==_refl i) (rw (==_refl i) refl);
  status = rw (==_refl i) (rw (==_refl i) refl);
  scheduled = rw (==_refl i) (rw (==_refl i) refl);
  stopped = rw (==_refl i) (rw (==_refl i) refl);
  waits = unfold waiting in ground (arith, ==_refl i, ==_refl k);
  others = λ j apart. ground (arith, ==_refl i, ==_apart i j apart);
  elsewhere = λ m apart. ground (arith, ==_refl i, ==_apart k m apart);
}

-- A valid builder of a microthread can be run once, and is invalid afterwards. While the system shuts
-- down a run gives the reference that drops everything and changes no task and no scheduler. Otherwise
-- it gives a reference to a new task. At the moment when the other threads can find the task it has the
-- path, the mailbox and the pin of the builder, the reference is counted already, and the task waits in
-- one place more of the scheduler that resumes it; the other tasks and schedulers are as they were.
-- What the threads do from then on is all that happens until `run` returns.
pub run-IsStarted :
    (sys : FiberSystem) (g : UniqueIdentGenerator) (k i : ℕ) (meanwhile : System → System)
    (b : Builder) (s : System)
    → b.invalidated ≡ false
    → b.runner ≡ microthread
    → (t : Started) × (run sys g k i meanwhile b s ≡ some t)
      × (run sys t.generator k i meanwhile t.builder t.system ≡ none)
      × (((sys.shutting_down ≡ true) × (t.ref ≡ dev_null_ref) × (t.system ≡ s))
          ⊎ ((sys.shutting_down ≡ false)
              × (t.ref ≡ local_ref i)
              × ((u : System) × IsStarted sys g k i b s u × (t.system ≡ meanwhile u))))
unfolding run start_task
run-IsStarted sys g k i meanwhile b s valid micro = elim (Bool-cases sys.shutting_down) [
  | inl e ↦ (
    record { builder = invalidate b; generator = g; system = s; ref = dev_null_ref },
    ground (arith, e, valid),
    refl,
    inl (e, refl, refl),
  )
  | inr e ↦ (
    record {
      builder = invalidate b;
      generator = (ident b.name g).1;
      system = meanwhile started;
      ref = local_ref i;
    },
    rw (e, valid, micro) refl,
    refl,
    inr (e, refl, (started, resume-IsStarted sys g k i b s, refl)),
  )
]
  where
    started : System
    started = resume k i (set_task i (grab (built sys (s.tasks i) (ident b.name g).0 b)) s)
