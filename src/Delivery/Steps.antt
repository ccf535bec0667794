-- ===== src/Delivery/Steps.antt =====
-- The interleavings of fiberize/src/fiberize/detail/multitaskscheduler.cpp with the events that are
-- sent by fiberize/src/fiberize/detail/localfiberref.cpp and taken by `process` of
-- fiberize/src/fiberize/context.cpp.
use fiberize.Base.{ℕ, ◌+◌, ◌<◌, ◌≡◌, ◌⊎◌, Bool, true, false, some, [], u64_max, update}
use fiberize.Mailbox.{PendingEvent, DequeMailbox, dequeue, events}
use fiberize.Task.{Task, dead, construct}
use fiberize.Scheduling.{System, set_task, finish_suspending, end_task}
use fiberize.Scheduling.Steps.{
  Step, Executes, Allows, IsInitial, resumes, pushes, finishes, fetches, begins, jumps, arrives,
  switches, switches_to, ends, processes, yields, stops, pins, unpins, spawns,
}
use fiberize.Delivery.{send_local}

-- The schedulers and their tasks, and which tasks have recorded the resumes that they expect since they
-- were created.
pub record Post : Type 0 where
  pub system : System
  pub settled : ℕ → Bool

-- The steps of the schedulers that ask nothing of the code of a task.
abbrev pub is_plain : {n : ℕ} {s t : System} → Step n s t → Bool
is_plain (resumes k i lt allowed) = true
is_plain (pushes k i p before after lt on) = true
is_plain (finishes k lt) = false
is_plain (fetches k m i p q lt_k lt_m idle nothing found) = true
is_plain (begins k i lt idle held fresh) = true
is_plain (jumps k i lt idle held old) = true
is_plain (arrives k i lt there nothing held) = true
is_plain (switches k j lt executes) = true
is_plain (switches_to k j m i p q lt_k lt_m executes found) = true
is_plain (ends k i lt executes) = false
is_plain (processes k i lt executes) = false
is_plain (yields k i lt executes) = false
is_plain (stops k i lt executes) = true
is_plain (pins k i lt executes free) = true
is_plain (unpins k i lt executes) = true
is_plain (spawns i raw gone) = false

-- A task is suspended, or its run ends, after it has settled; a run can also end with the task stopped.
-- It settles by `process`, which takes events until there are none, unless the task is stopped, or by
-- `yield`. A new task has a mailbox with no event.
pub data PostStep (n : ℕ) (s : Post) : Post → Type 0 where
  moves :
      {t : System} (step : Step n s.system t)
      → is_plain step ≡ true
      → PostStep n s (record s { system = t })
  suspends :
      (k : ℕ)
      → k < n
      → ((i : ℕ) → (s.system.schedulers k).suspending_task ≡ some i → s.settled i ≡ true)
      → PostStep n s (record s { system = finish_suspending k s.system })
  ends_run :
      (k i : ℕ)
      → k < n
      → Executes k i s.system
      → (s.settled i ≡ true) ⊎ ((s.system.tasks i).stopped ≡ true)
      → PostStep n s (record s { system = end_task k i s.system })
  settles :
      (k i : ℕ)
      → k < n
      → Executes k i s.system
      → (events (s.system.tasks i).mailbox ≡ []) ⊎ ((s.system.tasks i).stopped ≡ true)
      → PostStep n s (record {
        system =
            set_task i
              (record (s.system.tasks i) { resumes_expected = (s.system.tasks i).resumes })
              s.system;
        settled = update s.settled i true;
      })
  gives_way :
      (k i : ℕ)
      → k < n
      → Executes k i s.system
      → PostStep n s (record {
        system = set_task i (record (s.system.tasks i) { resumes_expected = u64_max }) s.system;
        settled = update s.settled i true;
      })
  creates :
      (i : ℕ) (raw : Task)
      → (s.system.tasks i).status ≡ dead
      → events raw.mailbox ≡ []
      → PostStep n s (record {
        system = set_task i (construct raw) s.system;
        settled = update s.settled i false;
      })
  sends :
      (k i : ℕ) (event : PendingEvent)
      → k < n
      → Allows k (s.system.tasks i)
      → PostStep n s (record s { system = send_local k i event s.system })
  receives :
      (k i : ℕ) (event : PendingEvent) (rest : DequeMailbox)
      → k < n
      → Executes k i s.system
      → dequeue (s.system.tasks i).mailbox ≡ some (some event, rest)
      → PostStep n s
          (record s { system = set_task i (record (s.system.tasks i) { mailbox = rest }) s.system })

-- No count of resumes has come near to the end of its 64 bits.
abbrev pub IsSmall : System → Type 0
IsSmall s = (i : ℕ) → (s.tasks i).resumes + 2 < u64_max

pub data Posts (n : ℕ) : Post → Type 0 where
  start : (s : System) → IsInitial s → Posts n (record { system = s; settled = λ i. false })
  later : {s t : Post} → Posts n s → IsSmall s.system → PostStep n s t → Posts n t
