-- ===== src/Samples.antt =====
-- Test data that the examples share: memory in which no task lives, and a scheduler with nothing to do.
use fiberize.Base.{false, none, []}
use fiberize.Identity.{dev_null}
use fiberize.Mailbox.{new_mailbox}
use fiberize.Task.{Task, dead}
use fiberize.Scheduling.{Scheduler, looping}

abbrev pub raw_task : Task
raw_task = record {
  status = dead;
  scheduled = false;
  path = dev_null;
  pin = none;
  handlers_initialized = false;
  resumes = 0;
  resumes_expected = 0;
  stopped = false;
  ref_count = 0;
  handlers = [];
  mailbox = new_mailbox;
  runnable = none;
}

abbrev pub idle_scheduler : Scheduler
idle_scheduler = record {
  soft_tasks = [];
  hard_tasks = [];
  pushing_soft = [];
  pushing_hard = [];
  location = looping;
  suspending_task = none;
  current_task = none;
}
