-- ===== src/Threads/Examples.antt =====
-- A thread that is resumed while it sleeps.
use fiberize.Base.{◌≡◌, ◌≢◌, refl, true, false, Option, none, some}
use fiberize.Identity.{dev_null}
use fiberize.Mailbox.{new_mailbox}
use fiberize.Task.{running, construct}
use fiberize.Threads.{
  Thread, fiberize_thread, suspend_thread, resume_thread, wake_thread, poll_thread, attach,
}
use fiberize.Threads.Wakeups.{
  ThreadStep, Lives, attached, then_does, settles, suspends, resumes, Lives-wakes,
}
use fiberize.Samples.{raw_task}

abbrev ready : Thread
ready = record {
  task = record raw_task { status = running; pin = some 3; resumes_expected = 0 };
  resumed = true;
  in_loop = false;
}

abbrev woken_thread : Thread
woken_thread = record {
  task = record raw_task { status = running; pin = some 3; resumes = 2; resumes_expected = 0 };
  resumed = true;
  in_loop = true;
}

Lives-woken_thread : Lives woken_thread
unfolding fiberize_thread attach construct suspend_thread resume_thread wake_thread
Lives-woken_thread =
    then_does
      (then_does (then_does (attached 3 true raw_task dev_null new_mailbox) (settles refl))
        (suspends refl))
      resumes

Lives-wakes_example :
    ((o : Option Thread) → ThreadStep woken_thread o → o ≢ none)
    × (woken_thread.in_loop ≡ false → woken_thread.task.status ≡ running)
    × (woken_thread.in_loop ≡ true
        → woken_thread.task.resumes ≢ woken_thread.task.resumes_expected
        → (poll_thread woken_thread).in_loop ≡ false)
Lives-wakes_example = Lives-wakes woken_thread Lives-woken_thread
