-- ===== src/Sleeping/Examples.antt =====
-- A fiber that cannot start its timer.
use fiberize.Base.{◌≡◌, ◌≢◌, refl, ◌⊎◌, false, Option, none, some, [], pos, negsuc}
use fiberize.Pinning.{pin_scope, unpin_scope}
use fiberize.Sleeping.{
  Nap, initialized, asleep, failed, sleep_await, drop_env, destroy_env, grab_env, finish,
  start_timer, new_await_env, pin_nap,
}
use fiberize.Sleeping.Shapes.{NapStep, Naps, awaits, IsArmed, last_handle}
use fiberize.Sleeping.Lifetime.{Naps-freed_as}

abbrev sleepless : Nap
sleepless = record {
  env = none;
  pin = none;
  was_pinned = false;
  task_references = 0;
  resumed = [];
  sent = [];
  timer = initialized;
  freed_as = some initialized;
  phase = failed (pos 22);
}

sleepless-Naps : Naps none (pos 0) (negsuc 21) sleepless
unfolding sleep_await drop_env destroy_env grab_env finish start_timer new_await_env pin_nap
    pin_scope unpin_scope
sleepless-Naps = awaits 4 2 _ refl

Naps-freed_as_example :
    ((o : Option Nap) → NapStep sleepless o → o ≢ none)
    × (IsArmed sleepless.timer ⊎ (sleepless.phase ≡ asleep)
        → (sleepless.env ≢ none) × (sleepless.freed_as ≡ none))
    × (¬ IsArmed sleepless.timer
        → sleepless.phase ≢ asleep
        → (sleepless.env ≡ none)
          × (sleepless.task_references ≡ 0)
          × (sleepless.freed_as ≡ some (last_handle (pos 0) (negsuc 21))))
    × (sleepless.phase ≢ asleep → sleepless.pin ≡ none)
Naps-freed_as_example = Naps-freed_as none (pos 0) (negsuc 21) sleepless sleepless-Naps
