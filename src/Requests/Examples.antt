-- ===== src/Requests/Examples.antt =====
-- A read that fails, and one whose fiber is killed while it waits.
use fiberize.Base.{
  Option, ℕ, ◌≡◌, ◌≢◌, refl, ◌⊎◌, true, false, not, none, some, [], ◌∷◌, ℤ, pos, negsuc,
  is_negative,
}
use fiberize.Identity.{dev_null}
use fiberize.Task.{killed}
use fiberize.Results.{Result, get}
use fiberize.Requests.{
  Operation, awaiting, waiting, interrupted, cleaned, execute_await, execute_block, callback,
  completed_await, completed_async, drop_env, destroy_env, grab_env, finish, start_request,
  new_await_env, pin_operation, swap_scheduler,
}
use fiberize.Pinning.{pin_scope, unpin_scope}
use fiberize.Requests.Modes.{delivered, run_await, run_async, modes_agree}
use fiberize.Requests.Shapes.{RequestStep, Runs, awaits, then_does, gives_up, calls_back}
use fiberize.Requests.Lifetime.{Runs-released}

abbrev size : ℤ → ℤ
size q = q

abbrev code_of : ℤ → ℕ
code_of (pos n) = n
code_of (negsuc n) = 0

-- The read fails with the code 3.
abbrev missing : ℤ
missing = negsuc 2

modes_agree_example :
    (t u : Operation ℤ ℤ) × (run_await size size code_of (pos 0) 4 2 (pos 0) missing none none
      ≡ some t)
    × (run_async size size code_of (pos 0) 7 dev_null 2 (pos 0) missing none none ≡ some u)
    × (execute_block size size missing missing
        ≡ (t.phase, cleaned (not (is_negative (size missing)))))
    × (t.cleanups ≡ 1)
    × (u.cleanups ≡ 1)
    × (r : Result ℤ) × (u.sent ≡ (some 2, 7, dev_null, r) ∷ [])
    × (get r ≡ delivered code_of t.phase)
modes_agree_example =
    modes_agree size size code_of (pos 0) 4 7 2 dev_null (pos 0) missing missing none none refl refl

-- The fiber is gone, and the loop has not called back.
abbrev abandoned : Operation ℤ ℤ
abandoned = record {
  env = some (record {
    request = pos 0;
    dirty = true;
    count = 1;
    owner = awaiting false 4;
    scheduler = 2;
  });
  pin = none;
  was_pinned = false;
  task_references = 1;
  cleanups = 0;
  resumed = [];
  sent = [];
  pending = true;
  phase = interrupted killed;
}

abandoned-Runs : Runs size size code_of none (pos 0) abandoned
unfolding execute_await drop_env destroy_env grab_env finish start_request new_await_env
    pin_operation pin_scope unpin_scope
abandoned-Runs = then_does (awaits (pos 0) 4 2 _ refl) (gives_up killed refl)

abbrev over : Operation ℤ ℤ
over = record {
  env = none;
  pin = none;
  was_pinned = false;
  task_references = 0;
  cleanups = 1;
  resumed = (some 2, 4) ∷ [];
  sent = [];
  pending = false;
  phase = interrupted killed;
}

over-RequestStep : RequestStep size size code_of abandoned (some over)
unfolding callback completed_await completed_async drop_env destroy_env swap_scheduler
over-RequestStep = calls_back (pos 3) (some 1) refl

Runs-released_example :
    ((o : Option (Operation ℤ ℤ)) → RequestStep size size code_of over o → o ≢ none)
    × ((over.pending ≡ true) ⊎ (over.phase ≡ waiting) → (over.env ≢ none) × (over.cleanups ≡ 0))
    × (over.pending ≡ false
        → over.phase ≢ waiting
        → (over.env ≡ none)
          × (over.task_references ≡ 0)
          × (over.cleanups ≡ cleaned (not (is_negative (pos 0)))))
    × (over.phase ≢ waiting → over.pin ≡ none)
Runs-released_example =
    Runs-released size size code_of none (pos 0) over (then_does abandoned-Runs over-RequestStep)
