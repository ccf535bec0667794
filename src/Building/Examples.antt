-- ===== src/Building/Examples.antt =====
-- A fiber with a name that is run in a system with one idle scheduler.
use fiberize.Base.{◌≡◌, refl, ◌⊎◌, true, false, none, some, [], ◌∷◌}
use fiberize.Identity.{UniqueIdentGenerator}
use fiberize.Mailbox.{new_mailbox}
use fiberize.Task.{Task}
use fiberize.Scheduling.{System, resume}
use fiberize.Delivery.{dev_null_ref, local_ref}
use fiberize.Building.{Builder, FiberSystem, Started, new_builder, run}
use fiberize.Building.Start.{IsStarted, run-IsStarted}
use fiberize.Samples.{raw_task, idle_scheduler}

-- What the memory of the task held before.
abbrev old_task : Task
old_task = record raw_task {
  scheduled = true;
  pin = some 9;
  handlers_initialized = true;
  resumes = 5;
  stopped = true;
  ref_count = 4;
}

abbrev idle_system : System
idle_system = record { tasks = λ i. old_task; schedulers = λ k. idle_scheduler }

abbrev home : FiberSystem
home = record { uuid = 77; shutting_down = false }

abbrev first_generator : UniqueIdentGenerator
first_generator = record { generator_id = 0; next_token = 0 }

abbrev greeter : Builder
greeter = record (new_builder 3 new_mailbox) { name = some (104 ∷ 105 ∷ []) }

-- Another thread resumes the task before `run` returns.
abbrev resumed_again : System → System
resumed_again s = resume 1 2 s

run-IsStarted_example :
    (t : Started) × (run home first_generator 0 2 resumed_again greeter idle_system ≡ some t)
    × (run home t.generator 0 2 resumed_again t.builder t.system ≡ none)
    × (((home.shutting_down ≡ true) × (t.ref ≡ dev_null_ref) × (t.system ≡ idle_system))
        ⊎ ((home.shutting_down ≡ false)
            × (t.ref ≡ local_ref 2)
            × ((u : System) × IsStarted home first_generator 0 2 greeter idle_system u
                × (t.system ≡ resumed_again u))))
unfolding new_builder
run-IsStarted_example =
    run-IsStarted home first_generator 0 2 resumed_again greeter idle_system refl refl
