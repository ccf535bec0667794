-- ===== src/Examples.antt =====
-- The theorems on the data structures, on handlers and on events at concrete inputs.
use fiberize.Base.{
  ℕ, zero, suc, Option, ◌+◌, ◌^◌, ◌≤◌, ◌≡◌, ◌↔◌, refl, true, false, not, none, some, List, [], ◌∷◌,
  ◌++◌, map, ◌==◌, if◌then◌else◌, total, Bool-cases, inl, inr, ==_iff, count, arith,
}
use fiberize.Deque.{lazy}
use fiberize.Deque.Refinement.{pushes_back, pops_front, tests_empty, run, list_run, run-list_run}
use fiberize.Identity.{TaskPath, dev_null, global, named, path_eq, path_ne, new_generator, generate}
use fiberize.Identity.Paths.{path_eq-sound_complete}
use fiberize.Identity.Generators.{generate_list, generate_list-injective, generate-collides}
use fiberize.Mailbox.{PendingEvent, DequeMailbox, events, clear, destroy}
use fiberize.Mailbox.Fifo.{puts, takes, history, put_events, history_fifo}
use fiberize.Mailbox.Ownership.{clear-destroy_frees_twice}
use fiberize.Handlers.{Handler, runs, find, collect_garbage, is_destroyed}
use fiberize.Handlers.Garbage.{alive, dead, collect_garbage-select}
use fiberize.Handlers.References.{
  References, copies, act, copy_assign, IsCounted, act-IsCounted, copy_assign-self_empties,
}
use fiberize.Task.{Task, running}
use fiberize.Context.{World, UserCode, Processing, returned, process, dispatch_event}
use fiberize.Context.Dispatch.{Distinct, dispatched, dispatch_event-dispatched}
use fiberize.Events.{with_await}
use fiberize.Events.Releasing.{with_await-KeepsOthers}
use fiberize.Context.Process.{IsSettled, Accounts, process-IsSettled}
use fiberize.Context.Accounting.{process-Accounts}

run-list_run_example :
    run (lazy {A = ℕ}) (pushes_back 3 ∷ pops_front ∷ tests_empty ∷ [])
    ≡ list_run [] (pushes_back 3 ∷ pops_front ∷ tests_empty ∷ [])
run-list_run_example = run-list_run lazy (pushes_back 3 ∷ pops_front ∷ tests_empty ∷ [])

abbrev first_path : TaskPath
first_path = global (named (b'a' ∷ []))

abbrev second_path : TaskPath
second_path = global (named (b'b' ∷ []))

path_eq-sound_complete_example :
    ((path_eq first_path second_path ≡ true) ↔ (first_path ≡ second_path))
    × (path_ne first_path second_path ≡ not (path_eq first_path second_path))
path_eq-sound_complete_example = path_eq-sound_complete first_path second_path

generate_list-injective_example : (◌≡◌ {A = ℕ} 3 3) × (◌≡◌ {A = ℕ} 1 1)
unfolding generate_list new_generator generate
generate_list-injective_example =
    generate_list-injective 3 3 2 2 1 1 (generate (record { generator_id = 3; next_token = 1 })).0
      (omega arith) (omega arith) (omega arith) (omega arith) refl refl

generate-collides_example :
    ((generate (record { generator_id = 0; next_token = 2 ^ 48 + 7 })).0
      ≡ (generate (record { generator_id = 1; next_token = 7 })).0)
    × ((generate (record { generator_id = 2 ^ 16 + 5; next_token = 7 })).0
        ≡ (generate (record { generator_id = 5; next_token = 7 })).0)
generate-collides_example = generate-collides 5 7 (omega arith) (omega arith)

abbrev owned_event : PendingEvent
owned_event = record { path = first_path; payload = 9; free_data = true }

abbrev one_event : DequeMailbox
one_event = record { pending_events = record { queue = some (owned_event ∷ []) } }

history_fifo_example :
    (taken : List PendingEvent) × (left : DequeMailbox) × (history one_event
        (puts owned_event ∷ takes ∷ [])
      ≡ some (taken, left))
    × (taken ++ events left ≡ events one_event ++ put_events (puts owned_event ∷ takes ∷ []))
history_fifo_example = history_fifo one_event (puts owned_event ∷ takes ∷ [])

clear-destroy_frees_twice_example :
    (cleared : DequeMailbox) × (fs gs : List ℕ) × (clear one_event ≡ some (cleared, fs))
    × (destroy cleared ≡ some gs)
    × (2 ≤ count 9 (fs ++ gs))
clear-destroy_frees_twice_example = clear-destroy_frees_twice one_event [] [] owned_event refl refl

abbrev live_handler : Handler
live_handler = record { ref_count = 1; closure = some (runs 4) }

abbrev dead_handler : Handler
dead_handler = record { ref_count = 0; closure = none }

abbrev three_handlers : List Handler
three_handlers = live_handler ∷ dead_handler ∷ live_handler ∷ []

collect_garbage-select_example :
    collect_garbage (map some three_handlers)
    ≡ some (map some (alive three_handlers), dead three_handlers)
collect_garbage-select_example = collect_garbage-select three_handlers

abbrev one_reference : References
one_reference = record {
  handlers = λ p. if p == 5 then live_handler else dead_handler;
  pointers = λ v. if v == 0 then some 5 else none;
}

one_reference-IsCounted : IsCounted 2 one_reference
unfolding total
one_reference-IsCounted q = elim (Bool-cases (q == 5)) [
  | inl e ↦ ground (arith, e, ==_iff q 5)
  | inr e ↦ ground (arith, e, ==_iff 5 q, ==_iff q 5)
]

act-IsCounted_example : IsCounted 2 (act (copies 1 0) one_reference)
act-IsCounted_example =
    act-IsCounted 2 one_reference (copies 1 0) (omega arith) (omega arith, omega arith, refl)
      one_reference-IsCounted

copy_assign-self_empties_example :
    let t = copy_assign 0 0 one_reference in
    (t.pointers 0 ≡ some 5)
    × ((t.handlers 5).closure ≡ none)
    × (is_destroyed (t.handlers 5) ≡ false)
copy_assign-self_empties_example = copy_assign-self_empties one_reference 0 5 refl refl

abbrev busy_task : Task
busy_task = record {
  status = running;
  scheduled = false;
  path = dev_null;
  pin = none;
  handlers_initialized = true;
  resumes = 2;
  resumes_expected = 0;
  stopped = false;
  ref_count = 1;
  handlers = (first_path, map some three_handlers) ∷ [];
  mailbox = one_event;
  runnable = some 0;
}

abbrev busy_world : World ℕ
busy_world = record { task = busy_task; memory = 0 }

-- A closure that adds the payload up.
abbrev adds : UserCode ℕ
adds code payload w = (record w { memory = w.memory + payload }, none)

abbrev busy : Processing ℕ
busy = record { world = busy_world; owns_lock = true; freed = [] }

abbrev await_handler : Handler
await_handler = record { ref_count = 1; closure = some (runs 9) }

abbrev mixed_handlers : List Handler
mixed_handlers = live_handler ∷ dead_handler ∷ await_handler ∷ []

mixed_handlers-Distinct : Distinct (alive mixed_handlers)
unfolding is_destroyed
mixed_handlers-Distinct j zero x y lt hx hy code e = absurd (omega (arith, lt))
mixed_handlers-Distinct zero (suc zero) x y lt hx hy code e = ground (arith, hx, hy, e)
mixed_handlers-Distinct (suc j) (suc zero) x y lt hx hy code e = absurd (omega (arith, lt))
mixed_handlers-Distinct j (suc (suc k)) x y lt hx hy code e = absurd (ground (arith, hy))

-- A task that awaits the event for which the user has bound a handler.
abbrev awaiting_world : World (ℕ × Option ℕ)
awaiting_world = record {
  task = record busy_task { handlers = (first_path, map some mixed_handlers) ∷ [] };
  memory = (0, none);
}

dispatch_event-dispatched_example :
    (find first_path awaiting_world.task.handlers ≡ some (map some mixed_handlers)
      → dispatch_event (with_await 9 adds) owned_event awaiting_world
        ≡ dispatched (with_await 9 adds) owned_event (alive mixed_handlers) awaiting_world)
    × (find first_path awaiting_world.task.handlers ≡ none
        → dispatch_event (with_await 9 adds) owned_event awaiting_world ≡ returned awaiting_world)
dispatch_event-dispatched_example =
    dispatch_event-dispatched (with_await 9 adds) owned_event
      (with_await-KeepsOthers 9 adds first_path (λ code payload w n k h here other. here))
      mixed_handlers awaiting_world mixed_handlers-Distinct

process-IsSettled_example : IsSettled (process adds 5 busy)
process-IsSettled_example = process-IsSettled adds 5 busy refl

process-Accounts_example : Accounts (events one_event) [] (process adds 5 busy)
process-Accounts_example = process-Accounts adds (λ code payload w. refl) 5 busy (omega arith)
