-- ===== src/Bodies/Examples.antt =====
-- A listening task with an event that throws, an actor that is killed in its first run, and a future
-- that fails while two tasks wait for it.
use fiberize.Base.{ℕ, ◌≡◌, refl, inr, true, false, none, some, [], ◌∷◌, arith}
use fiberize.Deque
use fiberize.Deque.View.{to_list}
use fiberize.Mailbox.{DequeMailbox, dequeue}
use fiberize.Task.{Task, running, killed, other}
use fiberize.Condition.Broadcast.{present}
use fiberize.Context.{World, UserCode, Processing, threw}
use fiberize.Context.Killing.{kill_event}
use fiberize.Results.{Result, result}
use fiberize.Promise.{Promise}
use fiberize.Bodies.{Body, Computation, stop, run_fiber, run_actor, run_future, listen}
use fiberize.Bodies.Rounds.{Rests, EndsRun, rounds_end, run_actor-killed}
use fiberize.Bodies.Futures.{run_future-completes}
use fiberize.Samples.{raw_task}

abbrev killed_mailbox : DequeMailbox
killed_mailbox = record { pending_events = record { queue = some (kill_event ∷ []) } }

abbrev running_task : Task
running_task = record raw_task {
  status = running;
  resumes = 1;
  mailbox = killed_mailbox;
  runnable = some 0;
}

abbrev world : World ℕ
world = record { task = running_task; memory = 0 }

abbrev no_code : UserCode ℕ
no_code code payload w = (w, none)

abbrev failing : Body ℕ
failing w = (w, some (other 3))

abbrev locked : Processing ℕ
locked = record { world = world; owns_lock = true; freed = [] }

rounds_end_example :
    Rests (listen no_code 2 locked)
    × EndsRun (run_actor no_code 2 failing world)
    × ((run_fiber failing world).task.stopped ≡ true)
rounds_end_example =
    rounds_end no_code (λ code payload w. refl) 2 locked failing world refl (omega arith)
      (omega arith)

run_actor-killed_example :
    (t : Processing ℕ) × (run_actor no_code 2 failing world ≡ threw killed t)
    × (t.owns_lock ≡ false)
unfolding dequeue Deque.empty Deque.front Deque.pop_front
run_actor-killed_example =
    run_actor-killed no_code 1 failing world
      (record { pending_events = record { queue = some [] } }) refl refl refl refl

abbrev awaited : Promise (Result ℕ)
awaited = record {
  completed = record {
    waiters = record {
      released = 0;
      next_ticket = 3;
      queue = record { queue = some (some 1 ∷ some 2 ∷ []) };
    };
  };
  result = none;
}

abbrev dividing : Computation ℕ ℕ
dividing w = (w, inr 8)

run_future-completes_example :
    (q : Promise (Result ℕ)) × (q.result ≡ some (result (dividing world).1))
    × ((run_future 3 (λ c. c) dividing (world, awaited)).0 ≡ stop (dividing world).0)
    × ((run_future 3 (λ c. c) dividing (world, awaited)).1
        ≡ some (true, present (to_list awaited.completed.waiters.queue), q))
run_future-completes_example =
    run_future-completes 3 dividing world awaited refl (omega arith) (omega arith)
