-- ===== src/Events/Examples.antt =====
-- A task that awaits an event which is already in its mailbox.
use fiberize.Base.{ℕ, ◌≡◌, refl, true, false, Option, none, some, [], ◌∷◌, ◌++◌}
use fiberize.Identity.{global, named}
use fiberize.Handlers.{find}
use fiberize.Deque
use fiberize.Mailbox.{PendingEvent, DequeMailbox, dequeue, free}
use fiberize.Task.{Task, running}
use fiberize.Context.{UserCode, Processing, returned}
use fiberize.Events.{await}
use fiberize.Events.Await.{await-next}
use fiberize.Samples.{raw_task}

abbrev greeting : PendingEvent
greeting = record { path = global (named (104 ∷ 105 ∷ [])); payload = 42; free_data = true }

abbrev emptied : DequeMailbox
emptied = record { pending_events = record { queue = some [] } }

abbrev waiting_task : Task
waiting_task = record raw_task {
  status = running;
  handlers_initialized = true;
  mailbox = record { pending_events = record { queue = some (greeting ∷ []) } };
}

abbrev no_code : UserCode ℕ
no_code code payload w = (w, none)

await-next_example :
    (u : Processing (ℕ × Option ℕ)) × (await 9 no_code
        (record { path = greeting.path })
        1
        1
        (λ w. w)
        (record {
          world = record { task = waiting_task; memory = (0, none) };
          owns_lock = false;
          freed = [];
        })
      ≡ returned (some 42, u))
    × (u.task.mailbox ≡ emptied)
    × (u.freed ≡ [] ++ free greeting)
    × (u.owns_lock ≡ false)
unfolding dequeue find Deque.empty Deque.front Deque.pop_front
await-next_example =
    await-next 9 no_code waiting_task 0 greeting emptied 0 0 (λ w. w) false [] refl refl refl
