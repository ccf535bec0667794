-- ===== src/Events.antt =====
-- fiberize/include/fiberize/event.hpp and fiberize/include/fiberize/event-inl.hpp: events, and waiting
-- for one. The memory of the closures is extended by the local variable of `await`, which is empty
-- while its condition is false.
pub mod Await
pub mod Releasing
mod Examples
use fiberize.Base.{ℕ, Bool, true, false, Option, none, some, List, [], ◌∷◌, ◌==◌, if◌then◌else◌}
use fiberize.Identity.{
  Bytes, TaskPath, global, named, path_eq, path_ne, UniqueIdentGenerator, generate,
}
use fiberize.Handlers.{Closure, runs, Handler, HandlerBlock, HandlerTable}
use fiberize.Handlers
use fiberize.Task.{Task, Exn}
use fiberize.Context.{
  Outcome, returned, threw, undefined, exhausted, World, UserCode, Processing, bind, process_until,
}

pub record Event : Type 0 where
  pub path : TaskPath

-- The two constructors, and `fromPath`.
new_event : UniqueIdentGenerator → Event × UniqueIdentGenerator
new_event g = (record { path = global (generate g).0 }, (generate g).1)

named_event : Bytes → Event
named_event name = record { path = global (named name) }

from_path : TaskPath → Event
from_path path = record { path = path }

-- `operator ==` and `operator !=`.
event_eq : Event → Event → Bool
event_eq d e = path_eq d.path e.path

event_ne : Event → Event → Bool
event_ne d e = path_ne d.path e.path

-- `handler.release()` for the handler that runs `code`: it is dropped where it stands.
abbrev pub is_code : ℕ → Option Closure → Bool
is_code code (some (runs c)) = c == code
is_code code _ = false

abbrev pub release_slot : ℕ → Option Handler → Option Handler
release_slot code none = none
release_slot code (some h) = if is_code code h.closure then some (Handlers.drop h) else some h

abbrev pub release_block : ℕ → HandlerBlock → HandlerBlock
release_block code [] = []
release_block code (slot ∷ slots) = release_slot code slot ∷ release_block code slots

unfoldable pub release_code : ℕ → HandlerTable → HandlerTable
release_code code [] = []
release_code code ((p, block) ∷ table) = (p, release_block code block) ∷ release_code code table

-- The closure that `await` binds: it sets the result and releases its handler.
unfoldable pub await_closure : {M : Type 0} → ℕ → ℕ → World (M × Option ℕ) → World (M × Option ℕ)
await_closure code payload w = record {
  task = record (w.task) { handlers = release_code code w.task.handlers };
  memory = (w.memory.0, some payload);
}

abbrev lifted : {M : Type 0} → World M × Option Exn → Option ℕ → World (M × Option ℕ) × Option Exn
lifted (v, thrown) slot = (record { task = v.task; memory = (v.memory, slot) }, thrown)

-- The closures of the user, and that of `await` under the number `code`.
abbrev pub with_await : {M : Type 0} → ℕ → UserCode M → UserCode (M × Option ℕ)
with_await code call c payload w =
    if c == code
    then (await_closure code payload w, none)
    else lifted (call c payload (record { task = w.task; memory = w.memory.0 })) w.memory.1

abbrev pub is_set : Option ℕ → Bool
is_set none = false
is_set (some v) = true

-- `result.value()`
abbrev pub value_of :
    {M : Type 0}
    → Outcome (Processing (M × Option ℕ))
    → Outcome (Option ℕ × Processing (M × Option ℕ))
value_of (returned t) = elim t.world.memory.1 [ none ↦ undefined | some v ↦ returned (some v, t) ]
value_of (threw x t) = threw x (none, t)
value_of undefined = undefined
value_of exhausted = exhausted

-- `await`, with the bounds on its suspensions and on the events between them, and with `suspend` what the
-- others do while the task is suspended.
unfoldable pub await :
    {M : Type 0}
    → ℕ
    → UserCode M
    → Event
    → ℕ
    → ℕ
    → (World (M × Option ℕ) → World (M × Option ℕ))
    → Processing (M × Option ℕ)
    → Outcome (Option ℕ × Processing (M × Option ℕ))
await code call event rounds fuel suspend s = value_of (
    process_until (with_await code call) rounds fuel (λ m. is_set m.1) suspend
      (record s { world = record (s.world) { task = bind event.path (runs code) s.world.task } }))
