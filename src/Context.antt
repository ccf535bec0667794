-- ===== src/Context.antt =====
-- fiberize/src/fiberize/context.cpp: processing the events of the running task. A closure of the user
-- is a parameter: it changes the task and a memory of its own, and may throw. What other threads do to
-- the task while its lock is free counts as done by the closure that runs meanwhile.
pub mod Dispatch
pub mod Process
pub mod Accounting
pub mod Killing
pub mod Pending
use fiberize.Base.{
  ℕ, zero, suc, ◌+◌, Bool, true, false, not, Option, none, some, List, [], ◌∷◌, ◌++◌, length,
  get_elem?, ltb, if◌then◌else◌,
}
use fiberize.Identity.{TaskPath, Bytes, global, named}
use fiberize.Handlers.{
  Closure, throws_killed, runs, Handler, HandlerBlock, HandlerTable, new_handler, collect_garbage,
  find, emplace_back, store, erase,
}
use fiberize.Handlers
use fiberize.Mailbox.{PendingEvent, DequeMailbox, dequeue, free}
use fiberize.Task.{Task, Exn, killed, bad_function_call}

-- `kill` of fiberize/src/fiberize/events.cpp: the event named "fiberize::kill".
abbrev pub kill_name : Bytes
kill_name =
    b'f' ∷ b'i' ∷ b'b' ∷ b'e' ∷ b'r' ∷ b'i' ∷ b'z' ∷ b'e' ∷ b':' ∷ b':' ∷ b'k' ∷ b'i' ∷ b'l' ∷ b'l'
    ∷ []

abbrev pub kill_path : TaskPath
kill_path = global (named kill_name)

-- The handler is grabbed once and its reference never dropped.
unfoldable pub initialize_handlers : Task → Task
initialize_handlers t = record t {
  handlers = emplace_back kill_path (Handlers.grab (new_handler throws_killed)) t.handlers;
  handlers_initialized = true;
}

-- `context::detail::bind`: the handler is counted by the reference that the caller gets.
unfoldable pub bind : TaskPath → Closure → Task → Task
bind path c t = record t { handlers = emplace_back path (Handlers.grab (new_handler c)) t.handlers }

-- How a call ends: it returns, it throws, its behaviour is undefined, or the fuel runs out.
pub data Outcome (S : Type 0) : Type 0 where
  returned : S → Outcome S
  threw : Exn → S → Outcome S
  undefined exhausted : Outcome S

-- What follows a call, if it returned.
abbrev pub and_then : {S : Type 0} → Outcome S → (S → Outcome S) → Outcome S
and_then (returned s) next = next s
and_then (threw x s) next = threw x s
and_then undefined next = undefined
and_then exhausted next = exhausted

-- The handler at place `k` of the block in the map, for a loop over a block of `n` handlers. A block
-- that is gone, has grown or is too short has made the iterators invalid.
abbrev pub place : ℕ → ℕ → Option HandlerBlock → Option Handler
place n k none = none
place n k (some block) =
    if ltb n (length block)
    then none
    else elim (get_elem? block k) [ none ↦ none | some slot ↦ slot ]

-- The running task and the memory that the closures share.
pub record World (M : Type 0) : Type 0 where
  pub task : Task
  pub memory : M

abbrev pub UserCode : Type 0 → Type 0
UserCode M = ℕ → ℕ → World M → World M × Option Exn

abbrev pub with_handlers : {M : Type 0} → HandlerTable → World M → World M
with_handlers table w = record { task = record (w.task) { handlers = table }; memory = w.memory }

module _ {M : Type 0} (call : UserCode M) where
  abbrev ended : World M × Option Exn → Outcome (World M)
  ended (w, none) = returned w
  ended (w, some x) = threw x w

  -- `TypedHandler::execute`; an empty `std::function` throws.
  abbrev pub execute : Handler → ℕ → World M → Outcome (World M)
  execute h payload w = elim h.closure [
    | none ↦ threw bad_function_call w
    | some c ↦ elim c [ throws_killed ↦ threw killed w | runs code ↦ ended (call code payload w) ]
  ]

  -- `(*it)->execute(event.data)`, then the rest of the loop.
  abbrev pub run_at :
      Option Handler → ℕ → World M → (World M → Outcome (World M)) → Outcome (World M)
  run_at none payload w next = undefined
  run_at (some h) payload w next = and_then (execute h payload w) next

  -- The loop from `rbegin` to `rend`, with `k` handlers to go of the `n` that the block had.
  unfoldable pub execute_down : ℕ → TaskPath → ℕ → ℕ → World M → Outcome (World M)
  execute_down n path payload zero w = returned w
  execute_down n path payload (suc k) w =
      run_at (place n k (find path w.task.handlers)) payload w (execute_down n path payload k)

  -- The part of `dispatchEvent` after the collection.
  unfoldable pub dispatch_block : HandlerBlock → PendingEvent → World M → Outcome (World M)
  unfolding execute_down
  dispatch_block [] event w = returned (with_handlers (erase event.path w.task.handlers) w)
  dispatch_block (slot ∷ slots) event w =
      let kept = slot ∷ slots in
      execute_down (length kept) event.path event.payload (length kept)
        (with_handlers (store event.path kept w.task.handlers) w)

  abbrev pub dispatch_collected :
      Option (HandlerBlock × List Handler) → PendingEvent → World M → Outcome (World M)
  dispatch_collected none event w = undefined
  dispatch_collected (some (kept, _)) event w = dispatch_block kept event w

  abbrev pub dispatch_found : Option HandlerBlock → PendingEvent → World M → Outcome (World M)
  dispatch_found none event w = returned w
  dispatch_found (some block) event w = dispatch_collected (collect_garbage block) event w

  unfoldable pub dispatch_event : PendingEvent → World M → Outcome (World M)
  dispatch_event event w = dispatch_found (find event.path w.task.handlers) event w

abbrev pub with_task : {M : Type 0} → Task → World M → World M
with_task t w = record { task = t; memory = w.memory }

-- The state of `process`: the world, whether the task's lock is held, and what has been freed.
pub record Processing (M : Type 0) : Type 0 where
  pub world : World M
  pub open world use *
  pub owns_lock : Bool
  pub freed : List ℕ

abbrev pub initialized : {M : Type 0} → World M → World M
initialized w = if w.task.handlers_initialized then w else with_task (initialize_handlers w.task) w

-- `task->resumesExpected = task->resumes;`
abbrev pub settle : {M : Type 0} → Processing M → Processing M
settle s = record s {
  world = with_task (record (s.task) { resumes_expected = s.task.resumes }) s.world;
}

module _ {M : Type 0} (call : UserCode M) where
  -- The payload is freed however the handlers end; the lock is taken again if they return.
  abbrev pub freeing : PendingEvent → List ℕ → Outcome (World M) → Outcome (Processing M)
  freeing event freed (returned v) =
      returned (record { world = v; owns_lock = true; freed = freed ++ free event })
  freeing event freed (threw x v) =
      threw x (record { world = v; owns_lock = false; freed = freed ++ free event })
  freeing event freed undefined = undefined
  freeing event freed exhausted = exhausted

  -- One event taken out of the mailbox, which leaves `rest`.
  unfoldable pub handle : PendingEvent → DequeMailbox → Processing M → Outcome (Processing M)
  handle event rest s = freeing event s.freed (
      dispatch_event call event
        (initialized (with_task (record (s.task) { mailbox = rest }) s.world)))

  -- `context::detail::process`, called with the lock held. The fuel bounds the events.
  unfoldable pub process : ℕ → Processing M → Outcome (Processing M)
  process zero s = exhausted
  process (suc fuel) s = elim s.task.stopped [
    | true ↦ returned (settle s)
    | false ↦ elim (dequeue s.task.mailbox) [
      | none ↦ undefined
      | some (o, rest) ↦ elim o [
        | none ↦ returned (settle s)
        | some event ↦ elim (handle event rest s) [
          | returned t ↦ process fuel t
          | threw x t ↦ threw x t
          | undefined ↦ undefined
          | exhausted ↦ exhausted
        ]
      ]
    ]
  ]

  -- The inner loop of `processUntil`: it looks at no `stopped`, and ends early by the condition.
  unfoldable pub process_pending : ℕ → (M → Bool) → Processing M → Outcome (Bool × Processing M)
  process_pending zero condition s = exhausted
  process_pending (suc fuel) condition s = elim (dequeue s.task.mailbox) [
    | none ↦ undefined
    | some (o, rest) ↦ elim o [
      | none ↦ returned (false, record (settle s) { owns_lock = false })
      | some event ↦ elim (handle event rest s) [
        | returned t ↦ elim (condition t.memory) [
          | true ↦ returned (true, record t { owns_lock = false })
          | false ↦ process_pending fuel condition t
        ]
        | threw x t ↦ threw x (true, t)
        | undefined ↦ undefined
        | exhausted ↦ exhausted
      ]
    ]
  ]

  -- `processUntil`: `rounds` bounds the suspensions, and `suspend` is what the others do to the
  -- world while the task is suspended.
  unfoldable pub process_until :
      ℕ → ℕ → (M → Bool) → (World M → World M) → Processing M → Outcome (Processing M)
  process_until zero fuel condition suspend s = exhausted
  process_until (suc rounds) fuel condition suspend s = elim (condition s.memory) [
    | true ↦ returned s
    | false ↦ elim (process_pending fuel condition (record s { owns_lock = true })) [
      | returned (met, t) ↦ elim met [
        | true ↦ returned t
        | false ↦ process_until rounds fuel condition suspend (record t { world = suspend t.world })
      ]
      | threw x (_, t) ↦ threw x t
      | undefined ↦ undefined
      | exhausted ↦ exhausted
    ]
  ]
