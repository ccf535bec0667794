-- ===== src/Context/Killing.antt =====
-- What a kill event does in fiberize/src/fiberize/context.cpp to a task that has bound no handler.
use fiberize.Base.{ℕ, suc, ◌≡◌, refl, false, some, [], ◌∷◌, ◌++◌}
use fiberize.Identity.{path_eq, ident_eq, bytes_eq}
use fiberize.Handlers.{
  Handler, HandlerTable, HandlerBlock, new_handler, throws_killed, emplace_back, find, store, erase,
  collect_garbage, gc_loop, is_destroyed,
}
use fiberize.Handlers
use fiberize.Mailbox.{PendingEvent, DequeMailbox, dequeue}
use fiberize.Task.{killed}
use fiberize.Context.{
  threw, World, UserCode, Processing, kill_path, initialize_handlers, dispatch_event, handle,
  process, execute_down, dispatch_block, initialized, with_task, with_handlers,
}
use fiberize.Context.Process.{process-handle}

abbrev pub kill_event : PendingEvent
kill_event = record { path = kill_path; payload = 0; free_data = false }

abbrev kill_table : HandlerTable
kill_table = (kill_path, some (record { ref_count = 1; closure = some throws_killed }) ∷ []) ∷ []

module _ {M : Type 0} (call : UserCode M) where
  dispatch_event-killed :
      (w : World M)
      → w.task.handlers ≡ kill_table
      → (v : World M) × (dispatch_event call kill_event w ≡ threw killed v)
  unfolding dispatch_event find path_eq ident_eq bytes_eq collect_garbage gc_loop is_destroyed
      dispatch_block execute_down store
  dispatch_event-killed w e = (with_handlers kill_table w, rw e refl)

  initialized-kill_table :
      (w : World M)
      → w.task.handlers_initialized ≡ false
      → w.task.handlers ≡ []
      → (initialized w).task.handlers ≡ kill_table
  unfolding initialize_handlers emplace_back Handlers.grab
  initialized-kill_table w fresh nothing = rw fresh (rw nothing refl)

  -- The handler of the kill event is set up, and throws.
  pub process-killed :
      (fuel : ℕ) (s : Processing M) (rest : DequeMailbox)
      → s.task.stopped ≡ false
      → s.task.handlers_initialized ≡ false
      → s.task.handlers ≡ []
      → dequeue s.task.mailbox ≡ some (some kill_event, rest)
      → (t : Processing M) × (process call (suc fuel) s ≡ threw killed t) × (t.owns_lock ≡ false)
  unfolding handle
  process-killed fuel s rest live fresh nothing next =
      let killed_by = dispatch_event-killed w (initialized-kill_table _ fresh nothing) in
      (
        record { world = killed_by.0; owns_lock = false; freed = s.freed ++ [] },
        rw (process-handle call fuel s live next) (rw killed_by.1 refl),
        refl,
      )
    where
      w : World M
      w = initialized (with_task (record (s.task) { mailbox = rest }) s.world)
