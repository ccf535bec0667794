-- ===== src/Events/Await.antt =====
-- What `Event::await` of fiberize/include/fiberize/event-inl.hpp returns.
use fiberize.Base.{
  ℕ, suc, ◌≡◌, refl, ap, ◌∙◌, Bool, true, false, Option, none, some, List, [], ◌∷◌, ◌++◌,
  if◌then◌else◌, arith, ==_refl,
}
use fiberize.Identity.{TaskPath, path_eq}
use fiberize.Identity.Paths.{path_eq_iff}
use fiberize.Handlers.{
  Handler, HandlerBlock, HandlerTable, runs, new_handler, emplace_back, find, store,
  collect_garbage, gc_loop, is_destroyed,
}
use fiberize.Handlers
use fiberize.Handlers.Table.{find-emplace_back, find-store}
use fiberize.Mailbox.{PendingEvent, DequeMailbox, dequeue, free}
use fiberize.Task.{Task}
use fiberize.Context.{
  returned, World, UserCode, Processing, bind, dispatch_event, dispatch_block, execute_down, handle,
  with_handlers, initialized, freeing,
}
use fiberize.Context.Pending.{process_pending-met, process_until-met}
use fiberize.Events.{await, await_closure, with_await, is_set, value_of}

path_eq_refl : (p : TaskPath) → path_eq p p ≡ true
path_eq_refl p = (path_eq_iff p p).1 refl

if_true : {A : Type 0} (b : Bool) (x y : A) → b ≡ true → (if b then x else y) ≡ x
if_true true x y e = refl
if_true false x y e = absurd (ground (arith, e))

initialized-same :
    {M : Type 0} (w : World M) → w.task.handlers_initialized ≡ true → initialized w ≡ w
initialized-same w e = if_true w.task.handlers_initialized w _ e

abbrev held_once : ℕ → HandlerBlock
held_once code = some (record { ref_count = 1; closure = some (runs code) }) ∷ []

module _ {M : Type 0} (call : UserCode (M × Option ℕ)) where
  -- The only handler of its path runs.
  dispatch_event-only :
      (code : ℕ) (event : PendingEvent) (w v : World (M × Option ℕ))
      → find event.path w.task.handlers ≡ some (held_once code)
      → call code event.payload
          (with_handlers (store event.path (held_once code) w.task.handlers) w)
        ≡ (v, none)
      → dispatch_event call event w ≡ returned v
  unfolding dispatch_event collect_garbage gc_loop is_destroyed dispatch_block execute_down
  dispatch_event-only code event w v e run = rw e (rw stored (rw run refl))
    where
      stored :
          find event.path (store event.path (held_once code) w.task.handlers)
          ≡ some (held_once code)
      stored =
          find-store event.path event.path (held_once code) w.task.handlers
          ∙ rw (path_eq_refl event.path, e) refl

module _ {M : Type 0} (code : ℕ) (call : UserCode M) (t : Task) (m : M) (event : PendingEvent)
    (rest : DequeMailbox) where
  -- The task with the handler of `await`, and with the event taken out.
  abbrev bound : Task
  bound = bind event.path (runs code) t

  abbrev taken : World (M × Option ℕ)
  taken = record { task = record bound { mailbox = rest }; memory = (m, none) }

  abbrev answered : World (M × Option ℕ)
  answered =
      await_closure code event.payload
        (with_handlers (store event.path (held_once code) bound.handlers) taken)

  bound-find :
      find event.path t.handlers ≡ none → find event.path bound.handlers ≡ some (held_once code)
  unfolding bind Handlers.grab
  bound-find fresh =
      find-emplace_back event.path event.path (Handlers.grab (new_handler (runs code))) t.handlers
      ∙ rw (path_eq_refl event.path, fresh) refl

  handle-answered :
      (freed : List ℕ)
      → t.handlers_initialized ≡ true
      → find event.path t.handlers ≡ none
      → handle (with_await code call) event rest (record {
        world = record { task = bound; memory = (m, none) };
        owns_lock = true;
        freed = freed;
      })
        ≡ returned (record { world = answered; owns_lock = true; freed = freed ++ free event })
  unfolding handle bind
  handle-answered freed ready fresh =
      ap
        (λ (w : World (M × Option ℕ)).
          freeing (with_await code call) event freed
            (dispatch_event (with_await code call) event w))
        (initialized-same taken ready)
      ∙ ap (freeing (with_await code call) event freed) only
    where
      only : dispatch_event (with_await code call) event taken ≡ returned answered
      only =
          dispatch_event-only (with_await code call) code event taken answered (bound-find fresh)
            (rw (==_refl code) refl)

  -- `await` of an event of whose path the task has no handler, and which is the next in the mailbox, takes it
  -- out, frees its payload once and returns what it carries, with the lock of the task free. The
  -- handlers of the task have been set up before, and await is given at least one suspension and
  -- one event.
  pub await-next :
      (rounds fuel : ℕ) (suspend : World (M × Option ℕ) → World (M × Option ℕ)) (locked : Bool)
      (freed : List ℕ)
      → t.handlers_initialized ≡ true
      → find event.path t.handlers ≡ none
      → dequeue t.mailbox ≡ some (some event, rest)
      → (u : Processing (M × Option ℕ)) × (await code call
            (record { path = event.path })
            (suc rounds)
            (suc fuel)
            suspend
            (record {
              world = record { task = t; memory = (m, none) };
              owns_lock = locked;
              freed = freed;
            })
          ≡ returned (some event.payload, u))
        × (u.task.mailbox ≡ rest)
        × (u.freed ≡ freed ++ free event)
        × (u.owns_lock ≡ false)
  unfolding await await_closure bind
  await-next rounds fuel suspend locked freed ready fresh next = (
    record { world = answered; owns_lock = false; freed = freed ++ free event },
    ap value_of (
        process_until-met (with_await code call) (λ n. is_set n.1) rounds (suc fuel) suspend
          (record {
            world = record { task = bound; memory = (m, none) };
            owns_lock = locked;
            freed = freed;
          })
          (record { world = answered; owns_lock = false; freed = freed ++ free event }) refl
          (process_pending-met (with_await code call) (λ n. is_set n.1) fuel
            (record {
              world = record { task = bound; memory = (m, none) };
              owns_lock = true;
              freed = freed;
            })
            (record { world = answered; owns_lock = true; freed = freed ++ free event }) event rest
            next (handle-answered freed ready fresh) refl)),
    refl,
    refl,
    refl,
  )
