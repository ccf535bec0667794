-- ===== src/Requests.antt =====
-- fiberize/include/fiberize/io/detail/libuvwrapper.hpp: an operation of libuv with a request, in the
-- modes Await, Block and Async. libuv is a parameter: the code that starting the operation returns,
-- the request as the loop hands it to the callback, and the functions that read a request.
pub mod Modes
pub mod Shapes
pub mod Lifetime
mod Examples
use fiberize.Base.{
  ℕ, zero, suc, ◌+◌, ◌-◌, ◌^◌, Bool, true, false, Option, none, some, List, [], ◌∷◌, ◌++◌, ◌==◌,
  if◌then◌else◌, u32, then_do, ℤ, is_negative, neg, ◌≡◌, refl,
}
use fiberize.Identity.{TaskPath}
use fiberize.Task.{Exn}
use fiberize.Results.{Result, result, value, exception}
use fiberize.Pinning.{pin_scope, unpin_scope}

-- Whom a finished request is for: the fiber that waits until the condition is set, or the fiber that
-- gets the result as an event.
pub data Owner : Type 0 where
  awaiting : Bool → ℕ → Owner
  sending : ℕ → TaskPath → Owner

-- `AwaitRequestEnv` and `AsyncRequestEnv`, with the count of their references.
pub record RequestEnv (Q : Type 0) : Type 0 where
  pub request : Q
  pub dirty : Bool
  pub count : ℕ
  pub owner : Owner
  pub scheduler : ℕ

-- How far `execute` has come: it waits, or it has returned a value or an event, or thrown an error of
-- the system or what a handler threw meanwhile.
pub data Phase (A : Type 0) : Type 0 where
  ready waiting : Phase A
  returned : A → Phase A
  promised : TaskPath → Phase A
  failed : ℤ → Phase A
  interrupted : Exn → Phase A

-- One call of `execute`: its environment while there is one, the pin of the task, how many references
-- to the task the environment holds, how often the request was cleaned up, the resumed tasks and the
-- events sent, each with the current scheduler at that time, and whether the loop has the callback.
pub record Operation (Q A : Type 0) : Type 0 where
  pub env : Option (RequestEnv Q)
  pub pin : Option ℕ
  pub was_pinned : Bool
  pub task_references : ℕ
  pub cleanups : ℕ
  pub resumed : List (Option ℕ × ℕ)
  pub sent : List (Option ℕ × ℕ × TaskPath × Result A)
  pub pending : Bool
  pub phase : Phase A

abbrev pub fresh : {Q A : Type 0} → Option ℕ → Operation Q A
fresh pin = record {
  env = none;
  pin = pin;
  was_pinned = false;
  task_references = 0;
  cleanups = 0;
  resumed = [];
  sent = [];
  pending = false;
  phase = ready;
}

-- `SwapScheduler`: the scheduler to go back to, and the current one; then the current one again.
unfoldable pub swap_scheduler : ℕ → Option ℕ → Option ℕ × Option ℕ
swap_scheduler new current = (current, some new)

swap_back : Option ℕ → Option ℕ
swap_back (some old) = some old
swap_back none = none

swap_back-swap_scheduler :
    (new : ℕ) (current : Option ℕ) → swap_back (swap_scheduler new current).0 ≡ current
unfolding swap_back swap_scheduler
swap_back-swap_scheduler new none = refl
swap_back-swap_scheduler new (some old) = refl

-- `~AwaitRequestEnv` drops the task, `~AsyncRequestEnv` has no task; a dirty request is cleaned up.
abbrev pub task_dropped : Owner → ℕ → ℕ
task_dropped (awaiting condition task) n = n - 1
task_dropped (sending self event) n = n

abbrev pub cleaned : Bool → ℕ
cleaned true = 1
cleaned false = 0

module _ {Q A : Type 0} where
  -- A call that touches a deleted environment gives `none`.
  abbrev pub on_env :
      (RequestEnv Q → Option (Operation Q A)) → Option (RequestEnv Q) → Option (Operation Q A)
  on_env f none = none
  on_env f (some e) = f e

  unfoldable pub destroy_env : RequestEnv Q → Operation Q A → Operation Q A
  destroy_env e s = record s {
    env = none;
    task_references = task_dropped e.owner s.task_references;
    cleanups = s.cleanups + cleaned e.dirty;
  }

  -- `ReferenceCountedAtomic::grab` and `drop` of the environment.
  unfoldable pub grab_env : Operation Q A → Option (Operation Q A)
  grab_env s =
      on_env (λ e. some (record s { env = some (record e { count = u32 (e.count + 1) }) })) s.env

  unfoldable pub drop_env : Operation Q A → Option (Operation Q A)
  drop_env s =
      on_env
        (λ e. some (
          if e.count == 1
          then destroy_env e s
          else record s { env = some (record e { count = u32 (e.count + 2 ^ 32 - 1) }) }))
        s.env

  -- The constructors of the environments; the request is not initialised.
  unfoldable pub new_await_env : Q → ℕ → ℕ → Operation Q A → Operation Q A
  new_await_env raw task scheduler s = record s {
    env = some (record {
      request = raw;
      dirty = false;
      count = 0;
      owner = awaiting false task;
      scheduler = scheduler;
    });
    task_references = s.task_references + 1;
  }

  unfoldable pub new_async_env : Q → ℕ → TaskPath → ℕ → Operation Q A → Operation Q A
  new_async_env raw self event scheduler s = record s {
    env = some (record {
      request = raw;
      dirty = false;
      count = 0;
      owner = sending self event;
      scheduler = scheduler;
    });
  }

  unfoldable pub pin_operation : ℕ → Operation Q A → Operation Q A
  pin_operation scheduler s = record s {
    pin = (pin_scope scheduler s.pin).0;
    was_pinned = (pin_scope scheduler s.pin).1;
  }

  -- The end of `execute`: the pointer to the environment goes, then the pin.
  unfoldable pub finish : Phase A → Operation Q A → Option (Operation Q A)
  finish phase s =
      then_do (drop_env s)
        (λ t. some (record t { pin = unpin_scope t.was_pinned t.pin; phase = phase }))

  -- From `env->grab()` to `env->dirty = true`, with the code that `uvfunction` returns.
  unfoldable pub start_request :
      ℤ → (Operation Q A → Option (Operation Q A)) → Operation Q A → Option (Operation Q A)
  start_request code next s = then_do (grab_env s) (λ t.
      if is_negative code
      then then_do (drop_env t) (finish (failed (neg code)))
      else on_env (λ e. next (record t { env = some (record e { dirty = true }); pending = true }))
          t.env)

  -- `execute(Await)` up to `processUntil`.
  unfoldable pub execute_await : Q → ℕ → ℕ → ℤ → Operation Q A → Option (Operation Q A)
  execute_await raw task scheduler code s =
      then_do (grab_env (new_await_env raw task scheduler (pin_operation scheduler s)))
        (start_request code (λ t. some (record t { phase = waiting })))

  -- `execute(Async)`.
  unfoldable pub execute_async : Q → ℕ → TaskPath → ℕ → ℤ → Operation Q A → Option (Operation Q A)
  execute_async raw self event scheduler code s =
      then_do (grab_env (new_async_env raw self event scheduler (pin_operation scheduler s)))
        (start_request code (finish (promised event)))

module _ {Q A : Type 0} (status : Q → ℤ) (extractor : Q → A) where
  -- What a finished request comes to in `execute(Await)` and `execute(Block)`.
  unfoldable pub conclude : Q → Phase A
  conclude q = if is_negative (status q) then failed (neg (status q)) else returned (extractor q)

  -- `execute(Block)`: how it ends, and how often `~BlockRequestEnv` cleans the request up.
  unfoldable pub execute_block : ℤ → Q → Phase A × ℕ
  execute_block code q =
      if is_negative code then (failed (neg code), cleaned false) else (conclude q, cleaned true)

  -- The rest of `execute(Await)` after `processUntil` returned.
  unfoldable pub extract : Operation Q A → Option (Operation Q A)
  extract s = on_env (λ e. finish (conclude e.request) s) s.env

  -- The event that `AsyncRequestEnv::completed` sends; the code of an exception of the system is given
  -- by `system_error`.
  unfoldable pub outcome : (ℤ → ℕ) → Q → Result A
  outcome system_error q =
      if is_negative (status q)
      then record { is_value_ = false; member = exception (some (system_error (neg (status q)))) }
      else record { is_value_ = true; member = value (extractor q) }

  -- `AwaitRequestEnv::completed` and `AsyncRequestEnv::completed`, with the current scheduler of the
  -- thread.
  unfoldable pub completed_await : Option ℕ → RequestEnv Q → ℕ → Operation Q A → Operation Q A
  completed_await thread e task s = record s {
    env = some (record e { owner = awaiting true task });
    resumed = s.resumed ++ ((swap_scheduler e.scheduler thread).1, task) ∷ [];
  }

  unfoldable pub completed_async :
      (ℤ → ℕ) → Option ℕ → RequestEnv Q → ℕ → TaskPath → Operation Q A → Operation Q A
  completed_async system_error thread e self event s = record s {
    sent =
        s.sent
        ++ ((swap_scheduler e.scheduler thread).1, self, event, outcome system_error e.request)
          ∷ [];
  }

  abbrev completed : (ℤ → ℕ) → Option ℕ → RequestEnv Q → Owner → Operation Q A → Operation Q A
  completed system_error thread e (awaiting condition task) s = completed_await thread e task s
  completed system_error thread e (sending self event) s =
      completed_async system_error thread e self event s

  -- `callback`, when the loop has filled in the request; it leaves the current scheduler as it was.
  unfoldable pub callback : (ℤ → ℕ) → Q → Option ℕ → Operation Q A → Option (Operation Q A)
  callback system_error q thread s =
      on_env
        (λ e.
          let filled = record e { request = q } in
          drop_env
            (record (completed system_error thread filled filled.owner
              (record s { env = some filled })) { pending = false }))
        s.env
