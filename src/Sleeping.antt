-- ===== src/Sleeping.antt =====
-- fiberize/src/fiberize/io/sleep.cpp with the handle environments of
-- fiberize/include/fiberize/io/detail/libuvwrapper.hpp: a fiber that sleeps on a timer of libuv. The
-- loop is a parameter: the codes that the start of the timer returns, and the moments at which it
-- calls back and has closed the handle.
pub mod Shapes
pub mod Lifetime
mod Examples
use fiberize.Base.{
  ℕ, zero, suc, ◌+◌, ◌-◌, ◌^◌, Bool, true, false, Option, none, some, List, [], ◌∷◌, ◌++◌, ◌==◌,
  if◌then◌else◌, u32, then_do, ℤ, is_negative, neg,
}
use fiberize.Identity.{TaskPath}
use fiberize.Task.{Exn}
use fiberize.Results.Nothing.{VoidResult}
use fiberize.Pinning.{pin_scope, unpin_scope}
use fiberize.Requests.{Owner, awaiting, sending, task_dropped, swap_scheduler}

-- The state of a handle for libuv.
pub data Handle : Type 0 where
  unknown initialized active closing closed : Handle

-- `AwaitHandleEnv` and `AsyncHandleEnv`, with the count of their references.
pub record HandleEnv : Type 0 where
  pub count : ℕ
  pub owner : Owner
  pub scheduler : ℕ

pub data Sleeping : Type 0 where
  ready asleep awake : Sleeping
  promised : TaskPath → Sleeping
  failed : ℤ → Sleeping
  interrupted : Exn → Sleeping

-- One call of `millisleep`: as for an operation with a request, the state of the handle for libuv, and
-- the state that it was in when its memory was freed.
pub record Nap : Type 0 where
  pub env : Option HandleEnv
  pub pin : Option ℕ
  pub was_pinned : Bool
  pub task_references : ℕ
  pub resumed : List (Option ℕ × ℕ)
  pub sent : List (Option ℕ × ℕ × TaskPath × VoidResult)
  pub timer : Handle
  pub freed_as : Option Handle
  pub phase : Sleeping

abbrev pub new_nap : Option ℕ → Nap
new_nap pin = record {
  env = none;
  pin = pin;
  was_pinned = false;
  task_references = 0;
  resumed = [];
  sent = [];
  timer = unknown;
  freed_as = none;
  phase = ready;
}

abbrev pub on_env : (HandleEnv → Option Nap) → Option HandleEnv → Option Nap
on_env f none = none
on_env f (some e) = f e

-- `~AwaitHandleEnv` drops the task; the handle goes with the environment.
unfoldable pub destroy_env : HandleEnv → Nap → Nap
destroy_env e s = record s {
  env = none;
  task_references = task_dropped e.owner s.task_references;
  freed_as = some s.timer;
}

-- `ReferenceCounted::grab` and `drop` of the environment.
unfoldable pub grab_env : Nap → Option Nap
grab_env s =
    on_env (λ e. some (record s { env = some (record e { count = u32 (e.count + 1) }) })) s.env

unfoldable pub drop_env : Nap → Option Nap
drop_env s =
    on_env
      (λ e.
        let count = u32 (e.count + 2 ^ 32 - 1) in
        some (
          if count == 0
          then destroy_env e s
          else record s { env = some (record e { count = count }) }))
      s.env

-- `AwaitHandleEnv::AwaitHandleEnv` with the task grabbed, and `AsyncHandleEnv::AsyncHandleEnv`.
unfoldable pub new_await_env : ℕ → ℕ → Nap → Nap
new_await_env task scheduler s = record s {
  env = some (record { count = 0; owner = awaiting false task; scheduler = scheduler });
  task_references = s.task_references + 1;
}

unfoldable pub new_async_env : ℕ → TaskPath → ℕ → Nap → Nap
new_async_env self event scheduler s = record s {
  env = some (record { count = 0; owner = sending self event; scheduler = scheduler });
}

unfoldable pub pin_nap : ℕ → Nap → Nap
pin_nap scheduler s = record s {
  pin = (pin_scope scheduler s.pin).0;
  was_pinned = (pin_scope scheduler s.pin).1;
}

-- The end of `millisleep`: the pointer to the environment goes, then the pin.
unfoldable pub finish : Sleeping → Nap → Option Nap
finish phase s =
    then_do (drop_env s)
      (λ t. some (record t { pin = unpin_scope t.was_pinned t.pin; phase = phase }))

-- From `uv_timer_init`, with its code, to the code of `uv_timer_start`.
unfoldable pub start_timer : ℤ → ℤ → (Nap → Option Nap) → Nap → Option Nap
start_timer init code next s =
    if is_negative init
    then finish (failed (neg init)) s
    else then_do (grab_env (record s { timer = initialized })) (λ t.
      if is_negative code
      then then_do (drop_env t) (finish (failed (neg code)))
      else next (record t { timer = active }))

-- `millisleep<Await>` up to `processUntil`.
unfoldable pub sleep_await : ℕ → ℕ → ℤ → ℤ → Nap → Option Nap
sleep_await task scheduler init code s =
    then_do (grab_env (new_await_env task scheduler (pin_nap scheduler s)))
      (start_timer init code (λ t. some (record t { phase = asleep })))

-- `millisleep<Async>`.
unfoldable pub sleep_async : ℕ → TaskPath → ℕ → ℤ → ℤ → Nap → Option Nap
sleep_async self event scheduler init code s =
    then_do (grab_env (new_async_env self event scheduler (pin_nap scheduler s)))
      (start_timer init code (finish (promised event)))

abbrev nothing_sent : VoidResult
nothing_sent = record { is_value_ = true; exception_ = none }

-- `AwaitHandleEnv::completed` and `AsyncHandleEnv::completed`, with the current scheduler of the thread.
unfoldable pub completed_await : Option ℕ → HandleEnv → ℕ → Nap → Nap
completed_await thread e task s = record s {
  env = some (record e { owner = awaiting true task });
  resumed = s.resumed ++ ((swap_scheduler e.scheduler thread).1, task) ∷ [];
}

unfoldable pub completed_async : Option ℕ → HandleEnv → ℕ → TaskPath → Nap → Nap
completed_async thread e self event s = record s {
  sent = s.sent ++ ((swap_scheduler e.scheduler thread).1, self, event, nothing_sent) ∷ [];
}

abbrev completed : Option ℕ → HandleEnv → Owner → Nap → Nap
completed thread e (awaiting condition task) s = completed_await thread e task s
completed thread e (sending self event) s = completed_async thread e self event s

-- `callback`: the handle begins to close.
unfoldable pub callback : Option ℕ → Nap → Option Nap
callback thread s =
    on_env (λ e. some (record (completed thread e e.owner s) { timer = closing })) s.env

-- The closure given to `uv_close`, when the loop has closed the handle.
unfoldable pub close_callback : Nap → Option Nap
close_callback s = drop_env (record s { timer = closed })
