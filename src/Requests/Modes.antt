-- ===== src/Requests/Modes.antt =====
-- The three modes of `LibUVWrapper::execute` in fiberize/include/fiberize/io/detail/libuvwrapper.hpp
-- against each other.
use fiberize.Base.{
  then_do, ℕ, ◌≡◌, refl, ◌⊎◌, inl, inr, true, false, Option, none, some, not, [], ◌∷◌, ℤ, pos,
  negsuc, is_negative, neg, arith, Bool-cases,
}
use fiberize.Identity.{TaskPath}
use fiberize.Results.{Result, get}
use fiberize.Pinning.{pin_scope, unpin_scope}
use fiberize.Requests.{
  Operation, Phase, cleaned, returned, promised, failed, fresh, execute_await, execute_async,
  execute_block, callback, extract, conclude, outcome, completed_await, completed_async, drop_env,
  destroy_env, grab_env, finish, start_request, new_await_env, new_async_env, pin_operation,
  swap_scheduler,
}

-- The value or the exception that a phase stands for.
abbrev pub delivered : {A : Type 0} → (ℤ → ℕ) → Phase A → Option (A ⊎ Option ℕ)
delivered system_error (returned a) = some (inl a)
delivered system_error (failed code) = some (inr (some (system_error code)))
delivered system_error _ = none

-- What is left of an operation that could not be started.
abbrev stopped_at_once : {Q A : Type 0} → ℕ → Option ℕ → ℤ → Operation Q A
stopped_at_once scheduler pin code = record (fresh pin) {
  pin = unpin_scope (pin_scope scheduler pin).1 (pin_scope scheduler pin).0;
  was_pinned = (pin_scope scheduler pin).1;
  phase = failed code;
}

module _ {Q A : Type 0} (status : Q → ℤ) (extractor : Q → A) (system_error : ℤ → ℕ) where
  -- A whole run in mode Await: the operation starts, the loop calls back, and the fiber goes on.
  abbrev pub run_await : Q → ℕ → ℕ → ℤ → Q → Option ℕ → Option ℕ → Option (Operation Q A)
  run_await raw task scheduler code q thread pin =
      then_do
        (then_do (execute_await raw task scheduler code (fresh pin))
          (callback status extractor system_error q thread))
        (extract status extractor)

  abbrev pub run_async : Q → ℕ → TaskPath → ℕ → ℤ → Q → Option ℕ → Option ℕ → Option (Operation Q A)
  run_async raw self event scheduler code q thread pin =
      then_do (execute_async raw self event scheduler code (fresh pin))
        (callback status extractor system_error q thread)

  -- Block on a request whose result is the code of the call.
  block-conclude :
      (q : Q)
      → execute_block status extractor (status q) q
        ≡ (conclude status extractor q, cleaned (not (is_negative (status q))))
  unfolding execute_block conclude
  block-conclude q = elim (Bool-cases (is_negative (status q))) [
    | inl e ↦ ground (arith, e)
    | inr e ↦ ground (arith, e)
  ]

  get-outcome :
      (q : Q)
      → get (outcome status extractor system_error q)
        ≡ delivered system_error (conclude status extractor q)
  unfolding get outcome conclude
  get-outcome q = elim (Bool-cases (is_negative (status q))) [
    | inl e ↦ ground (arith, e)
    | inr e ↦ ground (arith, e)
  ]

  -- An operation that was started and comes back with a request ends in the same way in the three modes,
  -- given that libuv returns the result of the request from the call without a callback that Block
  -- makes: Await returns or throws what Block does, and Async sends one event to its fiber, with the
  -- scheduler of the operation as the current one, whose result holds that value or that exception.
  -- Await and Async clean the request up once; Block does so only if the operation succeeded.
  pub modes_agree :
      (raw : Q) (task self scheduler : ℕ) (event : TaskPath) (code : ℤ) (q : Q) (code_block : ℤ)
      (thread pin : Option ℕ)
      → is_negative code ≡ false
      → code_block ≡ status q
      → (t u : Operation Q A) × (run_await raw task scheduler code q thread pin ≡ some t)
        × (run_async raw self event scheduler code q thread pin ≡ some u)
        × (execute_block status extractor code_block q
            ≡ (t.phase, cleaned (not (is_negative (status q)))))
        × (t.cleanups ≡ 1)
        × (u.cleanups ≡ 1)
        × (r : Result A) × (u.sent ≡ (some scheduler, self, event, r) ∷ [])
        × (get r ≡ delivered system_error t.phase)
  unfolding execute_await execute_async callback extract completed_await completed_async drop_env
      destroy_env grab_env finish start_request new_await_env new_async_env pin_operation
      swap_scheduler
  modes_agree raw task self scheduler event (negsuc n) q code_block thread pin e synchronous =
      absurd (ground (arith, e))
  modes_agree raw task self scheduler event (pos n) q code_block thread pin e synchronous = (
    record {
      env = none;
      pin = unpin_scope (pin_scope scheduler pin).1 (pin_scope scheduler pin).0;
      was_pinned = (pin_scope scheduler pin).1;
      task_references = 0;
      cleanups = 1;
      resumed = (some scheduler, task) ∷ [];
      sent = [];
      pending = false;
      phase = conclude status extractor q;
    },
    record {
      env = none;
      pin = unpin_scope (pin_scope scheduler pin).1 (pin_scope scheduler pin).0;
      was_pinned = (pin_scope scheduler pin).1;
      task_references = 0;
      cleanups = 1;
      resumed = [];
      sent = (some scheduler, self, event, outcome status extractor system_error q) ∷ [];
      pending = false;
      phase = promised event;
    },
    refl,
    refl,
    rw synchronous (block-conclude q),
    refl,
    refl,
    outcome status extractor system_error q,
    refl,
    get-outcome q,
  )

  -- If starting the operation fails, all three modes throw the error of the system with the same code,
  -- and none of them cleans the request up; in the modes Await and Async the environment is deleted,
  -- the loop has no callback, and the references to the task are given back.
  start_failure :
      (raw : Q) (task self scheduler : ℕ) (event : TaskPath) (code : ℤ) (q : Q) (pin : Option ℕ)
      → is_negative code ≡ true
      → (execute_block status extractor code q ≡ (failed (neg code), 0))
        × (execute_await {A = A} raw task scheduler code (fresh pin)
            ≡ some (stopped_at_once scheduler pin (neg code)))
        × (execute_async {A = A} raw self event scheduler code (fresh pin)
            ≡ some (stopped_at_once scheduler pin (neg code)))
  unfolding execute_await execute_async execute_block drop_env destroy_env grab_env finish
      start_request new_await_env new_async_env pin_operation
  start_failure raw task self scheduler event (pos n) q pin e = absurd (ground (arith, e))
  start_failure raw task self scheduler event (negsuc n) q pin e = (refl, refl, refl)
