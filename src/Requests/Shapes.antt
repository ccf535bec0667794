-- ===== src/Requests/Shapes.antt =====
-- fiberize/include/fiberize/io/detail/libuvwrapper.hpp: the steps of a started operation and the
-- states that it goes through.
use fiberize.Base.{
  ℕ, ◌≡◌, ◌≢◌, refl, Bool, true, false, not, Option, none, some, List, [], ℤ, is_negative, arith,
  Bool-cases, inl, inr,
}
use fiberize.Identity.{TaskPath}
use fiberize.Task.{Exn}
use fiberize.Pinning.{pin_scope, unpin_scope-pin_scope}
use fiberize.Requests.{
  Operation, RequestEnv, task_dropped, cleaned, Owner, awaiting, sending, Phase, waiting,
  interrupted, fresh, execute_await, execute_async, callback, extract, conclude, completed_await,
  completed_async, drop_env, destroy_env, finish,
}

abbrev is_awaited : {Q : Type 0} → Option (RequestEnv Q) → Bool
is_awaited none = false
is_awaited (some e) = elim e.owner [
  | awaiting condition task ↦ condition
  | sending self event ↦ false
]

module _ {Q A : Type 0} (status : Q → ℤ) (extractor : Q → A) (system_error : ℤ → ℕ) where
  -- What can happen to an operation once `execute` has started it: the loop calls back, `processUntil`
  -- returns as the condition is set, or it throws what a handler threw.
  pub data RequestStep (s : Operation Q A) : Option (Operation Q A) → Type 0 where
    calls_back :
        (q : Q) (thread : Option ℕ)
        → s.pending ≡ true
        → RequestStep s (callback status extractor system_error q thread s)
    goes_on :
        s.phase ≡ waiting → is_awaited s.env ≡ true → RequestStep s (extract status extractor s)
    gives_up : (x : Exn) → s.phase ≡ waiting → RequestStep s (finish (interrupted x) s)

  -- The operations that come about from a start in mode Await or Async that returned `code`, in a task
  -- with the pin `pin`.
  pub data Runs (pin : Option ℕ) (code : ℤ) : Operation Q A → Type 0 where
    awaits :
        (raw : Q) (task scheduler : ℕ) (t : Operation Q A)
        → execute_await raw task scheduler code (fresh pin) ≡ some t
        → Runs pin code t
    promises :
        (raw : Q) (self scheduler : ℕ) (event : TaskPath) (t : Operation Q A)
        → execute_async raw self event scheduler code (fresh pin) ≡ some t
        → Runs pin code t
    then_does : {s t : Operation Q A} → Runs pin code s → RequestStep s (some t) → Runs pin code t

  -- The states that a started operation goes through.
  pub data Shape (pin : Option ℕ) (code : ℤ) : Operation Q A → Type 0 where
    waits :
        (r : Q) (task k : ℕ)
        → is_negative code ≡ false
        → Shape pin code (record {
          env = some (record {
            request = r;
            dirty = true;
            count = 2;
            owner = awaiting false task;
            scheduler = k;
          });
          pin = (pin_scope k pin).0;
          was_pinned = (pin_scope k pin).1;
          task_references = 1;
          cleanups = 0;
          resumed = [];
          sent = [];
          pending = true;
          phase = waiting;
        })
    woken :
        (r : Q) (task k : ℕ) (tasks : List (Option ℕ × ℕ))
        → is_negative code ≡ false
        → Shape pin code (record {
          env = some (record {
            request = r;
            dirty = true;
            count = 1;
            owner = awaiting true task;
            scheduler = k;
          });
          pin = (pin_scope k pin).0;
          was_pinned = (pin_scope k pin).1;
          task_references = 1;
          cleanups = 0;
          resumed = tasks;
          sent = [];
          pending = false;
          phase = waiting;
        })
    left :
        (r : Q) (owner : Owner) (k held : ℕ) (p : Option ℕ) (was : Bool) (phase : Phase A)
        → is_negative code ≡ false
        → task_dropped owner held ≡ 0
        → p ≡ pin
        → phase ≢ waiting
        → Shape pin code (record {
          env =
              some (record { request = r; dirty = true; count = 1; owner = owner; scheduler = k });
          pin = p;
          was_pinned = was;
          task_references = held;
          cleanups = 0;
          resumed = [];
          sent = [];
          pending = true;
          phase = phase;
        })
    over :
        (s : Operation Q A)
        → s.env ≡ none
        → s.pending ≡ false
        → s.pin ≡ pin
        → s.task_references ≡ 0
        → s.cleanups ≡ cleaned (not (is_negative code))
        → s.phase ≢ waiting
        → Shape pin code s

  ended : (q : Q) → conclude status extractor q ≢ waiting
  unfolding conclude
  ended q e = elim (Bool-cases (is_negative (status q))) [
    | inl d ↦ ground (arith, d, e)
    | inr d ↦ ground (arith, d, e)
  ]

  pub RequestStep-Shape :
      (pin : Option ℕ) (code : ℤ) {s : Operation Q A} (o : Option (Operation Q A))
      → Shape pin code s
      → RequestStep s o
      → (t : Operation Q A) × (o ≡ some t) × Shape pin code t
  unfolding callback extract completed_await completed_async drop_env destroy_env finish
  RequestStep-Shape pin code _ (waits r task k e) (calls_back q thread d) =
      (_, refl, woken q task k _ e)
  RequestStep-Shape pin code _ (waits r task k e) (goes_on w d) = absurd (ground (arith, d))
  RequestStep-Shape pin code _ (waits r task k e) (gives_up x w) = (
    _,
    refl,
    left r (awaiting false task) k 1 _ _ (interrupted x) e refl (unpin_scope-pin_scope k pin)
        (λ d. ground (arith, d)),
  )
  RequestStep-Shape pin code _ (woken r task k tasks e) (calls_back q thread d) =
      absurd (ground (arith, d))
  RequestStep-Shape pin code _ (woken r task k tasks e) (goes_on w d) =
      (_, refl, over _ refl refl (unpin_scope-pin_scope k pin) refl (ground (arith, e)) (ended r))
  RequestStep-Shape pin code _ (woken r task k tasks e) (gives_up x w) = (
    _,
    refl,
    over _ refl refl (unpin_scope-pin_scope k pin) refl (ground (arith, e))
        (λ d. ground (arith, d)),
  )
  RequestStep-Shape pin code _ (left r (awaiting c task) k held p was phase e h same apart)
        (calls_back q thread d) =
      (_, refl, over _ refl refl same h (ground (arith, e)) apart)
  RequestStep-Shape pin code _ (left r (sending self event) k held p was phase e h same apart)
        (calls_back q thread d) =
      (_, refl, over _ refl refl same h (ground (arith, e)) apart)
  RequestStep-Shape pin code _ (left r owner k held p was phase e h same apart) (goes_on w d) =
      absurd (apart w)
  RequestStep-Shape pin code _ (left r owner k held p was phase e h same apart) (gives_up x w) =
      absurd (apart w)
  RequestStep-Shape pin code _ (over s gone idle same held cleaned_up apart)
        (calls_back q thread d) =
      absurd (ground (arith, idle, d))
  RequestStep-Shape pin code _ (over s gone idle same held cleaned_up apart) (goes_on w d) =
      absurd (apart w)
  RequestStep-Shape pin code _ (over s gone idle same held cleaned_up apart) (gives_up x w) =
      absurd (apart w)
