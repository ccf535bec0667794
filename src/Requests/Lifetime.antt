-- ===== src/Requests/Lifetime.antt =====
-- fiberize/include/fiberize/io/detail/libuvwrapper.hpp: how long the environment of an operation
-- lives, whatever the order in which the loop calls back and the fiber goes on or gives up.
use fiberize.Base.{
  ℕ, ◌≡◌, ◌≢◌, refl, sym, subst, ◌∙◌, true, false, not, Option, none, some, ℤ, pos, negsuc,
  is_negative, arith, some_injective, ◌⊎◌, inl, inr,
}
use fiberize.Identity.{TaskPath}
use fiberize.Pinning.{unpin_scope-pin_scope}
use fiberize.Requests.{
  Operation, cleaned, sending, waiting, promised, fresh, execute_await, execute_async, drop_env,
  destroy_env, grab_env, finish, start_request, new_await_env, new_async_env, pin_operation,
}
use fiberize.Requests.Shapes.{
  RequestStep, Runs, awaits, promises, then_does, Shape, waits, woken, left, over,
  RequestStep-Shape,
}

module _ {Q A : Type 0} (status : Q → ℤ) (extractor : Q → A) (system_error : ℤ → ℕ) where
  execute_await-Shape :
      (raw : Q) (task k : ℕ) (pin : Option ℕ) (code : ℤ)
      → (t : Operation Q A) × (execute_await raw task k code (fresh pin) ≡ some t)
        × Shape status extractor system_error pin code t
  unfolding execute_await drop_env destroy_env grab_env finish start_request new_await_env
      pin_operation
  execute_await-Shape raw task k pin (pos n) = (_, refl, waits raw task k refl)
  execute_await-Shape raw task k pin (negsuc n) =
      (_, refl, over _ refl refl (unpin_scope-pin_scope k pin) refl refl (λ d. ground (arith, d)))

  execute_async-Shape :
      (raw : Q) (self k : ℕ) (event : TaskPath) (pin : Option ℕ) (code : ℤ)
      → (t : Operation Q A) × (execute_async raw self event k code (fresh pin) ≡ some t)
        × Shape status extractor system_error pin code t
  unfolding execute_async drop_env destroy_env grab_env finish start_request new_async_env
      pin_operation
  execute_async-Shape raw self k event pin (pos n) = (
    _,
    refl,
    left raw (sending self event) k 0 _ _ (promised event) refl refl (unpin_scope-pin_scope k pin)
        (λ d. ground (arith, d)),
  )
  execute_async-Shape raw self k event pin (negsuc n) =
      (_, refl, over _ refl refl (unpin_scope-pin_scope k pin) refl refl (λ d. ground (arith, d)))

  found :
      {pin : Option ℕ} {code : ℤ} {o : Option (Operation Q A)} {t : Operation Q A}
      → (u : Operation Q A) × (o ≡ some u) × Shape status extractor system_error pin code u
      → o ≡ some t
      → Shape status extractor system_error pin code t
  found {pin} {code} {o} {t} (u, e, shape) d =
      subst (Shape status extractor system_error pin code) (some_injective u t (sym e ∙ d)) shape

  Runs-Shape :
      (pin : Option ℕ) (code : ℤ) (s : Operation Q A)
      → Runs status extractor system_error pin code s
      → Shape status extractor system_error pin code s
  Runs-Shape pin code _ (awaits raw task k t e) = found (execute_await-Shape raw task k pin code) e
  Runs-Shape pin code _ (promises raw self k event t e) =
      found (execute_async-Shape raw self k event pin code) e
  Runs-Shape pin code _ (then_does {s} {t} runs step) =
      found
        (RequestStep-Shape status extractor system_error pin code (some t)
          (Runs-Shape pin code s runs) step)
        refl

  -- Whatever the order in which the loop calls back and the fiber goes on or gives up, no step of a
  -- started operation touches an environment that was deleted before. The environment of an operation
  -- that waits, or whose callback the loop still has, is alive and its request has not been cleaned up.
  -- Once the fiber has gone on and the loop has called back, the environment is deleted and holds no
  -- reference to a task, and the request was cleaned up once if the operation was started, and never if
  -- it was not. A fiber that does not wait has the pin that it had before the operation.
  pub Runs-released :
      (pin : Option ℕ) (code : ℤ) (s : Operation Q A)
      → Runs status extractor system_error pin code s
      → ((o : Option (Operation Q A)) → RequestStep status extractor system_error s o → o ≢ none)
        × ((s.pending ≡ true) ⊎ (s.phase ≡ waiting) → (s.env ≢ none) × (s.cleanups ≡ 0))
        × (s.pending ≡ false
            → s.phase ≢ waiting
            → (s.env ≡ none)
              × (s.task_references ≡ 0)
              × (s.cleanups ≡ cleaned (not (is_negative code))))
        × (s.phase ≢ waiting → s.pin ≡ pin)
  Runs-released pin code s runs =
      let shape = Runs-Shape pin code s runs in
      let rest = go s shape in
      (
        (λ o step gone.
            let next = RequestStep-Shape status extractor system_error pin code o shape step in
            ground (arith, next.1, gone)),
        rest.0,
        rest.1,
        rest.2,
      )
    where
      go :
          (s : Operation Q A)
          → Shape status extractor system_error pin code s
          → ((s.pending ≡ true) ⊎ (s.phase ≡ waiting) → (s.env ≢ none) × (s.cleanups ≡ 0))
            × (s.pending ≡ false
                → s.phase ≢ waiting
                → (s.env ≡ none)
                  × (s.task_references ≡ 0)
                  × (s.cleanups ≡ cleaned (not (is_negative code))))
            × (s.phase ≢ waiting → s.pin ≡ pin)
      go _ (waits r task k e) = (
        λ _. ((λ d. ground (arith, d)), refl),
        (λ d _. absurd (ground (arith, d))),
        (λ apart. absurd (apart refl)),
      )
      go _ (woken r task k tasks e) = (
        λ _. ((λ d. ground (arith, d)), refl),
        (λ d apart. absurd (apart refl)),
        (λ apart. absurd (apart refl)),
      )
      go _ (left r owner k held p was phase e h same apart) =
          (λ _. ((λ d. ground (arith, d)), refl), (λ d _. absurd (ground (arith, d))), (λ _. same))
      go s (over _ gone idle same held cleaned_up apart) = (
        λ c. elim c [ inl d ↦ absurd (ground (arith, d, idle)) | inr w ↦ absurd (apart w) ],
        λ _ _. (gone, held, cleaned_up),
        λ _. same,
      )
