-- ===== src/Sleeping/Lifetime.antt =====
-- fiberize/src/fiberize/io/sleep.cpp: how long the timer of a sleeping fiber lives, whatever the order
-- in which the loop calls back and closes the timer and the fiber goes on or gives up.
use fiberize.Base.{
  ℕ, ◌≡◌, ◌≢◌, refl, sym, subst, ◌∙◌, Option, none, some, ℤ, pos, negsuc, arith, ◌⊎◌, inl, inr,
  some_injective,
}
use fiberize.Identity.{TaskPath}
use fiberize.Pinning.{unpin_scope-pin_scope}
use fiberize.Requests.{sending}
use fiberize.Sleeping.{
  Nap, asleep, new_nap, sleep_await, sleep_async, drop_env, destroy_env, grab_env, finish,
  start_timer, new_await_env, new_async_env, pin_nap,
}
use fiberize.Sleeping.Shapes.{
  NapStep, Naps, awaits, promises, then_does, last_handle, last_handle-rests, IsArmed, Shape, naps,
  fired, shut, left, over, NapStep-Shape,
}

sleep_await-Shape :
    (task k : ℕ) (pin : Option ℕ) (init code : ℤ)
    → (t : Nap) × (sleep_await task k init code (new_nap pin) ≡ some t) × Shape pin init code t
unfolding sleep_await drop_env destroy_env grab_env finish start_timer new_await_env pin_nap
sleep_await-Shape task k pin (negsuc m) code =
    (_, refl, over _ refl (unpin_scope-pin_scope k pin) refl refl refl (λ d. ground (arith, d)))
sleep_await-Shape task k pin (pos m) (negsuc n) =
    (_, refl, over _ refl (unpin_scope-pin_scope k pin) refl refl refl (λ d. ground (arith, d)))
sleep_await-Shape task k pin (pos m) (pos n) = (_, refl, naps task k refl)

sleep_async-Shape :
    (self k : ℕ) (event : TaskPath) (pin : Option ℕ) (init code : ℤ)
    → (t : Nap) × (sleep_async self event k init code (new_nap pin) ≡ some t)
      × Shape pin init code t
unfolding sleep_async drop_env destroy_env grab_env finish start_timer new_async_env pin_nap
sleep_async-Shape self k event pin (negsuc m) code =
    (_, refl, over _ refl (unpin_scope-pin_scope k pin) refl refl refl (λ d. ground (arith, d)))
sleep_async-Shape self k event pin (pos m) (negsuc n) =
    (_, refl, over _ refl (unpin_scope-pin_scope k pin) refl refl refl (λ d. ground (arith, d)))
sleep_async-Shape self k event pin (pos m) (pos n) = (
  _,
  refl,
  left (sending self event) k 0 _ _ _ _ _ _ refl refl (unpin_scope-pin_scope k pin) (inl refl)
      (λ d. ground (arith, d)),
)

found :
    {pin : Option ℕ} {init code : ℤ} {o : Option Nap} {t : Nap}
    → (u : Nap) × (o ≡ some u) × Shape pin init code u
    → o ≡ some t
    → Shape pin init code t
found {pin} {init} {code} {o} {t} (u, e, shape) d =
    subst (Shape pin init code) (some_injective u t (sym e ∙ d)) shape

Naps-Shape :
    (pin : Option ℕ) (init code : ℤ) (s : Nap) → Naps pin init code s → Shape pin init code s
Naps-Shape pin init code _ (awaits task k t e) = found (sleep_await-Shape task k pin init code) e
Naps-Shape pin init code _ (promises self k event t e) =
    found (sleep_async-Shape self k event pin init code) e
Naps-Shape pin init code _ (then_does {s} {t} runs step) =
    found (NapStep-Shape pin init code (some t) (Naps-Shape pin init code s runs) step) refl

-- Whatever the order in which the timer fires, the loop closes its handle and the fiber goes on or gives
-- up: no step touches an environment that was deleted before; the environment of a fiber that sleeps,
-- and of a timer that runs or is being closed, is alive; and once neither is the case the memory of
-- the timer has been freed with the environment, which holds no reference to a task. At that moment
-- the handle was closed, except that it was never initialized when `uv_timer_init` failed, and that it
-- was initialized and not closed when `uv_timer_start` failed. A fiber that does not sleep has the
-- pin that it had before.
pub Naps-freed_as :
    (pin : Option ℕ) (init code : ℤ) (s : Nap)
    → Naps pin init code s
    → ((o : Option Nap) → NapStep s o → o ≢ none)
      × (IsArmed s.timer ⊎ (s.phase ≡ asleep) → (s.env ≢ none) × (s.freed_as ≡ none))
      × (¬ IsArmed s.timer
          → s.phase ≢ asleep
          → (s.env ≡ none) × (s.task_references ≡ 0) × (s.freed_as ≡ some (last_handle init code)))
      × (s.phase ≢ asleep → s.pin ≡ pin)
Naps-freed_as pin init code s runs = (
  (λ o step gone.
      let next = NapStep-Shape pin init code o (Naps-Shape pin init code s runs) step in
      ground (arith, next.1, gone)),
  alive s (Naps-Shape pin init code s runs),
  released s (Naps-Shape pin init code s runs),
  unpinned s (Naps-Shape pin init code s runs),
)
  where
    alive :
        (s : Nap)
        → Shape pin init code s
        → IsArmed s.timer ⊎ (s.phase ≡ asleep)
        → (s.env ≢ none) × (s.freed_as ≡ none)
    alive _ (naps task k e) c = ((λ d. ground (arith, d)), refl)
    alive _ (fired task k ts e) c = ((λ d. ground (arith, d)), refl)
    alive _ (shut task k ts e) c = ((λ d. ground (arith, d)), refl)
    alive _ (left owner k held p was ts es timer phase e h same armed apart) c =
        ((λ d. ground (arith, d)), refl)
    alive s (over _ gone same held last freed apart) (inr w) = absurd (apart w)
    alive s (over _ gone same held last freed apart) (inl (inl d)) =
        absurd ((last_handle-rests init code).0 (sym last ∙ d))
    alive s (over _ gone same held last freed apart) (inl (inr d)) =
        absurd ((last_handle-rests init code).1 (sym last ∙ d))

    released :
        (s : Nap)
        → Shape pin init code s
        → ¬ IsArmed s.timer
        → s.phase ≢ asleep
        → (s.env ≡ none) × (s.task_references ≡ 0) × (s.freed_as ≡ some (last_handle init code))
    released _ (naps task k e) idle up = absurd (up refl)
    released _ (fired task k ts e) idle up = absurd (up refl)
    released _ (shut task k ts e) idle up = absurd (up refl)
    released _ (left owner k held p was ts es timer phase e h same armed apart) idle up =
        absurd (idle armed)
    released s (over _ gone same held last freed apart) idle up = (gone, held, freed)

    unpinned : (s : Nap) → Shape pin init code s → s.phase ≢ asleep → s.pin ≡ pin
    unpinned _ (naps task k e) up = absurd (up refl)
    unpinned _ (fired task k ts e) up = absurd (up refl)
    unpinned _ (shut task k ts e) up = absurd (up refl)
    unpinned _ (left owner k held p was ts es timer phase e h same armed apart) up = same
    unpinned s (over _ gone same held last freed apart) up = same
