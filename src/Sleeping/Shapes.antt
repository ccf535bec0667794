-- ===== src/Sleeping/Shapes.antt =====
-- fiberize/src/fiberize/io/sleep.cpp: the steps of a fiber that sleeps and of its timer, and the
-- states that they go through.
use fiberize.Base.{
  ℕ, ◌≡◌, ◌≢◌, refl, sym, ◌∙◌, Bool, true, false, Option, none, some, List, [], ℤ, pos, negsuc,
  is_negative, arith, ◌⊎◌, inl, inr,
}
use fiberize.Identity.{TaskPath}
use fiberize.Task.{Exn}
use fiberize.Results.Nothing.{VoidResult}
use fiberize.Pinning.{pin_scope, unpin_scope-pin_scope}
use fiberize.Requests.{Owner, awaiting, sending, task_dropped}
use fiberize.Sleeping.{
  Nap, HandleEnv, Handle, unknown, initialized, active, closing, closed, Sleeping, asleep, awake,
  interrupted, new_nap, sleep_await, sleep_async, callback, close_callback, completed_await,
  completed_async, drop_env, destroy_env, finish,
}

abbrev is_fired : Option HandleEnv → Bool
is_fired none = false
is_fired (some e) = elim e.owner [
  | awaiting condition task ↦ condition
  | sending self event ↦ false
]

-- What can happen after `millisleep` has started: the timer fires, the loop has closed the handle,
-- `processUntil` returns as the condition is set, or it throws what a handler threw.
pub data NapStep (s : Nap) : Option Nap → Type 0 where
  fires : (thread : Option ℕ) → s.timer ≡ active → NapStep s (callback thread s)
  closes : s.timer ≡ closing → NapStep s (close_callback s)
  goes_on : s.phase ≡ asleep → is_fired s.env ≡ true → NapStep s (finish awake s)
  gives_up : (x : Exn) → s.phase ≡ asleep → NapStep s (finish (interrupted x) s)

-- The states that come about from a start whose two codes are `init` and `code`, in a task with the pin
-- `pin`.
pub data Naps (pin : Option ℕ) (init code : ℤ) : Nap → Type 0 where
  awaits :
      (task scheduler : ℕ) (t : Nap)
      → sleep_await task scheduler init code (new_nap pin) ≡ some t
      → Naps pin init code t
  promises :
      (self scheduler : ℕ) (event : TaskPath) (t : Nap)
      → sleep_async self event scheduler init code (new_nap pin) ≡ some t
      → Naps pin init code t
  then_does : {s t : Nap} → Naps pin init code s → NapStep s (some t) → Naps pin init code t

-- The handle that the memory is freed with: it was never initialized, or it is closed, or the timer
-- was initialized and could not be started.
abbrev pub last_handle : ℤ → ℤ → Handle
last_handle init code = elim (is_negative init) [
  | true ↦ unknown
  | false ↦ elim (is_negative code) [ true ↦ initialized | false ↦ closed ]
]

abbrev pub IsArmed : Handle → Type 0
IsArmed timer = (timer ≡ active) ⊎ (timer ≡ closing)

pub data Shape (pin : Option ℕ) (init code : ℤ) : Nap → Type 0 where
  naps :
      (task k : ℕ)
      → last_handle init code ≡ closed
      → Shape pin init code (record {
        env = some (record { count = 2; owner = awaiting false task; scheduler = k });
        pin = (pin_scope k pin).0;
        was_pinned = (pin_scope k pin).1;
        task_references = 1;
        resumed = [];
        sent = [];
        timer = active;
        freed_as = none;
        phase = asleep;
      })
  fired :
      (task k : ℕ) (tasks : List (Option ℕ × ℕ))
      → last_handle init code ≡ closed
      → Shape pin init code (record {
        env = some (record { count = 2; owner = awaiting true task; scheduler = k });
        pin = (pin_scope k pin).0;
        was_pinned = (pin_scope k pin).1;
        task_references = 1;
        resumed = tasks;
        sent = [];
        timer = closing;
        freed_as = none;
        phase = asleep;
      })
  shut :
      (task k : ℕ) (tasks : List (Option ℕ × ℕ))
      → last_handle init code ≡ closed
      → Shape pin init code (record {
        env = some (record { count = 1; owner = awaiting true task; scheduler = k });
        pin = (pin_scope k pin).0;
        was_pinned = (pin_scope k pin).1;
        task_references = 1;
        resumed = tasks;
        sent = [];
        timer = closed;
        freed_as = none;
        phase = asleep;
      })
  left :
      (owner : Owner) (k held : ℕ) (p : Option ℕ) (was : Bool) (tasks : List (Option ℕ × ℕ))
      (events : List (Option ℕ × ℕ × TaskPath × VoidResult)) (timer : Handle) (phase : Sleeping)
      → last_handle init code ≡ closed
      → task_dropped owner held ≡ 0
      → p ≡ pin
      → IsArmed timer
      → phase ≢ asleep
      → Shape pin init code (record {
        env = some (record { count = 1; owner = owner; scheduler = k });
        pin = p;
        was_pinned = was;
        task_references = held;
        resumed = tasks;
        sent = events;
        timer = timer;
        freed_as = none;
        phase = phase;
      })
  over :
      (s : Nap)
      → s.env ≡ none
      → s.pin ≡ pin
      → s.task_references ≡ 0
      → s.timer ≡ last_handle init code
      → s.freed_as ≡ some (last_handle init code)
      → s.phase ≢ asleep
      → Shape pin init code s

pub last_handle-rests :
    (init code : ℤ) → (last_handle init code ≢ active) × (last_handle init code ≢ closing)
last_handle-rests (negsuc m) code = (λ e. ground (arith, e), λ e. ground (arith, e))
last_handle-rests (pos m) (negsuc n) = (λ e. ground (arith, e), λ e. ground (arith, e))
last_handle-rests (pos m) (pos n) = (λ e. ground (arith, e), λ e. ground (arith, e))

pub NapStep-Shape :
    (pin : Option ℕ) (init code : ℤ) {s : Nap} (o : Option Nap)
    → Shape pin init code s
    → NapStep s o
    → (t : Nap) × (o ≡ some t) × Shape pin init code t
unfolding callback close_callback completed_await completed_async drop_env destroy_env finish
NapStep-Shape pin init code _ (naps task k e) (fires thread d) = (_, refl, fired task k _ e)
NapStep-Shape pin init code _ (naps task k e) (closes d) = absurd (ground (arith, d))
NapStep-Shape pin init code _ (naps task k e) (goes_on w d) = absurd (ground (arith, d))
NapStep-Shape pin init code _ (naps task k e) (gives_up x w) = (
  _,
  refl,
  left (awaiting false task) k 1 _ _ _ _ _ _ e refl (unpin_scope-pin_scope k pin) (inl refl)
      (λ d. ground (arith, d)),
)
NapStep-Shape pin init code _ (fired task k tasks e) (fires thread d) = absurd (ground (arith, d))
NapStep-Shape pin init code _ (fired task k tasks e) (closes d) = (_, refl, shut task k tasks e)
NapStep-Shape pin init code _ (fired task k tasks e) (goes_on w d) = (
  _,
  refl,
  left (awaiting true task) k 1 _ _ _ _ _ _ e refl (unpin_scope-pin_scope k pin) (inr refl)
      (λ d. ground (arith, d)),
)
NapStep-Shape pin init code _ (fired task k tasks e) (gives_up x w) = (
  _,
  refl,
  left (awaiting true task) k 1 _ _ _ _ _ _ e refl (unpin_scope-pin_scope k pin) (inr refl)
      (λ d. ground (arith, d)),
)
NapStep-Shape pin init code _ (shut task k tasks e) (fires thread d) = absurd (ground (arith, d))
NapStep-Shape pin init code _ (shut task k tasks e) (closes d) = absurd (ground (arith, d))
NapStep-Shape pin init code _ (shut task k tasks e) (goes_on w d) = (
  _,
  refl,
  over _ refl (unpin_scope-pin_scope k pin) refl (sym e) (ground (arith, e))
      (λ d. ground (arith, d)),
)
NapStep-Shape pin init code _ (shut task k tasks e) (gives_up x w) = (
  _,
  refl,
  over _ refl (unpin_scope-pin_scope k pin) refl (sym e) (ground (arith, e))
      (λ d. ground (arith, d)),
)
NapStep-Shape pin init code _ (left owner k held p was ts es timer phase e h same armed apart)
      (goes_on w f) =
    absurd (apart w)
NapStep-Shape pin init code _ (left owner k held p was ts es timer phase e h same armed apart)
      (gives_up x w) =
    absurd (apart w)
NapStep-Shape pin init code _
      (left (awaiting c task) k held p was ts es timer phase e h same armed apart)
      (fires thread f) =
    (_, refl, left (awaiting true task) k held p was _ es closing phase e h same (inr refl) apart)
NapStep-Shape pin init code _
      (left (sending self event) k held p was ts es timer phase e h same armed apart)
      (fires thread f) =
    (_, refl, left (sending self event) k held p was ts _ closing phase e h same (inr refl) apart)
NapStep-Shape pin init code _ (left owner k held p was ts es timer phase e h same armed apart)
      (closes f) =
    (_, refl, over _ refl same h (sym e) (ground (arith, e)) apart)
NapStep-Shape pin init code _ (over s gone same held last freed apart) (fires thread d) =
    absurd ((last_handle-rests init code).0 (sym last ∙ d))
NapStep-Shape pin init code _ (over s gone same held last freed apart) (closes d) =
    absurd ((last_handle-rests init code).1 (sym last ∙ d))
NapStep-Shape pin init code _ (over s gone same held last freed apart) (goes_on w d) =
    absurd (apart w)
NapStep-Shape pin init code _ (over s gone same held last freed apart) (gives_up x w) =
    absurd (apart w)
