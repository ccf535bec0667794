-- ===== src/Mutex/Fairness.antt =====
-- Who stands in the queue of fiberize/src/fiberize/mutex.cpp, in what order, and when it is locked,
-- across all its calls.
use fiberize.Base.{
  ℕ, suc, ◌^◌, ◌<◌, ◌≡◌, refl, subst, inl, inr, Bool, true, false, Option, none, some, arith, sym,
  ◌∙◌, update, Bool-cases, some_injective, if◌then◌else◌,
}
use fiberize.Waiting.{enroll, new_waiters}
use fiberize.Mutex.{Mutex, new_mutex, lock_enter, is_released, try_lock, unlock, lock_failed}
use fiberize.Mutex.Steps.{
  Phase, outside, waits, inside, Contention, entered, place_task, enough, locks, tries, passes,
  fails, unlocks, Contends, fresh, then_does,
}
use fiberize.Mutex.Releasing.{move-IsQueued, keep-IsOwned}
use fiberize.Mutex.Handover.{IsFair, unlock-Unlocks}
use fiberize.Mutex.Entering.{enter-IsFair, enroll-IsFair, pass-IsFair, withdraw-Withdraws}

-- The state after a step in which the mutex is fair again.
abbrev pub IsFairly : Contention → Type 0
IsFairly s = IsFair s.mutex s.phase

-- What a call that returns leaves, from one that is known to leave a fair mutex.
same-IsFair :
    (r : Option (Option ℕ × Mutex)) (o o' : Option ℕ) (m m' : Mutex) (phase : ℕ → Phase)
    → r ≡ some (o, m)
    → r ≡ some (o', m')
    → IsFair m phase
    → IsFair m' phase
same-IsFair r o o' m m' phase e e' fair =
    subst (λ (x : Option ℕ × Mutex). IsFair x.1 phase) (some_injective (o, m) (o', m') (sym e ∙ e'))
      fair

lock-IsFair :
    (i : ℕ) (s : Contention)
    → s.phase i ≡ outside
    → suc s.mutex.waiters.next_ticket < 2 ^ 64
    → IsFairly s
    → IsFairly (place_task i (entered (lock_enter i s.mutex).0) (lock_enter i s.mutex).1 s)
unfolding lock_enter
lock-IsFair i s away small fair = go s.mutex.locked refl
  where
    entry : Bool → Option ℕ × Mutex
    entry b =
        if b
        then (
          some (enroll i s.mutex.waiters).0,
          record s.mutex { waiters = (enroll i s.mutex.waiters).1 },
        )
        else (none, record s.mutex { locked = true })

    go :
        (b : Bool)
        → s.mutex.locked ≡ b
        → IsFairly (place_task i (entered (entry b).0) (entry b).1 s)
    go true e = enroll-IsFair i s.mutex s.phase away e small fair
    go false e = enter-IsFair i s.mutex s.phase away e fair

try_lock-IsFair :
    (i : ℕ) (s : Contention)
    → s.phase i ≡ outside
    → IsFairly s
    → IsFairly
        (place_task i (if (try_lock s.mutex).0 then inside else outside) (try_lock s.mutex).1 s)
unfolding try_lock
try_lock-IsFair i s away fair = go s.mutex.locked refl
  where
    attempt : Bool → Bool × Mutex
    attempt b = if b then (false, s.mutex) else (true, record s.mutex { locked = true })

    stays : IsFair s.mutex (update s.phase i outside)
    stays = record {
      owner = fair.owner;
      queued =
          move-IsQueued i outside (λ t e. absurd (ground (arith, e, away)))
            (λ t e. absurd (ground (arith, e))) fair.queued;
      owned = keep-IsOwned i outside (λ e. rw away e) (λ e. rw (sym away) e) fair.owned;
      held = fair.held;
      idle = fair.idle;
    }

    go :
        (b : Bool)
        → s.mutex.locked ≡ b
        → IsFairly (place_task i (if (attempt b).0 then inside else outside) (attempt b).1 s)
    go true e = stays
    go false e = enter-IsFair i s.mutex s.phase away e fair

-- A waiting task that fails gets out, and the mutex is fair again.
pub record Fails (i ticket : ℕ) (m : Mutex) (phase : ℕ → Phase) : Type 0 where
  pub next : Option ℕ
  pub left : Mutex
  pub result : lock_failed (enough m) ticket m ≡ some (next, left)
  pub fair : IsFair left (update phase i outside)

pub lock_failed-Fails :
    (i ticket : ℕ) (m : Mutex) (phase : ℕ → Phase)
    → phase i ≡ waits ticket
    → IsFair m phase
    → Fails i ticket m phase
unfolding lock_failed
lock_failed-Fails i ticket m phase place fair = elim (Bool-cases (is_released ticket m)) [
  | inl due ↦
      let done = unlock-Unlocks i m phase fair (inr (ticket, place, ground (arith, due))) in
      record { next = done.next; left = done.left; result = rw due done.result; fair = done.fair }
  | inr early ↦
      let done = withdraw-Withdraws i ticket m phase place (ground (arith, early)) fair in
      record {
        next = none;
        left = record m { waiters = done.left };
        result = ground (arith, early, done.result);
        fair = done.fair;
      }
]

pub Contends-IsFair : {s : Contention} → Contends s → IsFairly s
unfolding new_mutex new_waiters
Contends-IsFair fresh = record {
  owner = none;
  queued = record {
    counts = refl;
    small = omega arith;
    ahead = λ i j e. absurd (ground (arith, e));
    behind = λ i j e. absurd (ground (arith, e));
  };
  owned = record {
    only = λ i e. absurd (ground (arith, e));
    indeed = λ i e. absurd (ground (arith, e));
  };
  held = refl;
  idle = λ e. refl;
}
Contends-IsFair (then_does {s} contends (locks i away small)) =
    lock-IsFair i s away small (Contends-IsFair contends)
Contends-IsFair (then_does {s} contends (tries i away)) =
    try_lock-IsFair i s away (Contends-IsFair contends)
Contends-IsFair (then_does {s} contends (passes i ticket place released)) =
    pass-IsFair i ticket s.mutex s.phase place (ground (arith, released)) (Contends-IsFair contends)
Contends-IsFair (then_does {s} contends (fails i ticket o m place result)) =
    let done = lock_failed-Fails i ticket s.mutex s.phase place (Contends-IsFair contends) in
    same-IsFair (lock_failed (enough s.mutex) ticket s.mutex) done.next o done.left m
      (update s.phase i outside) done.result result done.fair
Contends-IsFair (then_does {s} contends (unlocks i o m place result)) =
    let done = unlock-Unlocks i s.mutex s.phase (Contends-IsFair contends) (inl place) in
    same-IsFair (unlock (enough s.mutex) s.mutex) done.next o done.left m (update s.phase i outside)
      done.result result done.fair
