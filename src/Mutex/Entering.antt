-- ===== src/Mutex/Entering.antt =====
-- What `lock` of fiberize/src/fiberize/mutex.cpp does to the queue and the owner, with or without an
-- exception.
use fiberize.Base.{
  ℕ, suc, ◌+◌, ◌-◌, ◌^◌, ◌≤◌, ◌<◌, ◌≡◌, refl, subst, inl, inr, true, false, Option, none, some, set,
  arith, sym, ap, ◌∙◌, update, u64, get_elem?-below,
}
use fiberize.Deque.{LazyDeque, assign}
use fiberize.Deque.View.{to_list, to_list-push_back, assign-to_list}
use fiberize.Waiting.{Waiters, withdraw, enroll}
use fiberize.Mutex.{Mutex}
use fiberize.Mutex.Steps.{Phase, outside, waits, inside}
use fiberize.Mutex.Tickets.{IsOwned, Owns, waits_injective}
use fiberize.Mutex.Releasing.{
  move-IsQueued, take-IsOwned, keep-IsOwned, enroll-IsQueued, withdraw-IsQueued,
}
use fiberize.Mutex.Handover.{IsFair, line}

-- A task that finds the mutex unlocked takes it.
pub enter-IsFair :
    (i : ℕ) (m : Mutex) (phase : ℕ → Phase)
    → phase i ≡ outside
    → m.locked ≡ false
    → IsFair m phase
    → IsFair (record m { locked = true }) (update phase i inside)
enter-IsFair i m phase away open_now fair = record {
  owner = some i;
  queued =
      move-IsQueued i inside (λ t e. absurd (ground (arith, e, away)))
        (λ t e. absurd (ground (arith, e))) fair.queued;
  owned =
      take-IsOwned i
        (subst (λ (o : Option ℕ). IsOwned o m.waiters.released phase) nobody fair.owned);
  held = refl;
  idle = λ e. absurd (ground (arith, e));
}
  where
    nobody : fair.owner ≡ none
    nobody = ground (arith, fair.held, open_now)

-- A task that finds it locked takes a ticket.
pub enroll-IsFair :
    (i : ℕ) (m : Mutex) (phase : ℕ → Phase)
    → phase i ≡ outside
    → m.locked ≡ true
    → suc m.waiters.next_ticket < 2 ^ 64
    → IsFair m phase
    → IsFair
        (record m { waiters = (enroll i m.waiters).1 })
        (update phase i (waits (enroll i m.waiters).0))
unfolding enroll
enroll-IsFair i m phase away locked small fair = record {
  owner = fair.owner;
  queued =
      rw (to_list-push_back m.waiters.queue (some i), next)
        (enroll-IsQueued i (λ t e. absurd (ground (arith, e, away))) small fair.queued);
  owned =
      keep-IsOwned i (waits m.waiters.next_ticket) (λ e. absurd (unreleased e))
        (λ e. absurd (ground (arith, e, away))) fair.owned;
  held = fair.held;
  idle = λ e. absurd (ground (arith, e, locked));
}
  where
    next : u64 (m.waiters.next_ticket + 1) ≡ suc m.waiters.next_ticket
    next = omega (arith, small)

    unreleased : ¬ Owns m.waiters.released (waits m.waiters.next_ticket)
    unreleased (inl e) = ground (arith, e)
    unreleased (inr (t, e, le)) =
        omega (arith, le, waits_injective m.waiters.next_ticket t e, fair.queued.counts)

-- The task whose ticket is released passes.
pub pass-IsFair :
    (i ticket : ℕ) (m : Mutex) (phase : ℕ → Phase)
    → phase i ≡ waits ticket
    → ticket ≤ m.waiters.released
    → IsFair m phase
    → IsFair m (update phase i inside)
pass-IsFair i ticket m phase place le fair = record {
  owner = fair.owner;
  queued =
      move-IsQueued i inside (λ t e. omega (arith, le, waits_injective t ticket (sym e ∙ place)))
        (λ t e. absurd (ground (arith, e))) fair.queued;
  owned = keep-IsOwned i inside (λ e. inr (ticket, place, le)) (λ e. inl refl) fair.owned;
  held = fair.held;
  idle = fair.idle;
}

-- A task gives its place up before its turn.
pub record Withdraws (i ticket : ℕ) (m : Mutex) (phase : ℕ → Phase) : Type 0 where
  pub left : Waiters
  pub result : withdraw ticket m.waiters ≡ some left
  pub fair : IsFair (record m { waiters = left }) (update phase i outside)

pub withdraw-Withdraws :
    (i ticket : ℕ) (m : Mutex) (phase : ℕ → Phase)
    → phase i ≡ waits ticket
    → m.waiters.released < ticket
    → IsFair m phase
    → Withdraws i ticket m phase
unfolding withdraw
withdraw-Withdraws i ticket m phase place lt fair = record {
  left = record m.waiters { queue = assigned.0 };
  result = ground (arith, assigned.1);
  fair = record {
    owner = fair.owner;
    queued = rw assigned.2 (withdraw-IsQueued i k here fair.queued);
    owned =
        keep-IsOwned i outside (λ e. absurd (ground (arith, e))) (λ e. absurd (unreleased e))
          fair.owned;
    held = fair.held;
    idle = λ e. absurd (
        ground
          (arith, fair.idle e, get_elem?-below (line m) k (some i) (fair.queued.ahead i k here)));
  };
}
  where
    k : ℕ
    k = ticket - m.waiters.released - 1

    here : phase i ≡ waits (suc (m.waiters.released + k))
    here = place ∙ ap (λ (t : ℕ). waits t) (omega (arith, lt))

    assigned :
        (e : LazyDeque (Option ℕ)) × (assign m.waiters.queue k none ≡ some e)
        × (to_list e ≡ set (line m) k none)
    assigned =
        assign-to_list m.waiters.queue k none
          (get_elem?-below (line m) k (some i) (fair.queued.ahead i k here))

    unreleased : ¬ Owns m.waiters.released (phase i)
    unreleased (inl e) = ground (arith, e, place)
    unreleased (inr (t, e, le)) = omega (arith, le, lt, waits_injective ticket t (sym place ∙ e))
