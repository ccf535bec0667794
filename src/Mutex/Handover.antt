-- ===== src/Mutex/Handover.antt =====
-- What `unlock` of fiberize/src/fiberize/mutex.cpp leaves: the lock with the next task, or unlocked.
use fiberize.Base.{
  ℕ, ◌≤◌, ◌≡◌, refl, subst, inl, inr, Bool, true, false, Option, none, some, List, [], arith, sym,
  ap, ◌∙◌, update,
}
use fiberize.Deque.View.{to_list}
use fiberize.Waiting.{Waiters, wake}
use fiberize.Waiting.Woken.{Wakes, wake-Wakes}
use fiberize.Mutex.{Mutex, unlock}
use fiberize.Mutex.Steps.{Phase, outside, waits, enough}
use fiberize.Mutex.Tickets.{IsQueued, IsOwned, Owns, IsReleased, Woken-IsReleased, waits_injective}
use fiberize.Mutex.Releasing.{move-IsQueued, leave-IsOwned}

abbrev pub is_some : Option ℕ → Bool
is_some none = false
is_some (some i) = true

-- The queue of a mutex as a list.
abbrev pub line : Mutex → List (Option ℕ)
line m = to_list m.waiters.queue

-- The mutex is locked if a task owns it, and if none does then no task waits.
pub record IsFair (m : Mutex) (phase : ℕ → Phase) : Type 0 where
  pub owner : Option ℕ
  pub queued : IsQueued m.waiters.released m.waiters.next_ticket (line m) phase
  pub owned : IsOwned owner m.waiters.released phase
  pub held : m.locked ≡ is_some owner
  pub idle : m.locked ≡ false → line m ≡ []

-- The mutex that `unlock` leaves when its loop found a task, or none.
abbrev pub handed : Option ℕ → Waiters → Mutex → Mutex
handed none w m = record { locked = false; waiters = w }
handed (some i) w m = record m { waiters = w }

handed-unlock :
    (fuel : ℕ) (m : Mutex) (o : Option ℕ) (w : Waiters)
    → wake fuel m.waiters ≡ some (o, w)
    → unlock fuel m ≡ some (o, handed o w m)
unfolding unlock
handed-unlock fuel m none w e = ground (arith, e)
handed-unlock fuel m (some i) w e = ground (arith, e)

handed-IsFair :
    (m : Mutex) (phase : ℕ → Phase) (o : Option ℕ) (w : Waiters)
    → m.locked ≡ true
    → IsReleased o w.released w.next_ticket (to_list w.queue) phase
    → IsFair (handed o w m) phase
handed-IsFair m phase none w locked released = record {
  owner = none;
  queued = released.queued;
  owned = released.owned;
  held = refl;
  idle = λ e. released.done refl;
}
handed-IsFair m phase (some i) w locked released = record {
  owner = some i;
  queued = released.queued;
  owned = released.owned;
  held = locked;
  idle = λ e. absurd (ground (arith, e, locked));
}

handed-owner :
    (m : Mutex) (phase : ℕ → Phase) (o : Option ℕ) (w : Waiters) (locked : m.locked ≡ true)
    (released : IsReleased o w.released w.next_ticket (to_list w.queue) phase)
    → (handed-IsFair m phase o w locked released).owner ≡ o
unfolding handed-IsFair
handed-owner m phase none w locked released = refl
handed-owner m phase (some i) w locked released = refl

-- What `unlock` does for the task that owns the lock, or that gave the lock up while it was handed
-- to it.
pub record Unlocks (i : ℕ) (m : Mutex) (phase : ℕ → Phase) : Type 0 where
  pub next : Option ℕ
  pub left : Mutex
  pub result : unlock (enough m) m ≡ some (next, left)
  pub fair : IsFair left (update phase i outside)
  pub heir : fair.owner ≡ next

pub unlock-Unlocks :
    (i : ℕ) (m : Mutex) (phase : ℕ → Phase)
    → IsFair m phase
    → Owns m.waiters.released (phase i)
    → Unlocks i m phase
unlock-Unlocks i m phase fair owns = record {
  next = wakes.task;
  left = handed wakes.task wakes.left m;
  result = handed-unlock (enough m) m wakes.task wakes.left wakes.found;
  fair = handed-IsFair m (update phase i outside) wakes.task wakes.left locked released;
  heir = handed-owner m (update phase i outside) wakes.task wakes.left locked released;
}
  where
    mine : fair.owner ≡ some i
    mine = fair.owned.only i owns

    locked : m.locked ≡ true
    locked = fair.held ∙ ap is_some mine

    unqueued : (t : ℕ) → phase i ≡ waits t → t ≤ m.waiters.released
    unqueued t e = elim owns [
      | inl there ↦ absurd (ground (arith, e, there))
      | inr (u, there, le) ↦ ground (arith, le, waits_injective t u (sym e ∙ there))
    ]

    wakes : Wakes (enough m) m.waiters
    wakes =
        wake-Wakes (enough m) m.waiters (omega arith)
          (omega (arith, fair.queued.counts, fair.queued.small))

    released :
        IsReleased wakes.task wakes.left.released wakes.left.next_ticket
          (to_list wakes.left.queue)
          (update phase i outside)
    released = rw wakes.same_next (
        Woken-IsReleased wakes.woken
          (move-IsQueued i outside unqueued (λ t e. absurd (ground (arith, e))) fair.queued)
          (leave-IsOwned i
            (subst (λ (o : Option ℕ). IsOwned o m.waiters.released phase) mine fair.owned)))
