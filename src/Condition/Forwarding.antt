-- ===== src/Condition/Forwarding.antt =====
-- Where the signals of fiberize/src/fiberize/condition.cpp go, also when the task that got one fails.
use fiberize.Base.{
  ℕ, suc, ◌+◌, ◌-◌, ◌^◌, ◌<◌, ◌≡◌, refl, subst, inl, inr, true, false, Option, none, some, set,
  arith, sym, ap, ◌∙◌, update, Bool-cases, u64, get_elem?-below, some_injective,
}
use fiberize.Deque.{LazyDeque, assign}
use fiberize.Deque.View.{to_list, to_list-push_back, assign-to_list}
use fiberize.Waiting.{withdraw, enroll, new_waiters}
use fiberize.Mutex.Steps.{Phase, outside, waits}
use fiberize.Mutex.Tickets.{waits_injective}
use fiberize.Mutex.Releasing.{move-IsQueued, enroll-IsQueued, withdraw-IsQueued, IsUnqueued}
use fiberize.Condition.{Condition, new_condition, await_enter, is_signaled, signal, await_failed}
use fiberize.Condition.Steps.{
  Awaiting, enough, awaits, passes, fails, signals, Awaits, fresh, then_does,
}
use fiberize.Condition.Signaling.{IsFirst, IsLined, signal-Signals, Signals}

-- A failing task either leaves the queue, or hands the signal that it got on.
record Fails (i ticket : ℕ) (c : Condition) (phase : ℕ → Phase) : Type 0 where
  pub task : Option ℕ
  pub left : Condition
  pub result : await_failed (enough c) ticket c ≡ some (task, left)
  pub queued : IsLined left (update phase i outside)
  pub passed :
      is_signaled ticket c ≡ true
      → IsFirst task c.waiters.released left.waiters.released (update phase i outside)

outside-IsUnqueued : (r : ℕ) → IsUnqueued r outside
outside-IsUnqueued r t e = absurd (ground (arith, e))

signaled-Fails :
    (i ticket : ℕ) (c : Condition) (phase : ℕ → Phase)
    → phase i ≡ waits ticket
    → is_signaled ticket c ≡ true
    → IsLined c phase
    → Fails i ticket c phase
unfolding await_failed
signaled-Fails i ticket c phase place due queued = record {
  task = signals.task;
  left = signals.left;
  result = rw due signals.result;
  queued = signals.queued;
  passed = λ e. signals.first;
}
  where
    signals : Signals c (update phase i outside)
    signals = signal-Signals c (update phase i outside) (
        move-IsQueued i outside
          (λ t e. ground (arith, due, waits_injective t ticket (sym e ∙ place)))
          (outside-IsUnqueued c.waiters.released) queued)

unsignaled-Fails :
    (i ticket : ℕ) (c : Condition) (phase : ℕ → Phase)
    → phase i ≡ waits ticket
    → is_signaled ticket c ≡ false
    → IsLined c phase
    → Fails i ticket c phase
unfolding await_failed withdraw
unsignaled-Fails i ticket c phase place early queued = record {
  task = none;
  left = record { waiters = record (c.waiters) { queue = assigned.0 } };
  result = ground (arith, early, assigned.1);
  queued = rw assigned.2 (withdraw-IsQueued i k here queued);
  passed = λ e. absurd (ground (arith, e, early));
}
  where
    k : ℕ
    k = ticket - c.waiters.released - 1

    here : phase i ≡ waits (suc (c.waiters.released + k))
    here = place ∙ ap (λ (t : ℕ). waits t) (ground (arith, early))

    assigned :
        (e : LazyDeque (Option ℕ)) × (assign c.waiters.queue k none ≡ some e)
        × (to_list e ≡ set (to_list c.waiters.queue) k none)
    assigned =
        assign-to_list c.waiters.queue k none
          (get_elem?-below (to_list c.waiters.queue) k (some i) (queued.ahead i k here))

await_failed-Fails :
    (i ticket : ℕ) (c : Condition) (phase : ℕ → Phase)
    → phase i ≡ waits ticket
    → IsLined c phase
    → Fails i ticket c phase
await_failed-Fails i ticket c phase place queued = elim (Bool-cases (is_signaled ticket c)) [
  | inl due ↦ signaled-Fails i ticket c phase place due queued
  | inr early ↦ unsignaled-Fails i ticket c phase place early queued
]

await_enter-IsLined :
    (i : ℕ) (c : Condition) (phase : ℕ → Phase)
    → phase i ≡ outside
    → suc c.waiters.next_ticket < 2 ^ 64
    → IsLined c phase
    → IsLined (await_enter i c).1 (update phase i (waits (await_enter i c).0))
unfolding await_enter enroll
await_enter-IsLined i c phase away small queued =
    rw (to_list-push_back c.waiters.queue (some i), next)
      (enroll-IsQueued i (λ t e. absurd (ground (arith, e, away))) small queued)
  where
    next : u64 (c.waiters.next_ticket + 1) ≡ suc c.waiters.next_ticket
    next = omega (arith, small)

same-IsLined :
    (r : Option (Option ℕ × Condition)) (o o' : Option ℕ) (c c' : Condition) (phase : ℕ → Phase)
    → r ≡ some (o, c)
    → r ≡ some (o', c')
    → IsLined c phase
    → IsLined c' phase
same-IsLined r o o' c c' phase e e' lined =
    subst (λ (x : Option ℕ × Condition). IsLined x.1 phase)
      (some_injective (o, c) (o', c') (sym e ∙ e')) lined

Awaits-IsLined : {s : Awaiting} → Awaits s → IsLined s.condition s.phase
unfolding new_condition new_waiters
Awaits-IsLined fresh = record {
  counts = refl;
  small = omega arith;
  ahead = λ i j e. absurd (ground (arith, e));
  behind = λ i j e. absurd (ground (arith, e));
}
Awaits-IsLined (then_does {s} awaiting (awaits i away small)) =
    await_enter-IsLined i s.condition s.phase away small (Awaits-IsLined awaiting)
Awaits-IsLined (then_does {s} awaiting (passes i ticket place due)) =
    move-IsQueued i outside (λ t e. ground (arith, due, waits_injective t ticket (sym e ∙ place)))
      (outside-IsUnqueued s.condition.waiters.released) (Awaits-IsLined awaiting)
Awaits-IsLined (then_does {s} awaiting (fails i ticket o c place result)) =
    let done = await_failed-Fails i ticket s.condition s.phase place (Awaits-IsLined awaiting) in
    same-IsLined (await_failed (enough s.condition) ticket s.condition) done.task o done.left c
      (update s.phase i outside) done.result result done.queued
Awaits-IsLined (then_does {s} awaiting (signals o c result)) =
    let done = signal-Signals s.condition s.phase (Awaits-IsLined awaiting) in
    same-IsLined (signal (enough s.condition) s.condition) done.task o done.left c s.phase
      done.result result done.queued

-- In every reachable state a signal returns, and wakes the task that has waited longest of those not
-- signaled before, if there is one. When a task that was signaled fails, it returns too, and passes
-- its signal on to such a task: the signal is not lost. A failing task that was not signaled leaves
-- the queue without undefined behaviour.
pub Awaits-forwards :
    (i ticket : ℕ) (s : Awaiting)
    → Awaits s
    → s.phase i ≡ waits ticket
    → ((o : Option ℕ) × (c : Condition) × (signal (enough s.condition) s.condition ≡ some (o, c))
        × IsFirst o s.condition.waiters.released c.waiters.released s.phase)
      × ((o : Option ℕ) × (c : Condition) × (await_failed (enough s.condition) ticket s.condition
            ≡ some (o, c))
          × (is_signaled ticket s.condition ≡ true
              → IsFirst o s.condition.waiters.released c.waiters.released
                  (update s.phase i outside)))
Awaits-forwards i ticket s awaiting place =
    let done = signal-Signals s.condition s.phase (Awaits-IsLined awaiting) in
    let failed = await_failed-Fails i ticket s.condition s.phase place (Awaits-IsLined awaiting) in
    (
      (done.task, done.left, done.result, done.first),
      (failed.task, failed.left, failed.result, failed.passed),
    )
