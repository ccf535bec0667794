-- ===== src/Condition/Signaling.antt =====
-- Which task `signal` of fiberize/src/fiberize/condition.cpp wakes.
use fiberize.Base.{
  ℕ, suc, ◌+◌, ◌-◌, ◌≤◌, ◌<◌, ◌≡◌, refl, inl, inr, Option, none, some, List, ◌∷◌, arith, ap, ◌∙◌,
  Bool-cases, ◌==◌, ==_iff, leb,
}
use fiberize.Deque.View.{to_list}
use fiberize.Waiting.Woken.{Woken, exhausts, wakes, skips, Wakes, wake-Wakes}
use fiberize.Mutex.Steps.{Phase, waits}
use fiberize.Mutex.Tickets.{IsQueued, skip-IsQueued}
use fiberize.Condition.{Condition, signal}
use fiberize.Condition.Steps.{enough}

-- From the tickets `r` to the tickets `r'`: the task that was woken waited with the lowest ticket
-- above `r`, or there is none that waits.
abbrev pub IsFirst : Option ℕ → ℕ → ℕ → (ℕ → Phase) → Type 0
IsFirst none r r' phase = (k u : ℕ) → phase k ≡ waits u → u ≤ r
IsFirst (some i) r r' phase =
    (t : ℕ) × (phase i ≡ waits t)
    × (r < t)
    × (t ≤ r')
    × ((k u : ℕ) → phase k ≡ waits u → r < u → t ≤ u)

-- A null pointer in front is nobody's place.
skip-IsFirst :
    {next : ℕ} {xs : List (Option ℕ)} (r r' : ℕ) (phase : ℕ → Phase) (o : Option ℕ)
    → IsQueued r next (none ∷ xs) phase
    → IsFirst o (suc r) r' phase
    → IsFirst o r r' phase
skip-IsFirst r r' phase o queued = go o
  where
    beyond : (k u : ℕ) → phase k ≡ waits u → r < u → suc r < u
    beyond k u e lt = elim (Bool-cases (u == suc r)) [
      | inl same ↦ absurd (
          ground (
            arith,
            queued.ahead k 0
                (e ∙ ap (λ (t : ℕ). waits t) ((==_iff u (suc r)).0 same ∙ omega arith)),
          ))
      | inr apart ↦ ground (arith, apart, lt)
    ]

    go : (o : Option ℕ) → IsFirst o (suc r) r' phase → IsFirst o r r' phase
    go none first = λ k u e. elim (Bool-cases (leb u r)) [
      | inl low ↦ ground (arith, low)
      | inr high ↦ absurd (omega (arith, first k u e, beyond k u e (ground (arith, high))))
    ]
    go (some i) (t, place, above, below, lowest) =
        (t, place, omega (arith, above), below, λ k u e lt. lowest k u e (beyond k u e lt))

Woken-IsFirst :
    {r r' next : ℕ} {o : Option ℕ} {xs ys : List (Option ℕ)} {phase : ℕ → Phase}
    → Woken r xs o r' ys
    → IsQueued r next xs phase
    → IsQueued r' next ys phase × IsFirst o r r' phase
Woken-IsFirst {phase = phase} (exhausts r) queued = (queued, all)
  where
    all : (k u : ℕ) → phase k ≡ waits u → u ≤ r
    all k u e = elim (Bool-cases (leb u r)) [
      | inl low ↦ ground (arith, low)
      | inr high ↦ absurd (
          ground (
            arith,
            queued.ahead k (u - r - 1) (e ∙ ap (λ (t : ℕ). waits t) (ground (arith, high))),
          ))
    ]
Woken-IsFirst (wakes r i xs) queued = (
  skip-IsQueued queued,
  (suc (r + 0), queued.behind i 0 refl, omega arith, omega arith, λ k u e lt. omega (arith, lt)),
)
Woken-IsFirst {phase = phase} (skips r r' xs ys o woken) queued =
    let rest = Woken-IsFirst woken (skip-IsQueued queued) in
    (rest.0, skip-IsFirst r r' phase o queued rest.1)

-- What a signal does: the task that it wakes waited longest.
pub record Signals (c : Condition) (phase : ℕ → Phase) : Type 0 where
  pub task : Option ℕ
  pub left : Condition
  pub result : signal (enough c) c ≡ some (task, left)
  pub queued :
      IsQueued left.waiters.released left.waiters.next_ticket (to_list left.waiters.queue) phase
  pub first : IsFirst task c.waiters.released left.waiters.released phase

abbrev pub IsLined : Condition → (ℕ → Phase) → Type 0
IsLined c phase = IsQueued c.waiters.released c.waiters.next_ticket (to_list c.waiters.queue) phase

pub signal-Signals : (c : Condition) (phase : ℕ → Phase) → IsLined c phase → Signals c phase
unfolding signal
signal-Signals c phase queued = record {
  task = found.task;
  left = record { waiters = found.left };
  result = ground (arith, found.found);
  queued = rw found.same_next (Woken-IsFirst found.woken queued).0;
  first = (Woken-IsFirst found.woken queued).1;
}
  where
    found : Wakes (enough c) c.waiters
    found =
        wake-Wakes (enough c) c.waiters (omega arith) (omega (arith, queued.counts, queued.small))
