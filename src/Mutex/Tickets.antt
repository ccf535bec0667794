-- ===== src/Mutex/Tickets.antt =====
-- The tickets that tasks wait with, against the queue of fiberize/src/fiberize/mutex.cpp and its two
-- counters.
use fiberize.Base.{
  ℕ, suc, ◌+◌, ◌^◌, ◌≤◌, ◌<◌, ◌≡◌, refl, ◌⊎◌, inl, inr, false, Option, none, some, List, [], ◌∷◌,
  length, get_elem?, arith, ap, ◌∙◌, Bool-cases, ◌==◌, ==_iff,
}
use fiberize.Mutex.Steps.{Phase, outside, waits, inside}
use fiberize.Waiting.Woken.{Woken, exhausts, wakes, skips}

-- A task waits with the ticket that its place in the queue gives, and only then.
pub record IsQueued (r next : ℕ) (xs : List (Option ℕ)) (phase : ℕ → Phase) : Type 0 where
  pub counts : suc (r + length xs) ≡ next
  pub small : next < 2 ^ 64
  pub ahead : (i j : ℕ) → phase i ≡ waits (suc (r + j)) → get_elem? xs j ≡ some (some i)
  pub behind : (i j : ℕ) → get_elem? xs j ≡ some (some i) → phase i ≡ waits (suc (r + j))

-- A task past `lock`, or one that its ticket lets through.
abbrev pub Owns : ℕ → Phase → Type 0
Owns r p = (p ≡ inside) ⊎ ((t : ℕ) × (p ≡ waits t) × (t ≤ r))

-- The task, if there is one, that owns the lock, and nobody else.
pub record IsOwned (o : Option ℕ) (r : ℕ) (phase : ℕ → Phase) : Type 0 where
  pub only : (i : ℕ) → Owns r (phase i) → o ≡ some i
  pub indeed : (i : ℕ) → o ≡ some i → Owns r (phase i)

pub waits_injective : (t u : ℕ) → waits t ≡ waits u → t ≡ u
waits_injective t u e = ap (λ (p : Phase). ticket p) e
  where
    ticket : Phase → ℕ
    ticket (waits t) = t
    ticket outside = 0
    ticket inside = 0

-- One null pointer is dropped.
pub skip-IsQueued :
    {r next : ℕ} {xs : List (Option ℕ)} {x : Option ℕ} {phase : ℕ → Phase}
    → IsQueued r next (x ∷ xs) phase
    → IsQueued (suc r) next xs phase
skip-IsQueued {r} {next} {xs} queued = record {
  counts = omega (arith, queued.counts);
  small = queued.small;
  ahead = λ i j e. queued.ahead i (suc j) (e ∙ ap (λ (t : ℕ). waits t) (omega arith));
  behind = λ i j e. queued.behind i (suc j) e ∙ ap (λ (t : ℕ). waits t) (omega arith);
}

-- A ticket that is released with the first of the queue belongs to that task.
first-Owns :
    {r next : ℕ} {xs : List (Option ℕ)} {x : Option ℕ} {phase : ℕ → Phase}
    → IsQueued r next (x ∷ xs) phase
    → IsOwned none r phase
    → (i : ℕ) → Owns (suc r) (phase i)
    → x ≡ some i
first-Owns {r} queued owned i (inl e) = absurd (ground (arith, owned.only i (inl e)))
first-Owns {r} {next} {xs} {x} queued owned i (inr (t, e, le)) = elim (Bool-cases (t == suc r)) [
  | inl same ↦ ground (
    arith,
    queued.ahead i 0 (e ∙ ap (λ (t : ℕ). waits t) ((==_iff t (suc r)).0 same ∙ omega arith)),
  )
  | inr apart ↦ absurd (ground (arith, owned.only i (inr (t, e, less apart))))
]
  where
    less : t == suc r ≡ false → t ≤ r
    less apart = ground (arith, apart, le)

-- What the loop of `unlock` leaves when nobody owned the lock.
pub record IsReleased (o : Option ℕ) (r next : ℕ) (xs : List (Option ℕ)) (phase : ℕ → Phase)
    : Type 0 where
  pub queued : IsQueued r next xs phase
  pub owned : IsOwned o r phase
  pub done : o ≡ none → xs ≡ []

pub Woken-IsReleased :
    {r r' next : ℕ} {o : Option ℕ} {xs ys : List (Option ℕ)} {phase : ℕ → Phase}
    → Woken r xs o r' ys
    → IsQueued r next xs phase
    → IsOwned none r phase
    → IsReleased o r' next ys phase
Woken-IsReleased (exhausts r) queued owned = record {
  queued = queued;
  owned = owned;
  done = λ e. refl;
}
Woken-IsReleased (wakes r i xs) queued owned = record {
  queued = skip-IsQueued queued;
  owned = record {
    only = first-Owns queued owned;
    indeed =
        λ j e. inr (suc (r + 0), queued.behind j 0 (ap (λ (o : Option ℕ). some o) e), omega arith);
  };
  done = λ e. absurd (ground (arith, e));
}
Woken-IsReleased (skips r r' xs ys o woken) queued owned =
    Woken-IsReleased woken (skip-IsQueued queued) (record {
      only = λ i e. first-Owns queued owned i e;
      indeed = λ i e. absurd (ground (arith, e));
    })
