-- ===== src/Scheduling/Choice.antt =====
-- How a scheduler of fiberize/src/fiberize/detail/multitaskscheduler.cpp finds its next task: its own
-- queues from the front, those of others from the back, in an order that a streak of one kind turns
-- round.
use fiberize.Base.{
  ℕ, suc, ◌≡◌, refl, ◌⊎◌, inl, inr, Bool, true, false, Option, none, some, List, [], ◌∷◌, leb,
  if◌then◌else◌, arith, subst, Bool-cases, some_injective,
}
use fiberize.Deque.{last, but_last}
use fiberize.Deque.View.{but_last-last}
use fiberize.Scheduling.{Priority, soft, hard, System, queue}
use fiberize.Scheduling.Steps.{Takes}

abbrev pub same_streak_limit : ℕ
same_streak_limit = 64

abbrev pub steal_tries : ℕ
steal_tries = 2

abbrev pub other : Priority → Priority
other soft = hard
other hard = soft

-- `choosePriority`, with `sameStreak` before and after it.
pub choose_priority : Priority → ℕ → Priority × ℕ
choose_priority preferred same_streak =
    if leb same_streak_limit same_streak then (other preferred, 0) else (preferred, same_streak)

-- A task that was found, in which queue of which scheduler, and what is left of that queue.
pub record Found : Type 0 where
  pub scheduler : ℕ
  pub priority : Priority
  pub task : ℕ
  pub rest : List ℕ

abbrev front_found : ℕ → Priority → List ℕ → Option Found
front_found k p [] = none
front_found k p (task ∷ rest) =
    some (record { scheduler = k; priority = p; task = task; rest = rest })

-- `dequeueSoft` and `dequeueHard` of scheduler `k`.
pub dequeue_front : ℕ → Priority → System → Option Found
dequeue_front k p s = front_found k p (queue p (s.schedulers k))

-- `pin == nullptr`
abbrev unpinned : Option ℕ → Bool
unpinned none = true
unpinned (some k) = false

abbrev back_found : ℕ → Priority → Option ℕ → Option (List ℕ) → System → Option Found
back_found m p none rest s = none
back_found m p (some task) none s = none
back_found m p (some task) (some rest) s =
    if unpinned (s.tasks task).pin
    then some (record { scheduler = m; priority = p; task = task; rest = rest })
    else none

-- `stealSoft` and `stealHard` of scheduler `m`.
pub steal_back : ℕ → Priority → System → Option Found
steal_back m p s =
    let tasks = queue p (s.schedulers m) in back_found m p (last tasks) (but_last tasks) s

-- The first of two results that there is.
abbrev or_else : Option Found → Option Found → Option Found
or_else none second = second
or_else (some found) second = some found

-- `dequeue`, which tries both queues twice. Other threads may push between the tries: the states are
-- those at the four of them.
pub dequeue : ℕ → Priority → (ℕ → System) → Option Found
dequeue k p at = or_else (dequeue_front k p (at 0)) (
    or_else (dequeue_front k (other p) (at 1))
      (or_else (dequeue_front k p (at 2)) (dequeue_front k (other p) (at 3))))

-- `steal` with the schedulers that the random numbers choose.
pub steal : List ℕ → Priority → (ℕ → System) → ℕ → Option Found
steal [] p at tries = none
steal (m ∷ targets) p at tries =
    or_else (steal_back m p (at tries))
      (or_else (steal_back m (other p) (at (suc tries))) (steal targets p at (suc (suc tries))))

-- What the search finds, at the moment that it finds it, is a task that a step may take.
abbrev pub IsTaken : ℕ → Found → System → Type 0
IsTaken k f s = Takes k f.scheduler f.priority f.task f.rest s

dequeue_front-IsTaken :
    (k : ℕ) (p : Priority) (s : System) (f : Found) → dequeue_front k p s ≡ some f → IsTaken k f s
unfolding dequeue_front
dequeue_front-IsTaken k p s f e = go (queue p (s.schedulers k)) refl e
  where
    go : (l : List ℕ) → queue p (s.schedulers k) ≡ l → front_found k p l ≡ some f → IsTaken k f s
    go [] here e = absurd (ground (arith, e))
    go (task ∷ rest) here e =
        subst (λ (f : Found). IsTaken k f s) (some_injective _ _ e) (inl (refl, here))

steal_back-IsTaken :
    (k m : ℕ) (p : Priority) (s : System) (f : Found) → steal_back m p s ≡ some f → IsTaken k f s
unfolding steal_back
steal_back-IsTaken k m p s f e =
    go (last (queue p (s.schedulers m))) (but_last (queue p (s.schedulers m))) refl refl e
  where
    pin : (o : Option ℕ) → unpinned o ≡ true → o ≡ none
    pin none e = refl
    pin (some j) e = absurd (ground (arith, e))

    go :
        (o : Option ℕ) (r : Option (List ℕ))
        → last (queue p (s.schedulers m)) ≡ o
        → but_last (queue p (s.schedulers m)) ≡ r
        → back_found m p o r s ≡ some f
        → IsTaken k f s
    go none r at_end before e = absurd (ground (arith, e))
    go (some task) none at_end before e = absurd (ground (arith, e))
    go (some task) (some rest) at_end before e = elim (Bool-cases (unpinned (s.tasks task).pin)) [
      | inl free ↦
          subst (λ (f : Found). IsTaken k f s) (some_injective _ _ (ground (arith, e, free)))
            (inr (
              but_last-last (queue p (s.schedulers m)) rest task at_end before,
              pin (s.tasks task).pin free,
            ))
      | inr fixed ↦ absurd (ground (arith, e, fixed))
    ]

-- Either of two searches has found the task.
or_else-found :
    (first second : Option Found) (f : Found)
    → or_else first second ≡ some f
    → (first ≡ some f) ⊎ (second ≡ some f)
or_else-found none second f e = inr e
or_else-found (some g) second f e = inl e

dequeue-IsTaken :
    (k : ℕ) (p : Priority) (at : ℕ → System) (f : Found)
    → dequeue k p at ≡ some f
    → (t : ℕ) × IsTaken k f (at t)
unfolding dequeue
dequeue-IsTaken k p at f e = elim (or_else-found (dequeue_front k p (at 0)) _ f e) [
  | inl found ↦ (0, dequeue_front-IsTaken k p (at 0) f found)
  | inr e ↦ elim (or_else-found (dequeue_front k (other p) (at 1)) _ f e) [
    | inl found ↦ (1, dequeue_front-IsTaken k (other p) (at 1) f found)
    | inr e ↦ elim (or_else-found (dequeue_front k p (at 2)) _ f e) [
      | inl found ↦ (2, dequeue_front-IsTaken k p (at 2) f found)
      | inr found ↦ (3, dequeue_front-IsTaken k (other p) (at 3) f found)
    ]
  ]
]

steal-IsTaken :
    (k : ℕ) (targets : List ℕ) (p : Priority) (at : ℕ → System) (tries : ℕ) (f : Found)
    → steal targets p at tries ≡ some f
    → (t : ℕ) × IsTaken k f (at t)
unfolding steal
steal-IsTaken k [] p at tries f e = absurd (ground (arith, e))
steal-IsTaken k (m ∷ targets) p at tries f e =
    elim (or_else-found (steal_back m p (at tries)) _ f e) [
      | inl found ↦ (tries, steal_back-IsTaken k m p (at tries) f found)
      | inr e ↦ elim (or_else-found (steal_back m (other p) (at (suc tries))) _ f e) [
        | inl found ↦ (suc tries, steal_back-IsTaken k m (other p) (at (suc tries)) f found)
        | inr e ↦ steal-IsTaken k targets p at (suc (suc tries)) f e
      ]
    ]

dequeue-none :
    (k : ℕ) (p : Priority) (s : System)
    → dequeue k p (λ t. s) ≡ none
    → ((s.schedulers k).soft_tasks ≡ []) × ((s.schedulers k).hard_tasks ≡ [])
unfolding dequeue dequeue_front
dequeue-none k soft s e = (ground (arith, e), ground (arith, e))
dequeue-none k hard s e = (ground (arith, e), ground (arith, e))

-- What `dequeue` and `steal` find is, at the moment that they find it, a task that a step of the
-- interleaving may take: at the front of a queue of scheduler `k`, or at the back of another's queue
-- and not pinned. `dequeue` misses no task of its own queues when no other thread intervenes.
pub search-Takes :
    (k : ℕ) (p : Priority) (targets : List ℕ) (at : ℕ → System) (f : Found)
    → (dequeue k p at ≡ some f → (t : ℕ) × IsTaken k f (at t))
      × (steal targets p at 0 ≡ some f → (t : ℕ) × IsTaken k f (at t))
      × (dequeue k p (λ t. at 0) ≡ none
          → (((at 0).schedulers k).soft_tasks ≡ []) × (((at 0).schedulers k).hard_tasks ≡ []))
search-Takes k p targets at f =
    (dequeue-IsTaken k p at f, steal-IsTaken k targets p at 0 f, dequeue-none k p (at 0))
