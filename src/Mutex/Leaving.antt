-- ===== src/Mutex/Leaving.antt =====
-- What the task that gets the lock of fiberize/src/fiberize/mutex.cpp may do before `unlock` resumes it.
use fiberize.Base.{ℕ, ◌≡◌, inl, inr, Option, some, arith, sym, ap, ◌∙◌, ==_refl, some_injective}
use fiberize.Mutex.{Mutex, unlock}
use fiberize.Mutex.Steps.{
  Phase, outside, inside, Contention, enough, Contends, then_does, passes, unlocks, place_task,
}
use fiberize.Mutex.Handover.{Unlocks, unlock-Unlocks}
use fiberize.Mutex.Fairness.{Contends-IsFair}

placed : (i : ℕ) (p : Phase) (m : Mutex) (s : Contention) → (place_task i p m s).phase i ≡ p
placed i p m s = ground (arith, ==_refl i)

-- A task that is inside can leave.
inside-leaves :
    (j : ℕ) (s : Contention)
    → Contends s
    → s.phase j ≡ inside
    → (t : Contention) × Contends t × (t.phase j ≡ outside)
inside-leaves j s contends there =
    let done = unlock-Unlocks j s.mutex s.phase (Contends-IsFair contends) (inl there) in
    (
      place_task j outside done.left s,
      then_does contends (unlocks j done.next done.left there done.result),
      placed j outside done.left s,
    )

-- The task that `unlock` hands the lock to may pass, since its ticket is released, and unlock the mutex
-- itself: a state in which it is outside, and free to end, can be reached before it is resumed.
heir-leaves :
    (i j : ℕ) (m : Mutex) (s : Contention)
    → Contends s
    → s.phase i ≡ inside
    → unlock (enough s.mutex) s.mutex ≡ some (some j, m)
    → (t : Contention) × Contends t × (t.phase j ≡ outside)
heir-leaves i j m s contends here result = elim (done.fair.owned.indeed j heir) [
  | inl there ↦ inside-leaves j u released there
  | inr (t, place, le) ↦
      inside-leaves j (place_task j inside u.mutex u)
        (then_does released (passes j t place (ground (arith, le)))) (placed j inside u.mutex u)
]
  where
    done : Unlocks i s.mutex s.phase
    done = unlock-Unlocks i s.mutex s.phase (Contends-IsFair contends) (inl here)

    heir : done.fair.owner ≡ some j
    heir =
        done.heir
        ∙ ap (λ (r : Option ℕ × Mutex). r.0)
            (some_injective (done.next, done.left) (some j, m) (sym done.result ∙ result))

    u : Contention
    u = place_task i outside done.left s

    released : Contends u
    released = then_does contends (unlocks i done.next done.left here done.result)
