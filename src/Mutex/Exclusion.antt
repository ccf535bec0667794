-- ===== src/Mutex/Exclusion.antt =====
-- Who is inside the mutex of fiberize/src/fiberize/mutex.cpp, in what order tasks get in, and what its
-- calls can run into.
use fiberize.Base.{
  ℕ, ◌-◌, ◌≤◌, ◌≡◌, ◌≢◌, refl, subst, inl, inr, Bool, true, false, Option, none, some, List, [],
  ◌∷◌, arith, sym, ap, ◌∙◌, update, Bool-cases, Option-cases, some_injective, ◌==◌, ==_iff, ==_refl,
  leb, if◌then◌else◌,
}
use fiberize.Mutex.{
  Mutex, is_released, unlock, lock_failed, then_resume, unlock_call, lock_failed_call,
}
use fiberize.Mutex.Steps.{Phase, outside, waits, inside, Contention, enough, Contends}
use fiberize.Mutex.Tickets.{Owns, waits_injective}
use fiberize.Mutex.Handover.{Unlocks, unlock-Unlocks, is_some}
use fiberize.Mutex.Fairness.{IsFairly, lock_failed-Fails, Contends-IsFair}

-- However tasks lock, try, fail and unlock, two of them are never inside the mutex at once.
pub Contends-exclusive :
    (i j : ℕ) (s : Contention) → Contends s → s.phase i ≡ inside → s.phase j ≡ inside → i ≡ j
Contends-exclusive i j s contends here there =
    some_injective i j (sym (fair.owned.only i (inl here)) ∙ fair.owned.only j (inl there))
  where
    fair : IsFairly s
    fair = Contends-IsFair contends

-- While a task waits, some task is inside or may go in: the lock is never free with a queue.
pub Contends-no_gap :
    (i ticket : ℕ) (s : Contention)
    → Contends s
    → s.phase i ≡ waits ticket
    → (s.mutex.locked ≡ true) × ((j : ℕ) × Owns s.mutex.waiters.released (s.phase j))
Contends-no_gap i ticket s contends place = elim (Option-cases fair.owner) [
  | inl nobody ↦ absurd (unowned nobody)
  | inr (j, e) ↦ (fair.held ∙ ap (λ (o : Option ℕ). is_some o) e, (j, fair.owned.indeed j e))
]
  where
    fair : IsFairly s
    fair = Contends-IsFair contends

    k : ℕ
    k = ticket - s.mutex.waiters.released - 1

    unowned : fair.owner ≢ none
    unowned nobody = elim (Bool-cases (is_released ticket s.mutex)) [
      | inl due ↦
          ground (arith, nobody, fair.owned.only i (inr (ticket, place, ground (arith, due))))
      | inr early ↦ ground (
        arith,
        fair.idle (fair.held ∙ ap (λ (o : Option ℕ). is_some o) nobody),
        fair.queued.ahead i k (place ∙ ap (λ (t : ℕ). waits t) (ground (arith, early))),
      )
    ]

-- How a call ends whose critical section ends with `critical`: the section ends, with nothing undefined.
-- If it leaves a task to resume, the call resumes that task and no other, if the task has not been
-- deleted by then, and is undefined if it has been.
abbrev pub Ends : (ℕ → Bool) → Option (Option ℕ × Mutex) → Option (List ℕ × Mutex) → Type 0
Ends deleted critical call =
    (o : Option ℕ) × (m : Mutex) × (critical ≡ some (o, m))
    × (o ≡ none → call ≡ some ([], m))
    × ((j : ℕ) → o ≡ some j → deleted j ≡ false → call ≡ some (j ∷ [], m))
    × ((j : ℕ) → o ≡ some j → deleted j ≡ true → call ≡ none)

then_resume-Ends :
    (deleted : ℕ → Bool) (critical : Option (Option ℕ × Mutex)) (o : Option ℕ) (m : Mutex)
    → critical ≡ some (o, m)
    → Ends deleted critical (then_resume deleted critical)
then_resume-Ends deleted critical o m result = (
  o,
  m,
  result,
  λ nobody. rw (result, nobody) refl,
  λ j heir live. rw (result, heir, live) refl,
  λ j heir gone. rw (result, heir, gone) refl,
)

-- In every reachable state a task that is inside can unlock the mutex, and one that waits can give up: the
-- loop of `unlock` ends, and the critical section does not run into undefined behaviour, such as a
-- place outside the queue. The call then resumes the task that the lock is handed to, if there is
-- one. That call is made without the spinlock: it is undefined exactly if the task has been deleted by
-- then.
pub Contends-returns :
    (i : ℕ) (deleted : ℕ → Bool) (s : Contention)
    → Contends s
    → (s.phase i ≡ inside
        → Ends deleted
            (unlock (enough s.mutex) s.mutex)
            (unlock_call (enough s.mutex) deleted s.mutex))
      × ((ticket : ℕ)
          → s.phase i ≡ waits ticket
          → Ends deleted
              (lock_failed (enough s.mutex) ticket s.mutex)
              (lock_failed_call (enough s.mutex) deleted ticket s.mutex))
unfolding unlock_call lock_failed_call
Contends-returns i deleted s contends = (
  λ here.
      let done = unlock-Unlocks i s.mutex s.phase (Contends-IsFair contends) (inl here) in
      then_resume-Ends deleted (unlock (enough s.mutex) s.mutex) done.next done.left done.result,
  λ ticket place.
      let done = lock_failed-Fails i ticket s.mutex s.phase place (Contends-IsFair contends) in
      then_resume-Ends deleted (lock_failed (enough s.mutex) ticket s.mutex) done.next done.left
        done.result,
)

-- `unlock` hands the lock to the task with the lowest ticket of those that wait.
pub Contends-fifo :
    (i j : ℕ) (m : Mutex) (s : Contention)
    → Contends s
    → s.phase i ≡ inside
    → unlock (enough s.mutex) s.mutex ≡ some (some j, m)
    → (t : ℕ) × (s.phase j ≡ waits t) × ((k u : ℕ) → s.phase k ≡ waits u → t ≤ u)
Contends-fifo i j m s contends here result = elim (done.fair.owned.indeed j heir) [
  | inl there ↦ absurd (not_inside there)
  | inr (t, place, le) ↦ (t, apart j (waits t) (λ e. ground (arith, e)) place, lowest t place le)
]
  where
    done : Unlocks i s.mutex s.phase
    done = unlock-Unlocks i s.mutex s.phase (Contends-IsFair contends) (inl here)

    heir : done.fair.owner ≡ some j
    heir =
        done.heir
        ∙ ap (λ (r : Option ℕ × Mutex). r.0)
            (some_injective (done.next, done.left) (some j, m) (sym done.result ∙ result))

    phase : ℕ → Phase
    phase = update s.phase i outside

    apart : (k : ℕ) (p : Phase) → p ≢ outside → phase k ≡ p → s.phase k ≡ p
    apart k p in_line e = elim (Bool-cases (i == k)) [
      | inl same ↦
          absurd
            (in_line (sym (subst (λ (b : Bool). (if b then outside else s.phase k) ≡ p) same e)))
      | inr other ↦ subst (λ (b : Bool). (if b then outside else s.phase k) ≡ p) other e
    ]

    not_inside : phase j ≢ inside
    not_inside there = ground (
      arith,
      there,
      ==_refl i,
      ==_iff i j,
      Contends-exclusive i j s contends here (apart j inside (λ e. ground (arith, e)) there),
    )

    waiting_still : (k u : ℕ) → s.phase k ≡ waits u → phase k ≡ waits u
    waiting_still k u e = elim (Bool-cases (i == k)) [
      | inl same ↦ absurd (
          ground
            (arith, here, subst (λ (x : ℕ). s.phase x ≡ waits u) (sym ((==_iff i k).0 same)) e))
      | inr other ↦ rw other e
    ]

    lowest :
        (t : ℕ)
        → phase j ≡ waits t
        → t ≤ done.left.waiters.released
        → (k u : ℕ) → s.phase k ≡ waits u
        → t ≤ u
    lowest t place le k u e = elim (Bool-cases (leb u done.left.waiters.released)) [
      | inl due ↦ ground (
        arith,
        waits_injective t u (
            sym place
            ∙ ap phase (
                some_injective j k (
                  sym heir
                  ∙ done.fair.owned.only k (inr (u, waiting_still k u e, ground (arith, due)))))
            ∙ waiting_still k u e),
      )
      | inr later ↦ ground (arith, le, later)
    ]
