-- ===== src/Promise.antt =====
-- fiberize/include/fiberize/promise.hpp: a value that is set once, and a condition that tasks wait for
-- it with.
mod Examples
use fiberize.Base.{
  ℕ, zero, suc, ◌+◌, ◌^◌, ◌<◌, ◌≡◌, refl, Bool, true, false, Option, none, some, List, [], ◌∷◌,
  length, arith, Option-cases, inl, inr, map,
}
use fiberize.Deque.View.{to_list}
use fiberize.Condition.{Condition, new_condition, await_enter, signal_all}
use fiberize.Condition.Broadcast.{WakesAll, signal_all-WakesAll, present}

pub record Promise (A : Type 0) : Type 0 where
  pub completed : Condition
  pub result : Option A

module _ {A : Type 0} where
  abbrev set_result : A → Option (List ℕ × Condition) → Option (Bool × List ℕ × Promise A)
  set_result a none = none
  set_result a (some (tasks, c)) = some (true, tasks, record { completed = c; result = some a })

  -- `complete` with a value, or with a constructor that throws: what it returns, the tasks that it
  -- resumes, and the promise. `meanwhile` is what others do while the lock is free.
  unfoldable pub complete :
      ℕ → (Condition → Condition) → Option A → Promise A → Option (Bool × List ℕ × Promise A)
  complete fuel meanwhile constructed p = elim p.result [
    | some a ↦ some (false, [], p)
    | none ↦ elim constructed [
      | none ↦ some (false, [], p)
      | some a ↦ set_result a (signal_all fuel meanwhile p.completed)
    ]
  ]

  -- `await` up to where it waits: the value, or the ticket to wait with.
  pub await : ℕ → Promise A → Option A × Option ℕ × Promise A
  await task p = elim p.result [
    | some a ↦ (some a, none, p)
    | none ↦ (
      none,
      some (await_enter task p.completed).0,
      record p { completed = (await_enter task p.completed).1 },
    )
  ]

  -- Calls of `complete` one after another, with what each returns and all the tasks resumed.
  abbrev before :
      Option (Bool × List ℕ × Promise A)
      → (Promise A → Option (List (Bool × List ℕ) × Promise A))
      → Option (List (Bool × List ℕ) × Promise A)
  before none next = none
  before (some (done, tasks, p)) next = elim (next p) [
    | none ↦ none
    | some (rest, q) ↦ some ((done, tasks) ∷ rest, q)
  ]

  pub complete_each : ℕ → List (Option A) → Promise A → Option (List (Bool × List ℕ) × Promise A)
  unfolding complete
  complete_each fuel [] p = some ([], p)
  complete_each fuel (x ∷ xs) p = before (complete fuel (λ c. c) x p) (complete_each fuel xs)

  -- What they should return: one of them completes the promise, the first whose value there is, and
  -- that one resumes the tasks that wait.
  abbrev pub refused : List (Option A) → List (Bool × List ℕ)
  refused [] = []
  refused (x ∷ xs) = (false, []) ∷ refused xs

  abbrev pub first_done : List ℕ → List (Option A) → List (Bool × List ℕ)
  first_done tasks [] = []
  first_done tasks (none ∷ xs) = (false, []) ∷ first_done tasks xs
  first_done tasks (some a ∷ xs) = (true, tasks) ∷ refused xs

  abbrev pub first_value : List (Option A) → Option A
  first_value [] = none
  first_value (none ∷ xs) = first_value xs
  first_value (some a ∷ xs) = some a

  complete_each-refused :
      (fuel : ℕ) (xs : List (Option A)) (p : Promise A) (a : A)
      → p.result ≡ some a
      → complete_each fuel xs p ≡ some (refused xs, p)
  unfolding complete_each complete
  complete_each-refused fuel [] p a e = refl
  complete_each-refused fuel (x ∷ xs) p a e = ground (arith, e, complete_each-refused fuel xs p a e)

  completed_with :
      (fuel : ℕ) (a : A) (xs : List (Option A)) (p : Promise A) (w : WakesAll fuel p.completed)
      → p.result ≡ none
      → complete_each fuel (some a ∷ xs) p
        ≡ some (
          (true, present (to_list p.completed.waiters.queue)) ∷ refused xs,
          record { completed = w.left; result = some a },
        )
  unfolding complete_each complete
  completed_with fuel a xs p w e = ground (
    arith,
    e,
    w.result,
    complete_each-refused fuel xs (record { completed = w.left; result = some a }) a refl,
  )

  -- However often a promise is completed, one after the other and without a task that starts to wait
  -- between, it takes the first value that could be constructed and keeps it; that call returns true
  -- and resumes every waiting task once, and all others return false and resume none. The calls end
  -- when the fuel exceeds the number of waiting tasks.
  pub complete_each-first :
      (fuel : ℕ) (xs : List (Option A)) (p : Promise A)
      → p.result ≡ none
      → length (to_list p.completed.waiters.queue) < fuel
      → p.completed.waiters.released + length (to_list p.completed.waiters.queue) < 2 ^ 64
      → (q : Promise A) × (q.result ≡ first_value xs)
        × (complete_each fuel xs p
            ≡ some (first_done (present (to_list p.completed.waiters.queue)) xs, q))
  unfolding complete_each complete
  complete_each-first fuel [] p e enough small = (p, e, refl)
  complete_each-first fuel (none ∷ xs) p e enough small =
      let rest = complete_each-first fuel xs p e enough small in
      (rest.0, rest.1, ground (arith, e, rest.2))
  complete_each-first fuel (some a ∷ xs) p e enough small =
      let w = signal_all-WakesAll fuel p.completed enough small in
      (record { completed = w.left; result = some a }, refl, completed_with fuel a xs p w e)
