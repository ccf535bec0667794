-- ===== src/Promise/Examples.antt =====
-- A promise that two tasks wait for and three calls try to complete, the first in vain.
use fiberize.Base.{ℕ, ◌≡◌, refl, none, some, [], ◌∷◌, arith}
use fiberize.Deque.View.{to_list}
use fiberize.Condition.Broadcast.{present}
use fiberize.Promise.{Promise, complete_each, first_value, first_done, complete_each-first}

abbrev awaited : Promise ℕ
awaited = record {
  completed = record {
    waiters = record {
      released = 0;
      next_ticket = 3;
      queue = record { queue = some (some 1 ∷ some 2 ∷ []) };
    };
  };
  result = none;
}

complete_each-first_example :
    (q : Promise ℕ) × (q.result ≡ first_value (none ∷ some 5 ∷ some 6 ∷ []))
    × (complete_each 3 (none ∷ some 5 ∷ some 6 ∷ []) awaited
        ≡ some (
          first_done {A = ℕ}
              (present (to_list awaited.completed.waiters.queue))
              (none ∷ some 5 ∷ some 6 ∷ []),
          q,
        ))
complete_each-first_example =
    complete_each-first 3 (none ∷ some 5 ∷ some 6 ∷ []) awaited refl (omega arith) (omega arith)
