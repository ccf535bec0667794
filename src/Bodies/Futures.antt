-- ===== src/Bodies/Futures.antt =====
-- How the runnable of a future in fiberize/include/fiberize/detail/tasktraits.hpp leaves its promise.
use fiberize.Base.{ℕ, ◌+◌, ◌^◌, ◌<◌, ◌≡◌, refl, true, none, some, length}
use fiberize.Deque.View.{to_list}
use fiberize.Condition.Broadcast.{present, signal_all-WakesAll}
use fiberize.Context.{World}
use fiberize.Results.{Result, result}
use fiberize.Promise.{Promise, complete}
use fiberize.Bodies.{Computation, stop, run_future}

-- A future whose promise has no result yet stops its task and gives the promise the value that its closure
-- returns, or the exception that it throws; every task that waits for it is resumed once, in order,
-- provided that no other task starts to wait meanwhile. The fuel exceeds the number of waiting tasks.
pub run_future-completes :
    {M A : Type 0} (fuel : ℕ) (body : Computation M A) (w : World M) (p : Promise (Result A))
    → p.result ≡ none
    → length (to_list p.completed.waiters.queue) < fuel
    → p.completed.waiters.released + length (to_list p.completed.waiters.queue) < 2 ^ 64
    → (q : Promise (Result A)) × (q.result ≡ some (result (body w).1))
      × ((run_future fuel (λ c. c) body (w, p)).0 ≡ stop (body w).0)
      × ((run_future fuel (λ c. c) body (w, p)).1
          ≡ some (true, present (to_list p.completed.waiters.queue), q))
unfolding run_future complete
run_future-completes fuel body w p open_yet enough small =
    let all = signal_all-WakesAll fuel p.completed enough small in
    (
      record { completed = all.left; result = some (result (body w).1) },
      refl,
      refl,
      rw open_yet (rw all.result refl),
    )
