-- ===== src/Waiting/Woken.antt =====
-- What the loop that wakes a task up does to the queue of fiberize/src/fiberize/mutex.cpp and
-- fiberize/src/fiberize/condition.cpp: it drops the tasks that gave up in front of the first that did
-- not.
use fiberize.Base.{
  ℕ, zero, suc, ◌+◌, ◌^◌, ◌<◌, ◌≡◌, refl, subst, inl, inr, true, false, Option, none, some, List,
  [], ◌∷◌, length, u64, arith, sym, ◌∙◌,
}
use fiberize.Deque.{LazyDeque, empty, front, pop_front}
use fiberize.Deque.View.{to_list, front-Fronts}
use fiberize.Waiting.{Waiters, wake}

-- From `r` released tickets and a queue to the task woken, the tickets and the queue after it.
pub data Woken : ℕ → List (Option ℕ) → Option ℕ → ℕ → List (Option ℕ) → Type 0 where
  exhausts : (r : ℕ) → Woken r [] none r []
  wakes : (r i : ℕ) (xs : List (Option ℕ)) → Woken r (some i ∷ xs) (some i) (suc r) xs
  skips :
      (r r' : ℕ) (xs ys : List (Option ℕ)) (o : Option ℕ)
      → Woken (suc r) xs o r' ys
      → Woken r (none ∷ xs) o r' ys

-- The result of `wake` with the queue seen as a list.
pub record Wakes (fuel : ℕ) (w : Waiters) : Type 0 where
  pub task : Option ℕ
  pub left : Waiters
  pub found : wake fuel w ≡ some (task, left)
  pub same_next : left.next_ticket ≡ w.next_ticket
  pub woken : Woken w.released (to_list w.queue) task left.released (to_list left.queue)

-- The queue is not empty, and `x` is its front and `q` the rest.
record Opens (w : Waiters) (x : Option ℕ) (q : LazyDeque (Option ℕ)) : Type 0 where
  pub list : to_list w.queue ≡ x ∷ to_list q
  pub more : empty w.queue ≡ false
  pub first : front w.queue ≡ some x
  pub popped : pop_front w.queue ≡ some q

abbrev released_one : LazyDeque (Option ℕ) → Waiters → Waiters
released_one q w = record w { queue = q; released = u64 (w.released + 1) }

wake-empty : (fuel : ℕ) (w : Waiters) → empty w.queue ≡ true → wake (suc fuel) w ≡ some (none, w)
unfolding wake
wake-empty fuel w e = ground (arith, e)

wake-some :
    (fuel i : ℕ) (w : Waiters) (q : LazyDeque (Option ℕ))
    → Opens w (some i) q
    → wake (suc fuel) w ≡ some (some i, released_one q w)
unfolding wake
wake-some fuel i w q opens = ground (arith, opens.more, opens.first, opens.popped)

wake-none :
    (fuel : ℕ) (w : Waiters) (q : LazyDeque (Option ℕ))
    → Opens w none q
    → wake (suc fuel) w ≡ wake fuel (released_one q w)
unfolding wake
wake-none fuel w q opens = ground (arith, opens.more, opens.first, opens.popped)

Woken-step :
    (fuel : ℕ) (x : Option ℕ) (w : Waiters) (q : LazyDeque (Option ℕ))
    → Opens w x q
    → u64 (w.released + 1) ≡ suc w.released
    → Wakes fuel (released_one q w)
    → Wakes (suc fuel) w
Woken-step fuel (some i) w q opens next rest = record {
  task = some i;
  left = released_one q w;
  found = wake-some fuel i w q opens;
  same_next = refl;
  woken = rw (opens.list, next) (wakes w.released i (to_list q));
}
Woken-step fuel none w q opens next rest = record {
  task = rest.task;
  left = rest.left;
  found = wake-none fuel w q opens ∙ rest.found;
  same_next = rest.same_next;
  woken = rw opens.list (
      skips w.released rest.left.released (to_list q) (to_list rest.left.queue) rest.task (
        subst
          (λ (r : ℕ). Woken r (to_list q) rest.task rest.left.released (to_list rest.left.queue))
          next rest.woken));
}

-- With more fuel than the queue is long, the loop ends.
pub wake-Wakes :
    (fuel : ℕ) (w : Waiters)
    → length (to_list w.queue) < fuel
    → w.released + length (to_list w.queue) < 2 ^ 64
    → Wakes fuel w
wake-Wakes zero w enough small = absurd (omega (arith, enough))
wake-Wakes (suc fuel) w enough small = elim (front-Fronts w.queue) [
  | inl (nil, none_left) ↦ record {
    task = none;
    left = w;
    found = wake-empty fuel w none_left;
    same_next = refl;
    woken =
        subst (λ (l : List (Option ℕ)). Woken w.released l none w.released l) (sym nil)
          (exhausts w.released);
  }
  | inr (x, q, list, more, first, popped) ↦
      Woken-step fuel x w q (record { list = list; more = more; first = first; popped = popped })
        (ground (arith, small, list))
        (wake-Wakes fuel (released_one q w) (ground (arith, enough, list))
          (ground (arith, small, list)))
]
