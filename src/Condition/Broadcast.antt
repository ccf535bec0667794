-- ===== src/Condition/Broadcast.antt =====
-- Which tasks `signalAll` of fiberize/src/fiberize/condition.cpp wakes.
use fiberize.Base.{
  ℕ, zero, suc, ◌+◌, ◌^◌, ◌<◌, ◌≡◌, inl, inr, true, false, Option, none, some, List, [], ◌∷◌,
  length, arith, u64,
}
use fiberize.Deque.{LazyDeque, empty, front, pop_front}
use fiberize.Deque.View.{to_list, front-Fronts}
use fiberize.Condition.{Condition, signal_all}

-- The tasks of a queue that did not give up.
abbrev pub present : List (Option ℕ) → List ℕ
present [] = []
present (none ∷ xs) = present xs
present (some i ∷ xs) = i ∷ present xs

-- All of them were woken, in order; the queue is empty and all its tickets are released.
pub record WakesAll (fuel : ℕ) (c : Condition) : Type 0 where
  pub left : Condition
  pub result : signal_all fuel (λ c. c) c ≡ some (present (to_list c.waiters.queue), left)
  pub drained : to_list left.waiters.queue ≡ []
  pub released : left.waiters.released ≡ c.waiters.released + length (to_list c.waiters.queue)

record Opens (c : Condition) (x : Option ℕ) (q : LazyDeque (Option ℕ)) : Type 0 where
  pub list : to_list c.waiters.queue ≡ x ∷ to_list q
  pub more : empty c.waiters.queue ≡ false
  pub first : front c.waiters.queue ≡ some x
  pub popped : pop_front c.waiters.queue ≡ some q

abbrev after_pop : LazyDeque (Option ℕ) → Condition → Condition
after_pop q c = record {
  waiters = record (c.waiters) { queue = q; released = u64 (c.waiters.released + 1) };
}

signal_all-pop :
    (fuel : ℕ) (x : Option ℕ) (c : Condition) (q : LazyDeque (Option ℕ))
    → Opens c x q
    → u64 (c.waiters.released + 1) ≡ suc c.waiters.released
    → WakesAll fuel (after_pop q c)
    → WakesAll (suc fuel) c
unfolding signal_all
signal_all-pop fuel none c q opens next rest = record {
  left = rest.left;
  result = ground (arith, opens.more, opens.first, opens.popped, rest.result, opens.list);
  drained = rest.drained;
  released = ground (arith, opens.list, next, rest.released);
}
signal_all-pop fuel (some i) c q opens next rest = record {
  left = rest.left;
  result = ground (arith, opens.more, opens.first, opens.popped, rest.result, opens.list);
  drained = rest.drained;
  released = ground (arith, opens.list, next, rest.released);
}

signal_all-empty :
    (fuel : ℕ) (c : Condition)
    → to_list c.waiters.queue ≡ []
    → empty c.waiters.queue ≡ true
    → WakesAll (suc fuel) c
unfolding signal_all
signal_all-empty fuel c nil none_left = record {
  left = c;
  result = ground (arith, nil, none_left);
  drained = nil;
  released = ground (arith, nil);
}

-- When no other thread intervenes, `signalAll` ends, and wakes every task that did not give up once,
-- in the order in which they wait; it leaves the queue empty and all tickets released. One round more
-- than the queue is long suffices, while the count of tickets does not wrap around.
pub signal_all-WakesAll :
    (fuel : ℕ) (c : Condition)
    → length (to_list c.waiters.queue) < fuel
    → c.waiters.released + length (to_list c.waiters.queue) < 2 ^ 64
    → WakesAll fuel c
signal_all-WakesAll zero c enough small = absurd (omega (arith, enough))
signal_all-WakesAll (suc fuel) c enough small = elim (front-Fronts c.waiters.queue) [
  | inl (nil, none_left) ↦ signal_all-empty fuel c nil none_left
  | inr (x, q, list, more, first, popped) ↦
      signal_all-pop fuel x c q
        (record { list = list; more = more; first = first; popped = popped })
        (ground (arith, small, list))
        (signal_all-WakesAll fuel (after_pop q c) (ground (arith, enough, list))
          (ground (arith, small, list)))
]
