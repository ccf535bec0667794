-- ===== src/Condition/Steps.antt =====
-- The interleavings of tasks that wait for a condition of fiberize/src/fiberize/condition.cpp, are
-- signaled, or fail while they wait.
use fiberize.Base.{ℕ, suc, ◌<◌, ◌^◌, ◌≡◌, true, Option, some, length, update}
use fiberize.Deque.View.{to_list}
use fiberize.Mutex.Steps.{Phase, outside, waits}
use fiberize.Condition.{Condition, new_condition, await_enter, is_signaled, signal, await_failed}

pub record Awaiting : Type 0 where
  pub condition : Condition
  pub phase : ℕ → Phase

abbrev pub move_task : ℕ → Phase → Condition → Awaiting → Awaiting
move_task i p c s = record { condition = c; phase = update s.phase i p }

-- One round more than there are tasks in the queue.
abbrev pub enough : Condition → ℕ
enough c = suc (length (to_list c.waiters.queue))

-- A ticket is taken only while the counter does not wrap around.
pub data AwaitStep (s : Awaiting) : Awaiting → Type 0 where
  awaits :
      (i : ℕ)
      → s.phase i ≡ outside
      → suc s.condition.waiters.next_ticket < 2 ^ 64
      → AwaitStep s
          (move_task i (waits (await_enter i s.condition).0) (await_enter i s.condition).1 s)
  passes :
      (i ticket : ℕ)
      → s.phase i ≡ waits ticket
      → is_signaled ticket s.condition ≡ true
      → AwaitStep s (move_task i outside s.condition s)
  fails :
      (i ticket : ℕ) (o : Option ℕ) (c : Condition)
      → s.phase i ≡ waits ticket
      → await_failed (enough s.condition) ticket s.condition ≡ some (o, c)
      → AwaitStep s (move_task i outside c s)
  signals :
      (o : Option ℕ) (c : Condition)
      → signal (enough s.condition) s.condition ≡ some (o, c)
      → AwaitStep s (record { condition = c; phase = s.phase })

pub data Awaits : Awaiting → Type 0 where
  fresh : Awaits (record { condition = new_condition; phase = λ i. outside })
  then_does : {s t : Awaiting} → Awaits s → AwaitStep s t → Awaits t
