-- ===== src/Mutex/Steps.antt =====
-- The interleavings of the critical sections of fiberize/src/fiberize/mutex.cpp that any number of
-- tasks use.
use fiberize.Base.{
  ℕ, suc, ◌<◌, ◌^◌, ◌≡◌, true, false, Option, none, some, length, update, if◌then◌else◌,
}
use fiberize.Deque.View.{to_list}
use fiberize.Mutex.{Mutex, new_mutex, lock_enter, is_released, try_lock, unlock, lock_failed}

-- Where a task stands: it is not in the mutex, it waits with a ticket, or it is past `lock`.
pub data Phase : Type 0 where
  outside : Phase
  waits : ℕ → Phase
  inside : Phase

pub record Contention : Type 0 where
  pub mutex : Mutex
  pub phase : ℕ → Phase

abbrev pub entered : Option ℕ → Phase
entered none = inside
entered (some ticket) = waits ticket

abbrev pub place_task : ℕ → Phase → Mutex → Contention → Contention
place_task i p m s = record { mutex = m; phase = update s.phase i p }

-- One round more than there are tasks in the queue, which is enough for the loop of `unlock`.
abbrev pub enough : Mutex → ℕ
enough m = suc (length (to_list m.waiters.queue))

-- A ticket is taken only while the counter does not wrap around.
pub data MutexStep (s : Contention) : Contention → Type 0 where
  locks :
      (i : ℕ)
      → s.phase i ≡ outside
      → suc s.mutex.waiters.next_ticket < 2 ^ 64
      → MutexStep s (place_task i (entered (lock_enter i s.mutex).0) (lock_enter i s.mutex).1 s)
  tries :
      (i : ℕ)
      → s.phase i ≡ outside
      → MutexStep s
          (place_task i (if (try_lock s.mutex).0 then inside else outside) (try_lock s.mutex).1 s)
  passes :
      (i ticket : ℕ)
      → s.phase i ≡ waits ticket
      → is_released ticket s.mutex ≡ true
      → MutexStep s (place_task i inside s.mutex s)
  fails :
      (i ticket : ℕ) (o : Option ℕ) (m : Mutex)
      → s.phase i ≡ waits ticket
      → lock_failed (enough s.mutex) ticket s.mutex ≡ some (o, m)
      → MutexStep s (place_task i outside m s)
  unlocks :
      (i : ℕ) (o : Option ℕ) (m : Mutex)
      → s.phase i ≡ inside
      → unlock (enough s.mutex) s.mutex ≡ some (o, m)
      → MutexStep s (place_task i outside m s)

-- A mutex that starts unlocked, and tasks that come to it.
pub data Contends : Contention → Type 0 where
  fresh : Contends (record { mutex = new_mutex false; phase = λ i. outside })
  then_does : {s t : Contention} → Contends s → MutexStep s t → Contends t
