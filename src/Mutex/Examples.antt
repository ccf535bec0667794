-- ===== src/Mutex/Examples.antt =====
-- A mutex of fiberize/src/fiberize/mutex.cpp that one task holds and another waits for.
use fiberize.Base.{ℕ, Bool, ◌==◌, ◌≤◌, ◌≡◌, refl, true, some, arith, [], false}
use fiberize.Deque.{push_back, pop_front, front, empty}
use fiberize.Waiting.{enroll, new_waiters, wake}
use fiberize.Mutex.{
  Mutex, new_mutex, lock_enter, unlock, lock_failed, unlock_call, lock_failed_call,
}
use fiberize.Mutex.Steps.{
  Contention, Contends, fresh, then_does, locks, place_task, inside, outside, waits, enough,
  entered,
}
use fiberize.Mutex.Tickets.{Owns}
use fiberize.Mutex.Exclusion.{
  Ends, Contends-exclusive, Contends-no_gap, Contends-returns, Contends-fifo,
}

abbrev at_start : Contention
at_start = record { mutex = new_mutex false; phase = λ i. outside }

abbrev held : Contention
held =
    place_task 0 (entered (lock_enter 0 at_start.mutex).0) (lock_enter 0 at_start.mutex).1 at_start

abbrev queued : Contention
queued = place_task 1 (entered (lock_enter 1 held.mutex).0) (lock_enter 1 held.mutex).1 held

Contends-queued : Contends queued
unfolding lock_enter new_mutex new_waiters enroll
Contends-queued =
    then_does (then_does fresh (locks 0 refl (omega arith))) (locks 1 refl (omega arith))

Contends-exclusive_example : ◌≡◌ {A = ℕ} 0 0
unfolding lock_enter new_mutex new_waiters enroll
Contends-exclusive_example = Contends-exclusive 0 0 queued Contends-queued refl refl

Contends-no_gap_example :
    (queued.mutex.locked ≡ true) × ((j : ℕ) × Owns queued.mutex.waiters.released (queued.phase j))
unfolding lock_enter new_mutex new_waiters enroll
Contends-no_gap_example = Contends-no_gap 1 1 queued Contends-queued refl

-- The task that waits is deleted before it is resumed.
abbrev second_deleted : ℕ → Bool
second_deleted i = i == 1

Contends-returns_example :
    (queued.phase 0 ≡ inside
      → Ends second_deleted
          (unlock (enough queued.mutex) queued.mutex)
          (unlock_call (enough queued.mutex) second_deleted queued.mutex))
    × ((ticket : ℕ)
        → queued.phase 0 ≡ waits ticket
        → Ends second_deleted
            (lock_failed (enough queued.mutex) ticket queued.mutex)
            (lock_failed_call (enough queued.mutex) second_deleted ticket queued.mutex))
Contends-returns_example = Contends-returns 0 second_deleted queued Contends-queued

abbrev passed_on : Mutex
passed_on = record queued.mutex {
  waiters = record { released = 1; next_ticket = 2; queue = record { queue = some [] } };
}

Contends-fifo_example :
    (t : ℕ) × (queued.phase 1 ≡ waits t) × ((k u : ℕ) → queued.phase k ≡ waits u → t ≤ u)
unfolding lock_enter new_mutex new_waiters enroll unlock wake push_back pop_front front empty
Contends-fifo_example = Contends-fifo 0 1 passed_on queued Contends-queued refl refl
