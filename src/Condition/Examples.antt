-- ===== src/Condition/Examples.antt =====
-- A condition of fiberize/src/fiberize/condition.cpp that two tasks wait for.
use fiberize.Base.{ℕ, ◌≡◌, refl, true, Option, none, some, [], ◌∷◌, arith, update}
use fiberize.Waiting.{enroll, new_waiters}
use fiberize.Mutex.Steps.{outside, waits}
use fiberize.Condition.{Condition, new_condition, await_enter, signal, await_failed, is_signaled}
use fiberize.Condition.Steps.{Awaiting, Awaits, fresh, then_does, awaits, move_task, enough}
use fiberize.Condition.Signaling.{IsFirst}
use fiberize.Condition.Forwarding.{Awaits-forwards}
use fiberize.Condition.Broadcast.{WakesAll, signal_all-WakesAll}

abbrev at_start : Awaiting
at_start = record { condition = new_condition; phase = λ i. outside }

abbrev one : Awaiting
one =
    move_task 0 (waits (await_enter 0 at_start.condition).0) (await_enter 0 at_start.condition).1
      at_start

abbrev two : Awaiting
two = move_task 1 (waits (await_enter 1 one.condition).0) (await_enter 1 one.condition).1 one

Awaits-two : Awaits two
unfolding await_enter new_condition new_waiters enroll
Awaits-two = then_does (then_does fresh (awaits 0 refl (omega arith))) (awaits 1 refl (omega arith))

Awaits-forwards_example :
    ((o : Option ℕ) × (c : Condition) × (signal (enough two.condition) two.condition ≡ some (o, c))
      × IsFirst o two.condition.waiters.released c.waiters.released two.phase)
    × ((o : Option ℕ) × (c : Condition) × (await_failed (enough two.condition) 1 two.condition
          ≡ some (o, c))
        × (is_signaled 1 two.condition ≡ true
            → IsFirst o two.condition.waiters.released c.waiters.released
                (update two.phase 0 outside)))
unfolding await_enter new_condition new_waiters enroll
Awaits-forwards_example = Awaits-forwards 0 1 two Awaits-two refl

-- The first of three tasks gave up.
abbrev gave_up : Condition
gave_up = record {
  waiters = record {
    released = 0;
    next_ticket = 4;
    queue = record { queue = some (none ∷ some 1 ∷ some 2 ∷ []) };
  };
}

signal_all-WakesAll_example : WakesAll 4 gave_up
signal_all-WakesAll_example = signal_all-WakesAll 4 gave_up (omega arith) (omega arith)
