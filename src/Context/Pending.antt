-- ===== src/Context/Pending.antt =====
-- Rounds of `processUntil` of fiberize/src/fiberize/context.cpp that meet the condition.
use fiberize.Base.{ℕ, suc, ◌≡◌, Bool, true, false, some, arith}
use fiberize.Mailbox.{PendingEvent, DequeMailbox, dequeue}
use fiberize.Context.{returned, World, UserCode, Processing, handle, process_pending, process_until}

module _ {M : Type 0} (call : UserCode M) (condition : M → Bool) where
  pub process_pending-met :
      (fuel : ℕ) (s t : Processing M) (e : PendingEvent) (rest : DequeMailbox)
      → dequeue s.task.mailbox ≡ some (some e, rest)
      → handle call e rest s ≡ returned t
      → condition t.memory ≡ true
      → process_pending call (suc fuel) condition s
        ≡ returned (true, record t { owns_lock = false })
  unfolding process_pending
  process_pending-met fuel s t e rest next handled met = ground (arith, next, handled, met)

  pub process_until-met :
      (rounds fuel : ℕ) (suspend : World M → World M) (s t : Processing M)
      → condition s.memory ≡ false
      → process_pending call fuel condition (record s { owns_lock = true }) ≡ returned (true, t)
      → process_until call (suc rounds) fuel condition suspend s ≡ returned t
  unfolding process_until
  process_until-met rounds fuel suspend s t unmet pending = ground (arith, unmet, pending)
