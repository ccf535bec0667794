-- ===== src/Context/Process.antt =====
-- What `process` of fiberize/src/fiberize/context.cpp leaves behind, and what it does with the
-- payloads.
use fiberize.Base.{
  ℕ, zero, suc, ◌≡◌, refl, ◌⊎◌, true, false, none, some, List, [], ◌++◌, arith, inl, inr,
  Bool-cases,
}
use fiberize.Mailbox.{PendingEvent, DequeMailbox, dequeue, free_all, events}
use fiberize.Mailbox.Fifo.{dequeue-Dequeues}
use fiberize.Context.{
  Outcome, returned, threw, undefined, exhausted, World, UserCode, Processing, settle, handle,
  process, freeing,
}

-- On return the lock is held, the task expects the resumes that it has had, and it has stopped or
-- has no event left. When an exception escapes the lock is free.
abbrev pub IsSettled : {M : Type 0} → Outcome (Processing M) → Type 0
IsSettled (returned s) =
    (s.owns_lock ≡ true)
    × (s.task.resumes_expected ≡ s.task.resumes)
    × ((s.task.stopped ≡ true) ⊎ (events s.task.mailbox ≡ []))
IsSettled (threw x s) = s.owns_lock ≡ false
IsSettled undefined = Unit
IsSettled exhausted = Unit

abbrev Unlocks : {M : Type 0} → Outcome (Processing M) → Type 0
Unlocks (returned s) = s.owns_lock ≡ true
Unlocks (threw x s) = s.owns_lock ≡ false
Unlocks undefined = Unit
Unlocks exhausted = Unit

-- The events that a call has taken, `taken`, are the oldest of the `before` pending ones, and the
-- payload of each was freed once, in order; the others are still pending. The fuel has sufficed.
abbrev pub Accounts : {M : Type 0} → List PendingEvent → List ℕ → Outcome (Processing M) → Type 0
Accounts before freed (returned s) =
    (taken : List PendingEvent) × (before ≡ taken ++ events s.task.mailbox)
    × (s.freed ≡ freed ++ free_all taken)
Accounts before freed (threw x s) =
    (taken : List PendingEvent) × (before ≡ taken ++ events s.task.mailbox)
    × (s.freed ≡ freed ++ free_all taken)
Accounts before freed undefined = Unit
Accounts before freed exhausted = ⊥

-- Closures that leave the mailbox of the task as it is.
abbrev pub KeepsMailbox : {M : Type 0} → UserCode M → Type 0
KeepsMailbox {M} call =
    (code payload : ℕ) (w : World M) → (call code payload w).0.task.mailbox ≡ w.task.mailbox

module _ {M : Type 0} (call : UserCode M) where
  freeing-Unlocks :
      (e : PendingEvent) (freed : List ℕ) (r : Outcome (World M)) → Unlocks (freeing call e freed r)
  freeing-Unlocks e freed (returned v) = refl
  freeing-Unlocks e freed (threw x v) = refl
  freeing-Unlocks e freed undefined = tt
  freeing-Unlocks e freed exhausted = tt

  handle-Unlocks :
      (e : PendingEvent) (rest : DequeMailbox) (s : Processing M) → Unlocks (handle call e rest s)
  unfolding handle
  handle-Unlocks e rest s = freeing-Unlocks e s.freed _

  abbrev pub after_handle : ℕ → Outcome (Processing M) → Outcome (Processing M)
  after_handle fuel (returned t) = process call fuel t
  after_handle fuel (threw x t) = threw x t
  after_handle fuel undefined = undefined
  after_handle fuel exhausted = exhausted

  -- The three ways in which a round of the loop goes.
  pub process-stopped :
      (fuel : ℕ) (s : Processing M)
      → s.task.stopped ≡ true
      → process call (suc fuel) s ≡ returned (settle s)
  unfolding process
  process-stopped fuel s h = ground arith

  pub process-idle :
      (fuel : ℕ) (s : Processing M) {m : DequeMailbox}
      → s.task.stopped ≡ false
      → dequeue s.task.mailbox ≡ some (none, m)
      → process call (suc fuel) s ≡ returned (settle s)
  unfolding process
  process-idle fuel s h d = ground arith

  pub process-handle :
      (fuel : ℕ) (s : Processing M) {e : PendingEvent} {rest : DequeMailbox}
      → s.task.stopped ≡ false
      → dequeue s.task.mailbox ≡ some (some e, rest)
      → process call (suc fuel) s ≡ after_handle fuel (handle call e rest s)
  unfolding process
  process-handle fuel s {e} {rest} h d = go (handle call e rest s) refl
    where
      go :
          (r : Outcome (Processing M))
          → handle call e rest s ≡ r
          → process call (suc fuel) s ≡ after_handle fuel r
      go (returned t) eq = ground arith
      go (threw x t) eq = ground arith
      go undefined eq = ground arith
      go exhausted eq = ground arith

  after_handle-IsSettled :
      (fuel : ℕ) (r : Outcome (Processing M))
      → Unlocks r
      → ((t : Processing M) → t.owns_lock ≡ true → IsSettled (process call fuel t))
      → IsSettled (after_handle fuel r)
  after_handle-IsSettled fuel (returned t) u ih = ih t u
  after_handle-IsSettled fuel (threw x t) u ih = u
  after_handle-IsSettled fuel undefined u ih = tt
  after_handle-IsSettled fuel exhausted u ih = tt

  -- Whatever the closures do, `process` keeps its contract with the scheduler: see `IsSettled`.
  pub process-IsSettled :
      (fuel : ℕ) (s : Processing M) → s.owns_lock ≡ true → IsSettled (process call fuel s)
  process-IsSettled zero s locked = unfold process in tt
  process-IsSettled (suc fuel) s locked = elim (Bool-cases s.task.stopped) [
    | inl stopped ↦ rw (process-stopped fuel s stopped) (locked, refl, inl stopped)
    | inr going ↦ elim (dequeue-Dequeues s.task.mailbox) [
      | inl (nil, nothing, _) ↦ rw (process-idle fuel s going nothing) (locked, refl, inr nil)
      | inr (e, rest, _, got, _) ↦ rw (process-handle fuel s going got) (
          after_handle-IsSettled fuel (handle call e rest s) (handle-Unlocks e rest s)
            (process-IsSettled fuel))
    ]
  ]
