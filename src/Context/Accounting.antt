-- ===== src/Context/Accounting.antt =====
-- What `process` of fiberize/src/fiberize/context.cpp does with the events and with their payloads.
use fiberize.Base.{
  ℕ, zero, suc, ◌<◌, ◌≡◌, refl, ap, sym, ◌∙◌, Option, none, some, List, [], ◌∷◌, ◌++◌, length,
  append_assoc, append-nil, arith, inl, inr, Bool-cases, subst,
}
use fiberize.Identity.{TaskPath}
use fiberize.Handlers.{
  Closure, throws_killed, runs, Handler, HandlerBlock, find, store, collect_garbage,
}
use fiberize.Mailbox.{PendingEvent, DequeMailbox, free, free_all, events}
use fiberize.Mailbox.Fifo.{dequeue-Dequeues}
use fiberize.Task.{Exn}
use fiberize.Context.{
  Outcome, returned, threw, undefined, exhausted, World, UserCode, Processing, handle, process,
  execute, ended, execute_down, dispatch_block, dispatch_event, and_then, place, run_at,
  dispatch_collected, dispatch_found, freeing, with_handlers, initialize_handlers, initialized,
  with_task,
}
use fiberize.Context.Process.{
  Accounts, KeepsMailbox, after_handle, process-stopped, process-idle, process-handle,
}

-- A call that does not run out of fuel, and leaves the mailbox as it was.
abbrev Leaves : {M : Type 0} → DequeMailbox → Outcome (World M) → Type 0
Leaves m (returned v) = v.task.mailbox ≡ m
Leaves m (threw x v) = v.task.mailbox ≡ m
Leaves m undefined = Unit
Leaves m exhausted = ⊥

-- One event more, taken before the rest.
Accounts-step :
    {M : Type 0} (e : PendingEvent) (before : List PendingEvent) (freed freed' : List ℕ)
    → freed' ≡ freed ++ free e
    → (r : Outcome (Processing M)) → Accounts before freed' r
    → Accounts (e ∷ before) freed r
Accounts-step e before freed freed' paid (returned s) (taken, split, total) = (
  e ∷ taken,
  ap (λ (l : List PendingEvent). e ∷ l) split,
  total
      ∙ ap (λ (l : List ℕ). l ++ free_all taken) paid
      ∙ append_assoc freed (free e) (free_all taken),
)
Accounts-step e before freed freed' paid (threw x s) (taken, split, total) = (
  e ∷ taken,
  ap (λ (l : List PendingEvent). e ∷ l) split,
  total
      ∙ ap (λ (l : List ℕ). l ++ free_all taken) paid
      ∙ append_assoc freed (free e) (free_all taken),
)
Accounts-step e before freed freed' paid undefined a = tt
Accounts-step e before freed freed' paid exhausted a = a

module _ {M : Type 0} (call : UserCode M) (keeps : KeepsMailbox call) where
  ended-Leaves :
      (m : DequeMailbox) (r : World M × Option Exn) → r.0.task.mailbox ≡ m → Leaves m (ended call r)
  ended-Leaves m (v, none) e = e
  ended-Leaves m (v, some x) e = e

  closure-Leaves :
      (o : Option Closure) (n payload : ℕ) (w : World M)
      → Leaves w.task.mailbox (execute call (record { ref_count = n; closure = o }) payload w)
  closure-Leaves none n payload w = refl
  closure-Leaves (some throws_killed) n payload w = refl
  closure-Leaves (some (runs code)) n payload w =
      ended-Leaves w.task.mailbox (call code payload w) (keeps code payload w)

  and_then-Leaves :
      (m : DequeMailbox) (r : Outcome (World M)) (next : World M → Outcome (World M))
      → Leaves m r
      → ((v : World M) → v.task.mailbox ≡ m → Leaves m (next v))
      → Leaves m (and_then r next)
  and_then-Leaves m (returned v) next e ih = ih v e
  and_then-Leaves m (threw x v) next e ih = e
  and_then-Leaves m undefined next e ih = tt
  and_then-Leaves m exhausted next e ih = e

  run_at-Leaves :
      (m : DequeMailbox) (o : Option Handler) (payload : ℕ) (w : World M)
      (next : World M → Outcome (World M))
      → w.task.mailbox ≡ m
      → ((v : World M) → v.task.mailbox ≡ m → Leaves m (next v))
      → Leaves m (run_at call o payload w next)
  run_at-Leaves m none payload w next e ih = tt
  run_at-Leaves m (some h) payload w next e ih =
      and_then-Leaves m (execute call h payload w) next
        (subst (λ (k : DequeMailbox). Leaves k (execute call h payload w)) e
          (closure-Leaves h.closure h.ref_count payload w))
        ih

  down-Leaves :
      (n : ℕ) (path : TaskPath) (payload k : ℕ) (m : DequeMailbox) (w : World M)
      → w.task.mailbox ≡ m
      → Leaves m (execute_down call n path payload k w)
  unfolding execute_down
  down-Leaves n path payload zero m w e = e
  down-Leaves n path payload (suc k) m w e =
      run_at-Leaves m (place n k (find path w.task.handlers)) payload w _ e
        (down-Leaves n path payload k m)

  block-Leaves :
      (block : HandlerBlock) (e : PendingEvent) (w : World M)
      → Leaves w.task.mailbox (dispatch_block call block e w)
  unfolding dispatch_block
  block-Leaves [] e w = refl
  block-Leaves (slot ∷ slots) e w =
      let kept = slot ∷ slots in
      down-Leaves (length kept) e.path e.payload (length kept) w.task.mailbox
        (with_handlers (store e.path kept w.task.handlers) w) refl

  collected-Leaves :
      (r : Option (HandlerBlock × List Handler)) (e : PendingEvent) (w : World M)
      → Leaves w.task.mailbox (dispatch_collected call r e w)
  collected-Leaves none e w = tt
  collected-Leaves (some (kept, gone)) e w = block-Leaves kept e w

  found-Leaves :
      (o : Option HandlerBlock) (e : PendingEvent) (w : World M)
      → Leaves w.task.mailbox (dispatch_found call o e w)
  found-Leaves none e w = refl
  found-Leaves (some block) e w = collected-Leaves (collect_garbage block) e w

  dispatch-Leaves :
      (e : PendingEvent) (m : DequeMailbox) (w : World M)
      → w.task.mailbox ≡ m
      → Leaves m (dispatch_event call e w)
  unfolding dispatch_event
  dispatch-Leaves e m w same =
      subst (λ (k : DequeMailbox). Leaves k (dispatch_found call (find e.path w.task.handlers) e w))
        same (found-Leaves (find e.path w.task.handlers) e w)

  -- One event: it is taken and its payload freed.
  abbrev Handled : PendingEvent → DequeMailbox → List ℕ → Outcome (Processing M) → Type 0
  Handled e rest freed (returned t) = (t.task.mailbox ≡ rest) × (t.freed ≡ freed ++ free e)
  Handled e rest freed (threw x t) = (t.task.mailbox ≡ rest) × (t.freed ≡ freed ++ free e)
  Handled e rest freed undefined = Unit
  Handled e rest freed exhausted = ⊥

  freeing-Handled :
      (e : PendingEvent) (rest : DequeMailbox) (freed : List ℕ) (r : Outcome (World M))
      → Leaves rest r
      → Handled e rest freed (freeing call e freed r)
  freeing-Handled e rest freed (returned v) l = (l, refl)
  freeing-Handled e rest freed (threw x v) l = (l, refl)
  freeing-Handled e rest freed undefined l = tt
  freeing-Handled e rest freed exhausted l = l

  handle-Handled :
      (e : PendingEvent) (rest : DequeMailbox) (s : Processing M)
      → Handled e rest s.freed (handle call e rest s)
  unfolding handle
  handle-Handled e rest s =
      freeing-Handled e rest s.freed _
        (dispatch-Leaves e rest w (unfold initialize_handlers in ground arith))
    where
      w : World M
      w = initialized (with_task (record (s.task) { mailbox = rest }) s.world)

  after_handle-Accounts :
      (fuel : ℕ) (e : PendingEvent) (rest : DequeMailbox) (freed : List ℕ)
      (r : Outcome (Processing M))
      → Handled e rest freed r
      → ((t : Processing M)
          → t.task.mailbox ≡ rest
          → Accounts (events rest) t.freed (process call fuel t))
      → Accounts (e ∷ events rest) freed (after_handle call fuel r)
  after_handle-Accounts fuel e rest freed (returned t) (same, paid) ih =
      Accounts-step e (events rest) freed t.freed paid (process call fuel t) (ih t same)
  after_handle-Accounts fuel e rest freed (threw x t) (same, paid) ih = (
    e ∷ [],
    ap (λ (m : DequeMailbox). e ∷ events m) (sym same),
    paid ∙ ap (λ (l : List ℕ). freed ++ l) (sym (append-nil (free e))),
  )
  after_handle-Accounts fuel e rest freed undefined h ih = tt
  after_handle-Accounts fuel e rest freed exhausted h ih = h

  -- With closures that leave the mailbox alone and fuel for the pending events, `process` ends. The
  -- events that it takes, whether it returns or an exception escapes, are the oldest ones; the
  -- payload of each is freed exactly once, in order; the others stay pending.
  pub process-Accounts :
      (fuel : ℕ) (s : Processing M)
      → length (events s.task.mailbox) < fuel
      → Accounts (events s.task.mailbox) s.freed (process call fuel s)
  process-Accounts zero s enough = absurd (omega arith)
  process-Accounts (suc fuel) s enough = elim (Bool-cases s.task.stopped) [
    | inl stopped ↦ rw (process-stopped call fuel s stopped) ([], refl, sym (append-nil s.freed))
    | inr going ↦ elim (dequeue-Dequeues s.task.mailbox) [
      | inl (nil, nothing, _) ↦
          rw (process-idle call fuel s going nothing) ([], refl, sym (append-nil s.freed))
      | inr (e, rest, list, got, _) ↦
          rw (process-handle call fuel s going got, list)
            (after_handle-Accounts fuel e rest s.freed (handle call e rest s)
              (handle-Handled e rest s)
              λ t same.
                subst (λ (m : DequeMailbox). Accounts (events m) t.freed (process call fuel t)) same
                  (process-Accounts fuel t (
                    omega
                      (arith, ap length list, ap (λ (m : DequeMailbox). length (events m)) same))))
    ]
  ]
