-- ===== src/Context/Dispatch.antt =====
-- The handlers that `dispatchEvent` of fiberize/src/fiberize/context.cpp runs, and their order.
use mathlib.Core.List.{reverse-cons, reverse-reverse}
use fiberize.Base.{
  ℕ, zero, suc, ◌<◌, ◌≡◌, ◌≢◌, refl, ap, sym, ◌∙◌, Option, none, some, List, [], ◌∷◌, ◌++◌, map,
  reverse, length, length-append, get_elem?, get_elem?-append, append_assoc, append-nil, arith,
}
use fiberize.Identity.{TaskPath}
use fiberize.Identity.Paths.{path_eq_iff}
use fiberize.Handlers.{Closure, throws_killed, runs, Handler, HandlerBlock, find, store, erase}
use fiberize.Handlers.Garbage.{alive, collect_garbage-select}
use fiberize.Handlers.Table.{find-store}
use fiberize.Mailbox.{PendingEvent}
use fiberize.Task.{Exn}
use fiberize.Context.{
  Outcome, returned, threw, undefined, exhausted, World, UserCode, execute, execute_down,
  with_handlers, dispatch_block, dispatch_event, ended, and_then, place,
}

-- Closures that leave the handlers of a path as they stand, save for the ones that run the closure itself,
-- which it may release, as that of `Event::await` does. They may change the handlers of other paths.
abbrev pub KeepsOthers : {M : Type 0} → UserCode M → TaskPath → Type 0
KeepsOthers {M} call path =
    (code payload : ℕ) (w : World M) (n k : ℕ) (h : Handler)
    → place n k (find path w.task.handlers) ≡ some h
    → h.closure ≢ some (runs code)
    → place n k (find path (call code payload w).0.task.handlers) ≡ some h

-- No two handlers of a list run the same closure.
abbrev pub Distinct : List Handler → Type 0
Distinct hs =
    (j k : ℕ) (x y : Handler)
    → j < k
    → get_elem? hs j ≡ some x
    → get_elem? hs k ≡ some y
    → (code : ℕ) → y.closure ≡ some (runs code)
    → x.closure ≢ some (runs code)

get_elem?-map :
    (hs : List Handler) (k : ℕ) (h : Handler)
    → get_elem? hs k ≡ some h
    → get_elem? {A = Option Handler} (map some hs) k ≡ some (some h)
get_elem?-map [] k h e = absurd (ground (arith, e))
get_elem?-map (x ∷ hs) zero h e = ground (arith, e)
get_elem?-map (x ∷ hs) (suc k) h e = get_elem?-map hs k h e

length-map : (hs : List Handler) → length {A = Option Handler} (map some hs) ≡ length hs
length-map [] = refl
length-map (h ∷ hs) = ap (λ (n : ℕ). suc n) (length-map hs)

length-reverse : (rs : List Handler) → length (reverse rs) ≡ length rs
length-reverse [] = refl
length-reverse (r ∷ rs) =
    rw (reverse-cons r rs, length-append (reverse rs) (r ∷ [])) (omega (arith, length-reverse rs))

module _ {M : Type 0} (call : UserCode M) where
  -- The handlers of a list, in order, up to the first that throws.
  pub run_each : List Handler → ℕ → World M → Outcome (World M)
  run_each [] payload w = returned w
  run_each (h ∷ hs) payload w = and_then (execute call h payload w) (run_each hs payload)

  ended-returned : (v : World M) (r : World M × Option Exn) → ended call r ≡ returned v → r.0 ≡ v
  ended-returned v (u, none) e = ground (arith, e)
  ended-returned v (u, some x) e = absurd (ground (arith, e))

  closure_stands :
      (path : TaskPath)
      → KeepsOthers call path
      → (o : Option Closure) (payload : ℕ) (w v : World M) (n k : ℕ) (x : Handler)
      → execute call (record { ref_count = 0; closure = o }) payload w ≡ returned v
      → place n k (find path w.task.handlers) ≡ some x
      → ((code : ℕ) → o ≡ some (runs code) → x.closure ≢ some (runs code))
      → place n k (find path v.task.handlers) ≡ some x
  closure_stands path keeps none payload w v n k x e here other = absurd (ground (arith, e))
  closure_stands path keeps (some throws_killed) payload w v n k x e here other =
      absurd (ground (arith, e))
  closure_stands path keeps (some (runs code)) payload w v n k x e here other =
      rw (← ended-returned v (call code payload w) e)
        (keeps code payload w n k x here (other code refl))

  and_then_cong :
      (r : Outcome (World M)) (j k : World M → Outcome (World M))
      → ((v : World M) → r ≡ returned v → j v ≡ k v)
      → and_then r j ≡ and_then r k
  and_then_cong (returned v) j k h = h v refl
  and_then_cong (threw x v) j k h = refl
  and_then_cong undefined j k h = refl
  and_then_cong exhausted j k h = refl

  at_place :
      (rs post : List Handler) (h : Handler)
      → get_elem? (reverse rs ++ h ∷ post) (length rs) ≡ some h
  at_place rs post h = rw (← length-reverse rs) (get_elem?-append (reverse rs) h post)

  reverse_shift :
      (h : Handler) (rs post : List Handler) → reverse (h ∷ rs) ++ post ≡ reverse rs ++ h ∷ post
  reverse_shift h rs post =
      ap (λ (l : List Handler). l ++ post) (reverse-cons h rs)
      ∙ append_assoc (reverse rs) (h ∷ []) post

  -- The loop over the handlers `rs` that are left of `hs`, the next one first.
  execute_down-run_each :
      (path : TaskPath)
      → KeepsOthers call path
      → (rs post hs : List Handler) (n payload : ℕ) (w : World M) → Distinct hs
      → hs ≡ reverse rs ++ post
      → ((k : ℕ) (x : Handler)
          → k < length rs
          → get_elem? hs k ≡ some x
          → place n k (find path w.task.handlers) ≡ some x)
      → execute_down call n path payload (length rs) w ≡ run_each rs payload w
  unfolding execute_down run_each
  execute_down-run_each path keeps [] post hs n payload w distinct split stands = refl
  execute_down-run_each path keeps (h ∷ rs) post hs n payload w distinct split stands =
      rw (stands (length rs) h (omega arith) here) (
        and_then_cong (execute call h payload w) (execute_down call n path payload (length rs))
          (run_each rs payload)
          (λ v e.
            execute_down-run_each path keeps rs (h ∷ post) hs n payload v distinct moved
              (λ k x below there.
                closure_stands path keeps h.closure payload w v n k x e
                  (stands k x (omega (arith, below)) there)
                  (distinct k (length rs) x h below there here))))
    where
      moved : hs ≡ reverse rs ++ h ∷ post
      moved = split ∙ reverse_shift h rs post

      here : get_elem? hs (length rs) ≡ some h
      here = rw moved (at_place rs post h)

  -- What an event does when its path has the live handlers `live`.
  abbrev pub dispatched : PendingEvent → List Handler → World M → Outcome (World M)
  dispatched e [] w = returned (with_handlers (erase e.path w.task.handlers) w)
  dispatched e (a ∷ live) w =
      run_each (reverse (a ∷ live)) e.payload
        (with_handlers (store e.path (map some (a ∷ live)) w.task.handlers) w)

  dispatch_block-dispatched :
      (e : PendingEvent)
      → KeepsOthers call e.path
      → (live : List Handler) (block : HandlerBlock) (w : World M) → Distinct live
      → find e.path w.task.handlers ≡ some block
      → dispatch_block call (map some live) e w ≡ dispatched e live w
  unfolding dispatch_block
  dispatch_block-dispatched e keeps [] block w distinct found = refl
  dispatch_block-dispatched e keeps (a ∷ live) block w distinct found =
      ap (λ (k : ℕ). execute_down call (length kept) e.path e.payload k v) (sym sized)
      ∙ execute_down-run_each e.path keeps rs [] (a ∷ live) (length kept) e.payload v distinct split
          (λ k x below there. rw stored (placed k x there))
    where
      rs : List Handler
      rs = reverse (a ∷ live)

      kept : HandlerBlock
      kept = map some (a ∷ live)

      v : World M
      v = with_handlers (store e.path kept w.task.handlers) w

      split : a ∷ live ≡ reverse rs ++ []
      split = sym (append-nil (reverse rs) ∙ reverse-reverse (a ∷ live))

      sized : length rs ≡ length kept
      sized = length-reverse (a ∷ live) ∙ sym (length-map (a ∷ live))

      stored : find e.path v.task.handlers ≡ some kept
      stored =
          ground (arith, find-store e.path e.path kept w.task.handlers, path_eq_iff e.path e.path)

      placed :
          (k : ℕ) (x : Handler)
          → get_elem? (a ∷ live) k ≡ some x
          → place (length kept) k (some kept) ≡ some x
      placed k x there = ground (arith, get_elem?-map (a ∷ live) k x there)

  -- For closures that leave the handlers of the event as they stand, save for the ones that run the
  -- closure itself, and handlers that run different closures: the handlers of an event that are not
  -- destroyed run once each, the latest bound first, with its payload, up to the first that throws;
  -- the destroyed ones are gone from the block, and a block with no live handler is gone from the
  -- map. An event with no block changes nothing.
  pub dispatch_event-dispatched :
      (e : PendingEvent)
      → KeepsOthers call e.path
      → (hs : List Handler) (w : World M) → Distinct (alive hs)
      → (find e.path w.task.handlers ≡ some (map some hs)
          → dispatch_event call e w ≡ dispatched e (alive hs) w)
        × (find e.path w.task.handlers ≡ none → dispatch_event call e w ≡ returned w)
  unfolding dispatch_event
  dispatch_event-dispatched e keeps hs w distinct = (
    λ found. ground (
      arith,
      collect_garbage-select hs,
      dispatch_block-dispatched e keeps (alive hs) (map some hs) w distinct found,
    ),
    λ missing. ground arith,
  )
