-- ===== src/Events/Releasing.antt =====
-- The closure that `Event::await` of fiberize/include/fiberize/event-inl.hpp binds, among the other handlers
-- of its event.
use fiberize.Base.{
  ℕ, zero, suc, ◌≡◌, ◌≢◌, refl, ap, inl, inr, false, Option, none, some, [], ◌∷◌, length, get_elem?,
  ltb, arith, Bool-cases, ◌==◌, ==_iff, sym, ◌∙◌, some_injective,
}
use fiberize.Identity.{TaskPath, path_eq}
use fiberize.Handlers.{Closure, runs, throws_killed, Handler, HandlerBlock, HandlerTable, find}
use fiberize.Context.{UserCode, place}
use fiberize.Context.Dispatch.{KeepsOthers}
use fiberize.Events.{is_code, release_block, release_code, await_closure, with_await}

is_code-other : (code : ℕ) (o : Option Closure) → o ≢ some (runs code) → is_code code o ≡ false
is_code-other code none other = refl
is_code-other code (some throws_killed) other = refl
is_code-other code (some (runs c)) other = elim (Bool-cases (c == code)) [
  | inl e ↦ absurd (other (ap (λ (x : ℕ). some (runs x)) ((==_iff c code).0 e)))
  | inr e ↦ e
]

length-release_block :
    (code : ℕ) (block : HandlerBlock) → length (release_block code block) ≡ length block
length-release_block code [] = refl
length-release_block code (slot ∷ slots) = ap (λ (n : ℕ). suc n) (length-release_block code slots)

get_elem?-release_block :
    (code : ℕ) (block : HandlerBlock) (k : ℕ) (h : Handler)
    → h.closure ≢ some (runs code)
    → get_elem? block k ≡ some (some h)
    → get_elem? (release_block code block) k ≡ some (some h)
get_elem?-release_block code [] k h other e = absurd (ground (arith, e))
get_elem?-release_block code (none ∷ slots) zero h other e = absurd (ground (arith, e))
get_elem?-release_block code (some x ∷ slots) zero h other e =
    rw (is_code-other code x.closure (λ q. other (ap (λ (y : Handler). y.closure) (sym same) ∙ q)))
      e
  where
    same : x ≡ h
    same = some_injective x h (some_injective (some x) (some h) e)
get_elem?-release_block code (slot ∷ slots) (suc k) h other e =
    get_elem?-release_block code slots k h other e

place-elem :
    (n k : ℕ) (block : HandlerBlock) (h : Handler)
    → place n k (some block) ≡ some h
    → (ltb n (length block) ≡ false) × (get_elem? block k ≡ some (some h))
place-elem n k block h e = ground (arith, e)

release_code-stands :
    (code : ℕ) (path : TaskPath) (table : HandlerTable) (n k : ℕ) (h : Handler)
    → place n k (find path table) ≡ some h
    → h.closure ≢ some (runs code)
    → place n k (find path (release_code code table)) ≡ some h
unfolding release_code find
release_code-stands code path [] n k h here other = here
release_code-stands code path ((p, block) ∷ table) n k h here other =
    elim (Bool-cases (path_eq p path)) [
      | inl e ↦
          let (fits, there) = place-elem n k block h (rw e at here) in
          rw e (
            ground (
              arith,
              fits,
              length-release_block code block,
              get_elem?-release_block code block k h other there,
            ))
      | inr e ↦ rw e (release_code-stands code path table n k h (rw e at here) other)
    ]

-- Where the closures of the user leave the other handlers of a path as they stand, so does the closure
-- of `await`, though it releases its own.
pub with_await-KeepsOthers :
    {M : Type 0} (code : ℕ) (call : UserCode M) (path : TaskPath)
    → KeepsOthers call path
    → KeepsOthers (with_await code call) path
unfolding await_closure
with_await-KeepsOthers code call path keeps c payload w n k h here other =
    elim (Bool-cases (c == code)) [
      | inl e ↦ rw e (
          release_code-stands code path w.task.handlers n k h here
            (λ q. other (q ∙ ap (λ (x : ℕ). some (runs x)) (sym ((==_iff c code).0 e)))))
      | inr e ↦
          rw e (keeps c payload (record { task = w.task; memory = w.memory.0 }) n k h here other)
    ]
