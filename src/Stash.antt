-- ===== src/Stash.antt =====
-- The stacks that a scheduler of fiberize/src/fiberize/detail/multitaskscheduler.cpp keeps for later:
-- `stashGet`, `stashPut` and `stashClear`.
pub mod Accounts
mod Examples
use fiberize.Base.{
  ℕ, zero, suc, ◌<◌, ◌≡◌, Option, none, some, List, [], ◌∷◌, ◌++◌, ltb, length, if◌then◌else◌,
  update,
}
use fiberize.Deque.{last, but_last}

abbrev pub stash_size : ℕ
stash_size = 256

-- What a scheduler sees of the contexts, by number: the next one that memory gives, those in its stash
-- with the back last, and those deleted.
pub record UnownedContexts : Type 0 where
  pub created : ℕ
  pub stash : List ℕ
  pub deleted : List ℕ

abbrev got_back : Option ℕ → Option (List ℕ) → UnownedContexts → ℕ × UnownedContexts
got_back (some context) (some rest) s = (context, record s { stash = rest })
got_back _ _ s = (s.created, record s { created = suc s.created })

pub stash_get : UnownedContexts → ℕ × UnownedContexts
stash_get s = got_back (last s.stash) (but_last s.stash) s

pub stash_put : ℕ → UnownedContexts → UnownedContexts
stash_put context s =
    if ltb (length s.stash) stash_size
    then record s { stash = s.stash ++ context ∷ [] }
    else record s { deleted = context ∷ s.deleted }

pub stash_clear : UnownedContexts → UnownedContexts
stash_clear s = record s { stash = []; deleted = s.stash ++ s.deleted }

-- The stashes of the schedulers, the contexts in use, and those deleted. A context that one scheduler
-- gave out may be put back into the stash of another one, since a task takes its stack with it.
pub record Stacks : Type 0 where
  pub created : ℕ
  pub stashes : ℕ → List ℕ
  pub deleted : List ℕ
  pub used : List ℕ

abbrev pub contexts : ℕ → Stacks → UnownedContexts
contexts k s = record { created = s.created; stash = s.stashes k; deleted = s.deleted }

abbrev pub with_contexts : ℕ → UnownedContexts → List ℕ → Stacks → Stacks
with_contexts k u used s = record {
  created = u.created;
  stashes = update s.stashes k u.stash;
  deleted = u.deleted;
  used = used;
}

-- The calls of `n` schedulers.
pub data StashStep (n : ℕ) (s : Stacks) : Stacks → Type 0 where
  gets :
      (k : ℕ)
      → k < n
      → StashStep n s
          (with_contexts k (stash_get (contexts k s)).1 ((stash_get (contexts k s)).0 ∷ s.used) s)
  puts :
      (k context : ℕ) (before after : List ℕ)
      → k < n
      → s.used ≡ before ++ context ∷ after
      → StashStep n s (with_contexts k (stash_put context (contexts k s)) (before ++ after) s)
  clears : (k : ℕ) → k < n → StashStep n s (with_contexts k (stash_clear (contexts k s)) s.used s)

pub data Stashes (n : ℕ) : Stacks → Type 0 where
  fresh : Stashes n (record { created = 0; stashes = λ k. []; deleted = []; used = [] })
  then_does : {s t : Stacks} → Stashes n s → StashStep n s t → Stashes n t
