-- ===== src/Stash/Accounts.antt =====
-- Where the contexts that the schedulers of fiberize/src/fiberize/detail/multitaskscheduler.cpp share are.
use fiberize.Base.{
  ℕ, ◌+◌, ◌≤◌, ◌<◌, ◌≡◌, refl, inl, inr, Option, none, some, List, [], ◌∷◌, ◌++◌, ltb, length,
  count, count-append, length-append, if◌then◌else◌, arith, Bool-cases, total, total-update,
  total-zero, ◌==◌,
}
use fiberize.Deque.{last, but_last}
use fiberize.Deque.View.{but_last-last}
use fiberize.Stash.{
  UnownedContexts, got_back, stash_get, stash_put, stash_clear, stash_size, Stacks, Stashes,
  contexts, with_contexts, fresh, then_does, gets, puts, clears,
}

-- How often a context is kept in a stash of `n` schedulers, deleted or used.
abbrev pub occurrences : ℕ → ℕ → Stacks → ℕ
occurrences n i s = total (count i) n s.stashes + count i s.deleted + count i s.used

abbrev pub exists : ℕ → ℕ → ℕ
exists i created = if ltb i created then 1 else 0

pub record IsAccounted (n : ℕ) (s : Stacks) : Type 0 where
  pub once : (i : ℕ) → occurrences n i s ≡ exists i s.created
  pub bounded : (k : ℕ) → length (s.stashes k) ≤ stash_size

-- A call of one scheduler accounts for the contexts that it sees: the ones there are more of were
-- created.
record Balances (u v : UnownedContexts) (used used_after : List ℕ) : Type 0 where
  kept :
      (i : ℕ)
      → count i v.stash + count i v.deleted + count i used_after + exists i u.created
        ≡ count i u.stash + count i u.deleted + count i used + exists i v.created
  limit : length u.stash ≤ stash_size → length v.stash ≤ stash_size

Balances-IsAccounted :
    (n k : ℕ) (s : Stacks) (v : UnownedContexts) (used : List ℕ)
    → k < n
    → Balances (contexts k s) v s.used used
    → IsAccounted n s
    → IsAccounted n (with_contexts k v used s)
Balances-IsAccounted n k s v used below balances accounted = record {
  once = λ i. omega (
    arith,
    accounted.once i,
    balances.kept i,
    total-update (count i) n s.stashes k v.stash below,
  );
  bounded = λ j. elim (Bool-cases (k == j)) [
    | inl e ↦ ground (arith, e, balances.limit (accounted.bounded k))
    | inr e ↦ ground (arith, e, accounted.bounded j)
  ];
}

get-Balances :
    (u : UnownedContexts) (used : List ℕ) → Balances u (stash_get u).1 used ((stash_get u).0 ∷ used)
unfolding stash_get
get-Balances u used = go (last u.stash) (but_last u.stash) refl refl
  where
    go :
        (o : Option ℕ) (r : Option (List ℕ))
        → last u.stash ≡ o
        → but_last u.stash ≡ r
        → Balances u (got_back o r u).1 used ((got_back o r u).0 ∷ used)
    go none r at_end before = record { kept = λ i. ground arith; limit = λ h. h }
    go (some context) none at_end before = record { kept = λ i. ground arith; limit = λ h. h }
    go (some context) (some rest) at_end before = record {
      kept = λ i. ground (arith, split, count-append i rest (context ∷ []));
      limit = λ h. ground (arith, h, split, length-append rest (context ∷ []));
    }
      where
        split : u.stash ≡ rest ++ context ∷ []
        split = but_last-last u.stash rest context at_end before

put-Balances :
    (context : ℕ) (before after : List ℕ) (u : UnownedContexts) (used : List ℕ)
    → used ≡ before ++ context ∷ after
    → Balances u (stash_put context u) used (before ++ after)
unfolding stash_put
put-Balances context before after u used held =
    elim (Bool-cases (ltb (length u.stash) stash_size)) [
      | inl small ↦ record {
        kept = λ i. ground (
          arith,
          small,
          held,
          count-append i u.stash (context ∷ []),
          count-append i before after,
          count-append i before (context ∷ after),
        );
        limit = λ h. ground (arith, small, length-append u.stash (context ∷ []));
      }
      | inr full ↦ record {
        kept = λ i. ground (
          arith,
          full,
          held,
          count-append i before after,
          count-append i before (context ∷ after),
        );
        limit = λ h. ground (arith, full, h);
      }
    ]

clear-Balances : (u : UnownedContexts) (used : List ℕ) → Balances u (stash_clear u) used used
unfolding stash_clear
clear-Balances u used = record {
  kept = λ i. ground (arith, count-append i u.stash u.deleted);
  limit = λ h. omega arith;
}

-- However the schedulers take contexts, give back those that they or others took, and clear their
-- stashes, no stash holds more than its limit, and each context that was created is in one stash, in
-- use or deleted, exactly once: none is leaked, deleted twice or given out twice.
pub Stashes-IsAccounted : (n : ℕ) {s : Stacks} → Stashes n s → IsAccounted n s
Stashes-IsAccounted n fresh = record {
  once = λ i. ground (arith, total-zero (count i) n (λ (k : ℕ). []) (λ k. refl));
  bounded = λ k. omega arith;
}
Stashes-IsAccounted n (then_does {s} stashes (gets k below)) =
    Balances-IsAccounted n k s (stash_get (contexts k s)).1 ((stash_get (contexts k s)).0 ∷ s.used)
      below (get-Balances (contexts k s) s.used) (Stashes-IsAccounted n stashes)
Stashes-IsAccounted n (then_does {s} stashes (puts k context before after below held)) =
    Balances-IsAccounted n k s (stash_put context (contexts k s)) (before ++ after) below
      (put-Balances context before after (contexts k s) s.used held) (Stashes-IsAccounted n stashes)
Stashes-IsAccounted n (then_does {s} stashes (clears k below)) =
    Balances-IsAccounted n k s (stash_clear (contexts k s)) s.used below
      (clear-Balances (contexts k s) s.used) (Stashes-IsAccounted n stashes)
