-- ===== src/Stash/Examples.antt =====
-- A scheduler takes two stacks, and another one gets one of them with a task.
use fiberize.Base.{[], ◌∷◌, refl, arith}
use fiberize.Stash.{
  Stacks, fresh, then_does, gets, puts, stash_put, contexts, with_contexts, stash_get,
}
use fiberize.Stash.Accounts.{IsAccounted, Stashes-IsAccounted}

abbrev nothing : Stacks
nothing = record { created = 0; stashes = λ k. []; deleted = []; used = [] }

-- The first scheduler has given out one stack, and then another.
abbrev one_used : Stacks
one_used = with_contexts 0 (stash_get (contexts 0 nothing)).1 (0 ∷ []) nothing

abbrev two_used : Stacks
two_used = with_contexts 0 (stash_get (contexts 0 one_used)).1 (1 ∷ 0 ∷ []) one_used

Stashes-IsAccounted_example :
    IsAccounted 2 (with_contexts 1 (stash_put 1 (contexts 1 two_used)) (0 ∷ []) two_used)
unfolding stash_get
Stashes-IsAccounted_example = Stashes-IsAccounted 2 (
    then_does (then_does (then_does fresh (gets 0 (omega arith))) (gets 0 (omega arith)))
      (puts 1 1 [] (0 ∷ []) (omega arith) refl))
