-- ===== src/Deque/Refinement.antt =====
-- Sequences of calls on the deque of fiberize/include/fiberize/detail/lazydeque.hpp against a plain
-- list.
use fiberize.Base.{
  ℕ, ◌≡◌, refl, Bool, true, false, Option, none, some, List, [], ◌∷◌, ◌++◌, length, get_elem?, set,
  ltb, if◌then◌else◌, arith, inl, inr, Option-cases,
}
use fiberize.Deque.{
  LazyDeque, push_front, push_back, first, last, but_first, but_last, pop_front, pop_back, front,
  back, empty, at, assign,
}
use fiberize.Deque.View.{to_list}

-- A call, its reply, and the run of a list of calls up to the first undefined one.
pub data Call {ℓ} (A : Type ℓ) : Type ℓ where
  pushes_front pushes_back : A → Call A
  pops_front pops_back reads_front reads_back tests_empty : Call A
  reads_at : ℕ → Call A
  assigns_at : ℕ → A → Call A

pub data Reply {ℓ} (A : Type ℓ) : Type ℓ where
  done : Reply A
  element : A → Reply A
  flag : Bool → Reply A

module _ {ℓ} {A : Type ℓ} where
  abbrev quiet {κ} : {S : Type κ} → Option S → Option (S × Reply A)
  quiet none = none
  quiet (some s) = some (s, done)

  abbrev answer {κ} : {S : Type κ} → S → Option A → Option (S × Reply A)
  answer s none = none
  answer s (some x) = some (s, element x)

  pub step : LazyDeque A → Call A → Option (LazyDeque A × Reply A)
  unfolding push_front push_back pop_front pop_back front back empty at assign
  step d (pushes_front x) = some (push_front d x, done)
  step d (pushes_back x) = some (push_back d x, done)
  step d pops_front = quiet (pop_front d)
  step d pops_back = quiet (pop_back d)
  step d reads_front = answer d (front d)
  step d reads_back = answer d (back d)
  step d tests_empty = some (d, flag (empty d))
  step d (reads_at i) = answer d (at d i)
  step d (assigns_at i x) = quiet (assign d i x)

  abbrev is_nil : List A → Bool
  is_nil [] = true
  is_nil (x ∷ xs) = false

  -- The same calls on a list.
  pub list_step : List A → Call A → Option (List A × Reply A)
  list_step xs (pushes_front x) = some (x ∷ xs, done)
  list_step xs (pushes_back x) = some (xs ++ x ∷ [], done)
  list_step xs pops_front = quiet (but_first xs)
  list_step xs pops_back = quiet (but_last xs)
  list_step xs reads_front = answer xs (first xs)
  list_step xs reads_back = answer xs (last xs)
  list_step xs tests_empty = some (xs, flag (is_nil xs))
  list_step xs (reads_at i) = answer xs (get_elem? xs i)
  list_step xs (assigns_at i x) = quiet (if ltb i (length xs) then some (set xs i x) else none)

  abbrev pub viewed : Option (LazyDeque A × Reply A) → Option (List A × Reply A)
  viewed none = none
  viewed (some (d, r)) = some (to_list d, r)

  pub step-refines : (d : LazyDeque A) (c : Call A) → viewed (step d c) ≡ list_step (to_list d) c
  unfolding step list_step
  step-refines d (pushes_front x) = ground arith
  step-refines d c = ground arith

  -- All replies, or `none` if some call is undefined.
  pub run : LazyDeque A → List (Call A) → Option (List (Reply A))
  run d [] = some []
  run d (c ∷ cs) = elim (step d c) [
    | none ↦ none
    | some (e, r) ↦ elim (run e cs) [ none ↦ none | some rs ↦ some (r ∷ rs) ]
  ]

  pub list_run : List A → List (Call A) → Option (List (Reply A))
  list_run xs [] = some []
  list_run xs (c ∷ cs) = elim (list_step xs c) [
    | none ↦ none
    | some (ys, r) ↦ elim (list_run ys cs) [ none ↦ none | some rs ↦ some (r ∷ rs) ]
  ]

  -- Whether the deque is allocated shows in no reply: the calls on it answer as those on the list
  -- of its elements, and are undefined exactly where those are.
  pub run-list_run : (d : LazyDeque A) (cs : List (Call A)) → run d cs ≡ list_run (to_list d) cs
  unfolding run list_run
  run-list_run d [] = refl
  run-list_run d (c ∷ cs) = elim (Option-cases (step d c)) [
    | inl undefined ↦ ground (arith, step-refines d c)
    | inr ((e, r), stepped) ↦ ground (arith, step-refines d c, run-list_run e cs)
  ]
