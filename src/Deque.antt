-- ===== src/Deque.antt =====
-- fiberize/include/fiberize/detail/lazydeque.hpp: a deque that is allocated on the first push. `none`
-- as a result is undefined behaviour: a read or a pop of an empty deque, or through an empty optional.
pub mod View
pub mod Laws
pub mod Refinement
use fiberize.Base.{
  ℕ, suc, ◌+◌, ◌≡◌, refl, Bool, true, false, Option, none, some, List, [], ◌∷◌, ◌++◌, length,
  get_elem?, set, ltb, ◌==◌, if◌then◌else◌,
}

pub record LazyDeque {ℓ} (A : Type ℓ) : Type ℓ where
  pub queue : Option (List A)

-- A wrapped iterator: a position, or nothing for a deque that is not allocated.
abbrev pub Iterator : Type 0
Iterator = Option ℕ

abbrev same : Iterator → Iterator → Bool
same none none = true
same none (some j) = false
same (some i) none = false
same (some i) (some j) = i == j

-- `operator ++`
abbrev advance : Iterator → Option Iterator
advance none = none
advance (some i) = some (some (suc i))

module _ {ℓ} {A : Type ℓ} where
  -- A default constructed deque.
  abbrev pub lazy : LazyDeque A
  lazy = record { queue = none }

  -- `queue.get()` after `if (!queue) queue.emplace();`
  abbrev emplaced : LazyDeque A → List A
  emplaced d = elim d.queue [ none ↦ [] | some xs ↦ xs ]

  pub push_front : LazyDeque A → A → LazyDeque A
  push_front d value = record { queue = some (value ∷ emplaced d) }

  unfoldable pub push_back : LazyDeque A → A → LazyDeque A
  push_back d value = record { queue = some (emplaced d ++ value ∷ []) }

  -- The last element of a non-empty list, and the list without it.
  abbrev pub last : List A → Option A
  last [] = none
  last (x ∷ []) = some x
  last (x ∷ y ∷ ys) = last (y ∷ ys)

  abbrev pub but_last : List A → Option (List A)
  but_last [] = none
  but_last (x ∷ []) = some []
  but_last (x ∷ y ∷ ys) = elim (but_last (y ∷ ys)) [ none ↦ none | some zs ↦ some (x ∷ zs) ]

  abbrev pub first : List A → Option A
  first [] = none
  first (x ∷ xs) = some x

  abbrev pub but_first : List A → Option (List A)
  but_first [] = none
  but_first (x ∷ xs) = some xs

  -- `queue.get()` with the operation of `std::deque` behind it.
  abbrev modify : (List A → Option (List A)) → LazyDeque A → Option (LazyDeque A)
  modify f d = elim d.queue [
    | none ↦ none
    | some xs ↦ elim (f xs) [ none ↦ none | some ys ↦ some (record { queue = some ys }) ]
  ]

  abbrev read : (List A → Option A) → LazyDeque A → Option A
  read f d = elim d.queue [ none ↦ none | some xs ↦ f xs ]

  unfoldable pub pop_front : LazyDeque A → Option (LazyDeque A)
  pop_front d = modify but_first d

  pub pop_back : LazyDeque A → Option (LazyDeque A)
  pop_back d = modify but_last d

  unfoldable pub front : LazyDeque A → Option A
  front d = read first d

  pub back : LazyDeque A → Option A
  back d = read last d

  abbrev is_nil : List A → Bool
  is_nil [] = true
  is_nil (x ∷ xs) = false

  unfoldable pub empty : LazyDeque A → Bool
  empty d = elim d.queue [ none ↦ true | some xs ↦ is_nil xs ]

  -- `operator []`, read and assigned to.
  pub at : LazyDeque A → ℕ → Option A
  at d index = read (λ xs. get_elem? xs index) d

  pub assign : LazyDeque A → ℕ → A → Option (LazyDeque A)
  assign d index value =
      modify (λ xs. if ltb index (length xs) then some (set xs index value) else none) d

  pub begin : LazyDeque A → Iterator
  begin d = elim d.queue [ none ↦ none | some xs ↦ some 0 ]

  pub end : LazyDeque A → Iterator
  end d = elim d.queue [ none ↦ none | some xs ↦ some (length xs) ]

  -- `operator *`
  abbrev deref : LazyDeque A → Iterator → Option A
  deref d none = none
  deref d (some i) = at d i

  -- `for (auto& x : deque)` from an iterator, as the list of the elements that it visits. Undefined
  -- behaviour and fuel that runs out give `none`.
  pub visit_from : ℕ → LazyDeque A → Iterator → Option (List A)
  unfolding end at
  visit_from ℕ.zero d it = none
  visit_from (suc fuel) d it = elim (same it (end d)) [
    | true ↦ some []
    | false ↦ elim (deref d it) [
      | none ↦ none
      | some x ↦ elim (advance it) [
        | none ↦ none
        | some it' ↦ elim (visit_from fuel d it') [ none ↦ none | some xs ↦ some (x ∷ xs) ]
      ]
    ]
  ]

  pub visit : ℕ → LazyDeque A → Option (List A)
  unfolding begin
  visit fuel d = visit_from fuel d (begin d)
