-- ===== src/Deque/View.antt =====
-- The laws by which the clients of fiberize/include/fiberize/detail/lazydeque.hpp see a deque as a
-- list.
use fiberize.Base.{
  ℕ, ◌<◌, ◌≡◌, refl, ◌⊎◌, inl, inr, true, false, Option, none, some, List, [], ◌∷◌, ◌++◌, length,
  set, arith, ap, ◌∙◌, subst, Option-cases, some_injective,
}
use fiberize.Deque.{last, but_last, LazyDeque, push_back, pop_front, front, empty, assign}

module _ {ℓ} {A : Type ℓ} where
  abbrev pub to_list : LazyDeque A → List A
  to_list d = elim d.queue [ none ↦ [] | some xs ↦ xs ]

  pub to_list-push_back : (d : LazyDeque A) (x : A) → to_list (push_back d x) ≡ to_list d ++ x ∷ []
  unfolding push_back
  to_list-push_back d x = ground arith

  -- A deque is empty, or its front can be read and popped.
  abbrev pub Fronts : LazyDeque A → Type ℓ
  Fronts d =
      ((to_list d ≡ []) × (empty d ≡ true))
      ⊎ ((x : A) × (e : LazyDeque A) × (to_list d ≡ x ∷ to_list e)
          × (empty d ≡ false)
          × (front d ≡ some x)
          × (pop_front d ≡ some e))

  queue-Fronts : (q : Option (List A)) → Fronts (record { queue = q })
  unfolding empty front pop_front
  queue-Fronts none = inl (refl, refl)
  queue-Fronts (some []) = inl (refl, refl)
  queue-Fronts (some (x ∷ xs)) = inr (x, record { queue = some xs }, refl, refl, refl, refl)

  pub front-Fronts : (d : LazyDeque A) → Fronts d
  front-Fronts d = queue-Fronts d.queue

  pub assign-to_list :
      (d : LazyDeque A) (i : ℕ) (x : A)
      → i < length (to_list d)
      → (e : LazyDeque A) × (assign d i x ≡ some e) × (to_list e ≡ set (to_list d) i x)
  unfolding assign
  assign-to_list d i x h = (record { queue = some (set (to_list d) i x) }, ground arith, refl)

-- The last element behind the list without it.
pub but_last-last {ℓ} :
    {A : Type ℓ} (xs ys : List A) (x : A)
    → last xs ≡ some x
    → but_last xs ≡ some ys
    → xs ≡ ys ++ x ∷ []
but_last-last [] ys x e d = absurd (ground (arith, e))
but_last-last (z ∷ []) ys x e d = ground (arith, e, d)
but_last-last {A = A} (z ∷ w ∷ zs) ys x e d = elim (Option-cases (but_last (w ∷ zs))) [
  | inl nothing ↦ absurd (ground (arith, nothing, d))
  | inr (vs, there) ↦
      ap (λ (l : List A). z ∷ l) (but_last-last (w ∷ zs) vs x e there)
      ∙ ap (λ (l : List A). l ++ x ∷ [])
          (some_injective (z ∷ vs) ys (
            subst
              (λ (o : Option (List A)).
                (elim o [ none ↦ none | some vs ↦ some (z ∷ vs) ]) ≡ some ys)
              there d))
]
