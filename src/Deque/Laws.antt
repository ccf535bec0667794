-- ===== src/Deque/Laws.antt =====
-- Iteration over the deque of fiberize/include/fiberize/detail/lazydeque.hpp.
use fiberize.Base.{
  ℕ, suc, ◌≡◌, refl, some, List, [], ◌∷◌, ◌++◌, length, length-append, get_elem?-append,
  append_assoc, arith, ap, sym, ◌∙◌, Option, none,
}
use fiberize.Deque.{LazyDeque, visit_from, visit}
use fiberize.Deque.View.{to_list}

module _ {ℓ} {A : Type ℓ} where
  visit_from_suffix :
      (xs ys zs : List A) (n : ℕ)
      → zs ≡ xs ++ ys
      → n ≡ length xs
      → visit_from (suc (length ys)) (record { queue = some zs }) (some n) ≡ some ys
  unfolding visit_from
  visit_from_suffix xs [] zs n e m = ground (arith, ap length e, length-append xs [])
  visit_from_suffix xs (y ∷ ys) zs n e m = ground (
    arith,
    ap length e,
    length-append xs (y ∷ ys),
    get_elem?-append xs y ys,
    visit_from_suffix (xs ++ y ∷ []) ys zs (suc n) (e ∙ sym (append_assoc xs (y ∷ []) ys))
        (rw m (rw (length-append xs (y ∷ [])) (omega arith))),
  )

  visit_queue :
      (q : Option (List A))
      → let d : LazyDeque A = record { queue = q } in
        visit (suc (length (to_list d))) d ≡ some (to_list d)
  unfolding visit
  visit_queue none = unfold visit_from in refl
  visit_queue (some xs) = visit_from_suffix [] xs xs 0 refl refl

  -- A loop over the deque ends, and sees every element once, in order.
  pub visit-to_list : (d : LazyDeque A) → visit (suc (length (to_list d))) d ≡ some (to_list d)
  visit-to_list d = visit_queue d.queue
