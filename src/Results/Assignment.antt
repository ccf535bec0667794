-- ===== src/Results/Assignment.antt =====
-- Assignments between the results of fiberize/include/fiberize/result.hpp, and of a result to itself.
use fiberize.Base.{
  ℕ, ◌≡◌, ◌≢◌, refl, sym, ◌⊎◌, inl, inr, Bool, true, false, Option, none, some, ==_refl, ==_apart,
  arith, update, subst,
}
use fiberize.Results.{
  nothing, value, exception, Result, Variables, construct_value, construct_exception,
  construct_copy, construct_move, destruct, assign_copy, assign_move, assign_value, moved_from,
  result, copied,
}

module _ {A : Type 0} where
  -- A variable that holds a value or an exception, as its flag says.
  abbrev pub IsHeld : Result A → Type 0
  IsHeld r =
      ((a : A) × (r.is_value_ ≡ true) × (r.member ≡ value a))
      ⊎ ((e : Option ℕ) × (r.is_value_ ≡ false) × (r.member ≡ exception e))

  abbrev pub emptied : ℕ → Variables A → Variables A
  emptied v s = update s v (record (s v) { member = nothing })

  destruct-emptied : (v : ℕ) (s : Variables A) → IsHeld (s v) → destruct v s ≡ some (emptied v s)
  unfolding destruct
  destruct-emptied v s (inl (a, flag, alive)) = ground (arith, flag, alive)
  destruct-emptied v s (inr (e, flag, alive)) = ground (arith, flag, alive)

  -- A held result is copied into storage without an object.
  construct_copy-held :
      (v w : ℕ) (s : Variables A)
      → (s v).member ≡ nothing
      → IsHeld (s w)
      → construct_copy v w s ≡ some (update s v (s w))
  unfolding construct_copy construct_value construct_exception
  construct_copy-held v w s free (inl (a, flag, alive)) = ground (arith, free, flag, alive)
  construct_copy-held v w s free (inr (e, flag, alive)) = ground (arith, free, flag, alive)

  assign_copy-held :
      (v w : ℕ) (s : Variables A)
      → v ≢ w
      → IsHeld (s v)
      → IsHeld (s w)
      → assign_copy v w s ≡ some (update (emptied v s) v (s w))
  unfolding assign_copy
  assign_copy-held v w s apart old new = rw destroyed_first (
      subst (λ (r : Result A). construct_copy v w (emptied v s) ≡ some (update (emptied v s) v r))
        same
        (construct_copy-held v w (emptied v s) (rw (==_refl v) refl)
          (subst (λ (r : Result A). IsHeld r) (sym same) new)))
    where
      destroyed_first : destruct v s ≡ some (emptied v s)
      destroyed_first = destruct-emptied v s old

      same : emptied v s w ≡ s w
      same = rw (==_apart v w apart) refl

  abbrev left : (A → A) → Result A → Result A
  left leave r = record r { member = moved_from leave r.member }

  left-IsHeld : (leave : A → A) (r : Result A) → IsHeld r → IsHeld (left leave r)
  left-IsHeld leave r (inl (a, flag, alive)) = inl (leave a, flag, rw alive refl)
  left-IsHeld leave r (inr (e, flag, alive)) = inr (none, flag, rw alive refl)

  -- All variables but `v`.
  abbrev Others : ℕ → Variables A → Variables A → Type 0
  Others v s t = (k : ℕ) → v ≢ k → t k ≡ s k

  -- What an assignment of the content of `r` to `v` leaves.
  abbrev pub Assigned : ℕ → Result A → Variables A → Option (Variables A) → Type 0
  Assigned v r s o = (t : Variables A) × (o ≡ some t) × (t v ≡ r) × ((k : ℕ) → v ≢ k → t k ≡ s k)

  Others-kept : (v : ℕ) (r : Result A) (s : Variables A) → Others v s (update (emptied v s) v r)
  Others-kept v r s k apart = rw (==_apart v k apart) refl

  copy-Assigned :
      (v w : ℕ) (s : Variables A)
      → v ≢ w
      → IsHeld (s v)
      → IsHeld (s w)
      → Assigned v (s w) s (assign_copy v w s)
  copy-Assigned v w s apart old new = (
    update (emptied v s) v (s w),
    assign_copy-held v w s apart old new,
    rw (==_refl v) refl,
    Others-kept v (s w) s,
  )

  value-Assigned :
      (v : ℕ) (a : A) (s : Variables A)
      → IsHeld (s v)
      → Assigned v (result (inl a)) s (assign_value v a s)
  unfolding assign_value construct_value result
  value-Assigned v a s old = (
    update (emptied v s) v (record { is_value_ = true; member = value a }),
    ground (arith, destruct-emptied v s old, ==_refl v),
    rw (==_refl v) refl,
    Others-kept v (record { is_value_ = true; member = value a }) s,
  )

  -- A moved assignment is a copy that leaves the source with what its type leaves.
  assign_move-copy :
      (leave : A → A) (v w : ℕ) (s : Variables A)
      → v ≢ w
      → IsHeld (s v)
      → IsHeld (s w)
      → assign_move leave v w s
        ≡ some
            (update (update (emptied v s) v (s w)) w (left leave (update (emptied v s) v (s w) w)))
  unfolding assign_move construct_move assign_copy
  assign_move-copy leave v w s apart old new =
      ground (arith, assign_copy-held v w s apart old new, destruct-emptied v s old)

  -- Assigning to a variable that holds a value or an exception is defined, leaves it with what was
  -- assigned, and leaves the other variables alone; a moved-from variable still holds a value or an
  -- exception. This is so for two different variables, and for a value.
  pub assignments-Assigned :
      (leave : A → A) (v w : ℕ) (a : A) (s : Variables A)
      → v ≢ w
      → IsHeld (s v)
      → IsHeld (s w)
      → Assigned v (s w) s (assign_copy v w s)
        × Assigned v (result (inl a)) s (assign_value v a s)
        × ((t : Variables A) × (assign_move leave v w s ≡ some t)
            × (t v ≡ s w)
            × IsHeld (t w)
            × ((k : ℕ) → v ≢ k → w ≢ k → t k ≡ s k))
  assignments-Assigned leave v w a s apart old new = (
    copy-Assigned v w s apart old new,
    value-Assigned v a s old,
    (
      update (update (emptied v s) v (s w)) w (left leave (update (emptied v s) v (s w) w)),
      assign_move-copy leave v w s apart old new,
      rw (==_apart w v (λ e. apart (sym e)), ==_refl v) refl,
      rw (==_refl w, ==_apart v w apart) (left-IsHeld leave (s w) new),
      λ k v_apart w_apart. rw (==_apart w k w_apart, ==_apart v k v_apart) refl,
    ),
  )

  copied-nothing : (b : Bool) (v : ℕ) (s : Variables A) → copied v b nothing s ≡ none
  unfolding copied
  copied-nothing true v s = refl
  copied-nothing false v s = refl

  self-copied : (v : ℕ) (s : Variables A) → construct_copy v v (emptied v s) ≡ none
  unfolding construct_copy
  self-copied v s = rw (==_refl v) (copied-nothing (s v).is_value_ v (emptied v s))

  -- Assigning a result to itself, copied or moved, is undefined: the value or exception is destroyed
  -- and then read.
  pub assign-self_undefined :
      (leave : A → A) (v : ℕ) (s : Variables A)
      → IsHeld (s v)
      → (assign_copy v v s ≡ none) × (assign_move leave v v s ≡ none)
  unfolding assign_copy assign_move construct_move
  assign-self_undefined leave v s old = (
    ground (arith, destruct-emptied v s old, self-copied v s),
    ground (arith, destruct-emptied v s old, self-copied v s),
  )
