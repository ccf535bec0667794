-- ===== src/Results/Nothing.antt =====
-- `Result<void>` of fiberize/include/fiberize/result.hpp: nothing, or an exception. As for the other
-- results, `none` is undefined behaviour, or the loss of an exception pointer that was not destroyed.
use fiberize.Base.{
  ℕ, ◌≡◌, ◌≢◌, refl, sym, subst, ◌⊎◌, inl, inr, Bool, true, false, Option, none, some, ◌==◌, ==_iff,
  ==_refl, ==_apart, arith, update, Bool-cases,
}

-- The exception pointer in the union, if it is alive; it may be null.
pub record VoidResult : Type 0 where
  pub is_value_ : Bool
  pub exception_ : Option (Option ℕ)

abbrev pub VoidVariables : Type 0
VoidVariables = ℕ → VoidResult

abbrev put_void : ℕ → VoidVariables → Option VoidResult → Option VoidVariables
put_void v s none = none
put_void v s (some r) = some (update s v r)

-- `construct()` and `construct(std::exception_ptr)` in the storage of a variable.
abbrev new_void : Option (Option ℕ) → Option VoidResult
new_void none = some (record { is_value_ = true; exception_ = none })
new_void (some e) = none

abbrev new_void_exception : Option ℕ → Option (Option ℕ) → Option VoidResult
new_void_exception e none = some (record { is_value_ = false; exception_ = some e })
new_void_exception e (some d) = none

pub construct_void : ℕ → VoidVariables → Option VoidVariables
construct_void v s = put_void v s (new_void (s v).exception_)

pub construct_void_exception : ℕ → Option ℕ → VoidVariables → Option VoidVariables
construct_void_exception v e s = put_void v s (new_void_exception e (s v).exception_)

abbrev copied_void : ℕ → Bool → Option (Option ℕ) → VoidVariables → Option VoidVariables
unfolding construct_void construct_void_exception
copied_void v true m s = construct_void v s
copied_void v false (some e) s = construct_void_exception v e s
copied_void v false none s = none

-- `construct(const Result&)`
pub construct_void_copy : ℕ → ℕ → VoidVariables → Option VoidVariables
construct_void_copy v w s = copied_void v (s w).is_value_ (s w).exception_ s

abbrev nulled : Option (Option ℕ) → Option (Option ℕ)
nulled none = none
nulled (some e) = some none

abbrev leaving_void : ℕ → Option VoidVariables → Option VoidVariables
leaving_void w none = none
leaving_void w (some s) = some (update s w (record (s w) { exception_ = nulled (s w).exception_ }))

-- `construct(Result&&)`, which leaves a null pointer where an exception was.
pub construct_void_move : ℕ → ℕ → VoidVariables → Option VoidVariables
construct_void_move v w s = leaving_void w (construct_void_copy v w s)

abbrev destroyed_void : Bool → Option (Option ℕ) → Option (Option (Option ℕ))
destroyed_void true m = some m
destroyed_void false (some e) = some none
destroyed_void false none = none

abbrev kept_void : ℕ → VoidVariables → Option (Option (Option ℕ)) → Option VoidVariables
kept_void v s none = none
kept_void v s (some m) = some (update s v (record (s v) { exception_ = m }))

pub destruct_void : ℕ → VoidVariables → Option VoidVariables
destruct_void v s = kept_void v s (destroyed_void (s v).is_value_ (s v).exception_)

abbrev then_do_void :
    Option VoidVariables → (VoidVariables → Option VoidVariables) → Option VoidVariables
then_do_void none next = none
then_do_void (some s) next = next s

pub assign_void_copy : ℕ → ℕ → VoidVariables → Option VoidVariables
assign_void_copy v w s = then_do_void (destruct_void v s) (construct_void_copy v w)

pub assign_void_move : ℕ → ℕ → VoidVariables → Option VoidVariables
assign_void_move v w s = then_do_void (destruct_void v s) (construct_void_move v w)

-- A variable that holds nothing or an exception, as its flag says.
abbrev pub IsVoidHeld : VoidResult → Type 0
IsVoidHeld r =
    ((r.is_value_ ≡ true) × (r.exception_ ≡ none))
    ⊎ ((e : Option ℕ) × (r.is_value_ ≡ false) × (r.exception_ ≡ some e))

abbrev emptied_void : ℕ → VoidVariables → VoidVariables
emptied_void v s = update s v (record (s v) { exception_ = none })

destruct_void-emptied :
    (v : ℕ) (s : VoidVariables) → IsVoidHeld (s v) → destruct_void v s ≡ some (emptied_void v s)
unfolding destruct_void
destruct_void-emptied v s (inl (flag, dead)) = ground (arith, flag, dead)
destruct_void-emptied v s (inr (e, flag, alive)) = ground (arith, flag, alive)

construct_void_copy-held :
    (v w : ℕ) (s : VoidVariables)
    → (s v).exception_ ≡ none
    → IsVoidHeld (s w)
    → construct_void_copy v w s ≡ some (update s v (s w))
unfolding construct_void_copy construct_void construct_void_exception copied_void
construct_void_copy-held v w s free (inl (flag, dead)) = ground (arith, free, flag, dead)
construct_void_copy-held v w s free (inr (e, flag, alive)) = ground (arith, free, flag, alive)

assign_void_copy-held :
    (v w : ℕ) (s : VoidVariables)
    → v ≢ w
    → IsVoidHeld (s v)
    → IsVoidHeld (s w)
    → assign_void_copy v w s ≡ some (update (emptied_void v s) v (s w))
unfolding assign_void_copy
assign_void_copy-held v w s apart old new = rw (destruct_void-emptied v s old) (
    subst
      (λ (r : VoidResult).
        construct_void_copy v w (emptied_void v s) ≡ some (update (emptied_void v s) v r))
      same
      (construct_void_copy-held v w (emptied_void v s) (rw (==_refl v) refl)
        (subst (λ (r : VoidResult). IsVoidHeld r) (sym same) new)))
  where
    same : emptied_void v s w ≡ s w
    same = rw (==_apart v w apart) refl

self_void-value :
    (v : ℕ) (s : VoidVariables)
    → (s v).is_value_ ≡ true
    → (s v).exception_ ≡ none
    → assign_void_copy v v s ≡ some (update (emptied_void v s) v (s v))
unfolding assign_void_copy construct_void_copy construct_void copied_void
self_void-value v s flag dead =
    ground (arith, destruct_void-emptied v s (inl (flag, dead)), ==_refl v, flag, dead)

self_void-exception :
    (v : ℕ) (e : Option ℕ) (s : VoidVariables)
    → (s v).is_value_ ≡ false
    → (s v).exception_ ≡ some e
    → assign_void_copy v v s ≡ none
unfolding assign_void_copy construct_void_copy copied_void
self_void-exception v e s flag alive =
    ground (arith, destruct_void-emptied v s (inr (e, flag, alive)), ==_refl v, flag, alive)

-- Assigning a `Result<void>` to a different one is defined and leaves it with what was assigned, and
-- the other variables alone. Assigning one to itself changes nothing while it holds no exception, and
-- is undefined when it holds one.
pub assign_void_copy-held_or_self :
    (v w : ℕ) (s : VoidVariables)
    → IsVoidHeld (s v)
    → IsVoidHeld (s w)
    → (v ≢ w
        → (t : VoidVariables) × (assign_void_copy v w s ≡ some t)
          × (t v ≡ s w)
          × ((k : ℕ) → v ≢ k → t k ≡ s k))
      × ((s v).is_value_ ≡ true
          → (t : VoidVariables) × (assign_void_copy v v s ≡ some t) × ((k : ℕ) → t k ≡ s k))
      × ((s v).is_value_ ≡ false → assign_void_copy v v s ≡ none)
assign_void_copy-held_or_self v w s old new = (apart_case, value_case, exception_case old)
  where
    apart_case :
        v ≢ w
        → (t : VoidVariables) × (assign_void_copy v w s ≡ some t)
          × (t v ≡ s w)
          × ((k : ℕ) → v ≢ k → t k ≡ s k)
    apart_case apart = (
      update (emptied_void v s) v (s w),
      assign_void_copy-held v w s apart old new,
      rw (==_refl v) refl,
      λ k other. rw (==_apart v k other) refl,
    )

    nothing_held : (s v).is_value_ ≡ true → IsVoidHeld (s v) → (s v).exception_ ≡ none
    nothing_held flag (inl (_, dead)) = dead
    nothing_held flag (inr (e, other, alive)) = absurd (ground (arith, flag, other))

    same : (k : ℕ) → update (emptied_void v s) v (s v) k ≡ s k
    same k = elim (Bool-cases (v == k)) [
      | inl e ↦
          subst (λ (x : ℕ). update (emptied_void v s) v (s v) x ≡ s x) ((==_iff v k).0 e)
            (rw (==_refl v) refl)
      | inr e ↦ rw e refl
    ]

    value_case :
        (s v).is_value_ ≡ true
        → (t : VoidVariables) × (assign_void_copy v v s ≡ some t) × ((k : ℕ) → t k ≡ s k)
    value_case flag =
        (update (emptied_void v s) v (s v), self_void-value v s flag (nothing_held flag old), same)

    exception_case : IsVoidHeld (s v) → (s v).is_value_ ≡ false → assign_void_copy v v s ≡ none
    exception_case (inl (other, dead)) flag = absurd (ground (arith, flag, other))
    exception_case (inr (e, other, alive)) flag = self_void-exception v e s flag alive
