-- ===== src/Results.antt =====
-- fiberize/include/fiberize/result.hpp: a value or an exception in one piece of storage. The variables
-- stand in a store, so that one may be assigned to itself. `none` is undefined behaviour, which here
-- is a read or the destruction of a member that is not alive, or the loss of one that was not
-- destroyed.
pub mod Assignment
pub mod Nothing
mod Examples
use fiberize.Base.{
  ℕ, Bool, true, false, not, Option, none, some, ◌⊎◌, inl, inr, if◌then◌else◌, update,
}

-- The live member of the union, if there is one; an exception pointer may be null.
pub data Member (A : Type 0) : Type 0 where
  nothing : Member A
  value : A → Member A
  exception : Option ℕ → Member A

pub record Result (A : Type 0) : Type 0 where
  pub is_value_ : Bool
  pub member : Member A

abbrev pub Variables : Type 0 → Type 0
Variables A = ℕ → Result A

module _ {A : Type 0} where
  abbrev pub is_value : Result A → Bool
  is_value r = r.is_value_

  abbrev pub is_exception : Result A → Bool
  is_exception r = not r.is_value_

  -- Placement new of a value in the storage of `r`.
  abbrev pub new_value : A → Member A → Option (Result A)
  new_value a nothing = some (record { is_value_ = true; member = value a })
  new_value a _ = none

  abbrev pub new_exception : Option ℕ → Member A → Option (Result A)
  new_exception e nothing = some (record { is_value_ = false; member = exception e })
  new_exception e _ = none

  abbrev pub put : ℕ → Variables A → Option (Result A) → Option (Variables A)
  put v s none = none
  put v s (some r) = some (update s v r)

  -- `construct(const Value&)`, and `construct(Value&&)` with the value moved in.
  pub construct_value : ℕ → A → Variables A → Option (Variables A)
  construct_value v a s = put v s (new_value a (s v).member)

  pub construct_exception : ℕ → Option ℕ → Variables A → Option (Variables A)
  construct_exception v e s = put v s (new_exception e (s v).member)

  abbrev pub copied : ℕ → Bool → Member A → Variables A → Option (Variables A)
  unfolding construct_value construct_exception
  copied v true (value a) s = construct_value v a s
  copied v false (exception e) s = construct_exception v e s
  copied v _ _ s = none

  -- `construct(const Result&)` of `v` from `w`.
  pub construct_copy : ℕ → ℕ → Variables A → Option (Variables A)
  construct_copy v w s = copied v (is_value (s w)) (s w).member s

  -- What is left of a member that was moved from: the value type decides for a value, and an
  -- exception pointer is null.
  abbrev pub moved_from : (A → A) → Member A → Member A
  moved_from leave nothing = nothing
  moved_from leave (value a) = value (leave a)
  moved_from leave (exception e) = exception none

  abbrev pub leaving : (A → A) → ℕ → Option (Variables A) → Option (Variables A)
  leaving leave w none = none
  leaving leave w (some s) =
      some (update s w (record (s w) { member = moved_from leave (s w).member }))

  -- `construct(Result&&)` of `v` from `w`.
  pub construct_move : (A → A) → ℕ → ℕ → Variables A → Option (Variables A)
  construct_move leave v w s = leaving leave w (construct_copy v w s)

  abbrev pub destroyed : Bool → Member A → Option (Member A)
  destroyed true (value a) = some nothing
  destroyed false (exception e) = some nothing
  destroyed _ _ = none

  abbrev pub kept : ℕ → Variables A → Option (Member A) → Option (Variables A)
  kept v s none = none
  kept v s (some m) = some (update s v (record (s v) { member = m }))

  pub destruct : ℕ → Variables A → Option (Variables A)
  destruct v s = kept v s (destroyed (s v).is_value_ (s v).member)

  abbrev pub then_do :
      Option (Variables A) → (Variables A → Option (Variables A)) → Option (Variables A)
  then_do none next = none
  then_do (some s) next = next s

  -- `operator = (const Result&)`, `operator = (Result&&)` and `operator = (const Value&)`.
  pub assign_copy : ℕ → ℕ → Variables A → Option (Variables A)
  assign_copy v w s = then_do (destruct v s) (construct_copy v w)

  pub assign_move : (A → A) → ℕ → ℕ → Variables A → Option (Variables A)
  assign_move leave v w s = then_do (destruct v s) (construct_move leave v w)

  pub assign_value : ℕ → A → Variables A → Option (Variables A)
  assign_value v a s = then_do (destruct v s) (construct_value v a)

  -- The constructor from a `Result&&` passes its argument on as it passes a constant one.
  pub move_constructor : ℕ → ℕ → Variables A → Option (Variables A)
  move_constructor v w s = construct_copy v w s

  abbrev pub got : Bool → Member A → Option (A ⊎ Option ℕ)
  got true (value a) = some (inl a)
  got false (exception e) = some (inr e)
  got _ _ = none

  -- `get`: the value, or the exception that it throws.
  unfoldable pub get : Result A → Option (A ⊎ Option ℕ)
  get r = got (is_value r) r.member

  -- `result`: the call of a closure that returns or throws.
  pub result : A ⊎ ℕ → Result A
  result (inl a) = record { is_value_ = true; member = value a }
  result (inr e) = record { is_value_ = false; member = exception (some e) }
