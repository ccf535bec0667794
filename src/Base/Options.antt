-- ===== src/Base/Options.antt =====
-- Computations that may be undefined, one after the other.
use mathlib.Core.Option.{Option, none, some}

module _ {ℓ} {A B : Type ℓ} where
  abbrev pub then_do : Option A → (A → Option B) → Option B
  then_do none next = none
  then_do (some a) next = next a
