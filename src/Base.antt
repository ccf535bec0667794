-- ===== src/Base.antt =====
-- What the modules of the library share: names of the libraries passed on, Boolean tests and lists
-- over the native numbers, machine words, and the update of a function at a point.
mod Tests
mod Lists
mod Words
mod Sums
mod Integers
mod Options
pub use Tests.*
pub use Lists.*
pub use Words.*
pub use Integers.*
pub use Options.*
unfoldable pub use Sums.*
pub use Prim.Native.Nat.{ℕ, zero, suc, ◌+◌, ◌-◌, ◌*◌, ◌/◌, ◌%◌, ◌^◌, ◌≤◌, ◌<◌}
pub use mathlib.Core.Path.{◌≡◌, refl, sym, ap, subst, ◌∙◌, fun_ext}
pub use mathlib.Core.Logic.{◌≢◌, ◌↔◌, ◌⊎◌, inl, inr}
pub use mathlib.Core.Bool.{Bool, true, false, not, ◌&&◌, ◌||◌}
pub use mathlib.Core.Option.{Option, none, some}
pub use mathlib.Core.List.{List, [], ◌∷◌, ◌++◌, map, reverse, append-nil, append_assoc}
pub use native.Mathlib.Omega.{arith}
