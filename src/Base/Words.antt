-- ===== src/Base/Words.antt =====
-- Unsigned machine words as numbers with their wrap-around, and the update of a function.
use Prim.Native.Nat.{ℕ, ◌%◌, ◌^◌}
use fiberize.Base.Tests.{◌==◌, if◌then◌else◌}

abbrev pub u64 : ℕ → ℕ
u64 n = n % 2 ^ 64

abbrev pub u32 : ℕ → ℕ
u32 n = n % 2 ^ 32

-- `std::numeric_limits<uint64_t>::max()`
abbrev pub u64_max : ℕ
u64_max = 0xffffffffffffffff

abbrev pub update {ℓ} : {A : Type ℓ} → (ℕ → A) → ℕ → A → ℕ → A
update f i v j = if i == j then v else f j
