-- ===== src/Identity/Bits.antt =====
-- `n | (g << k)` is a sum where `n` fits below the shift.
use Prim.Native.Nat.{max, bit_or, digits, bit_or-bitwise}
use native.Mathlib.Nat.{pow-suc}
use fiberize.Base.{ℕ, zero, suc, ◌+◌, ◌*◌, ◌/◌, ◌%◌, ◌^◌, ◌≤◌, ◌<◌, ◌≡◌, refl, arith}

abbrev or_digits : ℕ → ℕ → ℕ → ℕ
or_digits n a b = digits (λ b. b) max n a b

or_digits_fuel : (n m a b : ℕ) → a ≤ n → a ≤ m → or_digits n a b ≡ or_digits m a b
or_digits_fuel zero zero a b p q = refl
or_digits_fuel zero (suc m) zero b p q = refl
or_digits_fuel zero (suc m) (suc a) b p q = absurd (omega arith)
or_digits_fuel (suc n) zero zero b p q = refl
or_digits_fuel (suc n) zero (suc a) b p q = absurd (omega arith)
or_digits_fuel (suc n) (suc m) zero b p q = refl
or_digits_fuel (suc n) (suc m) (suc a) b p q =
    omega (arith, or_digits_fuel n m (suc a / 2) (b / 2) (omega arith) (omega arith))

zero-bit_or : (b : ℕ) → bit_or 0 b ≡ b
zero-bit_or b = bit_or-bitwise 0 b

bit_or_step : (a b : ℕ) → bit_or a b ≡ bit_or (a / 2) (b / 2) * 2 + max (a % 2) (b % 2)
bit_or_step zero b = omega (arith, zero-bit_or b, zero-bit_or (b / 2))
bit_or_step (suc a) b = omega (
  arith,
  bit_or-bitwise (suc a) b,
  bit_or-bitwise (suc a / 2) (b / 2),
  or_digits_fuel a (suc a / 2) (suc a / 2) (b / 2) (omega arith) (omega arith),
)

bit_or-double : (n m : ℕ) → bit_or n (m * 2) ≡ bit_or (n / 2) m * 2 + n % 2
bit_or-double n m = rw (bit_or_step n (m * 2), halved) (omega arith)
  where
    halved : m * 2 / 2 ≡ m
    halved = omega arith

shift_suc : (g k : ℕ) → g * 2 ^ suc k ≡ g * 2 ^ k * 2
shift_suc g k = rw pow-suc (grind arith)

pub bit_or-shift : (k n g : ℕ) → n < 2 ^ k → bit_or n (g * 2 ^ k) ≡ n + g * 2 ^ k
bit_or-shift zero n g h = let e : n ≡ 0 = omega arith in rw e (omega (arith, zero-bit_or (g * 1)))
bit_or-shift (suc k) n g h =
    rw (shift_suc g k, bit_or-double n (g * 2 ^ k))
      (omega (arith, bit_or-shift k (n / 2) g (half_lt k n h)))
  where
    half_lt : (k n : ℕ) → n < 2 ^ suc k → n / 2 < 2 ^ k
    half_lt k n h = let e : 2 ^ suc k ≡ 2 ^ k * 2 = pow-suc 2 k in omega arith
