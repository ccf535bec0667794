-- ===== src/Base/Sums.antt =====
-- Sums over the first `n` values of a function, and how an update changes them.
use Prim.Native.Nat.{ℕ, zero, suc, ◌+◌, ◌≤◌, ◌<◌}
use mathlib.Core.Path.{◌≡◌, refl, sym, subst, ◌∙◌}
use mathlib.Core.Logic.{◌≢◌, inl, inr}
use fiberize.Base.Tests.{◌==◌, ==_iff, Bool-cases}
use native.Mathlib.Omega.{arith}
use fiberize.Base.Words.{update}

module _ {ℓ} {A : Type ℓ} (weight : A → ℕ) where
  unfoldable pub total : ℕ → (ℕ → A) → ℕ
  total zero f = 0
  total (suc n) f = total n f + weight (f n)

  pub total-update_out :
      (n : ℕ) (f : ℕ → A) (i : ℕ) (v : A) → n ≤ i → total n (update f i v) ≡ total n f
  unfolding total
  total-update_out zero f i v h = refl
  total-update_out (suc n) f i v h = ground (arith, total-update_out n f i v)

  pub total-zero : (n : ℕ) (f : ℕ → A) → ((i : ℕ) → weight (f i) ≡ 0) → total n f ≡ 0
  unfolding total
  total-zero zero f h = refl
  total-zero (suc n) f h = omega (arith, total-zero n f h, h n)

  -- Replacing one value trades its weight for the new one.
  pub total-update :
      (n : ℕ) (f : ℕ → A) (i : ℕ) (v : A)
      → i < n
      → total n (update f i v) + weight (f i) ≡ total n f + weight v
  unfolding total
  total-update zero f i v h = absurd (omega arith)
  total-update (suc n) f i v h = ground (arith, total-update n f i v, total-update_out n f i v)

  pub le-total : (n : ℕ) (f : ℕ → A) (i : ℕ) → i < n → weight (f i) ≤ total n f
  unfolding total
  le-total zero f i h = absurd (omega arith)
  le-total (suc n) f i h = grind (arith, le-total n f)

  pub le-total_two :
      (n : ℕ) (f : ℕ → A) (i j : ℕ)
      → i < n
      → j < n
      → i ≢ j
      → weight (f i) + weight (f j) ≤ total n f
  unfolding total
  le-total_two zero f i j hi hj ne = absurd (omega arith)
  le-total_two (suc n) f i j hi hj ne = elim (Bool-cases (i == n)) [
    | inl e ↦
        subst (λ (x : ℕ). weight (f x) + weight (f j) ≤ total n f + weight (f n))
          (sym ((==_iff i n).0 e))
          (omega (arith, le-total n f j (below j hj (λ b. ne ((==_iff i n).0 e ∙ sym b)))))
    | inr e ↦ elim (Bool-cases (j == n)) [
      | inl d ↦
          subst (λ (x : ℕ). weight (f i) + weight (f x) ≤ total n f + weight (f n))
            (sym ((==_iff j n).0 d))
            (omega (arith, le-total n f i (below i hi (λ b. ne (b ∙ sym ((==_iff j n).0 d))))))
      | inr d ↦ omega (
        arith,
        le-total_two n f i j (below i hi (λ b. ground (arith, e, (==_iff i n).1 b)))
            (below j hj (λ b. ground (arith, d, (==_iff j n).1 b))) ne,
      )
    ]
  ]
    where
      below : (x : ℕ) → x < suc n → x ≢ n → x < n
      below x lt apart = ground (arith, apart)

  -- A positive sum has a positive term.
  pub total-some : (n : ℕ) (f : ℕ → A) → 1 ≤ total n f → (k : ℕ) × (k < n) × (1 ≤ weight (f k))
  unfolding total
  total-some zero f one = absurd (omega arith)
  total-some (suc n) f one = go (weight (f n)) refl (total-some n f)
    where
      go :
          (w : ℕ)
          → weight (f n) ≡ w
          → (1 ≤ total n f → (k : ℕ) × (k < n) × (1 ≤ weight (f k)))
          → (k : ℕ) × (k < suc n) × (1 ≤ weight (f k))
      go (suc w) e rest = (n, omega arith, omega arith)
      go zero e rest =
          let found = rest (omega (arith, one, e)) in (found.0, omega (arith, found.1), found.2)

pub total-le {ℓ} :
    {A : Type ℓ} (weight : A → ℕ) (n : ℕ) (f : ℕ → A)
    → ((a : A) → weight a ≤ 1)
    → total weight n f ≤ n
unfolding total
total-le weight zero f small = omega arith
total-le weight (suc n) f small = omega (arith, total-le weight n f small, small (f n))
