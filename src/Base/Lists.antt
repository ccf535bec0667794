-- ===== src/Base/Lists.antt =====
-- Lists measured and indexed by native numbers, under the library's names.
use Prim.Native.Nat.{ℕ, zero, suc, ◌+◌, ◌<◌}
use mathlib.Core.Logic.{◌≢◌, ◌⊎◌, inl, inr}
use mathlib.Core.Path.{◌≡◌, refl, ap}
use mathlib.Core.Bool.{Bool}
use mathlib.Core.List.{List, [], ◌∷◌, ◌++◌}
use mathlib.Core.Option.{Option, none, some}
use native.Mathlib.Omega.{arith}
use fiberize.Base.Tests.{◌==◌, if◌then◌else◌}

module _ {ℓ} {A : Type ℓ} where
  abbrev pub length : List A → ℕ
  length [] = 0
  length (x ∷ xs) = suc (length xs)

  abbrev pub get_elem? : List A → ℕ → Option A
  get_elem? [] i = none
  get_elem? (x ∷ xs) zero = some x
  get_elem? (x ∷ xs) (suc i) = get_elem? xs i

  -- A write out of bounds changes nothing.
  abbrev pub set : List A → ℕ → A → List A
  set [] i v = []
  set (x ∷ xs) zero v = v ∷ xs
  set (x ∷ xs) (suc i) v = x ∷ set xs i v

  pub length-append : (xs ys : List A) → length (xs ++ ys) ≡ length xs + length ys
  length-append [] ys = omega arith
  length-append (x ∷ xs) ys = omega (arith, length-append xs ys)

  pub get_elem?-append :
      (xs : List A) (y : A) (ys : List A) → get_elem? (xs ++ y ∷ ys) (length xs) ≡ some y
  get_elem?-append [] y ys = refl
  get_elem?-append (x ∷ xs) y ys = get_elem?-append xs y ys

  pub set-append :
      (xs : List A) (y v : A) (ys : List A) → set (xs ++ y ∷ ys) (length xs) v ≡ xs ++ v ∷ ys
  set-append [] y v ys = refl
  set-append (x ∷ xs) y v ys = ap (λ (l : List A). x ∷ l) (set-append xs y v ys)

  pub get_elem?-append_left :
      (xs ys : List A) (j : ℕ) (x : A) → get_elem? xs j ≡ some x → get_elem? (xs ++ ys) j ≡ some x
  get_elem?-append_left [] ys j x e = absurd (ground (arith, e))
  get_elem?-append_left (z ∷ xs) ys zero x e = e
  get_elem?-append_left (z ∷ xs) ys (suc j) x e = get_elem?-append_left xs ys j x e

  pub get_elem?-snoc :
      (xs : List A) (y : A) (j : ℕ) (x : A)
      → get_elem? (xs ++ y ∷ []) j ≡ some x
      → (get_elem? xs j ≡ some x) ⊎ ((j ≡ length xs) × (some y ≡ some x))
  get_elem?-snoc [] y zero x e = inr (refl, e)
  get_elem?-snoc [] y (suc j) x e = absurd (ground (arith, e))
  get_elem?-snoc (z ∷ xs) y zero x e = inl e
  get_elem?-snoc (z ∷ xs) y (suc j) x e = elim (get_elem?-snoc xs y j x e) [
    | inl old ↦ inl old
    | inr (last, new) ↦ inr (ap (λ (k : ℕ). suc k) last, new)
  ]

  pub length-set : (xs : List A) (i : ℕ) (v : A) → length (set xs i v) ≡ length xs
  length-set [] i v = refl
  length-set (x ∷ xs) zero v = refl
  length-set (x ∷ xs) (suc i) v = ap (λ (k : ℕ). suc k) (length-set xs i v)

  pub get_elem?-set :
      (xs : List A) (i : ℕ) (v : A) (j : ℕ) (x : A)
      → get_elem? (set xs i v) j ≡ some x
      → ((i ≡ j) × (some v ≡ some x)) ⊎ ((i ≢ j) × (get_elem? xs j ≡ some x))
  get_elem?-set [] i v j x e = absurd (ground (arith, e))
  get_elem?-set (y ∷ ys) zero v zero x e = inl (refl, e)
  get_elem?-set (y ∷ ys) zero v (suc j) x e = inr (λ d. absurd (omega (arith, d)), e)
  get_elem?-set (y ∷ ys) (suc i) v zero x e = inr (λ d. absurd (omega (arith, d)), e)
  get_elem?-set (y ∷ ys) (suc i) v (suc j) x e = elim (get_elem?-set ys i v j x e) [
    | inl (same, new) ↦ inl (ap (λ (k : ℕ). suc k) same, new)
    | inr (apart, old) ↦ inr (λ d. apart (omega (arith, d)), old)
  ]

  pub get_elem?-set_apart :
      (xs : List A) (i : ℕ) (v : A) (j : ℕ) (x : A)
      → i ≢ j
      → get_elem? xs j ≡ some x
      → get_elem? (set xs i v) j ≡ some x
  get_elem?-set_apart [] i v j x apart e = e
  get_elem?-set_apart (y ∷ ys) zero v zero x apart e = absurd (apart refl)
  get_elem?-set_apart (y ∷ ys) zero v (suc j) x apart e = e
  get_elem?-set_apart (y ∷ ys) (suc i) v zero x apart e = e
  get_elem?-set_apart (y ∷ ys) (suc i) v (suc j) x apart e =
      get_elem?-set_apart ys i v j x (λ d. apart (ap (λ (k : ℕ). suc k) d)) e

  pub get_elem?-below : (xs : List A) (j : ℕ) (x : A) → get_elem? xs j ≡ some x → j < length xs
  get_elem?-below [] j x e = absurd (ground (arith, e))
  get_elem?-below (y ∷ ys) zero x e = omega arith
  get_elem?-below (y ∷ ys) (suc j) x e = omega (arith, get_elem?-below ys j x e)

  -- The elements that pass a test, in order.
  abbrev pub select : (A → Bool) → List A → List A
  select p [] = []
  select p (x ∷ xs) = if p x then x ∷ select p xs else select p xs

-- How often a number stands in a list.
abbrev pub count : ℕ → List ℕ → ℕ
count a [] = 0
count a (x ∷ xs) = if x == a then suc (count a xs) else count a xs

pub count-append : (a : ℕ) (xs ys : List ℕ) → count a (xs ++ ys) ≡ count a xs + count a ys
count-append a [] ys = omega arith
count-append a (x ∷ xs) ys = ground (arith, count-append a xs ys)
