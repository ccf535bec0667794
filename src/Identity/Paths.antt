-- ===== src/Identity/Paths.antt =====
-- The equality tests of fiberize/include/fiberize/path.hpp.
use fiberize.Base.{◌≡◌, refl, ◌↔◌, true, not, [], ◌∷◌, arith}
use fiberize.Identity.{
  Bytes, Ident, named, unique, TaskPath, prefixed, global, bytes_eq, ident_eq, path_eq, path_ne,
}

bytes_eq_refl : (xs : Bytes) → bytes_eq xs xs ≡ true
unfolding bytes_eq
bytes_eq_refl [] = refl
bytes_eq_refl (x ∷ xs) = ground (arith, bytes_eq_refl xs)

bytes_eq_sound : (xs ys : Bytes) → bytes_eq xs ys ≡ true → xs ≡ ys
unfolding bytes_eq
bytes_eq_sound [] [] h = refl
bytes_eq_sound [] (y ∷ ys) h = ground arith
bytes_eq_sound (x ∷ xs) [] h = ground arith
bytes_eq_sound (x ∷ xs) (y ∷ ys) h = ground (arith, bytes_eq_sound xs ys)

ident_eq_iff : (i j : Ident) → (ident_eq i j ≡ true) ↔ (i ≡ j)
unfolding ident_eq
ident_eq_iff (named m) (named n) = ground (arith, bytes_eq_sound m n, bytes_eq_refl m)
ident_eq_iff (named m) (unique t) = ground arith
ident_eq_iff (unique s) (named n) = ground arith
ident_eq_iff (unique s) (unique t) = ground arith

pub path_eq_iff : (p q : TaskPath) → (path_eq p q ≡ true) ↔ (p ≡ q)
unfolding path_eq
path_eq_iff (prefixed u i) (prefixed v j) = ground (arith, ident_eq_iff i j)
path_eq_iff (global i) (global j) = ground (arith, ident_eq_iff i j)
path_eq_iff p q = ground arith

-- Two paths are found equal by `==` exactly when they are the same path, and `!=`, which the
-- classes define apart, is its negation.
pub path_eq-sound_complete :
    (p q : TaskPath) → ((path_eq p q ≡ true) ↔ (p ≡ q)) × (path_ne p q ≡ not (path_eq p q))
path_eq-sound_complete p q = (path_eq_iff p q, unfold path_eq path_ne in ground arith)
