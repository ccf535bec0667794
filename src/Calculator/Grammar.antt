-- ===== src/Calculator/Grammar.antt =====
-- The expressions that fiberize/examples/calculator/main.cpp reads, how they are written, and what
-- they are worth.
use fiberize.Base.{ℕ, zero, suc, ◌+◌, ◌*◌, ◌<◌, List, [], length, ◌∷◌, ◌++◌}

-- A digit, by its value below 10.
abbrev pub digit : ℕ → ℕ
digit d = 48 + d

abbrev pub digits : List ℕ → List ℕ
digits [] = []
digits (d ∷ ds) = digit d ∷ digits ds

abbrev pub spaces : ℕ → List ℕ → List ℕ
spaces zero rest = rest
spaces (suc n) rest = 32 ∷ spaces n rest

-- A number with its first digit, or an expression in parentheses, behind a number of spaces; and a sum, with
-- a number of spaces before the sign.
mutual
  pub data Atom : Type 0 where
    num : ℕ → ℕ → List ℕ → Atom
    paren : ℕ → Expr → ℕ → Atom

  pub data Expr : Type 0 where
    single : Atom → Expr
    sum : Atom → ℕ → Expr → Expr

-- How they are written, before the text `rest`.
unfoldable mutual
  pub print_atom : Atom → List ℕ → List ℕ
  print_atom (num k d ds) rest = spaces k (digit d ∷ digits ds ++ rest)
  print_atom (paren k e n) rest = spaces k (40 ∷ print e (spaces n (41 ∷ rest)))

  pub print : Expr → List ℕ → List ℕ
  print (single a) rest = print_atom a rest
  print (sum a n e) rest = print_atom a (spaces n (43 ∷ print e rest))

abbrev pub number_value : ℕ → List ℕ → ℕ
number_value value [] = value
number_value value (d ∷ ds) = number_value (10 * value + d) ds

abbrev pub AllDigits : List ℕ → Type 0
AllDigits [] = Unit
AllDigits (d ∷ ds) = (d < 10) × AllDigits ds

-- The digits are below 10.
unfoldable mutual
  pub IsAtom : Atom → Type 0
  IsAtom (num k d ds) = (d < 10) × AllDigits ds
  IsAtom (paren k e n) = IsExpr e

  pub IsExpr : Expr → Type 0
  IsExpr (single a) = IsAtom a
  IsExpr (sum a n e) = IsAtom a × IsExpr e

-- The value, as a number without bound.
unfoldable mutual
  pub atom_value : Atom → ℕ
  atom_value (num k d ds) = number_value 0 (d ∷ ds)
  atom_value (paren k e n) = expr_value e

  pub expr_value : Expr → ℕ
  expr_value (single a) = atom_value a
  expr_value (sum a n e) = atom_value a + expr_value e

-- The fuel that reading them takes.
unfoldable mutual
  pub atom_size : Atom → ℕ
  atom_size (num k d ds) = 3 + k + length ds
  atom_size (paren k e n) = 3 + k + n + expr_size e

  pub expr_size : Expr → ℕ
  expr_size (single a) = 2 + atom_size a
  expr_size (sum a n e) = 2 + n + atom_size a + expr_size e
