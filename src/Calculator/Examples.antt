-- ===== src/Calculator/Examples.antt =====
-- The text ` 12+( 7)   ;` in three strings, one of them empty.
use fiberize.Base.{[], ◌∷◌}
use fiberize.Calculator.{Lexer}
use fiberize.Calculator.Grammar.{Expr, num, paren, single, sum}

abbrev nineteen : Expr
nineteen = sum (num 1 1 (2 ∷ [])) 0 (single (paren 0 (single (num 1 7 [])) 0))

abbrev typed : Lexer
typed = record {
  input = 32 ∷ 49 ∷ [];
  feed = [] ∷ (50 ∷ 43 ∷ 40 ∷ 32 ∷ 55 ∷ []) ∷ (41 ∷ 32 ∷ 32 ∷ 32 ∷ 59 ∷ 10 ∷ []) ∷ [];
}
