-- ===== src/Calculator/RoundTrip.antt =====
-- What fiberize/examples/calculator/main.cpp reads from a written expression.
use fiberize.Base.{
  ℕ, zero, suc, ◌+◌, ◌≤◌, ◌<◌, ◌≡◌, refl, sym, subst, ap, ◌∙◌, false, List, ◌∷◌, ◌++◌, ◌==◌, length,
  u32, arith,
}
use fiberize.Calculator.{
  Lexer, parsed, is_space, is_digit, peek_char, skip_space, symbol, atom, expression,
}
use fiberize.Calculator.Grammar.{
  Atom, Expr, num, paren, single, sum, digit, digits, spaces, AllDigits, print, print_atom, IsAtom,
  IsExpr, atom_value, expr_value, atom_size, expr_size, number_value,
}
use fiberize.Calculator.Lexing.{
  stream, Reads, Reads-then, peek_char-Reads, symbol-Reads, skip_space-Reads, number-Reads,
}

-- What can stand behind an atom: a text that does not begin with a digit.
abbrev Stops : List ℕ → Type 0
Stops rest = (b : ℕ) × (bs : List ℕ) × (rest ≡ b ∷ bs) × (is_digit b ≡ false)

-- What can stand behind an expression.
record IsEnd (c : ℕ) : Type 0 where
  pub solid : is_space c ≡ false
  pub stop : is_digit c ≡ false
  pub last : (c == 43) ≡ false

spaces-Stops : (n c : ℕ) (cs : List ℕ) → is_digit c ≡ false → Stops (spaces n (c ∷ cs))
spaces-Stops zero c cs stop = (c, cs, refl, stop)
spaces-Stops (suc n) c cs stop = (32, spaces n (c ∷ cs), refl, refl)

digit-solid : (d : ℕ) → d < 10 → (is_space (digit d) ≡ false) × ((digit d == 40) ≡ false)
digit-solid d small = (ground (arith, small), ground (arith, small))

wrapped : (m n : ℕ) → u32 (u32 m + u32 n) ≡ u32 (m + n)
wrapped m n = omega arith

atom_size-positive : (a : Atom) → 1 ≤ atom_size a
unfolding atom_size
atom_size-positive (num k d ds) = omega arith
atom_size-positive (paren k x n) = omega arith

expr_size-positive : (x : Expr) → 1 ≤ expr_size x
unfolding expr_size
expr_size-positive (single a) = omega arith
expr_size-positive (sum a n x) = omega arith

num-Reads :
    (k d : ℕ) (ds : List ℕ) (fuel : ℕ) (s : Lexer) (b : ℕ) (bs : List ℕ)
    → d < 10
    → AllDigits ds
    → 3 + k + length ds ≤ suc fuel
    → is_digit b ≡ false
    → stream s ≡ spaces k (digit d ∷ digits ds ++ b ∷ bs)
    → Reads (atom (suc fuel) s) (u32 (number_value 0 (d ∷ ds))) (b ∷ bs)
unfolding atom
num-Reads k d ds fuel s b bs small all enough stop e =
    Reads-then (skip_space fuel s) _ (digit d) _ (digit d ∷ digits ds ++ b ∷ bs) (b ∷ bs)
      (skip_space-Reads fuel k s (digit d) (digits ds ++ b ∷ bs) (omega (arith, enough))
        (digit-solid d small).0 e)
      (λ t left.
        Reads-then (peek_char t) _ (digit d) _ (digit d ∷ digits ds ++ b ∷ bs) (b ∷ bs)
          (peek_char-Reads t (digit d) (digits ds ++ b ∷ bs) left)
          (λ u left_u.
            rw (digit-solid d small).1
              (number-Reads d ds fuel u b bs small all (omega (arith, enough)) stop left_u)))

mutual
  unfolding atom expression print IsExpr expr_value expr_size

  atom-Reads :
      (a : Atom) (fuel : ℕ) (s : Lexer) (rest : List ℕ)
      → IsAtom a
      → atom_size a ≤ fuel
      → Stops rest
      → stream s ≡ print_atom a rest
      → Reads (atom fuel s) (u32 (atom_value a)) rest
  atom-Reads a zero s rest small enough stops e =
      absurd (omega (arith, enough, atom_size-positive a))
  atom-Reads (num k d ds) (suc fuel) s rest (small, all) enough (b, bs, same, stop) e =
      subst (λ (r : List ℕ). Reads (atom (suc fuel) s) (u32 (number_value 0 (d ∷ ds))) r) (sym same)
        (num-Reads k d ds fuel s b bs small all enough stop
          (e ∙ ap (λ (r : List ℕ). spaces k (digit d ∷ digits ds ++ r)) same))
  atom-Reads (paren k x n) (suc fuel) s rest small enough stops e =
      Reads-then (skip_space fuel s) _ 40 _ (40 ∷ print x (spaces n (41 ∷ rest))) rest
        (skip_space-Reads fuel k s 40 (print x (spaces n (41 ∷ rest))) (omega (arith, enough)) refl
          e)
        (λ t left.
          Reads-then (peek_char t) _ 40 _ (40 ∷ print x (spaces n (41 ∷ rest))) rest
            (peek_char-Reads t 40 (print x (spaces n (41 ∷ rest))) left)
            (λ u left_u.
              Reads-then (symbol 40 u) _ 40 _ (print x (spaces n (41 ∷ rest))) rest
                (symbol-Reads u 40 (print x (spaces n (41 ∷ rest))) left_u)
                (λ v left_v.
                  Reads-then (expression fuel v) _ (u32 (expr_value x)) _ (41 ∷ rest) rest
                    (expression-Reads x fuel n v 41 rest small (omega (arith, enough))
                      (record { solid = refl; stop = refl; last = refl }) left_v)
                    (λ w left_w.
                      Reads-then (symbol 41 w) _ 41 _ rest rest (symbol-Reads w 41 rest left_w)
                        (λ y left_y. (y, refl, left_y))))))

  expression-Reads :
      (x : Expr) (fuel n : ℕ) (s : Lexer) (c : ℕ) (cs : List ℕ)
      → IsExpr x
      → expr_size x + n ≤ fuel
      → IsEnd c
      → stream s ≡ print x (spaces n (c ∷ cs))
      → Reads (expression fuel s) (u32 (expr_value x)) (c ∷ cs)
  expression-Reads x zero n s c cs small enough end e =
      absurd (omega (arith, enough, expr_size-positive x))
  expression-Reads (single a) (suc fuel) n s c cs small enough end e =
      Reads-then (atom fuel s) _ (u32 (atom_value a)) _ (spaces n (c ∷ cs)) (c ∷ cs)
        (atom-Reads a fuel s (spaces n (c ∷ cs)) small (omega (arith, enough))
          (spaces-Stops n c cs end.stop) e)
        (λ t left.
          Reads-then (skip_space fuel t) _ c _ (c ∷ cs) (c ∷ cs)
            (skip_space-Reads fuel n t c cs (omega (arith, enough)) end.solid left)
            (λ u left_u.
              Reads-then (peek_char u) _ c _ (c ∷ cs) (c ∷ cs) (peek_char-Reads u c cs left_u)
                (λ v left_v. rw end.last (v, refl, left_v))))
  expression-Reads (sum a m x) (suc fuel) n s c cs (small, smalls) enough end e =
      Reads-then (atom fuel s) _ (u32 (atom_value a)) _
        (spaces m (43 ∷ print x (spaces n (c ∷ cs)))) (c ∷ cs)
        (atom-Reads a fuel s (spaces m (43 ∷ print x (spaces n (c ∷ cs)))) small
          (omega (arith, enough)) (spaces-Stops m 43 (print x (spaces n (c ∷ cs))) refl) e)
        (λ t left.
          Reads-then (skip_space fuel t) _ 43 _ (43 ∷ print x (spaces n (c ∷ cs))) (c ∷ cs)
            (skip_space-Reads fuel m t 43 (print x (spaces n (c ∷ cs))) (omega (arith, enough)) refl
              left)
            (λ u left_u.
              Reads-then (peek_char u) _ 43 _ (43 ∷ print x (spaces n (c ∷ cs))) (c ∷ cs)
                (peek_char-Reads u 43 (print x (spaces n (c ∷ cs))) left_u)
                (λ v left_v.
                  Reads-then (symbol 43 v) _ 43 _ (print x (spaces n (c ∷ cs))) (c ∷ cs)
                    (symbol-Reads v 43 (print x (spaces n (c ∷ cs))) left_v)
                    (λ w left_w.
                      Reads-then (expression fuel w) _ (u32 (expr_value x)) _ (c ∷ cs) (c ∷ cs)
                        (expression-Reads x fuel n w c cs smalls (omega (arith, enough)) end left_w)
                        (λ y left_y. (
                          y,
                          ap (λ (k : ℕ). parsed k y) (wrapped (atom_value a) (expr_value x)),
                          left_y,
                        ))))))
