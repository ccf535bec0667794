-- ===== src/Calculator.antt =====
-- fiberize/examples/calculator/main.cpp: a fiber that reads expressions from the strings that events
-- bring it. A string is the list of its character codes. The strings that are still to come are a
-- list; when it is used up the fiber waits.
pub mod Grammar
pub mod Lexing
pub mod RoundTrip
mod Examples
use fiberize.Base.{
  ℕ, zero, suc, ◌+◌, ◌*◌, ◌-◌, Bool, true, false, not, ◌&&◌, ◌||◌, Option, none, some, List, [],
  ◌∷◌, ◌++◌, ◌==◌, leb, if◌then◌else◌, u32,
}

pub record Lexer : Type 0 where
  pub input : List ℕ
  pub feed : List (List ℕ)

-- How a call of the parser ends: it returns, it throws `InvalidSyntax`, it waits for input that does not
-- come, or the fuel runs out.
pub data Parse (A : Type 0) : Type 0 where
  parsed : A → Lexer → Parse A
  invalid : Lexer → Parse A
  waiting exhausted : Parse A

abbrev pub then_parse : {A B : Type 0} → Parse A → (A → Lexer → Parse B) → Parse B
then_parse (parsed a s) next = next a s
then_parse (invalid s) next = invalid s
then_parse waiting next = waiting
then_parse exhausted next = exhausted

-- `isspace` and `isdigit` of the C locale.
abbrev pub is_space : ℕ → Bool
is_space c = c == 32 || (leb 9 c && leb c 13)

abbrev pub is_digit : ℕ → Bool
is_digit c = leb 48 c && leb c 57

-- `waitForInput`, by the strings that come while there is no input: the first character is there.
unfoldable pub wait_for_input : List ℕ → List (List ℕ) → Parse ℕ
wait_for_input (c ∷ cs) feed = parsed c (record { input = c ∷ cs; feed = feed })
wait_for_input [] [] = waiting
wait_for_input [] (more ∷ feed) = wait_for_input more feed

unfoldable pub peek_char : Lexer → Parse ℕ
peek_char s = wait_for_input s.input s.feed

abbrev pub tail : List ℕ → List ℕ
tail [] = []
tail (c ∷ cs) = cs

unfoldable pub get_char : Lexer → Parse ℕ
get_char s =
    then_parse (wait_for_input s.input s.feed) (λ c t. parsed c (record t { input = tail t.input }))

-- `skipSpace`
unfoldable pub skip_space : ℕ → Lexer → Parse ℕ
skip_space zero s = exhausted
skip_space (suc fuel) s = then_parse (peek_char s) (λ c t. elim (is_space c) [
  | true ↦ then_parse (get_char t) (λ d u. skip_space fuel u)
  | false ↦ parsed c t
])

-- The loop of `number`, and `number`.
unfoldable pub number_loop : ℕ → ℕ → Lexer → Parse ℕ
number_loop zero value s = exhausted
number_loop (suc fuel) value s = then_parse (peek_char s) (λ c t. elim (is_digit c) [
  | true ↦ then_parse (get_char t) (λ d u. number_loop fuel (u32 (u32 (value * 10) + (d - 48))) u)
  | false ↦ parsed value t
])

unfoldable pub number : ℕ → Lexer → Parse ℕ
number fuel s =
    then_parse (peek_char s) (λ c t. if is_digit c then number_loop fuel 0 t else invalid t)

unfoldable pub symbol : ℕ → Lexer → Parse ℕ
symbol c s = then_parse (peek_char s) (λ d t. if d == c then get_char t else invalid t)

-- `atom` and `expression`, which call each other.
unfoldable mutual
  pub atom : ℕ → Lexer → Parse ℕ
  atom zero s = exhausted
  atom (suc fuel) s = then_parse (skip_space fuel s) (λ b t. then_parse (peek_char t) (λ c u.
      elim (c == 40) [
        | true ↦ then_parse (symbol 40 u) (λ d v.
            then_parse (expression fuel v)
              (λ value w. then_parse (symbol 41 w) (λ e x. parsed value x)))
        | false ↦ number fuel u
      ]))

  pub expression : ℕ → Lexer → Parse ℕ
  expression zero s = exhausted
  expression (suc fuel) s = then_parse (atom fuel s) (λ value t.
      then_parse (skip_space fuel t) (λ b u. then_parse (peek_char u) (λ c v. elim (c == 43) [
        | true ↦
            then_parse (symbol 43 v)
              (λ d w. then_parse (expression fuel w) (λ more x. parsed (u32 (value + more)) x))
        | false ↦ parsed value v
      ])))

-- What the round of `operator ()` tries: an expression and a semicolon.
unfoldable pub statement : ℕ → Lexer → Parse ℕ
statement fuel s = then_parse (expression fuel s) (λ value t.
    then_parse (skip_space fuel t) (λ c u. then_parse (symbol 59 u) (λ d v. parsed value v)))

-- One round of `operator ()`: the value that is sent to the subscribers, or none when the syntax is invalid,
-- after which one character is consumed.
abbrev recover : Parse ℕ → Parse (Option ℕ)
recover (parsed value s) = parsed (some value) s
recover (invalid s) = then_parse (get_char s) (λ c t. parsed none t)
recover waiting = waiting
recover exhausted = exhausted

unfoldable pub answer : ℕ → Lexer → Parse (Option ℕ)
answer fuel s = recover (statement fuel s)
