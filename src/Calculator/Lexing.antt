-- ===== src/Calculator/Lexing.antt =====
-- The lexer of fiberize/examples/calculator/main.cpp over a text that comes in any number of strings.
use fiberize.Base.{
  ℕ, zero, suc, ◌+◌, ◌*◌, ◌-◌, ◌<◌, ◌≡◌, refl, ap, ◌∙◌, true, false, List, [], ◌∷◌, ◌++◌, length,
  u32, arith, ==_refl,
}
use fiberize.Calculator.{
  Lexer, Parse, parsed, then_parse, is_space, is_digit, wait_for_input, peek_char, get_char,
  skip_space, number_loop, number, symbol, tail,
}
use fiberize.Calculator.Grammar.{digit, digits, spaces, number_value, AllDigits}

abbrev joined : List (List ℕ) → List ℕ
joined [] = []
joined (x ∷ xs) = x ++ joined xs

-- The text that is there and to come, however it is cut into strings.
abbrev pub stream : Lexer → List ℕ
stream s = s.input ++ joined s.feed

-- The call returns `a` and leaves the text `cs`.
abbrev pub Reads : {A : Type 0} → Parse A → A → List ℕ → Type 0
Reads p a cs = (t : Lexer) × (p ≡ parsed a t) × (stream t ≡ cs)

pub Reads-then :
    {A B : Type 0} (p : Parse A) (next : A → Lexer → Parse B) (a : A) (b : B) (cs ds : List ℕ)
    → Reads p a cs
    → ((t : Lexer) → stream t ≡ cs → Reads (next a t) b ds)
    → Reads (then_parse p next) b ds
Reads-then p next a b cs ds (t, e, left) rest = rw e (rest t left)

-- Waiting for input ends at the first string that is not empty.
wait_for_input-reads :
    (input : List ℕ) (feed : List (List ℕ)) (c : ℕ) (cs : List ℕ)
    → input ++ joined feed ≡ c ∷ cs
    → (t : Lexer) × (wait_for_input input feed ≡ parsed c t)
      × (t.input ≡ c ∷ tail t.input)
      × (tail t.input ++ joined t.feed ≡ cs)
unfolding wait_for_input
wait_for_input-reads (x ∷ xs) feed c cs e = (
  record { input = x ∷ xs; feed = feed },
  ground (arith, e),
  ground (arith, e),
  ground (arith, e),
)
wait_for_input-reads [] [] c cs e = absurd (ground (arith, e))
wait_for_input-reads [] (more ∷ feed) c cs e = wait_for_input-reads more feed c cs e

pub peek_char-Reads :
    (s : Lexer) (c : ℕ) (cs : List ℕ) → stream s ≡ c ∷ cs → Reads (peek_char s) c (c ∷ cs)
unfolding peek_char
peek_char-Reads s c cs e =
    let (t, got, front, rest) = wait_for_input-reads s.input s.feed c cs e in
    (t, got, ap (λ (l : List ℕ). l ++ joined t.feed) front ∙ ap (λ (l : List ℕ). c ∷ l) rest)

get_char-Reads : (s : Lexer) (c : ℕ) (cs : List ℕ) → stream s ≡ c ∷ cs → Reads (get_char s) c cs
unfolding get_char
get_char-Reads s c cs e =
    let (t, got, front, rest) = wait_for_input-reads s.input s.feed c cs e in
    (record t { input = tail t.input }, rw got refl, rest)

pub symbol-Reads : (s : Lexer) (c : ℕ) (cs : List ℕ) → stream s ≡ c ∷ cs → Reads (symbol c s) c cs
unfolding symbol
symbol-Reads s c cs e =
    Reads-then (peek_char s) _ c c (c ∷ cs) cs (peek_char-Reads s c cs e)
      (λ t left. rw (==_refl c) (get_char-Reads t c cs left))

pub skip_space-Reads :
    (fuel n : ℕ) (s : Lexer) (c : ℕ) (cs : List ℕ)
    → n < fuel
    → is_space c ≡ false
    → stream s ≡ spaces n (c ∷ cs)
    → Reads (skip_space fuel s) c (c ∷ cs)
unfolding skip_space
skip_space-Reads zero n s c cs enough solid e = absurd (omega arith)
skip_space-Reads (suc fuel) zero s c cs enough solid e =
    Reads-then (peek_char s) _ c c (c ∷ cs) (c ∷ cs) (peek_char-Reads s c cs e)
      (λ t left. rw solid (t, refl, left))
skip_space-Reads (suc fuel) (suc n) s c cs enough solid e =
    Reads-then (peek_char s) _ 32 c (32 ∷ spaces n (c ∷ cs)) (c ∷ cs)
      (peek_char-Reads s 32 (spaces n (c ∷ cs)) e)
      (λ t left.
        Reads-then (get_char t) _ 32 c (spaces n (c ∷ cs)) (c ∷ cs)
          (get_char-Reads t 32 (spaces n (c ∷ cs)) left)
          (λ u rest. skip_space-Reads fuel n u c cs (omega (arith, enough)) solid rest))

digit-is_digit : (d : ℕ) → d < 10 → is_digit (digit d) ≡ true
digit-is_digit d small = ground (arith, small)

-- One digit more, with the wrap-around of an unsigned integer.
shifted :
    (v value d : ℕ) → value ≡ u32 v → u32 (u32 (value * 10) + (48 + d - 48)) ≡ u32 (10 * v + d)
shifted v value d e = omega (arith, e)

number_loop-Reads :
    (ds : List ℕ) (fuel v value : ℕ) (s : Lexer) (c : ℕ) (cs : List ℕ)
    → AllDigits ds
    → length ds < fuel
    → is_digit c ≡ false
    → value ≡ u32 v
    → stream s ≡ digits ds ++ c ∷ cs
    → Reads (number_loop fuel value s) (u32 (number_value v ds)) (c ∷ cs)
unfolding number_loop
number_loop-Reads ds zero v value s c cs small enough stop same e = absurd (omega (arith, enough))
number_loop-Reads [] (suc fuel) v value s c cs small enough stop same e =
    Reads-then (peek_char s) _ c _ (c ∷ cs) (c ∷ cs) (peek_char-Reads s c cs e)
      (λ t left. rw stop (t, ap (λ (n : ℕ). parsed n t) same, left))
number_loop-Reads (d ∷ ds) (suc fuel) v value s c cs small enough stop same e =
    Reads-then (peek_char s) _ (digit d) _ (digit d ∷ digits ds ++ c ∷ cs) (c ∷ cs)
      (peek_char-Reads s (digit d) (digits ds ++ c ∷ cs) e)
      (λ t left. rw (digit-is_digit d small.0) (
        Reads-then (get_char t) _ (digit d) _ (digits ds ++ c ∷ cs) (c ∷ cs)
          (get_char-Reads t (digit d) (digits ds ++ c ∷ cs) left)
          (λ u rest.
            number_loop-Reads ds fuel (10 * v + d) _ u c cs small.1 (omega (arith, enough)) stop
              (shifted v value d same) rest)))

pub number-Reads :
    (d : ℕ) (ds : List ℕ) (fuel : ℕ) (s : Lexer) (c : ℕ) (cs : List ℕ)
    → d < 10
    → AllDigits ds
    → suc (length ds) < fuel
    → is_digit c ≡ false
    → stream s ≡ digit d ∷ digits ds ++ c ∷ cs
    → Reads (number fuel s) (u32 (number_value 0 (d ∷ ds))) (c ∷ cs)
unfolding number
number-Reads d ds fuel s c cs small all enough stop e =
    Reads-then (peek_char s) _ (digit d) _ (digit d ∷ digits ds ++ c ∷ cs) (c ∷ cs)
      (peek_char-Reads s (digit d) (digits ds ++ c ∷ cs) e)
      (λ t left.
        rw (digit-is_digit d small)
          (number_loop-Reads (d ∷ ds) fuel 0 0 t c cs (small, all) enough stop refl left))
