-- ===== src/Calculator/Tests.antt =====
-- The calculator on natural numbers.
use cohere_technology_skillb.Prelude.{
  ℕ, ◌+◌, ◌-◌, ◌*◌, ◌/◌, ◌%◌, ◌≡◌, refl, some, List, [], ◌∷◌, ◌==◌, arith,
}
use cohere_technology_skillb.Calculator.{Arithmetic, printed, calculate}
use cohere_technology_skillb.Calculator.Tokens.{at_start}
use cohere_technology_skillb.Calculator.Postfix.{
  dash, slash, Expr, digits, apply, postfix, tokens, value, calculate-value,
}

abbrev decimal : (acc : ℕ) → List ℕ → ℕ
decimal acc [] = acc
decimal acc (c ∷ s) = decimal (10 * acc + (c - b'0')) s

abbrev naturals : Arithmetic ℕ
naturals = record {
  zero_value = 0;
  atof = decimal 0;
  add = λ x y. x + y;
  times = λ x y. x * y;
  minus = λ x y. x - y;
  divide = λ x y. x / y;
  fmod = λ x y. x % y;
  is_zero = λ x. x == 0;
}

-- 12 4 / 1 -
abbrev quotient : Expr
quotient = apply dash (apply slash (digits b'1' (b'2' ∷ [])) (digits b'4' [])) (digits b'1' [])

quotient_run : value naturals quotient ≡ 2
quotient_run = refl

calculate-value_example :
    calculate naturals
      (tokens quotient + 2)
      (at_start (postfix quotient (b'\n' ∷ [])))
      (record { val = []; events = [] })
    ≡ some (record { val = []; events = printed (value naturals quotient) ∷ [] })
calculate-value_example =
    calculate-value naturals quotient
      (((refl, (refl, tt), omega arith), (refl, tt, omega arith)), (refl, tt, omega arith))
      ((tt, tt, refl), tt, tt) (omega arith)
