-- ===== src/Calculator/Postfix.antt =====
-- The calculator computes postfix expressions.
use cohere_technology_skillb.Prelude.{
  ℕ, zero, suc, ◌+◌, ◌<◌, ◌≤◌, ◌≡◌, refl, ap, ◌∙◌, true, false, some, List, [], ◌∷◌, ◌++◌, arith,
  ltb, length, if◌then◌else◌,
}
use cohere_technology_skillb.Calculator.{
  Source, sign, getop, getch, ungetch, scan, scan_input, Arithmetic, printed, Machine, push, pop,
  operate, calculate, is_digit,
}
use cohere_technology_skillb.Calculator.Tokens.{
  at_start, put_back, AllDigits, getop-put_back, getop-blank, getop-number,
}

pub data Operator : Type 0 where
  plus_sign : Operator
  dash : Operator
  star : Operator
  slash : Operator

-- Expressions whose numbers are strings of digits.
pub data Expr : Type 0 where
  digits : (d : ℕ) (ds : List ℕ) → Expr
  apply : Operator → Expr → Expr → Expr

abbrev pub sign_of : Operator → ℕ
sign_of plus_sign = b'+'
sign_of dash = b'-'
sign_of star = b'*'
sign_of slash = b'/'

-- An expression as the calculator reads it, in front of `s`.
abbrev pub postfix : Expr → List ℕ → List ℕ
postfix (digits d ds) s = d ∷ (ds ++ (b' ' ∷ s))
postfix (apply o x y) s = postfix x (postfix y (sign_of o ∷ b' ' ∷ s))

abbrev pub tokens : Expr → ℕ
tokens (digits d ds) = 1
tokens (apply o x y) = tokens x + (tokens y + 1)

-- The places on the stack that an expression needs.
abbrev pub depth : Expr → ℕ
depth (digits d ds) = 1
depth (apply o x y) = if ltb (depth x) (depth y + 1) then depth y + 1 else depth x

abbrev pub AreNumbers : Expr → Type 0
AreNumbers (digits d ds) = (is_digit d ≡ true) × AllDigits ds × (length ds < 99)
AreNumbers (apply o x y) = AreNumbers x × AreNumbers y

depth-pos : (e : Expr) → 0 < depth e
depth-pos (digits d ds) = omega arith
depth-pos (apply o x y) = ground (arith, depth-pos x)

depth-left : (o : Operator) (x y : Expr) → depth x ≤ depth (apply o x y)
depth-left o x y = ground arith

depth-right : (o : Operator) (x y : Expr) → depth y + 1 ≤ depth (apply o x y)
depth-right o x y = ground arith

-- The text behind an operator.
behind : Operator → List ℕ → Source
behind dash s = put_back s
behind _ s = at_start (b' ' ∷ s)

getop-behind : (o : Operator) (s : List ℕ) → getop (behind o s) ≡ getop (at_start s)
unfolding behind
getop-behind plus_sign s = getop-blank s
getop-behind dash s = getop-put_back s
getop-behind star s = getop-blank s
getop-behind slash s = getop-blank s

getop-sign :
    (o : Operator) (s : List ℕ)
    → getop (at_start (sign_of o ∷ b' ' ∷ s)) ≡ some (sign (sign_of o), behind o s)
unfolding getop getch ungetch scan scan_input behind
getop-sign plus_sign s = refl
getop-sign dash s = refl
getop-sign star s = refl
getop-sign slash s = refl

module _ {D : Type 0} (a : Arithmetic D) where
  abbrev pub value_op : Operator → D → D → D
  value_op plus_sign = a.add
  value_op dash = a.minus
  value_op star = a.times
  value_op slash = a.divide

  abbrev pub value : Expr → D
  value (digits d ds) = a.atof (d ∷ ds)
  value (apply o x y) = value_op o (value x) (value y)

  abbrev NonZero : Operator → D → Type 0
  NonZero slash y = a.is_zero y ≡ false
  NonZero o y = Unit

  -- No division by zero.
  abbrev pub IsDefined : Expr → Type 0
  IsDefined (digits d ds) = Unit
  IsDefined (apply o x y) = IsDefined x × IsDefined y × NonZero o (value y)

  abbrev pushed : D → Machine D → Machine D
  pushed d m = record m { val = d ∷ m.val }

  push-room : (d : D) (m : Machine D) → length m.val < 100 → push d m ≡ pushed d m
  unfolding push
  push-room d m room =
      let fits : ltb (length m.val) 100 ≡ true = ground (arith, room) in rw fits refl

  operate-value :
      (o : Operator) (m : Machine D) (x y : D)
      → NonZero o y
      → length m.val < 100
      → operate a (sign_of o) (pushed y (pushed x m)) ≡ pushed (value_op o x y) m
  unfolding operate pop push
  operate-value plus_sign m x y nz room =
      let fits : ltb (length m.val) 100 ≡ true = ground (arith, room) in rw fits refl
  operate-value dash m x y nz room =
      let fits : ltb (length m.val) 100 ≡ true = ground (arith, room) in rw fits refl
  operate-value star m x y nz room =
      let fits : ltb (length m.val) 100 ≡ true = ground (arith, room) in rw fits refl
  operate-value slash m x y nz room =
      let fits : ltb (length m.val) 100 ≡ true = ground (arith, room) in rw (nz, fits) refl

  calculate-same :
      (k : ℕ) (src src' : Source) (m : Machine D)
      → getop src ≡ getop src'
      → calculate a k src m ≡ calculate a k src' m
  unfolding calculate
  calculate-same zero src src' m e = refl
  calculate-same (suc k) src src' m e = rw (calculate, e) refl

  calculate-sign :
      (o : Operator) (s : List ℕ) (k : ℕ) (m m' : Machine D)
      → operate a (sign_of o) m ≡ m'
      → calculate a (suc k) (at_start (sign_of o ∷ b' ' ∷ s)) m ≡ calculate a k (at_start s) m'
  unfolding calculate
  calculate-sign o s k m m' e =
      rw (calculate, getop-sign o s, e)
        (calculate-same k (behind o s) (at_start s) m' (getop-behind o s))

  -- The calculator reads an expression and leaves its value on the stack.
  calculate-postfix :
      (e : Expr) (s : List ℕ) (k : ℕ) (m : Machine D)
      → AreNumbers e
      → IsDefined e
      → length m.val + depth e ≤ 100
      → calculate a (tokens e + k) (at_start (postfix e s)) m
        ≡ calculate a k (at_start s) (pushed (value e) m)
  unfolding calculate
  calculate-postfix (digits d ds) s k m n def room =
      let one : 1 + k ≡ suc k = omega arith in
      rw (one, calculate, getop-number d ds s n.0 n.1 n.2)
        (ap (calculate a k (put_back s)) (push-room (a.atof (d ∷ ds)) m (omega (arith, room)))
          ∙ calculate-same k (put_back s) (at_start s) _ (getop-put_back s))
  calculate-postfix (apply o x y) s k m n def room =
      let fuel : tokens x + (tokens y + 1) + k ≡ tokens x + (tokens y + suc k) = omega arith in
      let left =
        calculate-postfix x (postfix y (sign_of o ∷ b' ' ∷ s)) (tokens y + suc k) m n.0 def.0
          (omega (arith, room, depth-left o x y)) in
      let right =
        calculate-postfix y (sign_of o ∷ b' ' ∷ s) (suc k) (pushed (value x) m) n.1 def.1
          (omega (arith, room, depth-right o x y)) in
      let full : operate a (sign_of o) (pushed (value y) (pushed (value x) m))
          ≡ pushed (value_op o (value x) (value y)) m =
        operate-value o m (value x) (value y) def.2
          (omega (arith, room, depth-pos (apply o x y))) in
      rw fuel (left ∙ (right ∙ calculate-sign o s k (pushed (value y) (pushed (value x) m)) _ full))

  -- An expression in postfix form and a newline, started on the empty stack, end with the empty stack
  -- and its value printed, and with no other event: if its numbers are strings of at most 99 digits,
  -- nothing is divided by zero, and the stack has room for it. The program takes one round for each
  -- token, one for the newline and one for EOF.
  pub calculate-value :
      (e : Expr)
      → AreNumbers e
      → IsDefined e
      → depth e ≤ 100
      → calculate a
          (tokens e + 2)
          (at_start (postfix e (b'\n' ∷ [])))
          (record { val = []; events = [] })
        ≡ some (record { val = []; events = printed (value e) ∷ [] })
  unfolding calculate getop scan scan_input operate pop
  calculate-value e n def deep =
      calculate-postfix e (b'\n' ∷ []) 2 (record { val = []; events = [] }) n def
        (omega (arith, deep))
