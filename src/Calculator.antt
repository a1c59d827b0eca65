-- ===== src/Calculator.antt =====
-- FUND-120/0_C_Programming_Lab/TheCProgrammingLanguage/ch4/ch4_header_file: the calculator for
-- postfix expressions, with the stack of stack.c, getch.c, getop.c and main.c. The text is in ASCII.
pub mod Postfix
pub mod Tokens
mod Tests
use cohere_technology_skillb.Prelude.{
  ℕ, zero, suc, ◌+◌, Bool, true, false, not, ◌&&◌, ◌||◌, Option, none, some, List, [], ◌∷◌, ◌++◌,
  ◌==◌, ltb, leb, length, if◌then◌else◌,
}

-- buf of getch.c, its last character first, and what getchar has still to deliver.
pub record Source : Type 0 where
  pub buf : List ℕ
  pub input : List ℕ

abbrev source : List ℕ → List ℕ → Source
source b i = record { buf = b; input = i }

-- EOF is `none`.
unfoldable pub getch : Source → Option ℕ × Source
getch src = elim src.buf [
  | c ∷ buf ↦ (some c, source buf src.input)
  | [] ↦ elim src.input [ c ∷ input ↦ (some c, source [] input) | [] ↦ (none, src) ]
]

abbrev buf_size : ℕ
buf_size = 100

unfoldable pub ungetch : Option ℕ → Source → Source
ungetch none src = src
ungetch (some c) src =
    if leb buf_size (length src.buf) then src else record src { buf = c ∷ src.buf }

-- A loop over getch while `p` holds: the characters it has read, and the one at which it stops.
abbrev pub Scanned : Type 0
Scanned = List ℕ × (Option ℕ × Source)

abbrev got : ℕ → Scanned → Scanned
got c (cs, r) = (c ∷ cs, r)

unfoldable pub scan_input : (ℕ → Bool) → List ℕ → Scanned
scan_input p [] = ([], (none, source [] []))
scan_input p (c ∷ input) =
    if p c then got c (scan_input p input) else ([], (some c, source [] input))

unfoldable pub scan : (ℕ → Bool) → (buf input : List ℕ) → Scanned
unfolding scan_input
scan p [] input = scan_input p input
scan p (c ∷ buf) input = if p c then got c (scan p buf input) else ([], (some c, source buf input))

abbrev pub is_blank : ℕ → Bool
is_blank c = (c == b' ') || (c == b'\t')

abbrev pub is_digit : ℕ → Bool
is_digit c = leb b'0' c && leb c b'9'

-- What getop returns: EOF, NUMBER with the text of `s`, or any other character, which is then `s`.
pub data Token : Type 0 where
  ended : Token
  number : List ℕ → Token
  sign : ℕ → Token

abbrev max_op : ℕ
max_op = 100

-- NUMBER, unless a write to `s` was outside the array.
abbrev finish : List ℕ → Option ℕ → Source → Option (Token × Source)
finish s c src = if ltb (length s) max_op then some (number s, ungetch c src) else none

-- The loop behind a point.
abbrev fraction : List ℕ → Source → Option (Token × Source)
fraction s src = let (ds, (c, src')) = scan is_digit src.buf src.input in finish (s ++ ds) c src'

-- getop from the character `c` on, the last of `s`, that is a digit or a point.
abbrev read_number : List ℕ → (c : ℕ) → Source → Option (Token × Source)
read_number s c src =
    if is_digit c
    then (let (ds, (next, src')) = scan is_digit src.buf src.input in
        elim next [
          | none ↦ finish (s ++ ds) none src'
          | some d ↦
              if d == b'.'
              then fraction (s ++ (ds ++ (b'.' ∷ []))) src'
              else finish (s ++ ds) (some d) src'
        ])
    else fraction s src

-- getop behind a minus sign.
abbrev read_minus : Option ℕ × Source → Option (Token × Source)
read_minus (none, src) = some (sign b'-', src)
read_minus (some c, src) =
    if is_digit c || (c == b'.')
    then read_number (b'-' ∷ c ∷ []) c src
    else some (sign b'-', ungetch (some c) src)

unfoldable pub getop : Source → Option (Token × Source)
unfolding getch ungetch scan
getop src =
    let (blanks, (first, src')) = scan is_blank src.buf src.input in
    elim first [
      | none ↦ some (ended, src')
      | some c ↦
          if not (is_digit c) && (not (c == b'.') && not (c == b'-'))
          then some (sign c, src')
          else (if c == b'-' then read_minus (getch src') else read_number (c ∷ []) c src')
    ]

-- The arithmetic of double with the functions of the C library; setVar is defined nowhere.
pub record Arithmetic (D : Type 0) : Type 0 where
  pub zero_value : D
  pub atof : List ℕ → D
  pub add : D → D → D
  pub times : D → D → D
  pub minus : D → D → D
  pub divide : D → D → D
  pub fmod : D → D → D
  pub is_zero : D → Bool

-- What the program does besides its stack.
pub data Event (D : Type 0) : Type 0 where
  stack_full : Event D
  stack_empty : Event D
  zero_divisor : Event D
  zero_modulus : Event D
  set_var : D → D → Event D
  printed : D → Event D
  unknown : ℕ → Event D

-- The stack of stack.c, its top first, and the events so far.
pub record Machine (D : Type 0) : Type 0 where
  pub val : List D
  pub events : List (Event D)

abbrev max_val : ℕ
max_val = 100

module _ {D : Type 0} where
  abbrev event : Event D → Machine D → Machine D
  event e m = record m { events = m.events ++ (e ∷ []) }

  unfoldable pub push : D → Machine D → Machine D
  push d m = if ltb (length m.val) max_val then record m { val = d ∷ m.val } else event stack_full m

module _ {D : Type 0} (a : Arithmetic D) where
  unfoldable pub pop : Machine D → D × Machine D
  pop m = elim m.val [
    | [] ↦ (a.zero_value, event stack_empty m)
    | d ∷ ds ↦ (d, record m { val = ds })
  ]

  -- push(f(pop(), pop())), the operand that is popped first on the right.
  abbrev binary : (D → D → D) → Machine D → Machine D
  binary f m = let (y, m) = pop m in let (x, m) = pop m in push (f x y) m

  -- `f` with a right operand that is not 0.0.
  abbrev partial : (D → D → D) → Event D → Machine D → Machine D
  partial f e m =
      let (y, m) = pop m in
      if a.is_zero y then event e m else (let (x, m) = pop m in push (f x y) m)

  -- The switch of main for a character. In pop() + pop() and pop() * pop() C leaves the order of the
  -- calls open; the sum and the product are the same in both.
  unfoldable pub operate : ℕ → Machine D → Machine D
  unfolding push pop
  operate c m =
      if c == b'+'
      then binary a.add m
      else (if c == b'*'
          then binary a.times m
          else (if c == b'-'
              then binary a.minus m
              else (if c == b'/'
                  then partial a.divide zero_divisor m
                  else (if c == b'%'
                      then partial a.fmod zero_modulus m
                      else (if c == b'='
                          then (let (y, m) = pop m in let (x, m) = pop m in event (set_var x y) m)
                          else (if c == b'\n'
                              then (let (x, m) = pop m in event (printed x) m)
                              else event (unknown c) m))))))

  -- The loop of main on `k` rounds; `none` is a write outside `s`, or more rounds than `k`.
  unfoldable pub calculate : (k : ℕ) → Source → Machine D → Option (Machine D)
  unfolding getop push operate
  calculate zero src m = none
  calculate (suc k) src m = elim (getop src) [
    | none ↦ none
    | some (ended, src') ↦ some m
    | some (number s, src') ↦ calculate k src' (push (a.atof s) m)
    | some (sign c, src') ↦ calculate k src' (operate c m)
  ]
