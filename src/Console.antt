-- ===== src/Console.antt =====
-- FUND-120/0_C_Programming_Lab/cprogramminglab-handout/console.c: how a command line is split into
-- arguments. Allocation is taken to succeed.
pub mod Split
pub mod Input
pub mod Total
pub mod Interpreter
pub mod Run
pub mod Init
mod Tests
use cohere_technology_skillb.Prelude.{
  ℕ, zero, suc, ◌+◌, ◌-◌, Bool, true, false, ◌||◌, ◌&&◌, Option, none, some, List, [], ◌∷◌, ◌++◌,
  ◌==◌, leb, if◌then◌else◌, length, map,
}

-- isspace of the C locale
unfoldable pub isspace : ℕ → Bool
isspace c = (c == 32) || (leb 9 c && leb c 13)

-- The first loop of parse_args, up to the first NUL: what it appends to the buffer, and how many
-- words it starts.
pub scan_words : Bool → List ℕ → List ℕ × ℕ
scan_words skipping [] = ([], 0)
scan_words skipping (c ∷ s) =
    let (gap, n) = scan_words true s in
    let (word, m) = scan_words false s in
    if c == 0
    then ([], 0)
    else if isspace c
    then (if skipping then (gap, n) else (0 ∷ gap, n))
    else (if skipping then (c ∷ word, suc m) else (c ∷ word, m))

-- The string that begins the buffer, and what follows its terminator; `none` where the buffer ends.
pub next_string : List ℕ → Option (List ℕ × List ℕ)
next_string [] = none
next_string (c ∷ s) =
    let rest = next_string s in
    if c == 0
    then some ([], s)
    else (elim rest [ none ↦ none | some (word, after) ↦ some (c ∷ word, after) ])

-- The second loop of parse_args.
pub save_strings : ℕ → List ℕ → Option (List (List ℕ))
unfolding next_string
save_strings zero buf = some []
save_strings (suc argc) buf = elim (next_string buf) [
  | none ↦ none
  | some (word, src) ↦ elim (save_strings argc src) [ none ↦ none | some argv ↦ some (word ∷ argv) ]
]

-- `unset` is what malloc left in the part of the buffer that the first loop does not write; `none`
-- is a read past the buffer.
unfoldable pub parse_args : List ℕ → List ℕ → Option (List (List ℕ))
unfolding scan_words save_strings
parse_args line unset = let (buf, argc) = scan_words true line in save_strings argc (buf ++ unset)
