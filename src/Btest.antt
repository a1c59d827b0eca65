-- ===== src/Btest.antt =====
-- FUND-120/1_DataLab/datalab-handout/btest.c: the choice of test values and the loops that compare a
-- puzzle with its reference. An int is its bit pattern, as in Puzzles. What rand, pow and the command
-- line give are parameters; a function that does not return is `none`, which the alarm ends.
pub mod Bounds
pub mod Verdict
pub mod Suite
mod Tests
use Prim.Native.Nat.{bit_or}
use cohere_technology_skillb.Prelude.{
  ℕ, zero, suc, ◌+◌, ◌-◌, ◌*◌, ◌%◌, ◌^◌, Bool, true, false, not, ◌&&◌, Option, none, some, List, [],
  ◌∷◌, ◌++◌, ◌==◌, ltb, leb, if◌then◌else◌,
}
use cohere_technology_skillb.Puzzles.{add}
use cohere_technology_skillb.Puzzles.Reference.{signed_leb, minus}

infixl 20 ◌>>=◌
abbrev ◌>>=◌ : {A B : Type 0} → Option A → (A → Option B) → Option B
none >>= next = none
some a >>= next = next a

-- TEST_RANGE and MAX_TEST_VALS
abbrev pub test_range_limit : ℕ
test_range_limit = 500000

abbrev pub max_test_vals : ℕ
max_test_vals = 13 * test_range_limit

abbrev pub sub : ℕ → ℕ → ℕ
sub x y = (x + 2 ^ 32 - y) % 2 ^ 32

abbrev pub sign : ℕ
sign = 0x8000_0000

-- The values of one round for a puzzle on floats.
pub float_round : ℕ → List ℕ
float_round i =
    let smallest_norm : ℕ = 0x0080_0000 in
    let one : ℕ = 0x3f80_0000 in
    let largest_norm : ℕ = 0x7f7f_ffff in
    i
    ∷ bit_or sign i
    ∷ add smallest_norm i
    ∷ sub smallest_norm i
    ∷ bit_or sign (add smallest_norm i)
    ∷ bit_or sign (sub smallest_norm i)
    ∷ add one i
    ∷ sub one i
    ∷ bit_or sign (add one i)
    ∷ bit_or sign (sub one i)
    ∷ sub largest_norm i
    ∷ bit_or sign (sub largest_norm i)
    ∷ []

-- A loop over i that writes `values i` in each of the rounds that are left.
pub each_round : (ℕ → List ℕ) → (rounds i : ℕ) → List ℕ
each_round values zero i = []
each_round values (suc k) i = values i ++ each_round values k (i + 1)

abbrev pub special_vals : List ℕ
special_vals = 0x7f80_0000 ∷ 0xff80_0000 ∷ 0x7fc0_0000 ∷ 0xffc0_0000 ∷ []

abbrev pub within : (min max i : ℕ) → Bool
within min max i = signed_leb min i && signed_leb i max

-- The values of one round around the boundaries and zero; `drawn` is what random_val returns.
pub sample_round : (drawn : ℕ → ℕ) (min max i : ℕ) → List ℕ
sample_round drawn min max i =
    add min i
    ∷ sub max i
    ∷ ((if within min max i then i ∷ [] else [])
        ++ ((if within min max (minus i) then minus i ∷ [] else []) ++ (drawn i ∷ [])))

-- The loop from i to max, on fuel.
pub all_vals : (k i max : ℕ) → Option (List ℕ)
all_vals zero i max = none
all_vals (suc k) i max =
    let rest = all_vals k (add i 1) max in
    if signed_leb i max then elim rest [ none ↦ none | some vals ↦ some (i ∷ vals) ] else some []

-- `given` is the value that the command line has fixed for the argument. The length of the list is
-- the count that is returned.
pub gen_vals : (k : ℕ) (given : Option ℕ) (drawn : ℕ → ℕ) (min max test_range : ℕ) → Option (List ℕ)
unfolding all_vals each_round float_round sample_round
gen_vals k (some v) drawn min max test_range = some (v ∷ [])
gen_vals k none drawn min max test_range =
    if (min == 1) && (max == 1)
    then some (
        each_round float_round (if ltb (2 ^ 23) test_range then 2 ^ 23 else test_range) 0
        ++ special_vals)
    else (if signed_leb (sub max max_test_vals) min
        then all_vals k min max
        else some (each_round (sample_round drawn min max) test_range 0))

-- The functions of a test_rec, by their number of arguments.
pub data Functs : Type 0 where
  no_args : (solution test : Option ℕ) → Functs
  one_arg : (solution test : ℕ → Option ℕ) → Functs
  two_args : (solution test : ℕ → ℕ → Option ℕ) → Functs
  three_args : (solution test : ℕ → ℕ → ℕ → Option ℕ) → Functs

-- The comparison that test_0_arg to test_3_arg make.
pub error_of : (r rt : Option ℕ) → Option ℕ
error_of none rt = none
error_of (some r) none = none
error_of (some r) (some rt) = some (if r == rt then 0 else 1)

-- A loop over test values that stops at the first error.
pub first_error : (ℕ → Option ℕ) → List ℕ → Option ℕ
first_error test [] = some 0
first_error test (v ∷ vals) =
    let rest = first_error test vals in
    elim (test v) [ none ↦ none | some e ↦ if e == 0 then rest else some e ]

pub run_functs : Functs → (vals₁ vals₂ vals₃ : List ℕ) → Option ℕ
unfolding error_of first_error
run_functs (no_args s t) vals₁ vals₂ vals₃ = error_of s t
run_functs (one_arg s t) vals₁ vals₂ vals₃ = first_error (λ a₁. error_of (s a₁) (t a₁)) vals₁
run_functs (two_args s t) vals₁ vals₂ vals₃ =
    first_error (λ a₁. first_error (λ a₂. error_of (s a₁ a₂) (t a₁ a₂)) vals₂) vals₁
run_functs (three_args s t) vals₁ vals₂ vals₃ =
    first_error
      (λ a₁. first_error (λ a₂. first_error (λ a₃. error_of (s a₁ a₂ a₃) (t a₁ a₂ a₃)) vals₃) vals₂)
      vals₁

-- The end of test_function, on the values for each argument. Where a function does not return, the
-- alarm counts one error, if there is a limit.
pub timed : (timeout_limit : ℕ) → Option ℕ → Option ℕ
timed timeout_limit (some errors) = some errors
timed timeout_limit none = if timeout_limit == 0 then none else some 1

-- The rest of a test_rec, and what the run is given: the arguments that the command line has fixed,
-- the values of random_val for each argument, and the two roots of TEST_RANGE by pow.
pub record Setting : Type 0 where
  pub min : ℕ → ℕ
  pub max : ℕ → ℕ
  pub given : ℕ → Option ℕ
  pub drawn : ℕ → ℕ → ℕ
  pub square_root : ℕ
  pub cube_root : ℕ
  pub timeout_limit : ℕ

abbrev pub at_least_one : ℕ → ℕ
at_least_one n = if n == 0 then 1 else n

-- The values for one argument.
abbrev pub arg_vals : (k : ℕ) → Setting → (test_range arg : ℕ) → Option (List ℕ)
arg_vals k o test_range arg =
    gen_vals k (o.given arg) (o.drawn arg) (o.min arg) (o.max arg) (at_least_one test_range)

pub test_function : (k : ℕ) → Setting → Functs → Option ℕ
unfolding gen_vals run_functs timed
test_function k o (no_args s t) = timed o.timeout_limit (run_functs (no_args s t) [] [] [])
test_function k o (one_arg s t) = do
  vals ← arg_vals k o test_range_limit 0
  timed o.timeout_limit (run_functs (one_arg s t) vals [] [])
test_function k o (two_args s t) = do
  vals₁ ← arg_vals k o o.square_root 0
  vals₂ ← arg_vals k o o.square_root 1
  timed o.timeout_limit (run_functs (two_args s t) vals₁ vals₂ [])
test_function k o (three_args s t) = do
  vals₁ ← arg_vals k o o.cube_root 0
  vals₂ ← arg_vals k o o.cube_root 1
  vals₃ ← arg_vals k o o.cube_root 2
  timed o.timeout_limit (run_functs (three_args s t) vals₁ vals₂ vals₃)
