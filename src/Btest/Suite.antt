-- ===== src/Btest/Suite.antt =====
-- FUND-120/1_DataLab/datalab-handout/decl.c: the table of the puzzles, and run_tests over it. The
-- references of the puzzles on floats are parameters.
pub mod Solved
use cohere_technology_skillb.Prelude.{
  ℕ, ◌+◌, Bool, true, false, Option, none, some, List, [], ◌∷◌, if◌then◌else◌,
}
use cohere_technology_skillb.Puzzles.{
  bit_xor_puzzle, tmin, is_tmax, all_odd_bits, negate, is_ascii_digit, conditional,
  is_less_or_equal, logical_neg, how_many_bits, float_twice, float_i2f, float_f2i,
}
use cohere_technology_skillb.Puzzles.Reference.{
  test_bit_xor, test_tmin, test_is_tmax, test_all_odd_bits, test_negate, test_is_ascii_digit,
  test_conditional, test_is_less_or_equal, test_logical_neg, test_how_many_bits,
}
use cohere_technology_skillb.Btest.{
  Setting, Functs, no_args, one_arg, two_args, three_args, test_function,
}

-- A function of C that returns.
abbrev pub returning : (ℕ → ℕ) → ℕ → Option ℕ
returning f a = some (f a)

abbrev pub returning₂ : (ℕ → ℕ → ℕ) → ℕ → ℕ → Option ℕ
returning₂ f a b = some (f a b)

-- The entries of test_set, in their order. The loop of test_howManyBits has its 33 rounds.
abbrev pub test_set : (twice i2f f2i : ℕ → Option ℕ) → List Functs
test_set twice i2f f2i =
    two_args (returning₂ bit_xor_puzzle) (returning₂ test_bit_xor)
    ∷ no_args (some tmin) (some test_tmin)
    ∷ one_arg (returning is_tmax) (returning test_is_tmax)
    ∷ one_arg (returning all_odd_bits) (returning test_all_odd_bits)
    ∷ one_arg (returning negate) (returning test_negate)
    ∷ one_arg (returning is_ascii_digit) (returning test_is_ascii_digit)
    ∷ three_args (λ a b c. some (conditional a b c)) (λ a b c. some (test_conditional a b c))
    ∷ two_args (returning₂ is_less_or_equal) (returning₂ test_is_less_or_equal)
    ∷ one_arg (returning logical_neg) (returning test_logical_neg)
    ∷ one_arg (returning how_many_bits) (test_how_many_bits 33)
    ∷ one_arg (returning float_twice) twice
    ∷ one_arg (returning float_i2f) i2f
    ∷ one_arg (returning float_f2i) f2i
    ∷ []

-- The errors that run_tests counts over the entries from the i-th on. `chosen` tells whether
-- test_fname is NULL or the name of an entry, and `setting` what its test is given.
pub run_tests : (k : ℕ) (setting : ℕ → Setting) (chosen : ℕ → Bool) (i : ℕ) → List Functs → Option ℕ
run_tests k setting chosen i [] = some 0
run_tests k setting chosen i (t ∷ ts) =
    let rest = run_tests k setting chosen (i + 1) ts in
    if chosen i
    then elim (test_function k (setting i) t) [
      | none ↦ none
      | some terrors ↦ elim rest [ none ↦ none | some errors ↦ some (terrors + errors) ]
    ]
    else rest
