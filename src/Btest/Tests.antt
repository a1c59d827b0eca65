-- ===== src/Btest/Tests.antt =====
-- The test values at small ranges, two functions that differ, and the table with one puzzle chosen.
use cohere_technology_skillb.Prelude.{
  Bool, ℕ, ◌≡◌, refl, none, some, List, [], ◌∷◌, inl, arith, ◌==◌,
}
use cohere_technology_skillb.Btest.{Setting, gen_vals}
use cohere_technology_skillb.Btest.Suite.{test_set, run_tests}
use cohere_technology_skillb.Btest.Suite.Solved.{IsFull, run_tests-solved}
use cohere_technology_skillb.Btest.Bounds.{FitsArray, gen_vals-FitsArray}

gen_vals-FitsArray_example : FitsArray (gen_vals 6500001 none (λ i. i) 0 9 500000)
gen_vals-FitsArray_example =
    gen_vals-FitsArray 6500001 none (λ i. i) 0 9 500000 (omega arith) (omega arith) (omega arith)
      (omega arith) (inl (omega arith, omega arith)) (omega arith) (omega arith)

abbrev vals : List ℕ
vals = 2 ∷ 3 ∷ []

four_ints : gen_vals 12 none (λ i. i) 4 7 5 ≡ some (4 ∷ 5 ∷ 6 ∷ 7 ∷ [])
unfolding gen_vals
four_ints = refl

-- Every int, with 0 drawn at random and nothing fixed.
abbrev all_ints : ℕ → Setting
all_ints i = record {
  min = λ arg. 0x8000_0000;
  max = λ arg. 0x7fff_ffff;
  given = λ arg. none;
  drawn = λ arg j. 0;
  square_root = 707;
  cube_root = 79;
  timeout_limit = 10;
}

all_ints-IsFull : (i : ℕ) → IsFull (all_ints i)
all_ints-IsFull i = record {
  least = λ arg. refl;
  greatest = λ arg. refl;
  drawn_word = λ arg j. omega arith;
  given_word = λ arg v e. absurd (cc (e));
  square_small = omega arith;
  cube_small = omega arith;
}

-- -f howManyBits
abbrev how_many_bits_only : ℕ → Bool
how_many_bits_only i = i == 9

run_tests-solved_example :
    run_tests 9 all_ints how_many_bits_only 0 (test_set (λ u. none) (λ u. none) (λ u. none))
    ≡ some 0
run_tests-solved_example =
    run_tests-solved 9 all_ints how_many_bits_only (λ u. none) (λ u. none) (λ u. none)
      (λ i t. all_ints-IsFull i) refl refl refl refl
