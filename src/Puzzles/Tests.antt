-- ===== src/Puzzles/Tests.antt =====
-- The puzzles at concrete words, and runs of them.
use cohere_technology_skillb.Prelude.{◌+◌, ◌-◌, ◌^◌, ◌≡◌, refl, ◌&&◌, ◌==◌, some, arith, leb, ltb}
use cohere_technology_skillb.Puzzles.{add, how_many_bits, is_less_or_equal, tmin}
use cohere_technology_skillb.Puzzles.Reference.{
  test_how_many_bits, test_is_less_or_equal, test_tmin,
}
use cohere_technology_skillb.Puzzles.Width.{how_many_bits-test}
use cohere_technology_skillb.Puzzles.Compare.{is_less_or_equal-test}

how_many_bits-test_example : test_how_many_bits 33 298 ≡ some (how_many_bits 298)
how_many_bits-test_example = how_many_bits-test 33 298 (omega arith) (omega arith)

is_less_or_equal-test_example :
    (is_less_or_equal 0x8000_0000 1 == test_is_less_or_equal 0x8000_0000 1) ≡ (
      leb (add 0x8000_0000 (2 ^ 31)) (add 1 (2 ^ 31) + 2 ^ 31)
      && ltb (add 1 (2 ^ 31)) (add 0x8000_0000 (2 ^ 31) + 2 ^ 31))
is_less_or_equal-test_example = is_less_or_equal-test 0x8000_0000 1 (omega arith) (omega arith)

-- The minimum is not found to be at most 1.
minimum_at_most_one : is_less_or_equal 0x8000_0000 1 ≡ 0
unfolding is_less_or_equal
minimum_at_most_one = refl

minus_five : how_many_bits (2 ^ 32 - 5) ≡ 4
unfolding how_many_bits
minus_five = refl

tmin_test : tmin ≡ test_tmin
unfolding tmin test_tmin
tmin_test = refl
