-- ===== src/Puzzles/Reference.antt =====
-- FUND-120/1_DataLab/datalab-handout/tests.c: what the puzzles on ints are to compute.
use Prim.Native.Nat.{bit_and, bit_xor}
use cohere_technology_skillb.Prelude.{
  ℕ, zero, suc, ◌+◌, ◌-◌, ◌/◌, ◌%◌, ◌^◌, Bool, ◌&&◌, Option, none, some, ◌==◌, ltb, leb,
  if◌then◌else◌,
}
use cohere_technology_skillb.Puzzles.{add, shl}

abbrev int_of : Bool → ℕ
int_of t = if t then 1 else 0

-- <= of ints.
abbrev pub signed_leb : ℕ → ℕ → Bool
signed_leb x y = leb (add x (2 ^ 31)) (add y (2 ^ 31))

abbrev pub minus : ℕ → ℕ
minus x = (2 ^ 32 - x) % 2 ^ 32

unfoldable pub test_bit_xor : ℕ → ℕ → ℕ
test_bit_xor x y = bit_xor x y

unfoldable pub test_tmin : ℕ
test_tmin = 0x8000_0000

unfoldable pub test_is_tmax : ℕ → ℕ
test_is_tmax x = int_of (x == 0x7FFF_FFFF)

-- The loop over the rest of the odd bits, from bit i on.
unfoldable pub odd_loop : (rounds i x : ℕ) → ℕ
odd_loop zero i x = 1
odd_loop (suc k) i x =
    let rest = odd_loop k (i + 2) x in if bit_and x (shl 1 i) == 0 then 0 else rest

unfoldable pub test_all_odd_bits : ℕ → ℕ
unfolding odd_loop
test_all_odd_bits x = odd_loop 16 1 x

unfoldable pub test_negate : ℕ → ℕ
test_negate x = minus x

unfoldable pub test_is_ascii_digit : ℕ → ℕ
test_is_ascii_digit x = int_of (signed_leb 0x30 x && signed_leb x 0x39)

unfoldable pub test_conditional : (x y z : ℕ) → ℕ
test_conditional x y z = if x == 0 then z else y

unfoldable pub test_is_less_or_equal : ℕ → ℕ → ℕ
test_is_less_or_equal x y = int_of (signed_leb x y)

unfoldable pub test_logical_neg : ℕ → ℕ
test_logical_neg x = int_of (x == 0)

-- The loop that shifts `a` out, with its count; `none` where the fuel does not last.
unfoldable pub count_loop : (k a cnt : ℕ) → Option ℕ
count_loop zero a cnt = none
count_loop (suc k) a cnt =
    let rest = count_loop k (a / 2) ((cnt + 1) % 2 ^ 32) in if a == 0 then some cnt else rest

unfoldable pub test_how_many_bits : (k x : ℕ) → Option ℕ
unfolding count_loop
test_how_many_bits k x =
    elim (count_loop k (if ltb x (2 ^ 31) then x else add (minus x) (2 ^ 32 - 1)) 0) [
      | none ↦ none
      | some cnt ↦ some (add cnt 1)
    ]
