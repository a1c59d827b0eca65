-- ===== src/Puzzles.antt =====
-- FUND-120/1_DataLab/datalab-handout/bits.c: the puzzles, with the operators of C on 32-bit words.
-- An int is its bit pattern, a number below 2 ^ 32; where a sum leaves the range it wraps around.
-- Reference is the code of tests.c, which says what each puzzle is to compute.
pub mod Bits
pub mod Reference
pub mod Logic
pub mod Compare
pub mod Odd
pub mod Width
mod Tests
use Prim.Native.Nat.{bit_and, bit_or, bit_xor}
use cohere_technology_skillb.Prelude.{ℕ, ◌+◌, ◌-◌, ◌*◌, ◌/◌, ◌%◌, ◌^◌, ◌==◌, ltb, if◌then◌else◌}

-- ~, + and << on words, and ! as a number.
abbrev pub bit_not : ℕ → ℕ
bit_not x = 2 ^ 32 - 1 - x

abbrev pub add : ℕ → ℕ → ℕ
add x y = (x + y) % 2 ^ 32

abbrev pub shl : ℕ → ℕ → ℕ
shl x k = x * 2 ^ k % 2 ^ 32

abbrev pub logical_not : ℕ → ℕ
logical_not x = if x == 0 then 1 else 0

-- >> of an int, which repeats the sign.
abbrev pub sar : ℕ → ℕ → ℕ
sar x k = if ltb x (2 ^ 31) then x / 2 ^ k else x / 2 ^ k + (2 ^ 32 - 2 ^ (32 - k))

pub bit_xor_puzzle : ℕ → ℕ → ℕ
bit_xor_puzzle x y = bit_and (bit_not (bit_and (bit_not x) (bit_not y))) (bit_not (bit_and x y))

pub tmin : ℕ
tmin = shl 1 31

pub is_tmax : ℕ → ℕ
is_tmax x =
    let plus_one = add x 1 in
    let x₁ = add x plus_one in
    let is_minus_one = logical_not plus_one in
    let x₂ = bit_not x₁ in let x₃ = bit_or x₂ is_minus_one in logical_not x₃

pub all_odd_bits : ℕ → ℕ
all_odd_bits x =
    let half = add (shl 0xAA 8) 0xAA in
    let maybe_cheating = add (shl half 16) half in
    logical_not (bit_xor (bit_and x maybe_cheating) maybe_cheating)

pub negate : ℕ → ℕ
negate x = add (bit_not x) 1

pub is_ascii_digit : ℕ → ℕ
is_ascii_digit x =
    let sign = shl 1 31 in
    let upper_bound = bit_not (bit_or sign 0x39) in
    let lower_bound = bit_not 0x30 in
    let above = bit_and sign (sar (add upper_bound x) 31) in
    let below = bit_and sign (sar (add (add lower_bound 1) x) 31) in
    logical_not (bit_or above below)

pub conditional : (x y z : ℕ) → ℕ
conditional x y z =
    let mask = sar (shl (logical_not x) 31) 31 in bit_or (bit_and (bit_not mask) y) (bit_and mask z)

pub is_less_or_equal : ℕ → ℕ → ℕ
is_less_or_equal x y = logical_not (bit_and (sar (add y (add (bit_not x) 1)) 31) 1)

pub logical_neg : ℕ → ℕ
logical_neg x = add (bit_or (sar x 31) (sar (add (bit_not x) 1) 31)) 1

-- !! of a number that has been shifted right.
abbrev pub any_above : ℕ → ℕ → ℕ
any_above x k = logical_not (logical_not (sar x k))

pub how_many_bits : ℕ → ℕ
how_many_bits x =
    let a = bit_xor x (sar x 31) in
    let n₁ = shl (any_above a 16) 4 in
    let n₂ = add n₁ (shl (any_above a (n₁ + 8)) 3) in
    let n₃ = add n₂ (shl (any_above a (n₂ + 4)) 2) in
    let n₄ = add n₃ (shl (any_above a (n₃ + 2)) 1) in
    let n₅ = add n₄ (any_above a (n₄ + 1)) in
    add n₅ (add (add (logical_not (logical_not n₅)) (logical_not (bit_xor 1 a))) 1)

-- float_twice, float_i2f and float_f2i, which are not solved.
pub float_twice : ℕ → ℕ
float_twice uf = 2

pub float_i2f : ℕ → ℕ
float_i2f x = 2

pub float_f2i : ℕ → ℕ
float_f2i uf = 2
