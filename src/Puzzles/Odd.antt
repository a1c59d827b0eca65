-- ===== src/Puzzles/Odd.antt =====
-- allOddBits against the loop over the odd bits.
use Prim.Native.Nat.{bit_and}
use native.Mathlib.Nat.{pow-suc, one-le-pow, pow-le-pow_right, div-div-eq-div-mul}
use cohere_technology_skillb.Prelude.{
  ℕ, zero, suc, ◌+◌, ◌*◌, ◌/◌, ◌%◌, ◌^◌, ◌<◌, ◌≤◌, ◌≡◌, refl, ap, Bool, true, ◌&&◌, arith, ◌==◌,
  if◌then◌else◌,
}
use cohere_technology_skillb.Puzzles.{all_odd_bits, shl}
use cohere_technology_skillb.Puzzles.Bits.{bit_xor-equal, bit_and-fits, bit_and_step, bit_and-zero}
use cohere_technology_skillb.Puzzles.Reference.{odd_loop, test_all_odd_bits}

-- k pairs of binary digits, each 10.
odd_mask : ℕ → ℕ
odd_mask zero = 0
odd_mask (suc k) = odd_mask k * 4 + 2

-- Of k pairs, the higher digit of each is set.
odd_set : ℕ → ℕ → Bool
odd_set zero x = true
odd_set (suc k) x = (x / 2 % 2 == 1) && odd_set k (x / 4)

bit_and-odd_mask : (k n x : ℕ) → x < 2 ^ n → (bit_and x (odd_mask k) == odd_mask k) ≡ odd_set k x
unfolding odd_mask odd_set
bit_and-odd_mask zero n x p = rw (bit_and-zero n x p) refl
bit_and-odd_mask (suc k) n x p =
    let ih = bit_and-odd_mask k n (x / 4) (omega (arith, p)) in
    let m = odd_mask k in
    let half : (m * 4 + 2) / 2 ≡ m * 2 + 1 = omega arith in
    let quarter : (m * 2 + 1) / 2 ≡ m = omega arith in
    let quarter' : x / 2 / 2 ≡ x / 4 = omega arith in
    rw (bit_and_step x (m * 4 + 2), half, bit_and_step (x / 2) (m * 2 + 1), quarter, quarter')
      (ground (arith, ih))

shifted : (i x : ℕ) → x / 2 / 2 ^ i ≡ x / 2 ^ suc i
shifted i x = rw (div-div-eq-div-mul x 2 (2 ^ i)) (ap (λ p. x / p) (omega (arith, pow-suc 2 i)))

-- The test of one bit.
bit_and-power : (i x n : ℕ) → x < 2 ^ n → (bit_and x (2 ^ i) == 0) ≡ (x / 2 ^ i % 2 == 0)
bit_and-power zero x n p = ground (arith, bit_and_step x 1, bit_and-zero n (x / 2) (omega arith))
bit_and-power (suc i) x n p =
    let half : 2 ^ suc i / 2 ≡ 2 ^ i = omega (arith, pow-suc 2 i) in
    let even : 2 ^ suc i % 2 ≡ 0 = omega (arith, pow-suc 2 i) in
    rw (bit_and_step x (2 ^ suc i), half)
      (ground (arith, even, bit_and-power i (x / 2) n (omega arith), shifted i x))

odd_loop-odd_set :
    (k j x : ℕ)
    → x < 2 ^ 32
    → j + 2 * k ≤ 32
    → odd_loop k (suc j) x ≡ (if odd_set k (x / 2 ^ j) then 1 else 0)
unfolding odd_loop odd_set
odd_loop-odd_set zero j x p le = refl
odd_loop-odd_set (suc k) j x p le =
    let ih = odd_loop-odd_set k (suc (suc j)) x p (omega arith) in
    let small : 2 ^ suc j < 2 ^ 32 = omega (
      arith,
      pow-suc 2 (suc j),
      pow-le-pow_right {n = 2} (omega arith) {i = suc (suc j)} {j = 32} (omega arith),
      one-le-pow (suc j) 2,
    ) in
    let bit : shl 1 (suc j) ≡ 2 ^ suc j = omega arith in
    let once : x / 2 ^ j / 2 ≡ x / 2 ^ suc j =
      rw (div-div-eq-div-mul x (2 ^ j) 2) (ap (λ p. x / p) (omega (arith, pow-suc 2 j))) in
    let further : x / 2 ^ j / 4 ≡ x / 2 ^ suc (suc j) =
      rw (div-div-eq-div-mul x (2 ^ j) 4)
        (ap (λ p. x / p) (omega (arith, pow-suc 2 j, pow-suc 2 (suc j)))) in
    let next : suc j + 2 ≡ suc (suc (suc j)) = omega arith in
    rw (bit, bit_and-power (suc j) x 32 p, next, ih, once, further) (ground arith)

-- allOddBits tells whether all 16 odd bits of its argument are set, as the loop of tests.c does.
pub all_odd_bits-test : (x : ℕ) → x < 2 ^ 32 → all_odd_bits x ≡ test_all_odd_bits x
unfolding all_odd_bits test_all_odd_bits odd_mask
all_odd_bits-test x p =
    let one : x / 2 ^ 0 ≡ x = omega arith in
    let both = bit_and-odd_mask 16 32 x p in
    let apart =
      bit_xor-equal 32 (bit_and x (odd_mask 16)) (odd_mask 16) (bit_and-fits 32 x (odd_mask 16) p)
        (omega arith) in
    rw (odd_loop-odd_set 16 0 x p (omega arith), one) (ground (arith, both, apart))
