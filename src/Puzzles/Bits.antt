-- ===== src/Puzzles/Bits.antt =====
-- Laws of the bit operations on words of n bits, by recursion on the binary digits.
use Prim.Native.Nat.{
  min, max, digits, bitwise, differ, bit_and, bit_or, bit_xor, bit_and-bitwise, bit_or-bitwise,
  bit_xor-bitwise,
}
use native.Mathlib.Nat.{pow-suc, one-le-pow}
use cohere_technology_skillb.Prelude.{
  ℕ, zero, suc, ◌+◌, ◌-◌, ◌*◌, ◌/◌, ◌%◌, ◌^◌, ◌≤◌, ◌<◌, ◌≡◌, refl, sym, ap, ◌∙◌, ◌==◌, arith,
}

-- The operation that `last` and `rest` define on the digits, for any count of digits that is enough.
module _ (rest : ℕ → ℕ) (last : ℕ → ℕ → ℕ) where
  digits-zero : (k y : ℕ) → digits rest last k 0 y ≡ rest y
  digits-zero zero y = refl
  digits-zero (suc k) y = refl

  digits-agree : (x k l y : ℕ) → x ≤ k → x ≤ l → digits rest last k x y ≡ digits rest last l x y
  digits-agree (suc x) (suc k) (suc l) y lk ll =
      let further = digits-agree (suc x / 2) k l (y / 2) (omega (arith, lk)) (omega (arith, ll)) in
      ap (λ h. h * 2 + last (suc x % 2) (y % 2)) further
  digits-agree (suc x) zero l y lk ll = absurd (omega arith)
  digits-agree (suc x) (suc k) zero y lk ll = absurd (omega arith)
  digits-agree zero k l y lk ll = digits-zero k y ∙ sym (digits-zero l y)

  lowest :
      (x y : ℕ)
      → bitwise rest last (suc x) y
        ≡ last (suc x % 2) (y % 2) + 2 * bitwise rest last (suc x / 2) (y / 2)
  lowest x y =
      let h = suc x / 2 in omega (arith, digits-agree h x h (y / 2) (omega arith) (omega arith))

pub bit_and_step : (x y : ℕ) → bit_and x y ≡ min (x % 2) (y % 2) + 2 * bit_and (x / 2) (y / 2)
bit_and_step (suc x) y = simp bit_and-bitwise (lowest (λ d. 0) min x y)
bit_and_step zero y = simp bit_and-bitwise (omega arith)

pub bit_or_step : (x y : ℕ) → bit_or x y ≡ max (x % 2) (y % 2) + 2 * bit_or (x / 2) (y / 2)
bit_or_step (suc x) y = simp bit_or-bitwise (lowest (λ d. d) max x y)
bit_or_step zero y = simp bit_or-bitwise (omega arith)

differ-digits : (a b : ℕ) → a < 2 → b < 2 → differ a b ≡ (a + b) % 2
differ-digits zero zero p q = refl
differ-digits zero (suc zero) p q = refl
differ-digits (suc zero) zero p q = refl
differ-digits (suc zero) (suc zero) p q = refl
differ-digits zero (suc (suc b)) p q = absurd (omega arith)
differ-digits (suc zero) (suc (suc b)) p q = absurd (omega arith)
differ-digits (suc (suc a)) b p q = absurd (omega arith)

pub bit_xor_step : (x y : ℕ) → bit_xor x y ≡ (x % 2 + y % 2) % 2 + 2 * bit_xor (x / 2) (y / 2)
bit_xor_step (suc x) y =
    let digit = differ-digits (suc x % 2) (y % 2) (omega arith) (omega arith) in
    simp bit_xor-bitwise (omega (arith, lowest (λ d. d) differ x y, digit))
bit_xor_step zero y = simp bit_xor-bitwise (omega arith)

-- The complement of a word of n bits.
abbrev pub complement : ℕ → ℕ → ℕ
complement n a = 2 ^ n - 1 - a

module _ (n a : ℕ) (fits : a < 2 ^ suc n) where
  half : a / 2 < 2 ^ n
  half = omega (arith, pow-suc 2 n)

  complement-half : complement (suc n) a / 2 ≡ complement n (a / 2)
  complement-half = omega (arith, pow-suc 2 n)

  complement-digit : complement (suc n) a % 2 ≡ 1 - a % 2
  complement-digit = omega (arith, pow-suc 2 n)

-- The result of an operation on words is a word.
pub bit_and-fits : (n a b : ℕ) → a < 2 ^ n → bit_and a b < 2 ^ n
bit_and-fits zero a b p = let z : a ≡ 0 = omega arith in rw z (simp bit_and-bitwise (omega arith))
bit_and-fits (suc n) a b p =
    omega (arith, bit_and_step a b, bit_and-fits n (a / 2) (b / 2) (half n a p), pow-suc 2 n)

pub zero-bit_and : (b : ℕ) → bit_and 0 b ≡ 0
zero-bit_and b = bit_and-bitwise 0 b

pub zero-bit_or : (b : ℕ) → bit_or 0 b ≡ b
zero-bit_or b = bit_or-bitwise 0 b

pub zero-bit_xor : (b : ℕ) → bit_xor 0 b ≡ b
zero-bit_xor b = bit_xor-bitwise 0 b

pub bit_and-zero : (n a : ℕ) → a < 2 ^ n → bit_and a 0 ≡ 0
bit_and-zero zero a p = let z : a ≡ 0 = omega arith in rw z (zero-bit_and 0)
bit_and-zero (suc n) a p = omega (arith, bit_and_step a 0, bit_and-zero n (a / 2) (half n a p))

pub bit_or-zero : (n a : ℕ) → a < 2 ^ n → bit_or a 0 ≡ a
bit_or-zero zero a p = let z : a ≡ 0 = omega arith in rw z (zero-bit_or 0)
bit_or-zero (suc n) a p = omega (arith, bit_or_step a 0, bit_or-zero n (a / 2) (half n a p))

module _ (n : ℕ) where
  ones-half : (2 ^ suc n - 1) / 2 ≡ 2 ^ n - 1
  ones-half = omega (arith, pow-suc 2 n)

  ones-digit : (2 ^ suc n - 1) % 2 ≡ 1
  ones-digit = omega (arith, pow-suc 2 n, one-le-pow n 2)

-- A word of ones is the unit of `&`, and `^` with it is the complement.
pub ones-bit_and : (n a : ℕ) → a < 2 ^ n → bit_and (2 ^ n - 1) a ≡ a
ones-bit_and zero a p = omega (arith, zero-bit_and a)
ones-bit_and (suc n) a p =
    rw (bit_and_step (2 ^ suc n - 1) a, ones-half n, ones-bit_and n (a / 2) (half n a p))
      (omega (arith, ones-digit n))

pub bit_xor-zero : (n a : ℕ) → a < 2 ^ n → bit_xor a 0 ≡ a
bit_xor-zero zero a p = let z : a ≡ 0 = omega arith in rw z (zero-bit_xor 0)
bit_xor-zero (suc n) a p = omega (arith, bit_xor_step a 0, bit_xor-zero n (a / 2) (half n a p))

pub bit_xor-ones : (n a : ℕ) → a < 2 ^ n → bit_xor a (2 ^ n - 1) ≡ complement n a
bit_xor-ones zero a p = let z : a ≡ 0 = omega arith in rw z (zero-bit_xor 0)
bit_xor-ones (suc n) a p =
    rw (bit_xor_step a (2 ^ suc n - 1), ones-half n, bit_xor-ones n (a / 2) (half n a p))
      (omega (arith, ones-digit n, p, pow-suc 2 n))

bit_and-half : (a b : ℕ) → bit_and a b / 2 ≡ bit_and (a / 2) (b / 2)
bit_and-half a b = omega (arith, bit_and_step a b)

bit_and-digit : (a b : ℕ) → bit_and a b % 2 ≡ min (a % 2) (b % 2)
bit_and-digit a b = omega (arith, bit_and_step a b)

-- Two words differ where not both and not none of them is set.
pub gates-bit_xor :
    (n a b : ℕ)
    → a < 2 ^ n
    → b < 2 ^ n
    → bit_and
        (complement n (bit_and (complement n a) (complement n b)))
        (complement n (bit_and a b))
      ≡ bit_xor a b
gates-bit_xor zero a b p q =
    let z : a ≡ 0 = omega arith in let w : b ≡ 0 = omega arith in rw (z, w) refl
gates-bit_xor (suc n) a b p q =
    let ih = gates-bit_xor n (a / 2) (b / 2) (half n a p) (half n b q) in
    let ca = complement (suc n) a in
    let cb = complement (suc n) b in
    let fits = bit_and-fits (suc n) ca cb (omega (arith, one-le-pow (suc n) 2)) in
    let fits' = bit_and-fits (suc n) a b p in
    rw
      (
        bit_and_step (complement (suc n) (bit_and ca cb)) (complement (suc n) (bit_and a b)),
        complement-half n (bit_and ca cb) fits,
        complement-half n (bit_and a b) fits',
        bit_and-half ca cb,
        bit_and-half a b,
        complement-half n a p,
        complement-half n b q,
        ih,
      )
      (omega (
        arith,
        bit_and-digit ca cb,
        bit_and-digit a b,
        complement-digit n a p,
        complement-digit n b q,
        complement-digit n (bit_and ca cb) fits,
        complement-digit n (bit_and a b) fits',
        bit_xor_step a b,
      ))

-- The words 0 and 2 ^ 32 - 1, the two results of a shift by 31, in `&` and `|`.
pub ones-bit_or : (n a : ℕ) → a < 2 ^ n → bit_or (2 ^ n - 1) a ≡ 2 ^ n - 1
ones-bit_or zero a p = omega (arith, zero-bit_or a)
ones-bit_or (suc n) a p =
    rw (bit_or_step (2 ^ suc n - 1) a, ones-half n, ones-bit_or n (a / 2) (half n a p))
      (omega (arith, ones-digit n, pow-suc 2 n, one-le-pow n 2))

pub bit_xor-equal : (n x y : ℕ) → x < 2 ^ n → y < 2 ^ n → (bit_xor x y == 0) ≡ (x == y)
bit_xor-equal zero x y p q =
    let z : x ≡ 0 = omega arith in let w : y ≡ 0 = omega arith in rw (z, w) refl
bit_xor-equal (suc n) x y p q = ground (
  arith,
  bit_xor_step x y,
  bit_xor-equal n (x / 2) (y / 2) (omega (arith, pow-suc 2 n)) (omega (arith, pow-suc 2 n)),
)
