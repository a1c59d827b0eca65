-- ===== src/Puzzles/Compare.antt =====
-- The puzzles whose answer is a comparison or a negation.
use cohere_technology_skillb.Prelude.{
  ℕ, ◌+◌, ◌-◌, ◌^◌, ◌<◌, ◌≤◌, ◌≡◌, refl, false, ◌&&◌, arith, ◌==◌, Bool-cases, inl, inr, ltb, leb,
}
use cohere_technology_skillb.Puzzles.{
  tmin, add, sar, bit_not, is_tmax, negate, is_ascii_digit, is_less_or_equal, logical_neg,
}
use cohere_technology_skillb.Puzzles.Bits.{ones-bit_or, bit_or-zero}
use cohere_technology_skillb.Puzzles.Reference.{
  test_tmin, test_is_tmax, test_negate, test_is_ascii_digit, test_is_less_or_equal,
  test_logical_neg,
}

negate-test : (x : ℕ) → x < 2 ^ 32 → negate x ≡ test_negate x
unfolding negate test_negate
negate-test x p = omega arith

module _ (x : ℕ) (p : x < 2 ^ 32) where
  -- The sign of a word, repeated.
  sar-positive : x < 2 ^ 31 → sar x 31 ≡ 0
  sar-positive low = ground arith

  sar-negative : 2 ^ 31 ≤ x → sar x 31 ≡ 2 ^ 32 - 1
  sar-negative high = ground arith

  sar-fits : sar x 31 < 2 ^ 32
  sar-fits = ground arith

logical_neg-test : (x : ℕ) → x < 2 ^ 32 → logical_neg x ≡ test_logical_neg x
unfolding logical_neg test_logical_neg
logical_neg-test x p =
    let y = add (bit_not x) 1 in
    let q : y < 2 ^ 32 = omega arith in
    elim (Bool-cases (x == 0)) [
      | inl t ↦ let z : x ≡ 0 = ground arith in rw z refl
      | inr f ↦ elim (Bool-cases (ltb x (2 ^ 31))) [
        | inl low ↦ rw (sar-positive x p (ground arith), sar-negative y q (ground arith), f) refl
        | inr high ↦
            rw (sar-negative x p (ground arith), ones-bit_or 32 (sar y 31) (sar-fits y q), f) refl
      ]
    ]

is_tmax-test : (x : ℕ) → x < 2 ^ 32 → is_tmax x ≡ test_is_tmax x
unfolding is_tmax test_is_tmax
is_tmax-test x p = elim (Bool-cases (x == 2 ^ 32 - 1)) [
  | inl t ↦ let z : x ≡ 2 ^ 32 - 1 = ground arith in rw z refl
  | inr f ↦
      let more : (add x 1 == 0) ≡ false = ground arith in
      let v = bit_not (add x (add x 1)) in
      let q : v < 2 ^ 32 = omega arith in rw (more, bit_or-zero 32 v q) (ground (arith, f))
]

is_ascii_digit-test : (x : ℕ) → x < 2 ^ 32 → is_ascii_digit x ≡ test_is_ascii_digit x
unfolding is_ascii_digit test_is_ascii_digit
is_ascii_digit-test x p =
    let up = add (bit_not (2 ^ 31 + 0x39)) x in
    let low = add (add (bit_not 0x30) 1) x in
    let p' : up < 2 ^ 32 = omega arith in
    let q' : low < 2 ^ 32 = omega arith in
    elim (Bool-cases (ltb up (2 ^ 31))) [
      | inl a ↦ elim (Bool-cases (ltb low (2 ^ 31))) [
        | inl b ↦
            rw (sar-positive up p' (ground arith), sar-positive low q' (ground arith))
              (ground arith)
        | inr b ↦
            rw (sar-positive up p' (ground arith), sar-negative low q' (ground arith))
              (ground arith)
      ]
      | inr a ↦ elim (Bool-cases (ltb low (2 ^ 31))) [
        | inl b ↦
            rw (sar-negative up p' (ground arith), sar-positive low q' (ground arith))
              (ground arith)
        | inr b ↦
            rw (sar-negative up p' (ground arith), sar-negative low q' (ground arith))
              (ground arith)
      ]
    ]

-- isTmax, negate, isAsciiDigit and logicalNeg compute what tests.c says, on every word.
pub one_word-test :
    (x : ℕ)
    → x < 2 ^ 32
    → (is_tmax x ≡ test_is_tmax x)
      × ((negate x ≡ test_negate x)
          × ((is_ascii_digit x ≡ test_is_ascii_digit x) × (logical_neg x ≡ test_logical_neg x)))
one_word-test x p =
    (is_tmax-test x p, (negate-test x p, (is_ascii_digit-test x p, logical_neg-test x p)))

-- isLessOrEqual agrees with <= of tests.c exactly where the difference y - x is an int, that is, in
-- the order of ints, x lies at most 2 ^ 31 above y and y less than 2 ^ 31 above x.
pub is_less_or_equal-test :
    (x y : ℕ)
    → x < 2 ^ 32
    → y < 2 ^ 32
    → (is_less_or_equal x y == test_is_less_or_equal x y) ≡ (
        leb (add x (2 ^ 31)) (add y (2 ^ 31) + 2 ^ 31)
        && ltb (add y (2 ^ 31)) (add x (2 ^ 31) + 2 ^ 31))
unfolding is_less_or_equal test_is_less_or_equal
is_less_or_equal-test x y p q =
    let d = add y (add (bit_not x) 1) in
    let r : d < 2 ^ 32 = omega arith in
    elim (Bool-cases (ltb d (2 ^ 31))) [
      | inl a ↦ rw (sar-positive d r (ground arith)) (ground arith)
      | inr b ↦ rw (sar-negative d r (ground arith)) (ground arith)
    ]

pub tmin-test : tmin ≡ test_tmin
unfolding tmin test_tmin
tmin-test = refl
