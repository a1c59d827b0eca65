-- ===== src/Puzzles/Logic.antt =====
-- The puzzles that combine two words: bitXor and conditional.
use cohere_technology_skillb.Prelude.{ℕ, ◌^◌, ◌<◌, ◌≡◌, ◌==◌, Bool-cases, inl, inr}
use cohere_technology_skillb.Puzzles.{bit_xor_puzzle, conditional}
use cohere_technology_skillb.Puzzles.Bits.{
  gates-bit_xor, ones-bit_and, zero-bit_and, bit_or-zero, zero-bit_or,
}
use cohere_technology_skillb.Puzzles.Reference.{test_bit_xor, test_conditional}

-- bitXor is the exclusive or of its arguments.
pub bit_xor_puzzle-test :
    (x y : ℕ) → x < 2 ^ 32 → y < 2 ^ 32 → bit_xor_puzzle x y ≡ test_bit_xor x y
unfolding bit_xor_puzzle test_bit_xor
bit_xor_puzzle-test x y p q = gates-bit_xor 32 x y p q

-- conditional selects as the conditional operator of C does.
pub conditional-test :
    (x y z : ℕ) → x < 2 ^ 32 → y < 2 ^ 32 → z < 2 ^ 32 → conditional x y z ≡ test_conditional x y z
unfolding conditional test_conditional
conditional-test x y z p q r = elim (Bool-cases (x == 0)) [
  | inl t ↦ rw (t, zero-bit_and y, ones-bit_and 32 z r) (zero-bit_or z)
  | inr f ↦ rw (f, zero-bit_and z, ones-bit_and 32 y q) (bit_or-zero 32 y q)
]
