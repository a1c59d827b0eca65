-- ===== src/Puzzles/Width.antt =====
-- howManyBits against the loop that counts the bits.
use Prim.Native.Nat.{bit_xor}
use native.Mathlib.Nat.{pow-suc, one-le-pow, pow-le-pow_right, le-div_iff_mul-le, div-eq_of_lt}
use mathlib.Core.Path.{subst}
use cohere_technology_skillb.Prelude.{
  ℕ, zero, suc, ◌+◌, ◌-◌, ◌*◌, ◌/◌, ◌%◌, ◌^◌, ◌<◌, ◌≤◌, ◌≡◌, refl, sym, ap, ◌∙◌, true, false, none,
  some, Option, arith, ◌==◌, Bool-cases, ◌⊎◌, inl, inr, ltb, if◌then◌else◌,
}
use cohere_technology_skillb.Puzzles.{how_many_bits, add, shl, sar, any_above, logical_not}
use cohere_technology_skillb.Puzzles.Bits.{bit_xor-equal, bit_xor-zero, bit_xor-ones, complement}
use cohere_technology_skillb.Puzzles.Reference.{minus, count_loop, test_how_many_bits}

-- The highest bit of `a` is one of the w bits from bit n on, or `a` has no such bit and n is 0.
record Within (n w a : ℕ) : Type 0 where
  below : a < 2 ^ (n + w)
  above : (n ≡ 0) ⊎ (2 ^ n ≤ a)

-- Whether a bit of `a` is set from bit m on.
abbrev reaches : (a m : ℕ) → ℕ
reaches a m = if ltb a (2 ^ m) then 0 else 1

any_above-reaches : (a m : ℕ) → a < 2 ^ 31 → any_above a m ≡ reaches a m
any_above-reaches a m p =
    let low : ltb a (2 ^ 31) ≡ true = ground arith in
    elim (Bool-cases (ltb a (2 ^ m))) [
      | inl t ↦ let z : a / 2 ^ m ≡ 0 = div-eq_of_lt (ground arith) in rw (low, z, t) refl
      | inr f ↦
          let high : 1 * 2 ^ m ≤ a = ground (arith, f) in
          let one : 1 ≤ a / 2 ^ m =
            (le-div_iff_mul-le {x = 1} {y = a} (omega (arith, one-le-pow m 2))).1 high in
          let some_bit : (a / 2 ^ m == 0) ≡ false = ground arith in rw (low, some_bit, f) refl
    ]

-- One step of the search: w bits more where one of the bits above them is set.
abbrev narrow : (w n a : ℕ) → ℕ
narrow w n a = n + w * reaches a (n + w)

narrow-Within : (w n a : ℕ) → Within n (w + w) a → Within (narrow w n a) w a
narrow-Within w n a i = elim (Bool-cases (ltb a (2 ^ (n + w)))) [
  | inl t ↦
      let same : narrow w n a ≡ n = rw t (omega arith) in
      rw same (record { below = ground arith; above = i.above })
  | inr f ↦
      let more : narrow w n a ≡ n + w = rw f (omega arith) in
      let sum : n + (w + w) ≡ n + w + w = omega arith in
      let below : a < 2 ^ (n + w + w) = subst (λ k. a < 2 ^ k) sum i.below in
      rw more (record { below = below; above = inr (ground arith) })
]

count_loop-width :
    (m k a cnt : ℕ)
    → 2 ^ m ≤ a
    → a < 2 ^ suc m
    → m + 2 ≤ k
    → cnt + m + 1 < 2 ^ 32
    → count_loop k a cnt ≡ some (cnt + m + 1)
unfolding count_loop
count_loop-width m zero a cnt p q le small = absurd (omega arith)
count_loop-width m (suc zero) a cnt p q le small = absurd (omega arith)
count_loop-width zero (suc (suc k)) a cnt p q le small =
    let one : a ≡ 1 = omega arith in rw one (ap some (omega arith))
count_loop-width (suc m) (suc k) a cnt p q le small =
    let ih =
      count_loop-width m k (a / 2) (cnt + 1) (omega (arith, pow-suc 2 m))
        (omega (arith, pow-suc 2 (suc m))) (omega arith) (omega arith) in
    let fits : (cnt + 1) % 2 ^ 32 ≡ cnt + 1 = omega arith in
    let some_bit : (a == 0) ≡ false = ground (arith, one-le-pow (suc m) 2) in
    rw (some_bit, fits, ih) (ap some (omega arith))

narrow-le : (w n a : ℕ) → narrow w n a ≤ n + w
narrow-le w n a = elim (Bool-cases (ltb a (2 ^ (n + w)))) [
  | inl t ↦ rw t (omega arith)
  | inr f ↦ rw f (omega arith)
]

-- What test_howManyBits returns for the count of its loop.
abbrev ended : Option ℕ → Option ℕ
ended none = none
ended (some cnt) = some (add cnt 1)

-- The steps as howManyBits computes them.
module _ (a : ℕ) where
  abbrev step : (w k n : ℕ) → ℕ
  step w k n = add n (shl (any_above a (n + w)) k)

  abbrev searched : ℕ
  searched = narrow 1 (narrow 2 (narrow 4 (narrow 8 (narrow 16 0 a) a) a) a) a

  abbrev search : ℕ
  search =
      let n₄ = step 2 1 (step 4 2 (step 8 3 (shl (any_above a 16) 4))) in
      add n₄ (any_above a (n₄ + 1))

  abbrev total : ℕ → ℕ
  total n = add n (add (add (logical_not (logical_not n)) (logical_not (bit_xor 1 a))) 1)

module _ (a : ℕ) (p : a < 2 ^ 31) where
  step-narrow : (w k n : ℕ) → 2 ^ k ≡ w → w ≤ 8 → n ≤ 28 → step a w k n ≡ narrow w n a
  step-narrow w k n e lw ln =
      rw (any_above-reaches a (n + w) p, e)
        (elim (Bool-cases (ltb a (2 ^ (n + w)))) [
          | inl t ↦ rw t (omega (arith, ln))
          | inr f ↦ rw f (omega (arith, lw, ln))
        ])

  first-narrow : shl (any_above a 16) 4 ≡ narrow 16 0 a
  first-narrow = rw (any_above-reaches a 16 p) (ground arith)

  last-narrow : (n : ℕ) → n ≤ 30 → add n (any_above a (n + 1)) ≡ narrow 1 n a
  last-narrow n ln = rw (any_above-reaches a (n + 1) p) (ground (arith, ln))

  searched-le : searched a ≤ 31
  searched-le =
      let s₁ = narrow 16 0 a in
      let s₂ = narrow 8 s₁ a in
      let s₃ = narrow 4 s₂ a in
      let s₄ = narrow 2 s₃ a in
      omega (
        arith,
        narrow-le 16 0 a,
        narrow-le 8 s₁ a,
        narrow-le 4 s₂ a,
        narrow-le 2 s₃ a,
        narrow-le 1 s₄ a,
      )

  searched-Within : Within (searched a) 1 a
  searched-Within =
      let s₁ = narrow 16 0 a in
      let s₂ = narrow 8 s₁ a in
      let s₃ = narrow 4 s₂ a in
      let s₄ = narrow 2 s₃ a in
      narrow-Within 1 s₄ a (
        narrow-Within 2 s₃ a (
          narrow-Within 4 s₂ a (
            narrow-Within 8 s₁ a
              (narrow-Within 16 0 a (record { below = omega arith; above = inl refl })))))

  search-searched : search a ≡ searched a
  search-searched =
      let s₁ = narrow 16 0 a in
      let s₂ = narrow 8 s₁ a in
      let s₃ = narrow 4 s₂ a in
      let s₄ = narrow 2 s₃ a in
      let b₁ = narrow-le 16 0 a in
      let b₂ = narrow-le 8 s₁ a in
      let b₃ = narrow-le 4 s₂ a in
      let b₄ = narrow-le 2 s₃ a in
      let e₂ =
        ap (step a 8 3) first-narrow ∙ step-narrow 8 3 s₁ refl (omega arith) (omega (arith, b₁)) in
      let e₃ = ap (step a 4 2) e₂ ∙ step-narrow 4 2 s₂ refl (omega arith) (omega (arith, b₁, b₂)) in
      let e₄ =
        ap (step a 2 1) e₃ ∙ step-narrow 2 1 s₃ refl (omega arith) (omega (arith, b₁, b₂, b₃)) in
      ap (λ n. add n (any_above a (n + 1))) e₄ ∙ last-narrow s₄ (omega (arith, b₁, b₂, b₃, b₄))

  total-count :
      (k n : ℕ) → 33 ≤ k → n ≤ 31 → Within n 1 a → ended (count_loop k a 0) ≡ some (total a n)
  unfolding count_loop
  total-count (suc k) n fuel le i = elim (Bool-cases (a == 0)) [
    | inl t ↦
        let z : a ≡ 0 = ground arith in
        let n0 : n ≡ 0 = elim i.above [
          | inl e ↦ e
          | inr b ↦ absurd (omega (arith, z, b, one-le-pow n 2))
        ] in
        rw (z, n0) refl
    | inr f ↦
        let m : (bit_xor 1 a == 0) ≡ (1 == a) = bit_xor-equal 31 1 a (omega arith) p in
        elim (Bool-cases (n == 0)) [
          | inl t ↦
              let n0 : n ≡ 0 = ground arith in
              let below : a < 2 = subst (λ k. a < 2 ^ (k + 1)) n0 i.below in
              let one : a ≡ 1 = ground (arith, below) in
              rw (n0, one)
                (ap ended (
                  count_loop-width 0 (suc k) 1 0 (omega arith) (omega arith) (omega arith)
                    (omega arith)))
          | inr g ↦
              let q : 2 ^ n ≤ a = elim i.above [ inl e ↦ absurd (ground (arith, e)) | inr b ↦ b ] in
              let sum : n + 1 ≡ suc n = omega arith in
              let up : a < 2 ^ suc n = subst (λ k. a < 2 ^ k) sum i.below in
              let two : 2 ^ 1 ≤ 2 ^ n =
                pow-le-pow_right {n = 2} (omega arith) {i = 1} {j = n} (ground arith) in
              let many : (1 == a) ≡ false = ground (arith, two, q) in
              rw (m, many, g)
                (ap ended (count_loop-width n (suc k) a 0 q up (omega arith) (omega arith))
                  ∙ ap some (omega arith))
        ]
  ]
  total-count zero n fuel le i = absurd (omega arith)

how_many_bits-total : (x a : ℕ) → bit_xor x (sar x 31) ≡ a → how_many_bits x ≡ total a (search a)
unfolding how_many_bits
how_many_bits-total x a e = ap (λ b. total b (search b)) e

both-equal :
    (k x a : ℕ)
    → (if ltb x (2 ^ 31) then x else add (minus x) (2 ^ 32 - 1)) ≡ a
    → bit_xor x (sar x 31) ≡ a
    → a < 2 ^ 31
    → 33 ≤ k
    → test_how_many_bits k x ≡ some (how_many_bits x)
unfolding test_how_many_bits
both-equal k x a start e p fuel =
    let puzzle = how_many_bits-total x a e ∙ ap (total a) (search-searched a p) in
    let loop = total-count a p k (searched a) fuel (searched-le a p) (searched-Within a p) in
    ap (λ b. ended (count_loop k b 0)) start ∙ (loop ∙ ap some (sym puzzle))

-- howManyBits is the number of bits that the loop of tests.c counts, which ends within 33 rounds.
pub how_many_bits-test :
    (k x : ℕ) → x < 2 ^ 32 → 33 ≤ k → test_how_many_bits k x ≡ some (how_many_bits x)
how_many_bits-test k x p fuel = elim (Bool-cases (ltb x (2 ^ 31))) [
  | inl t ↦
      let zero_sign : sar x 31 ≡ 0 = ground arith in
      both-equal k x x (rw t refl) (rw zero_sign (bit_xor-zero 32 x p)) (ground arith) fuel
  | inr f ↦
      let ones_sign : sar x 31 ≡ 2 ^ 32 - 1 = ground arith in
      both-equal k x (complement 32 x) (ground (arith, f)) (rw ones_sign (bit_xor-ones 32 x p))
        (ground arith) fuel
]
