-- ===== src/Btest/Suite/Solved.antt =====
-- The solved puzzles pass, whatever the test values.
use cohere_technology_skillb.Prelude.{
  ℕ, zero, suc, ◌+◌, ◌^◌, ◌<◌, ◌≤◌, ◌≡◌, refl, sym, ap, Bool, true, false, Option, none, some, List,
  [], ◌∷◌, ◌++◌, ==-self, Bool-cases, inl, inr, arith, if◌then◌else◌,
}
use cohere_technology_skillb.Puzzles.Logic.{bit_xor_puzzle-test, conditional-test}
use cohere_technology_skillb.Puzzles.Odd.{all_odd_bits-test}
use cohere_technology_skillb.Puzzles.Width.{how_many_bits-test}
use cohere_technology_skillb.Puzzles.Compare.{one_word-test, tmin-test}
use cohere_technology_skillb.Puzzles.Reference.{minus}
use cohere_technology_skillb.Btest.{
  Functs, no_args, one_arg, two_args, three_args, error_of, first_error, run_functs, Setting,
  test_function, test_range_limit, gen_vals, each_round, sample_round, within, timed, at_least_one,
}
use cohere_technology_skillb.Btest.Suite.{test_set, run_tests}

abbrev AreWords : List ℕ → Type 0
AreWords [] = Unit
AreWords (v ∷ vals) = (v < 2 ^ 32) × AreWords vals

AreWords-append : (xs ys : List ℕ) → AreWords xs → AreWords ys → AreWords (xs ++ ys)
AreWords-append [] ys p q = q
AreWords-append (x ∷ xs) ys p q = (p.0, AreWords-append xs ys p.1 q)

-- Two results that are there and are the same.
record Agree (r rt : Option ℕ) : Type 0 where
  value : ℕ
  left : r ≡ some value
  right : rt ≡ some value

error_of-Agree : {r rt : Option ℕ} → Agree r rt → error_of r rt ≡ some 0
unfolding error_of
error_of-Agree {r} {rt} a = let t = ==-self a.value in rw (a.left, a.right) (rw t refl)

first_error-none :
    (test : ℕ → Option ℕ) (vals : List ℕ)
    → AreWords vals
    → ((a : ℕ) → a < 2 ^ 32 → test a ≡ some 0)
    → first_error test vals ≡ some 0
unfolding first_error
first_error-none test [] w pass = refl
first_error-none test (v ∷ vals) w pass =
    let ih = first_error-none test vals w.1 pass in rw (first_error, pass v w.0, ih) refl

-- The two functions agree on all words.
AgreeOnWords : Functs → Type 0
AgreeOnWords (no_args s t) = Agree s t
AgreeOnWords (one_arg s t) = (a : ℕ) → a < 2 ^ 32 → Agree (s a) (t a)
AgreeOnWords (two_args s t) = (a b : ℕ) → a < 2 ^ 32 → b < 2 ^ 32 → Agree (s a b) (t a b)
AgreeOnWords (three_args s t) =
    (a b c : ℕ) → a < 2 ^ 32 → b < 2 ^ 32 → c < 2 ^ 32 → Agree (s a b c) (t a b c)

run_functs-AgreeOnWords :
    (f : Functs) (vals₁ vals₂ vals₃ : List ℕ)
    → AgreeOnWords f
    → AreWords vals₁
    → AreWords vals₂
    → AreWords vals₃
    → run_functs f vals₁ vals₂ vals₃ ≡ some 0
unfolding run_functs AgreeOnWords
run_functs-AgreeOnWords (no_args s t) vals₁ vals₂ vals₃ g p q r = error_of-Agree g
run_functs-AgreeOnWords (one_arg s t) vals₁ vals₂ vals₃ g p q r =
    first_error-none _ vals₁ p λ a w. error_of-Agree (g a w)
run_functs-AgreeOnWords (two_args s t) vals₁ vals₂ vals₃ g p q r =
    first_error-none _ vals₁ p λ a w. first_error-none _ vals₂ q λ b v. error_of-Agree (g a b w v)
run_functs-AgreeOnWords (three_args s t) vals₁ vals₂ vals₃ g p q r =
    first_error-none _ vals₁ p λ a w.
      first_error-none _ vals₂ q
        λ b v. first_error-none _ vals₃ r λ c u. error_of-Agree (g a b c w v u)

-- The ranges of decl.c for ints, and what is given to a run: ints from the command line and from
-- random_val, and roots of TEST_RANGE that are at most TEST_RANGE.
pub record IsFull (o : Setting) : Type 0 where
  pub least : (arg : ℕ) → o.min arg ≡ 0x8000_0000
  pub greatest : (arg : ℕ) → o.max arg ≡ 0x7fff_ffff
  pub drawn_word : (arg i : ℕ) → o.drawn arg i < 2 ^ 32
  pub given_word : (arg v : ℕ) → o.given arg ≡ some v → v < 2 ^ 32
  pub square_small : o.square_root ≤ test_range_limit
  pub cube_small : o.cube_root ≤ test_range_limit

abbrev optional : Bool → ℕ → List ℕ
optional t i = if t then i ∷ [] else []

optional-AreWords : (t : Bool) (i : ℕ) → i < 2 ^ 32 → AreWords (optional t i)
optional-AreWords true i p = (p, tt)
optional-AreWords false i p = tt

sample_round-AreWords :
    (drawn : ℕ → ℕ) (min max i : ℕ)
    → ((j : ℕ) → drawn j < 2 ^ 32)
    → i < 2 ^ 32
    → AreWords (sample_round drawn min max i)
unfolding sample_round
sample_round-AreWords drawn min max i d p =
    let last : AreWords (drawn i ∷ []) = (d i, tt) in
    let there =
      AreWords-append _ _ (optional-AreWords (within min max (minus i)) (minus i) (omega arith))
        last in
    (
      omega arith,
      (omega arith, AreWords-append _ _ (optional-AreWords (within min max i) i p) there),
    )

each_round-AreWords :
    (values : ℕ → List ℕ)
    → ((i : ℕ) → i < 2 ^ 32 → AreWords (values i))
    → (rounds i : ℕ) → i + rounds < 2 ^ 32
    → AreWords (each_round values rounds i)
unfolding each_round
each_round-AreWords values each zero i p = tt
each_round-AreWords values each (suc k) i p =
    AreWords-append _ _ (each i (omega arith))
      (each_round-AreWords values each k (i + 1) (omega arith))

module _ (k : ℕ) (o : Setting) (full : IsFull o) where
  arg_vals-AreWords :
      (test_range arg : ℕ)
      → test_range ≤ test_range_limit
      → (vals : List ℕ) × ((gen_vals k
              (o.given arg)
              (o.drawn arg)
              (o.min arg)
              (o.max arg)
              (at_least_one test_range)
            ≡ some vals)
          × AreWords vals)
  unfolding gen_vals
  arg_vals-AreWords r arg small = by (o.given arg) refl
    where
      by :
          (g : Option ℕ)
          → o.given arg ≡ g
          → (vals : List ℕ) × ((gen_vals k
                  (o.given arg)
                  (o.drawn arg)
                  (o.min arg)
                  (o.max arg)
                  (at_least_one r)
                ≡ some vals)
              × AreWords vals)
      by (some v) e = (v ∷ [], (rw e refl, (full.given_word arg v e, tt)))
      by none e =
          let values = sample_round (o.drawn arg) 0x8000_0000 0x7fff_ffff in
          let rounds = at_least_one r in
          let few : 0 + rounds < 2 ^ 32 = ground (arith, small) in
          (
            each_round values rounds 0,
            (
              rw (e, full.least arg, full.greatest arg) refl,
              each_round-AreWords values
                  (λ i p.
                    sample_round-AreWords (o.drawn arg) 0x8000_0000 0x7fff_ffff i
                      (full.drawn_word arg) p)
                  rounds 0 few,
            ),
          )

  test_function-AgreeOnWords : (f : Functs) → AgreeOnWords f → test_function k o f ≡ some 0
  unfolding test_function timed
  test_function-AgreeOnWords (no_args s t) g =
      rw (run_functs-AgreeOnWords (no_args s t) [] [] [] g tt tt tt) refl
  test_function-AgreeOnWords (one_arg s t) g =
      let (vals, (e, w)) = arg_vals-AreWords test_range_limit 0 (omega arith) in
      rw (e) (rw (run_functs-AgreeOnWords (one_arg s t) vals [] [] g w tt tt) refl)
  test_function-AgreeOnWords (two_args s t) g =
      let (vals₁, (e₁, w₁)) = arg_vals-AreWords o.square_root 0 full.square_small in
      let (vals₂, (e₂, w₂)) = arg_vals-AreWords o.square_root 1 full.square_small in
      rw (e₁, e₂) (rw (run_functs-AgreeOnWords (two_args s t) vals₁ vals₂ [] g w₁ w₂ tt) refl)
  test_function-AgreeOnWords (three_args s t) g =
      let (vals₁, (e₁, w₁)) = arg_vals-AreWords o.cube_root 0 full.cube_small in
      let (vals₂, (e₂, w₂)) = arg_vals-AreWords o.cube_root 1 full.cube_small in
      let (vals₃, (e₃, w₃)) = arg_vals-AreWords o.cube_root 2 full.cube_small in
      rw (e₁, e₂, e₃)
        (rw (run_functs-AgreeOnWords (three_args s t) vals₁ vals₂ vals₃ g w₁ w₂ w₃) refl)

equal-Agree : {a b : ℕ} → a ≡ b → Agree (some a) (some b)
equal-Agree {a} {b} e = record { value = a; left = refl; right = ap some (sym e) }

-- From the i-th entry on, those that are chosen agree.
abbrev AllAgree : (ℕ → Bool) → ℕ → List Functs → Type 0
AllAgree chosen i [] = Unit
AllAgree chosen i (f ∷ fs) = ((chosen i ≡ true) → AgreeOnWords f) × AllAgree chosen (i + 1) fs

run_tests-AllAgree :
    (k : ℕ) (setting : ℕ → Setting) (chosen : ℕ → Bool) (i : ℕ) (fs : List Functs)
    → ((j : ℕ) → chosen j ≡ true → IsFull (setting j))
    → AllAgree chosen i fs
    → run_tests k setting chosen i fs ≡ some 0
unfolding run_tests
run_tests-AllAgree k setting chosen i [] full all = refl
run_tests-AllAgree k setting chosen i (f ∷ fs) full all =
    let rest = run_tests-AllAgree k setting chosen (i + 1) fs full all.1 in
    elim (Bool-cases (chosen i)) [
      | inl t ↦
          rw (run_tests, t)
            (rw (test_function-AgreeOnWords k (setting i) (full i t) f (all.0 t), rest) refl)
      | inr n ↦ rw (run_tests, n) rest
    ]

-- run_tests counts no errors over the entries of test_set that are chosen, where isLessOrEqual and
-- the puzzles on floats are not, whatever ints are drawn at random or fixed by the command line. Each
-- range of a chosen entry is that of all ints, as decl.c has it, and pow gives roots of at most TEST_RANGE.
pub run_tests-solved :
    (k : ℕ) (setting : ℕ → Setting) (chosen : ℕ → Bool) (twice i2f f2i : ℕ → Option ℕ)
    → ((i : ℕ) → chosen i ≡ true → IsFull (setting i))
    → chosen 7 ≡ false
    → chosen 10 ≡ false
    → chosen 11 ≡ false
    → chosen 12 ≡ false
    → run_tests k setting chosen 0 (test_set twice i2f f2i) ≡ some 0
unfolding AgreeOnWords
run_tests-solved k setting chosen twice i2f f2i full no_order no_twice no_i2f no_f2i =
    run_tests-AllAgree k setting chosen 0 (test_set twice i2f f2i) full (
      λ _ a b p q. equal-Agree (bit_xor_puzzle-test a b p q),
      (
        λ _. equal-Agree tmin-test,
        (
          λ _ a p. equal-Agree (one_word-test a p).0,
          (
            λ _ a p. equal-Agree (all_odd_bits-test a p),
            (
              λ _ a p. equal-Agree (one_word-test a p).1.0,
              (
                λ _ a p. equal-Agree (one_word-test a p).1.1.0,
                (
                  λ _ a b c p q r. equal-Agree (conditional-test a b c p q r),
                  (
                    λ t. absurd (cc (t, no_order)),
                    (
                      λ _ a p. equal-Agree (one_word-test a p).1.1.1,
                      (
                        λ _ a p. record {
                          value = _;
                          left = refl;
                          right = how_many_bits-test 33 a p (omega arith);
                        },
                        (
                          λ t. absurd (cc (t, no_twice)),
                          (λ t. absurd (cc (t, no_i2f)), (λ t. absurd (cc (t, no_f2i)), tt)),
                        ),
                      ),
                    ),
                  ),
                ),
              ),
            ),
          ),
        ),
      ),
    )
