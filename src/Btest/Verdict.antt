-- ===== src/Btest/Verdict.antt =====
-- What the loops of test_function report.
use cohere_technology_skillb.Prelude.{
  ℕ, ◌≡◌, refl, Bool, true, ◌&&◌, Option, some, List, [], ◌∷◌, ◌==◌, Bool-cases, inl, inr,
  if◌then◌else◌,
}
use cohere_technology_skillb.Btest.{
  one_arg, two_args, three_args, error_of, first_error, run_functs,
}

-- Every value meets the test.
pub every : (ℕ → Bool) → List ℕ → Bool
every test [] = true
every test (v ∷ vals) = test v && every test vals

-- 0 for a pass, 1 for an error.
abbrev pub verdict : Bool → Option ℕ
verdict ok = some (if ok then 0 else 1)

first_error-every :
    (test : ℕ → Option ℕ) (ok : ℕ → Bool)
    → ((a : ℕ) → test a ≡ verdict (ok a))
    → (vals : List ℕ) → first_error test vals ≡ verdict (every ok vals)
unfolding first_error every
first_error-every test ok same [] = refl
first_error-every test ok same (v ∷ vals) =
    let ih = first_error-every test ok same vals in
    elim (Bool-cases (ok v)) [
      | inl t ↦ rw (first_error, same v, t, ih) refl
      | inr f ↦ rw (first_error, same v, f) refl
    ]

-- On functions that return, the loops of test_function find 0 errors where the two functions agree
-- on every combination of the test values, and otherwise stop with 1.
pub run_functs-every :
    (f g : ℕ → ℕ) (f₂ g₂ : ℕ → ℕ → ℕ) (f₃ g₃ : ℕ → ℕ → ℕ → ℕ) (vals₁ vals₂ vals₃ : List ℕ)
    → (run_functs (one_arg (λ a. some (f a)) (λ a. some (g a))) vals₁ vals₂ vals₃
        ≡ verdict (every (λ a. f a == g a) vals₁))
      × ((run_functs (two_args (λ a b. some (f₂ a b)) (λ a b. some (g₂ a b))) vals₁ vals₂ vals₃
            ≡ verdict (every (λ a. every (λ b. f₂ a b == g₂ a b) vals₂) vals₁))
          × (run_functs
                (three_args (λ a b c. some (f₃ a b c)) (λ a b c. some (g₃ a b c)))
                vals₁
                vals₂
                vals₃
              ≡ verdict
                  (every (λ a. every (λ b. every (λ c. f₃ a b c == g₃ a b c) vals₃) vals₂) vals₁)))
unfolding run_functs error_of
run_functs-every f g f₂ g₂ f₃ g₃ vals₁ vals₂ vals₃ = (
  first_error-every _ _ (λ a. refl) vals₁,
  (
    first_error-every _ _ (λ a. first_error-every _ _ (λ b. refl) vals₂) vals₁,
    first_error-every _ _
        (λ a. first_error-every _ _ (λ b. first_error-every _ _ (λ c. refl) vals₃) vals₂) vals₁,
  ),
)
