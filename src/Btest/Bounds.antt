-- ===== src/Btest/Bounds.antt =====
-- gen_vals stays within the array of test values.
use native.Mathlib.Nat.{suc-mul}
use mathlib.Core.Path.{subst}
use cohere_technology_skillb.Prelude.{
  ℕ, zero, suc, ◌+◌, ◌-◌, ◌*◌, ◌^◌, ◌<◌, ◌≤◌, ◌≡◌, refl, sym, Bool, true, false, ◌&&◌, Option, none,
  some, List, [], ◌∷◌, ◌++◌, ◌==◌, Bool-cases, ◌⊎◌, inl, inr, arith, ltb, length, length-append,
  if◌then◌else◌,
}
use cohere_technology_skillb.Puzzles.{add}
use cohere_technology_skillb.Puzzles.Reference.{minus, signed_leb}
use cohere_technology_skillb.Btest.{
  test_range_limit, max_test_vals, float_round, sample_round, each_round, all_vals, gen_vals,
  within, sub, special_vals,
}

-- The position of an int among the ints, from the least on.
abbrev pub position : ℕ → ℕ
position x = add x (2 ^ 31)

-- The result is a list that fits the array.
abbrev pub FitsArray : Option (List ℕ) → Type 0
FitsArray none = ⊥
FitsArray (some vals) = length vals ≤ max_test_vals

each_round-length :
    (values : ℕ → List ℕ) (bound : ℕ)
    → ((i : ℕ) → length (values i) ≤ bound)
    → (rounds i : ℕ) → length (each_round values rounds i) ≤ rounds * bound
unfolding each_round
each_round-length values bound each zero i = omega arith
each_round-length values bound each (suc k) i =
    let rest = each_round values k (i + 1) in
    omega (
      arith,
      length-append (values i) rest,
      each i,
      each_round-length values bound each k (i + 1),
      suc-mul k bound,
    )

abbrev optional : Bool → ℕ → List ℕ
optional t i = if t then i ∷ [] else []

optional-length : (t : Bool) (i : ℕ) → length (optional t i) ≤ 1
optional-length true i = omega arith
optional-length false i = omega arith

sample_round-length : (drawn : ℕ → ℕ) (min max i : ℕ) → length (sample_round drawn min max i) ≤ 5
unfolding sample_round
sample_round-length drawn min max i =
    let here = optional (within min max i) i in
    let there = optional (within min max (minus i)) (minus i) in
    let last = drawn i ∷ [] in
    omega (
      arith,
      length-append here (there ++ last),
      length-append there last,
      optional-length (within min max i) i,
      optional-length (within min max (minus i)) (minus i),
    )

float_round-length : (i : ℕ) → length (float_round i) ≤ 12
unfolding float_round
float_round-length i = omega arith

all_vals-length :
    (k n i max : ℕ)
    → i < 2 ^ 32
    → position max + 1 ≡ position i + n
    → position max + 1 < 2 ^ 32
    → n < k
    → (vals : List ℕ) × ((all_vals k i max ≡ some vals) × (length vals ≡ n))
unfolding all_vals
all_vals-length zero n i max p e top fuel = absurd (omega arith)
all_vals-length (suc k) zero i max p e top fuel =
    let over : signed_leb i max ≡ false = ground (arith, e) in ([], (rw over refl, refl))
all_vals-length (suc k) (suc n) i max p e top fuel =
    let more : signed_leb i max ≡ true = ground (arith, e) in
    let (vals, (eq, len)) =
      all_vals-length k n (add i 1) max (omega arith) (omega (arith, e, top, p)) top
        (omega arith) in
    (i ∷ vals, (rw (more, eq) refl, omega (arith, len)))

-- gen_vals writes at most MAX_TEST_VALS values, where min is at most max, the difference
-- max - MAX_TEST_VALS is an int, and the number of ints from min to max is not MAX_TEST_VALS + 1,
-- and max is not the greatest int if there are so few of them that all are tried. With more rounds
-- of fuel than that, the loop over them ends.
pub gen_vals-FitsArray :
    (k : ℕ) (given : Option ℕ) (drawn : ℕ → ℕ) (min max test_range : ℕ)
    → min < 2 ^ 32
    → max < 2 ^ 32
    → position min ≤ position max
    → max_test_vals ≤ position max
    → ((position max < position min + max_test_vals) × (position max + 1 < 2 ^ 32))
      ⊎ (position min + max_test_vals < position max)
    → test_range ≤ test_range_limit
    → max_test_vals < k
    → FitsArray (gen_vals k given drawn min max test_range)
unfolding gen_vals
gen_vals-FitsArray k (some v) drawn min max r p q le room few range fuel = omega arith
gen_vals-FitsArray k none drawn min max r p q le room few range fuel =
    elim (Bool-cases ((min == 1) && (max == 1))) [
      | inl floats ↦
          let rounds = if ltb (2 ^ 23) r then 2 ^ 23 else r in
          let small : rounds ≤ test_range_limit = ground (arith, range) in
          let bound = each_round-length float_round 12 float_round-length rounds 0 in
          rw floats (
            omega
              (arith, small, bound, length-append (each_round float_round rounds 0) special_vals))
      | inr ints ↦
          let low : position (sub max max_test_vals) ≡ position max - max_test_vals =
            omega (arith, room, q) in
          elim (Bool-cases (signed_leb (sub max max_test_vals) min)) [
            | inl all ↦
                let ends : (position max < position min + max_test_vals)
                    × (position max + 1 < 2 ^ 32) =
                  elim few [ inl f ↦ f | inr f ↦ absurd (ground (arith, low, all, f)) ] in
                let n = position max + 1 - position min in
                let (vals, (eq, len)) =
                  all_vals-length k n min max p (omega (arith, le)) ends.1
                    (omega (arith, ends.0, le, fuel)) in
                rw (ints, all) (subst FitsArray (sym eq) (omega (arith, len, ends.0, le)))
            | inr some_of ↦
                rw (ints, some_of)
                  (omega (
                    arith,
                    range,
                    each_round-length (sample_round drawn min max) 5
                        (sample_round-length drawn min max) r 0,
                  ))
          ]
    ]
