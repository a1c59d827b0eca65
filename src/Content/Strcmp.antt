-- ===== src/Content/Strcmp.antt =====
-- strcmp of the C library: the sign of its result, on strings as lists of bytes.
use Prim.Native.Nat.{compare, Ordering}
use cohere_technology_skillb.Prelude.{ℕ, ◌≡◌, ◌≢◌, refl, List, [], ◌∷◌, arith}

pub data Sign : Type 0 where
  lt eq gt : Sign

unfoldable pub strcmp : List ℕ → List ℕ → Sign
strcmp [] [] = eq
strcmp [] (b ∷ t) = lt
strcmp (a ∷ s) [] = gt
strcmp (a ∷ s) (b ∷ t) = elim (compare a b) [
  | Ordering.lt ↦ lt
  | Ordering.eq ↦ strcmp s t
  | Ordering.gt ↦ gt
]

pub eq_of_strcmp : (s t : List ℕ) → strcmp s t ≡ eq → s ≡ t
unfolding strcmp
eq_of_strcmp [] [] e = refl
eq_of_strcmp [] (b ∷ t) e = cc
eq_of_strcmp (a ∷ s) [] e = cc
eq_of_strcmp (a ∷ s) (b ∷ t) e = ground (arith, eq_of_strcmp s t)

pub strcmp_self : (s : List ℕ) → strcmp s s ≡ eq
unfolding strcmp
strcmp_self [] = refl
strcmp_self (a ∷ s) = ground (arith, strcmp_self s)

-- Less than one string, and so less than those not before it.
pub strcmp-lt_trans : (s t u : List ℕ) → strcmp s t ≡ lt → strcmp t u ≢ gt → strcmp s u ≡ lt
unfolding strcmp
strcmp-lt_trans [] [] u e n = absurd (cc)
strcmp-lt_trans [] (b ∷ t) [] e n = absurd (n refl)
strcmp-lt_trans [] (b ∷ t) (c ∷ u) e n = refl
strcmp-lt_trans (a ∷ s) [] u e n = cc
strcmp-lt_trans (a ∷ s) (b ∷ t) [] e n = absurd (n refl)
strcmp-lt_trans (a ∷ s) (b ∷ t) (c ∷ u) e n = ground (arith, strcmp-lt_trans s t u)

pub strcmp-gt_trans : (s t u : List ℕ) → strcmp s t ≡ gt → strcmp u t ≢ gt → strcmp s u ≡ gt
unfolding strcmp
strcmp-gt_trans [] [] u e n = absurd (cc)
strcmp-gt_trans [] (b ∷ t) u e n = cc
strcmp-gt_trans (a ∷ s) t [] e n = refl
strcmp-gt_trans (a ∷ s) [] (c ∷ u) e n = absurd (n refl)
strcmp-gt_trans (a ∷ s) (b ∷ t) (c ∷ u) e n = ground (arith, strcmp-gt_trans s t u)
