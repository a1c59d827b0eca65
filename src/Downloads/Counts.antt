-- ===== src/Downloads/Counts.antt =====
-- Sums over the worker threads.
use cohere_technology_skillb.Prelude.{
  ℕ, zero, suc, ◌+◌, ◌≤◌, ◌≡◌, length, Bool, true, false, List, [], ◌∷◌, ◌++◌, arith, if◌then◌else◌,
}
use cohere_technology_skillb.Downloads.{
  Pc, ready, checking, waiting, woken, popped, fetched, named, downloading, finished, is_waiting,
}

abbrev pub total : (Pc → ℕ) → List Pc → ℕ
total f [] = 0
total f (p ∷ ps) = f p + total f ps

pub total-append : (f : Pc → ℕ) (xs ys : List Pc) → total f (xs ++ ys) ≡ total f xs + total f ys
total-append f [] ys = omega arith
total-append f (x ∷ xs) ys = omega (arith, total-append f xs ys)

pub total-le : (f g : Pc → ℕ) → ((p : Pc) → f p ≤ g p) → (xs : List Pc) → total f xs ≤ total g xs
total-le f g le [] = omega arith
total-le f g le (x ∷ xs) = omega (arith, le x, total-le f g le xs)

-- Whether a worker holds the mutex, waits for the condition, or is on its way to the test of the
-- queue, and how many requests it has still to take.
abbrev pub holds : Pc → ℕ
holds (checking r) = 1
holds (popped r p) = 1
holds _ = 0

abbrev pub sleeps : Pc → ℕ
sleeps p = if is_waiting p then 1 else 0

abbrev pub arriving : Pc → ℕ
arriving (checking r) = 1
arriving (woken r) = 1
arriving _ = 0

abbrev pub owed : Pc → ℕ
owed (ready r) = r
owed (checking r) = suc r
owed (waiting r) = suc r
owed (woken r) = suc r
owed (popped r p) = r
owed (fetched r p) = r
owed (named r p c) = r
owed (downloading r p c) = r
owed finished = 0

pub sleeps-le-owed : (p : Pc) → sleeps p ≤ owed p
sleeps-le-owed (ready r) = omega arith
sleeps-le-owed (checking r) = omega arith
sleeps-le-owed (waiting r) = omega arith
sleeps-le-owed (woken r) = omega arith
sleeps-le-owed (popped r p) = omega arith
sleeps-le-owed (fetched r p) = omega arith
sleeps-le-owed (named r p c) = omega arith
sleeps-le-owed (downloading r p c) = omega arith
sleeps-le-owed finished = omega arith

-- The joined threads: the first `next` of them have finished.
abbrev pub is_finished : Pc → Bool
is_finished finished = true
is_finished _ = false

abbrev pub FirstFinished : ℕ → List Pc → Type 0
FirstFinished zero ps = Unit
FirstFinished (suc n) [] = ⊥
FirstFinished (suc n) (p ∷ ps) = (is_finished p ≡ true) × FirstFinished n ps

abbrev pub AllFinished : List Pc → Type 0
AllFinished [] = Unit
AllFinished (p ∷ ps) = (is_finished p ≡ true) × AllFinished ps

-- A worker in the middle changes to another state.
pub FirstFinished-change :
    (n : ℕ) (xs ys : List Pc) (p p' : Pc)
    → is_finished p ≡ false
    → FirstFinished n (xs ++ (p ∷ ys))
    → FirstFinished n (xs ++ (p' ∷ ys))
FirstFinished-change zero xs ys p p' u f = tt
FirstFinished-change (suc n) [] ys p p' u f = absurd (cc (f.0, u))
FirstFinished-change (suc n) (x ∷ xs) ys p p' u f = (f.0, FirstFinished-change n xs ys p p' u f.1)

pub FirstFinished-append :
    (n : ℕ) (xs ys : List Pc) → FirstFinished n xs → FirstFinished n (xs ++ ys)
FirstFinished-append zero xs ys f = tt
FirstFinished-append (suc n) [] ys f = absurd f
FirstFinished-append (suc n) (x ∷ xs) ys f = (f.0, FirstFinished-append n xs ys f.1)

pub FirstFinished-le : (k : ℕ) (ws : List Pc) → FirstFinished k ws → k ≤ length ws
FirstFinished-le zero ws f = omega arith
FirstFinished-le (suc k) [] f = absurd f
FirstFinished-le (suc k) (p ∷ ws) f = omega (arith, FirstFinished-le k ws f.1)
