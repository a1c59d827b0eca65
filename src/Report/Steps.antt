-- ===== src/Report/Steps.antt =====
-- Runs of a program that uses report.c as it is meant to: it frees what it has allocated, with the
-- size that it has asked for.
use cohere_technology_skillb.Prelude.{ℕ, ◌+◌, ◌*◌, ◌^◌, ◌<◌, ◌≡◌, some, List, [], ◌∷◌, ◌++◌, length}
use cohere_technology_skillb.Memory.{Ptr}
use cohere_technology_skillb.Report.{
  Report, returned, malloc_or_fail, calloc_or_fail, realloc_or_fail, strsave_or_fail, free_block,
  free_array, free_string, reset_peak_bytes,
}

abbrev pub sum : List ℕ → ℕ
sum [] = 0
sum (n ∷ ns) = n + sum ns

-- The blocks lie apart in the address space, so that their sizes sum to less than 2 ^ 64; calloc
-- fails where its size would wrap.
abbrev pub Fits : ℕ → List ℕ → Type 0
Fits n sizes = n + sum sizes < 2 ^ 64

-- One call that returns: from the sizes of the blocks in use and the counters, to those after it.
pub data Step (mblimit : ℕ) : List ℕ → Report → List ℕ → Report → Type 0 where
  malloc :
      {sizes : List ℕ} {r r' : Report} (bytes : ℕ) (p q : Ptr)
      → Fits bytes sizes
      → malloc_or_fail mblimit bytes p r ≡ returned q r'
      → Step mblimit sizes r (bytes ∷ sizes) r'
  calloc :
      {sizes : List ℕ} {r r' : Report} (cnt bytes : ℕ) (p q : Ptr)
      → Fits (cnt * bytes) sizes
      → calloc_or_fail mblimit cnt bytes p r ≡ returned q r'
      → Step mblimit sizes r ((cnt * bytes) ∷ sizes) r'
  realloc :
      (xs ys : List ℕ) {r r' : Report} (old_bytes new_bytes : ℕ) (p q : Ptr)
      → Fits new_bytes (xs ++ ys)
      → realloc_or_fail mblimit old_bytes new_bytes p r ≡ returned q r'
      → Step mblimit (xs ++ (old_bytes ∷ ys)) r (new_bytes ∷ (xs ++ ys)) r'
  strsave :
      {sizes : List ℕ} {r r' : Report} (s : List ℕ) (p q : Ptr)
      → Fits (length s + 1) sizes
      → strsave_or_fail mblimit (some s) p r ≡ returned q r'
      → Step mblimit sizes r ((length s + 1) ∷ sizes) r'
  free :
      (xs ys : List ℕ) {r : Report} (bytes : ℕ)
      → Step mblimit (xs ++ (bytes ∷ ys)) r (xs ++ ys) (free_block bytes r)
  free_cells :
      (xs ys : List ℕ) {r : Report} (cnt bytes : ℕ)
      → Step mblimit (xs ++ ((cnt * bytes) ∷ ys)) r (xs ++ ys) (free_array cnt bytes r)
  free_text :
      (xs ys : List ℕ) {r r' : Report} (s : List ℕ) (q : Ptr)
      → free_string (some s) r ≡ returned q r'
      → Step mblimit (xs ++ ((length s + 1) ∷ ys)) r (xs ++ ys) r'
  reset : {sizes : List ℕ} {r : Report} → Step mblimit sizes r sizes (reset_peak_bytes r)

abbrev pub start : Report
start = record {
  allocate_cnt = 0;
  allocate_bytes = 0;
  free_cnt = 0;
  free_bytes = 0;
  peak_bytes = 0;
  last_peak_bytes = 0;
  current_bytes = 0;
}

-- What a run of calls from the start of the process reaches.
pub data Reachable (mblimit : ℕ) : List ℕ → Report → Type 0 where
  at_start : Reachable mblimit [] start
  then_call :
      {sizes sizes' : List ℕ} {r r' : Report}
      → Reachable mblimit sizes r
      → Step mblimit sizes r sizes' r'
      → Reachable mblimit sizes' r'
