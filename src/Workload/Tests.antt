-- ===== src/Workload/Tests.antt =====
-- A workload of two paths.
use cohere_technology_skillb.Prelude.{
  ℕ, ◌+◌, ◌%◌, ◌^◌, ◌≡◌, refl, none, some, List, [], ◌∷◌, arith, length, get_elem?,
}
use cohere_technology_skillb.Workload.{
  exit_success, workload_init, workload_get_path, entry_index, after,
}
use cohere_technology_skillb.Workload.Rounds.{started, workload_init-get_path}

abbrev words : List (List ℕ)
words = (b'/' ∷ b'a' ∷ []) ∷ (b'/' ∷ b'b' ∷ []) ∷ []

workload_init-get_path_example :
    (workload_init (some words) 0 ≡ exit_success (started words 0))
    × ((workload_get_path (after 5 (started words 0))).0 ≡ get_elem? words (5 % length words))
workload_init-get_path_example =
    workload_init-get_path words 5 ((omega arith), ((omega arith), tt)) (omega arith) (omega arith)
      (omega arith)

-- An empty workload divides by zero, and after 2 ^ 31 calls the entry is negative.
empty : (workload_get_path (started [] 0)).0 ≡ none
unfolding workload_get_path
empty = refl

negative : entry_index (2 ^ 31 + 1) 2 ≡ none
unfolding entry_index
negative = refl
