-- ===== src/Workload.antt =====
-- FUND-120/4_ClientServerLab/mtgf/workload.c: the paths that the client asks for, in turn. The words
-- that fscanf delivers are an argument, `none` a file that cannot be opened; the mode is always
-- WORKLOAD_SEQ.
pub mod Rounds
mod Tests
use cohere_technology_skillb.Prelude.{
  ℕ, zero, suc, ◌+◌, ◌-◌, ◌%◌, ◌^◌, Bool, true, false, ◌&&◌, Option, none, some, List, [], ◌∷◌,
  ◌++◌, ◌==◌, ltb, if◌then◌else◌, length, get_elem?,
}

-- The filled part of gWorkloadPathArray, the number of paths, and the bit pattern of the counter.
pub record Workload : Type 0 where
  pub path_array : List (List ℕ)
  pub unique_paths : ℕ
  pub counter : ℕ

pub data Init : Type 0 where
  exit_success : Workload → Init
  exit_failure : Init
  overrun : Init

-- The array has 100 places, and the buffer of a word 256 with its terminator.
scan_loop : List (List ℕ) → List (List ℕ) → Option (List (List ℕ))
scan_loop [] paths = some paths
scan_loop (word ∷ words) paths =
    let rest = scan_loop words (paths ++ (word ∷ [])) in
    if ltb (length word) 256 && ltb (length paths) 100 then rest else none

unfoldable pub workload_init : Option (List (List ℕ)) → ℕ → Init
unfolding scan_loop
workload_init none counter = exit_failure
workload_init (some words) counter = elim (scan_loop words []) [
  | none ↦ overrun
  | some paths ↦
      exit_success
        (record { path_array = paths; unique_paths = length paths % 2 ^ 16; counter = counter })
]

-- entry % gUniqueWorkloadPaths as an index: a negative one and a division by zero are `none`.
unfoldable pub entry_index : ℕ → ℕ → Option ℕ
entry_index entry n =
    if n == 0
    then none
    else if ltb entry (2 ^ 31)
    then some (entry % n)
    else if (2 ^ 32 - entry) % n == 0
    then some 0
    else none

-- The path, `none` for undefined behaviour, and the state with the counter moved on.
unfoldable pub workload_get_path : Workload → Option (List ℕ) × Workload
unfolding entry_index
workload_get_path w = (
  elim (entry_index w.counter w.unique_paths) [ none ↦ none | some i ↦ get_elem? w.path_array i ],
  record w { counter = (w.counter + 1) % 2 ^ 32 },
)

-- The state after `k` calls.
unfoldable pub after : ℕ → Workload → Workload
unfolding workload_get_path
after zero w = w
after (suc k) w = after k (workload_get_path w).1
