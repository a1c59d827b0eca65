-- ===== src/Workload/Rounds.antt =====
-- The round robin of workload_get_path.
use cohere_technology_skillb.Prelude.{
  ℕ, zero, suc, ◌+◌, ◌%◌, ◌^◌, ◌<◌, ◌≤◌, ◌≡◌, sym, ap, ◌∙◌, false, some, List, [], ◌∷◌, ◌++◌, arith,
  ◌==◌, lt→ltb, length, length-append, get_elem?,
}
use mathlib.Core.List.{append_assoc, append-nil}
use cohere_technology_skillb.Workload.{
  Workload, exit_success, scan_loop, workload_init, entry_index, workload_get_path, after,
}

-- Words that fit the buffer.
abbrev pub AreShort : List (List ℕ) → Type 0
AreShort [] = Unit
AreShort (word ∷ words) = (length word < 256) × AreShort words

scan_loop-append :
    (words paths : List (List ℕ))
    → AreShort words
    → length paths + length words ≤ 100
    → scan_loop words paths ≡ some (paths ++ words)
unfolding scan_loop
scan_loop-append [] paths short fits = ap some (sym (append-nil paths))
scan_loop-append (word ∷ words) paths short fits =
    let next =
      scan_loop-append words (paths ++ (word ∷ [])) short.1
        (omega (arith, length-append paths (word ∷ []))) in
    rw (lt→ltb (length word) 256 short.0, lt→ltb (length paths) 100 (omega arith))
      (next ∙ ap some (append_assoc paths (word ∷ []) words))

-- The state with the words in the array and `c` calls made.
abbrev pub started : List (List ℕ) → ℕ → Workload
started words c = record { path_array = words; unique_paths = length words % 2 ^ 16; counter = c }

after-started :
    (words : List (List ℕ)) (k c : ℕ)
    → c + k < 2 ^ 31
    → after k (started words c) ≡ started words (c + k)
unfolding after workload_get_path
after-started words zero c lt = ap (started words) (omega arith)
after-started words (suc k) c lt =
    let next : (c + 1) % 2 ^ 32 ≡ c + 1 = omega arith in
    let total : (c + 1) + k ≡ c + suc k = omega arith in
    ap (λ m. after k (started words m)) next
    ∙ after-started words k (c + 1) (omega arith)
    ∙ ap (started words) total

entry_index-lt : (entry n : ℕ) → 0 < n → entry < 2 ^ 31 → entry_index entry n ≡ some (entry % n)
unfolding entry_index
entry_index-lt entry n pos lt =
    let nonzero : (n == 0) ≡ false = ground arith in rw (nonzero, lt→ltb entry (2 ^ 31) lt)

-- At a start with at least one and at most 100 words of fewer than 256 bytes, workload_init
-- succeeds, and the call of workload_get_path after `k` others, for k < 2 ^ 31, returns the word
-- whose place is k modulo the number of words.
pub workload_init-get_path :
    (words : List (List ℕ)) (k : ℕ)
    → AreShort words
    → 0 < length words
    → length words ≤ 100
    → k < 2 ^ 31
    → (workload_init (some words) 0 ≡ exit_success (started words 0))
      × ((workload_get_path (after k (started words 0))).0 ≡ get_elem? words (k % length words))
unfolding workload_init workload_get_path
workload_init-get_path words k short some_word fits lt =
    let all : length words % 2 ^ 16 ≡ length words = omega arith in
    let index : entry_index (0 + k) (length words % 2 ^ 16) ≡ some (k % length words) =
      ap (entry_index (0 + k)) all
      ∙ ap (λ e. entry_index e (length words)) (omega arith)
      ∙ entry_index-lt k (length words) some_word lt in
    (
      rw (scan_loop-append words [] short (omega arith), workload_init),
      ap (λ w. (workload_get_path w).0) (after-started words k 0 (omega arith))
          ∙ rw (index, workload_get_path),
    )
