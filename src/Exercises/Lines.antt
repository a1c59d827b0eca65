-- ===== src/Exercises/Lines.antt =====
-- ex1_19.c, which prints each line of its input backwards. `none` is an access outside the array.
use cohere_technology_skillb.Prelude.{
  ℕ, zero, suc, ◌+◌, ◌-◌, ◌/◌, true, false, Option, none, some, List, [], ◌∷◌, ◌++◌, ◌==◌,
  get_elem?,
}
use cohere_technology_skillb.Queue.Strings.{set_byte, c_string}

abbrev pub max_len : ℕ
max_len = 100

-- The exchange of line[j] and line[i - 1 - j].
unfoldable pub swap : (i j : ℕ) → List ℕ → Option (List ℕ)
unfolding set_byte
swap i j line = elim (get_elem? line j) [
  | none ↦ none
  | some a ↦ elim (get_elem? line (i - 1 - j)) [
    | none ↦ none
    | some b ↦ elim (set_byte line j b) [ none ↦ none | some line' ↦ set_byte line' (i - 1 - j) a ]
  ]
]

-- The loop over j, for `rounds` more rounds.
unfoldable pub swap_loop : (rounds i j : ℕ) → List ℕ → Option (List ℕ)
unfolding swap
swap_loop zero i j line = some line
swap_loop (suc k) i j line = elim (swap i j line) [
  | none ↦ none
  | some line' ↦ swap_loop k i (j + 1) line'
]

-- What main does at the end of a line of length `i`; the array, and what is printed.
unfoldable pub end_line : (i : ℕ) → List ℕ → Option (List ℕ × List ℕ)
unfolding swap_loop set_byte c_string
end_line i line = elim (swap_loop (i / 2) i 0 line) [
  | none ↦ none
  | some line' ↦ elim (set_byte line' i 0) [
    | none ↦ none
    | some line'' ↦ some (line'', c_string line'' ++ (b'\n' ∷ []))
  ]
]

-- The loop of main.
unfoldable pub reverse_lines : (i : ℕ) → List ℕ → List ℕ → Option (List ℕ)
unfolding end_line set_byte
reverse_lines i line [] = some []
reverse_lines i line (c ∷ s) = elim (c == b'\n') [
  | true ↦ elim (end_line i line) [
    | none ↦ none
    | some (line', printed) ↦ elim (reverse_lines 0 line' s) [
      | none ↦ none
      | some rest ↦ some (printed ++ rest)
    ]
  ]
  | false ↦ elim (set_byte line i c) [ none ↦ none | some line' ↦ reverse_lines (i + 1) line' s ]
]
