-- ===== src/Exercises/Tests.antt =====
-- The programs on short texts.
use cohere_technology_skillb.Prelude.{
  ℕ, ◌≡◌, ◌≢◌, refl, ap, some, List, [], ◌∷◌, ◌++◌, length, map, reverse, replicate, arith,
}
use cohere_technology_skillb.Exercises.Tabs.{detab, fill, entab, out_of_blank}
use cohere_technology_skillb.Exercises.Columns.{is_space, is_star, shown_at, entab-shown_at}
use cohere_technology_skillb.Exercises.Words.{
  words_of, word_count, print_word_per_line, print_word_per_line-words,
}
use cohere_technology_skillb.Exercises.Lines.{max_len, reverse_lines}
use cohere_technology_skillb.Exercises.Backwards.{text_of, reverse_lines-reverse}

-- "a", a tab and "bc", with a newline.
abbrev tabbed : List ℕ
tabbed = b'a' ∷ b'\t' ∷ b'b' ∷ b'c' ∷ b'\n' ∷ []

detab_run :
    detab 0 tabbed
    ≡ b'a' ∷ b'*' ∷ b'*' ∷ b'*' ∷ b'*' ∷ b'*' ∷ b'*' ∷ b'*' ∷ b'b' ∷ b'c' ∷ b'\n' ∷ []
unfolding detab
detab_run = refl

entab_run :
    entab out_of_blank 0
      (b'a' ∷ b' ' ∷ b' ' ∷ b' ' ∷ b' ' ∷ b' ' ∷ b' ' ∷ b' ' ∷ b'b' ∷ b'c' ∷ b'\n' ∷ [])
    ≡ tabbed
unfolding entab fill
entab_run = refl

abbrev last_column : List (ℕ × ℕ) → ℕ
last_column [] = 0
last_column (p ∷ []) = p.0
last_column (p ∷ ps) = last_column ps

-- After a line that ends with a space entab takes the blanks that start the next line for fewer
-- than they are.
entab_stale :
    shown_at is_star 0 (entab out_of_blank 0 (b'a' ∷ b' ' ∷ b'\n' ∷ b' ' ∷ b' ' ∷ b' ' ∷ b'b' ∷ []))
    ≢ shown_at is_space 0 (b'a' ∷ b' ' ∷ b'\n' ∷ b' ' ∷ b' ' ∷ b' ' ∷ b'b' ∷ [])
unfolding entab fill shown_at
entab_stale e = omega (arith, ap last_column e)

-- The last line is not printed if no newline ends it.
reverse_unfinished : reverse_lines 0 (replicate max_len 7) (b'a' ∷ b'b' ∷ []) ≡ some []
unfolding reverse_lines
reverse_unfinished = refl

entab-shown_at_example :
    shown_at is_star 0 (entab out_of_blank 0 tabbed) ≡ shown_at is_space 0 tabbed
entab-shown_at_example = entab-shown_at tabbed (omega arith) (refl, tt)

print_word_per_line-words_example :
    (words_of (print_word_per_line tabbed) ≡ words_of tabbed)
    × ((word_count tabbed).words ≡ length (words_of tabbed))
    × (print_word_per_line (print_word_per_line tabbed) ≡ print_word_per_line tabbed)
print_word_per_line-words_example = print_word_per_line-words tabbed

abbrev two_lines : List (List ℕ)
two_lines = (b'a' ∷ b'b' ∷ b'c' ∷ []) ∷ (b'x' ∷ b'y' ∷ []) ∷ []

reverse_lines-reverse_example :
    reverse_lines 0 (replicate max_len 7) (text_of two_lines ++ (b'z' ∷ []))
    ≡ some (text_of (map reverse two_lines))
reverse_lines-reverse_example =
    reverse_lines-reverse (replicate max_len 7) two_lines (b'z' ∷ []) refl (omega arith)
      (omega arith) (omega arith)
