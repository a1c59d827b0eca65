-- ===== src/Console/Split.antt =====
-- parse_args gives back the words of a line.
use cohere_technology_skillb.Prelude.{
  ℕ, ◌≡◌, ◌≢◌, refl, ap, ◌∙◌, true, false, some, List, [], ◌∷◌, ◌++◌, arith, ◌==◌, ==-ne, length,
  map,
}
use mathlib.Core.List.{append_assoc}
use cohere_technology_skillb.Console.{isspace, scan_words, next_string, save_strings, parse_args}

-- All bytes are white space.
abbrev pub IsSpace : List ℕ → Type 0
IsSpace [] = Unit
IsSpace (c ∷ s) = (isspace c ≡ true) × IsSpace s

-- No byte is white space or the terminator.
abbrev pub IsWord : List ℕ → Type 0
IsWord [] = Unit
IsWord (c ∷ s) = (isspace c ≡ false) × ((c ≢ 0) × IsWord s)

-- A word, by its first byte and the others, and the white space behind it, likewise.
pub record Piece : Type 0 where
  pub first : ℕ
  pub others : List ℕ
  pub space : ℕ
  pub spaces : List ℕ
  pub is_word : IsWord (first ∷ others)
  pub is_space : IsSpace (space ∷ spaces)

abbrev pub words : List Piece → List (List ℕ)
words = map (λ p. p.first ∷ p.others)

abbrev pub line : List Piece → List ℕ
line [] = []
line (p ∷ ps) = (p.first ∷ p.others) ++ ((p.space ∷ p.spaces) ++ line ps)

-- What the first loop is to write: the words with their terminators.
abbrev stored : List Piece → List ℕ
stored [] = []
stored (p ∷ ps) = (p.first ∷ p.others) ++ (0 ∷ stored ps)

isspace-ne_zero : (c : ℕ) → isspace c ≡ true → (c == 0) ≡ false
unfolding isspace
isspace-ne_zero c is = ground (arith, is)

scan_words-space : (s t : List ℕ) → IsSpace s → scan_words true (s ++ t) ≡ scan_words true t
unfolding scan_words
scan_words-space [] t a = refl
scan_words-space (c ∷ s) t a = rw (isspace-ne_zero c a.0, a.0) (scan_words-space s t a.1)

scan_words-word :
    (s t : List ℕ)
    → IsWord s
    → scan_words false (s ++ t) ≡ (s ++ (scan_words false t).0, (scan_words false t).1)
unfolding scan_words
scan_words-word [] t a = refl
scan_words-word (c ∷ s) t a = rw (==-ne c 0 a.1.0, a.0) (rw (scan_words-word s t a.1.1))

scan_words-line : (ps : List Piece) → scan_words true (line ps) ≡ (stored ps, length ps)
unfolding scan_words
scan_words-line [] = refl
scan_words-line (p ∷ ps) =
    let rest : List ℕ = p.spaces ++ line ps in
    let behind : scan_words false (p.space ∷ rest) ≡ (0 ∷ stored ps, length ps) =
      rw (isspace-ne_zero p.space p.is_space.0, p.is_space.0)
        (rw (scan_words-space p.spaces (line ps) p.is_space.1 ∙ scan_words-line ps)) in
    let whole : scan_words false (p.others ++ (p.space ∷ rest))
        ≡ (p.others ++ (0 ∷ stored ps), length ps) =
      scan_words-word p.others (p.space ∷ rest) p.is_word.1.1
      ∙ ap (λ r. (p.others ++ r.0, r.1)) behind in
    rw (==-ne p.first 0 p.is_word.1.0, p.is_word.0) (rw whole)

next_string-word : (s t : List ℕ) → IsWord s → next_string (s ++ (0 ∷ t)) ≡ some (s, t)
unfolding next_string
next_string-word [] t a = refl
next_string-word (c ∷ s) t a =
    let more : (c == 0) ≡ false = ground (arith, a.1.0) in rw (more, next_string-word s t a.1.1)

save_strings-stored :
    (ps : List Piece) (unset : List ℕ)
    → save_strings (length ps) (stored ps ++ unset) ≡ some (words ps)
unfolding save_strings
save_strings-stored [] unset = refl
save_strings-stored (p ∷ ps) unset =
    let word : List ℕ = p.first ∷ p.others in
    let next : next_string ((word ++ (0 ∷ stored ps)) ++ unset) ≡ some (word, stored ps ++ unset) =
      ap next_string (append_assoc word (0 ∷ stored ps) unset)
      ∙ next_string-word word (stored ps ++ unset) p.is_word in
    rw (next, save_strings) (rw (save_strings-stored ps unset))

-- Whatever the buffer held before, parse_args splits a line of words that each have white space
-- behind them, with white space before the first or not, into these words, and reads nothing past
-- the part of the buffer that it has written.
pub parse_args-line :
    (s unset : List ℕ) (ps : List Piece)
    → IsSpace s
    → parse_args (s ++ line ps) unset ≡ some (words ps)
unfolding parse_args
parse_args-line s unset ps a =
    rw (scan_words-space s (line ps) a ∙ scan_words-line ps, parse_args)
      (save_strings-stored ps unset)
