-- ===== src/Exercises/Words.antt =====
-- wordCount and printWordPerLine of ch1_examples.c.
use cohere_technology_skillb.Prelude.{
  suc, ℕ, ◌+◌, ◌≡◌, refl, Bool, true, false, ◌||◌, List, [], ◌∷◌, ◌==◌, length, if◌then◌else◌,
  Bool-cases, inl, inr, arith, ◌∙◌,
}

abbrev is_blank : ℕ → Bool
is_blank c = (c == b'\n') || (c == b' ') || (c == b'\t')

-- The counters of wordCount.
pub record WordCounts : Type 0 where
  pub line_count : ℕ
  pub words : ℕ
  pub char_count : ℕ

abbrev count_byte : ℕ → WordCounts → WordCounts
count_byte c n = record n {
  char_count = n.char_count + 1;
  line_count = if c == b'\n' then n.line_count + 1 else n.line_count;
}

abbrev count_word : (inside : Bool) → WordCounts → WordCounts
count_word true n = n
count_word false n = record n { words = n.words + 1 }

-- The loop of wordCount; `inside` is the state IN.
unfoldable pub word_loop : (inside : Bool) → List ℕ → WordCounts → WordCounts
word_loop inside [] n = n
word_loop inside (c ∷ s) n =
    if is_blank c
    then word_loop false s (count_byte c n)
    else word_loop true s (count_word inside (count_byte c n))

unfoldable pub word_count : List ℕ → WordCounts
unfolding word_loop
word_count s = word_loop false s (record { line_count = 0; words = 0; char_count = 0 })

unfoldable pub per_line_loop : (inside : Bool) → List ℕ → List ℕ
per_line_loop inside [] = []
per_line_loop inside (c ∷ s) =
    if is_blank c
    then (if inside then b'\n' ∷ per_line_loop false s else per_line_loop false s)
    else c ∷ per_line_loop true s

unfoldable pub print_word_per_line : List ℕ → List ℕ
unfolding per_line_loop
print_word_per_line = per_line_loop false

twice :
    (inside : Bool) (s : List ℕ)
    → per_line_loop inside (per_line_loop inside s) ≡ per_line_loop inside s
unfolding per_line_loop
twice inside [] = refl
twice false (c ∷ s) = elim (Bool-cases (is_blank c)) [
  | inl blank ↦ simp blank (twice false s)
  | inr inner ↦ simp (inner, twice true s)
]
twice true (c ∷ s) = elim (Bool-cases (is_blank c)) [
  | inl blank ↦ simp (blank, twice false s)
  | inr inner ↦ simp (inner, twice true s)
]

-- A word that has begun, and the words behind it.
abbrev close : List ℕ × List (List ℕ) → List (List ℕ)
close ([], ws) = ws
close (c ∷ w, ws) = (c ∷ w) ∷ ws

abbrev longer : ℕ → List ℕ × List (List ℕ) → List ℕ × List (List ℕ)
longer c (w, ws) = (c ∷ w, ws)

-- The characters up to the first blank, and the words behind it.
unfoldable pub front : List ℕ → List ℕ × List (List ℕ)
front [] = ([], [])
front (c ∷ s) = if is_blank c then ([], close (front s)) else longer c (front s)

-- The words of a text: what stands between blanks.
abbrev pub words_of : List ℕ → List (List ℕ)
words_of s = close (front s)

close-longer : (c : ℕ) (r : List ℕ × List (List ℕ)) → close (longer c r) ≡ (c ∷ r.0) ∷ r.1
close-longer c (w, ws) = refl

same_front :
    (s : List ℕ)
    → (front (per_line_loop true s) ≡ front s)
      × (close (front (per_line_loop false s)) ≡ close (front s))
unfolding front per_line_loop
same_front [] = (refl, refl)
same_front (c ∷ s) =
    let (inside, outside) = same_front s in
    elim (Bool-cases (is_blank c)) [
      | inl blank ↦ (simp (blank, outside), simp (blank, outside))
      | inr inner ↦ (simp (inner, inside), simp (inner, inside))
    ]

-- The words that the rest of a text begins: in a word, those behind it.
abbrev begun : (inside : Bool) → List ℕ × List (List ℕ) → ℕ
begun true r = length r.1
begun false r = length (close r)

word_loop-length :
    (inside : Bool) (s : List ℕ) (n : WordCounts)
    → (word_loop inside s n).words ≡ n.words + begun inside (front s)
unfolding word_loop front
word_loop-length true [] n = omega arith
word_loop-length false [] n = omega arith
word_loop-length true (c ∷ s) n = elim (Bool-cases (is_blank c)) [
  | inl blank ↦ simp blank (word_loop-length false s (count_byte c n))
  | inr inner ↦ simp inner (word_loop-length true s (count_byte c n))
]
word_loop-length false (c ∷ s) n = elim (Bool-cases (is_blank c)) [
  | inl blank ↦ simp blank (word_loop-length false s (count_byte c n))
  | inr inner ↦ simp inner (
      word_loop-length true s (count_word false (count_byte c n))
      ∙ (let e : n.words + 1 + length (front s).1 ≡ n.words + suc (length (front s).1) =
            omega arith in
          e))
]

-- printWordPerLine prints the words of its input, the same in the same order and nothing else but
-- white space, wordCount counts these words, and what printWordPerLine has printed it prints again
-- as it is.
pub print_word_per_line-words :
    (s : List ℕ)
    → (words_of (print_word_per_line s) ≡ words_of s)
      × ((word_count s).words ≡ length (words_of s))
      × (print_word_per_line (print_word_per_line s) ≡ print_word_per_line s)
unfolding print_word_per_line word_count
print_word_per_line-words s =
    ((same_front s).1, word_loop-length false s _ ∙ omega arith, twice false s)
