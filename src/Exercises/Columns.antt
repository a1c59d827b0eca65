-- ===== src/Exercises/Columns.antt =====
-- detab and entab leave each character that is not blank in its place.
use cohere_technology_skillb.Prelude.{
  ℕ, zero, suc, ◌+◌, ◌-◌, ◌%◌, ◌<◌, ◌≤◌, ◌≡◌, ◌≢◌, refl, sym, ap, ◌∙◌, Bool, true, false, ◌||◌,
  List, [], ◌∷◌, ◌++◌, arith, ◌==◌, ==-ne, leb, replicate, if◌then◌else◌, Bool-cases, inl, inr,
}
use cohere_technology_skillb.Exercises.Tabs.{
  tab_width, next_stop, detab, fill, Blank, out_of_blank, in_blank, enter_blank, leave_blank, entab,
}
use mathlib.Core.Path.{subst}

abbrev pub is_space : ℕ → Bool
is_space c = c == b' '

-- What entab prints for a space.
abbrev pub is_star : ℕ → Bool
is_star c = c == b'*'

-- detab prints the spaces of its input, and stars for tabs.
abbrev pub is_either : ℕ → Bool
is_either c = (c == b' ') || (c == b'*')

-- The characters of a text but tabs and those of `blank`, each with its column, and the ends of its
-- lines.
unfoldable pub shown_at : (blank : ℕ → Bool) → (col : ℕ) → List ℕ → List (ℕ × ℕ)
shown_at blank col [] = []
shown_at blank col (c ∷ s) =
    if c == b'\n'
    then (0, c) ∷ shown_at blank 0 s
    else (if c == b'\t'
        then shown_at blank (next_stop col) s
        else (if blank c
            then shown_at blank (col + 1) s
            else (col, c) ∷ shown_at blank (col + 1) s))

-- No star is in the text.
abbrev pub NoStar : List ℕ → Type 0
NoStar [] = Unit
NoStar (c ∷ s) = (c ≢ b'*') × NoStar s

-- No tab is in the text.
abbrev pub NoTab : List ℕ → Type 0
NoTab [] = Unit
NoTab (c ∷ s) = (c ≢ b'\t') × NoTab s

module _ (blank : ℕ → Bool) (star : blank b'*' ≡ true) where
  stars :
      (n col : ℕ) (s : List ℕ)
      → shown_at blank col (replicate n b'*' ++ s) ≡ shown_at blank (col + n) s
  unfolding shown_at
  stars zero col s = let e : col + 0 ≡ col = omega arith in rw e refl
  stars (suc n) col s =
      let e : col + suc n ≡ col + 1 + n = omega arith in rw (star, e) (stars n (col + 1) s)

NoTab-stars : (n : ℕ) (s : List ℕ) → NoTab s → NoTab (replicate n b'*' ++ s)
NoTab-stars zero s t = t
NoTab-stars (suc n) s t = (omega arith, NoTab-stars n s t)

-- Of a text without stars, the output of detab has no tabs, and with its stars read as spaces it has
-- the same characters in the same places.
pub detab-shown_at :
    (pos : ℕ) (s : List ℕ)
    → NoStar s
    → (shown_at is_either pos (detab pos s) ≡ shown_at is_space pos s) × NoTab (detab pos s)
unfolding detab shown_at
detab-shown_at pos [] n = (refl, tt)
detab-shown_at pos (c ∷ s) n = elim (Bool-cases (c == b'\n')) [
  | inl newline ↦
      let (e, t) = detab-shown_at 0 s n.1 in (simp (newline, e), simp newline (ground arith, t))
  | inr other ↦ elim (Bool-cases (c == b'\t')) [
    | inl tab ↦
        let (e, t) = detab-shown_at (next_stop pos) s n.1 in
        (
          simp (other, tab) (stars is_either refl (tab_width - pos % tab_width) pos _ ∙ e),
          simp (other, tab) (NoTab-stars _ _ t),
        )
    | inr plain ↦
        let (e, t) = detab-shown_at (pos + 1) s n.1 in
        let same : is_either c ≡ is_space c = ground (arith, n.0) in
        (simp (other, plain, same, e), simp (other, plain) (ground arith, t))
  ]
]

-- What entab prints for blanks fills the columns from `i` to `pos`.
fill-shown_at :
    (k i pos : ℕ) (s : List ℕ)
    → i ≤ pos
    → pos - i < k
    → shown_at is_star i (fill k i pos ++ s) ≡ shown_at is_star pos s
unfolding fill shown_at
fill-shown_at zero i pos s le enough = absurd (omega (arith, enough))
fill-shown_at (suc k) i pos s le enough = elim (Bool-cases (leb (next_stop i) pos)) [
  | inl more ↦
      let le' : next_stop i ≤ pos = ground (arith, more) in
      simp more (fill-shown_at k (next_stop i) pos s le' (omega (arith, enough, le')))
  | inr last ↦
      let e : i + (pos - i) ≡ pos = omega (arith, le) in
      simp last (stars is_star refl (pos - i) i s ∙ ap (λ c. shown_at is_star c s) e)
]

-- The column that entab's output has reached.
abbrev column : Blank → (pos : ℕ) → ℕ
column out_of_blank pos = pos
column (in_blank begin) pos = begin

abbrev InOrder : Blank → (pos : ℕ) → Type 0
InOrder out_of_blank pos = Unit
InOrder (in_blank begin) pos = begin ≤ pos

-- No line but the last one ends with a space or a tab.
abbrev pub NoTrailing : (blank : Bool) → List ℕ → Type 0
NoTrailing blank [] = Unit
NoTrailing blank (c ∷ s) =
    if c == b'\n'
    then (blank ≡ false) × NoTrailing false s
    else NoTrailing ((c == b'\t') || (c == b' ')) s

abbrev in_run : Blank → Bool
in_run out_of_blank = false
in_run (in_blank begin) = true

enter-column :
    (state : Blank) (pos pos' : ℕ) → column (enter_blank state pos) pos' ≡ column state pos
enter-column out_of_blank pos pos' = refl
enter-column (in_blank begin) pos pos' = refl

enter-run : (state : Blank) (pos : ℕ) → in_run (enter_blank state pos) ≡ true
enter-run out_of_blank pos = refl
enter-run (in_blank begin) pos = refl

enter-InOrder :
    (state : Blank) (pos pos' : ℕ)
    → InOrder state pos
    → pos ≤ pos'
    → InOrder (enter_blank state pos) pos'
enter-InOrder out_of_blank pos pos' o le = le
enter-InOrder (in_blank begin) pos pos' o le = omega (arith, o, le)

leave-shown_at :
    (state : Blank) (pos : ℕ) (s : List ℕ)
    → InOrder state pos
    → shown_at is_star (column state pos) (leave_blank state pos ++ s) ≡ shown_at is_star pos s
leave-shown_at out_of_blank pos s o = refl
leave-shown_at (in_blank begin) pos s o = fill-shown_at (pos + 1) begin pos s o (omega (arith, o))

-- A character that shows.
one_column :
    (pos c : ℕ) (s s' : List ℕ)
    → (c == b'\n') ≡ false
    → (c == b'\t') ≡ false
    → (c == b' ') ≡ false
    → (c == b'*') ≡ false
    → shown_at is_star (pos + 1) s ≡ shown_at is_space (pos + 1) s'
    → shown_at is_star pos (c ∷ s) ≡ shown_at is_space pos (c ∷ s')
unfolding shown_at
one_column pos c s s' newline tab space star e = simp (newline, tab, space, star, e)

out_of_run : (state : Blank) → in_run state ≡ false → state ≡ out_of_blank
out_of_run out_of_blank e = refl
out_of_run (in_blank begin) e = cc

entab-shows :
    (state : Blank) (pos c : ℕ) (s : List ℕ)
    → (c == b'\n') ≡ false
    → (c == b'\t') ≡ false
    → (c == b' ') ≡ false
    → entab state pos (c ∷ s) ≡ leave_blank state pos ++ (c ∷ entab out_of_blank (pos + 1) s)
unfolding entab
entab-shows state pos c s newline tab space = simp (newline, tab, space)

entab-loop :
    (state : Blank) (pos : ℕ) (s : List ℕ)
    → InOrder state pos
    → NoStar s
    → NoTrailing (in_run state) s
    → shown_at is_star (column state pos) (entab state pos s) ≡ shown_at is_space pos s
unfolding entab shown_at
entab-loop state pos [] o n t = refl
entab-loop state pos (c ∷ s) o n t = elim (Bool-cases (c == b'\n')) [
  | inl newline ↦
      let (out, t') : (in_run state ≡ false) × NoTrailing false s = simp newline at t in
      let ih =
        subst (λ st. shown_at is_star 0 (entab st 0 s) ≡ shown_at is_space 0 s)
          (sym (out_of_run state out)) (entab-loop out_of_blank 0 s tt n.1 t') in
      simp (newline, ih)
  | inr other ↦ elim (Bool-cases (c == b'\t')) [
    | inl tab ↦
        let t' : NoTrailing (in_run (enter_blank state pos)) s =
          subst (λ b. NoTrailing b s) (sym (enter-run state pos)) (simp (other, tab) at t) in
        let ih =
          entab-loop (enter_blank state pos) (next_stop pos) s
            (enter-InOrder state pos (next_stop pos) o (omega arith)) n.1 t' in
        simp (other, tab) (rw (enter-column state pos (next_stop pos)) at ih)
    | inr text ↦ elim (Bool-cases (c == b' ')) [
      | inl space ↦
          let t' : NoTrailing (in_run (enter_blank state pos)) s =
            subst (λ b. NoTrailing b s) (sym (enter-run state pos))
              (simp (other, text, space) at t) in
          let ih =
            entab-loop (enter_blank state pos) (pos + 1) s
              (enter-InOrder state pos (pos + 1) o (omega arith)) n.1 t' in
          simp (other, text, space) (rw (enter-column state pos (pos + 1)) at ih)
      | inr shows ↦
          let ih = entab-loop out_of_blank (pos + 1) s tt n.1 (simp (other, text, shows) at t) in
          ap (shown_at is_star (column state pos)) (entab-shows state pos c s other text shows)
          ∙ (leave-shown_at state pos (c ∷ entab out_of_blank (pos + 1) s) o
              ∙ one_column pos c (entab out_of_blank (pos + 1) s) s other text shows
                  (==-ne c b'*' n.0) ih)
    ]
  ]
]

-- On a text without stars of which no line but the last one ends with a space or a tab, entab prints
-- every character that is not a space or a tab in its column, every newline, and else only tabs and
-- stars: with its stars read as spaces, the output looks the same.
pub entab-shown_at :
    (s : List ℕ)
    → NoStar s
    → NoTrailing false s
    → shown_at is_star 0 (entab out_of_blank 0 s) ≡ shown_at is_space 0 s
entab-shown_at s n t = entab-loop out_of_blank 0 s tt n t
