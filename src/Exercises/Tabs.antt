-- ===== src/Exercises/Tabs.antt =====
-- detab and entab of ex1_20_21.c.
use cohere_technology_skillb.Prelude.{
  ℕ, zero, suc, ◌+◌, ◌-◌, ◌%◌, not, List, [], ◌∷◌, ◌++◌, ◌==◌, leb, replicate, if◌then◌else◌,
}

abbrev pub tab_width : ℕ
tab_width = 8

-- The next tab stop behind the column `pos`.
abbrev pub next_stop : ℕ → ℕ
next_stop pos = pos + (tab_width - pos % tab_width)

-- The loop of detab from the column `pos` on.
unfoldable pub detab : (pos : ℕ) → List ℕ → List ℕ
detab pos [] = []
detab pos (c ∷ s) =
    if c == b'\n'
    then c ∷ detab 0 s
    else (if not (c == b'\t')
        then c ∷ detab (pos + 1) s
        else replicate (tab_width - pos % tab_width) b'*' ++ detab (next_stop pos) s)

-- What entab prints for the blanks from the column `i` to `pos`.
unfoldable pub fill : (fuel i pos : ℕ) → List ℕ
fill zero i pos = []
fill (suc k) i pos =
    let rest = fill k (next_stop i) pos in
    if leb (next_stop i) pos then b'\t' ∷ rest else replicate (pos - i) b'*'

-- OUT_OF_BLANK, or IN_BLANK with blankBegin.
pub data Blank : Type 0 where
  out_of_blank : Blank
  in_blank : (begin : ℕ) → Blank

abbrev pub enter_blank : Blank → (pos : ℕ) → Blank
enter_blank out_of_blank pos = in_blank pos
enter_blank (in_blank begin) pos = in_blank begin

abbrev pub leave_blank : Blank → (pos : ℕ) → List ℕ
leave_blank out_of_blank pos = []
leave_blank (in_blank begin) pos = fill (pos + 1) begin pos

-- The loop of entab.
unfoldable pub entab : Blank → (pos : ℕ) → List ℕ → List ℕ
unfolding fill
entab state pos [] = []
entab state pos (c ∷ s) =
    if c == b'\n'
    then c ∷ entab state 0 s
    else (if c == b'\t'
        then entab (enter_blank state pos) (next_stop pos) s
        else (if c == b' '
            then entab (enter_blank state pos) (pos + 1) s
            else leave_blank state pos ++ (c ∷ entab out_of_blank (pos + 1) s)))
