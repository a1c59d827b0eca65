-- ===== src/Console/Input/Clean.antt =====
-- Input without a NUL.
use cohere_technology_skillb.Prelude.{
  ℕ, zero, suc, ◌≡◌, refl, Option, none, some, List, [], ◌∷◌, ◌++◌, arith, ◌==◌, Bool-cases, inl,
  inr,
}
use mathlib.Core.Path.{subst}
use cohere_technology_skillb.Queue.Strings.{NoNul}
use cohere_technology_skillb.Console.Input.{
  newline, line_room, Rio, rio, Scan, complete, end_of_file, read_loop, line_of, readline,
  push_file,
}

abbrev pub AllNoNul : List (List ℕ) → Type 0
AllNoNul [] = Unit
AllNoNul (s ∷ ss) = NoNul s × AllNoNul ss

-- No NUL is in the files of the stack, as far as they have not been read.
abbrev pub AllClean : List Rio → Type 0
AllClean [] = Unit
AllClean (r ∷ stack) = (NoNul r.buffer × AllNoNul r.chunks) × AllClean stack

-- No file that can be opened has a NUL.
abbrev pub CleanFiles : (List ℕ → Option (ℕ × List (List ℕ))) → Type 0
CleanFiles open_file =
    (name : List ℕ) (d : ℕ) (chunks : List (List ℕ))
    → open_file name ≡ some (d, chunks)
    → AllNoNul chunks

NoNul-append : (s t : List ℕ) → NoNul s → NoNul t → NoNul (s ++ t)
NoNul-append [] t z z' = z'
NoNul-append (c ∷ s) t z z' = (z.0, NoNul-append s t z.1 z')

abbrev CleanScan : Scan → Type 0
CleanScan (complete text r) = NoNul text × (NoNul r.buffer × AllNoNul r.chunks)
CleanScan (end_of_file text) = NoNul text

read_loop-Clean :
    (room : ℕ) (got : List ℕ) (d : ℕ) (b : List ℕ) (cs : List (List ℕ))
    → NoNul got
    → NoNul b
    → AllNoNul cs
    → CleanScan (read_loop room got (rio d b cs))
unfolding read_loop
read_loop-Clean zero got d b cs zg zb zc =
    (NoNul-append got (newline ∷ []) zg (omega arith, tt), (zb, zc))
read_loop-Clean (suc room) got d [] [] zg zb zc = zg
read_loop-Clean (suc room) got d [] ([] ∷ cs) zg zb zc = zg
read_loop-Clean (suc room) got d [] ((c ∷ s) ∷ cs) zg zb zc =
    let zg' = NoNul-append got (c ∷ []) zg (zc.0.0, tt) in
    let ih = read_loop-Clean room (got ++ (c ∷ [])) d s cs zg' zc.0.1 zc.1 in
    elim (Bool-cases (c == newline)) [
      | inl is ↦ rw is (zg', (zc.0.1, zc.1))
      | inr other ↦ rw other ih
    ]
read_loop-Clean (suc room) got d (c ∷ s) cs zg zb zc =
    let zg' = NoNul-append got (c ∷ []) zg (zb.0, tt) in
    let ih = read_loop-Clean room (got ++ (c ∷ [])) d s cs zg' zb.1 zc in
    elim (Bool-cases (c == newline)) [ inl is ↦ rw is (zg', (zb.1, zc)) | inr other ↦ rw other ih ]

-- The line has no NUL, nor has what is left.
abbrev pub CleanLine : Option (List ℕ) × List Rio → Type 0
CleanLine (none, stack) = AllClean stack
CleanLine (some line, stack) = NoNul line × AllClean stack

-- From files without a NUL readline takes lines without a NUL.
pub readline-Clean : (st : List Rio) → AllClean st → CleanLine (readline st)
unfolding readline
readline-Clean [] z = tt
readline-Clean (r ∷ stack) z =
    by (read_loop line_room [] r)
      (read_loop-Clean line_room [] r.fd r.buffer r.chunks tt z.0.0 z.0.1)
  where
    by : (result : Scan) → CleanScan result → CleanLine (line_of result stack)
    by (complete text r') c = (c.0, (c.1, z.1))
    by (end_of_file []) c = z.1
    by (end_of_file (b ∷ s)) c = (NoNul-append (b ∷ s) (newline ∷ []) c (omega arith, tt), z.1)

pub push_file-Clean :
    (open_file : List ℕ → Option (ℕ × List (List ℕ))) (name : List ℕ) (st st' : List Rio)
    → CleanFiles open_file
    → AllClean st
    → push_file open_file name st ≡ some st'
    → AllClean st'
unfolding push_file
push_file-Clean open_file name st st' files z = by (open_file name) refl
  where
    by :
        (r : Option (ℕ × List (List ℕ)))
        → open_file name ≡ r
        → push_file open_file name st ≡ some st'
        → AllClean st'
    by none e p = let bad : none ≡ some st' = rw (e, push_file) at p in cc
    by (some (d, chunks)) e p =
        let q : some (rio d [] chunks ∷ st) ≡ some st' = rw (e, push_file) at p in
        let same : rio d [] chunks ∷ st ≡ st' = cc in
        subst AllClean same ((tt, files name d chunks e), z)
