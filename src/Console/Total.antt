-- ===== src/Console/Total.antt =====
-- parse_args on the lines that readline returns.
use cohere_technology_skillb.Prelude.{
  ℕ, zero, suc, ◌+◌, ◌≤◌, ◌≡◌, refl, sym, Bool, true, false, some, List, [], ◌∷◌, ◌++◌, arith, ◌==◌,
  ==-ne, Bool-cases, inl, inr, if◌then◌else◌,
}
use mathlib.Core.Path.{subst}
use cohere_technology_skillb.Queue.Strings.{NoNul}
use cohere_technology_skillb.Console.{isspace, scan_words, next_string, save_strings, parse_args}
use cohere_technology_skillb.Console.Input.{newline, Rio, readline}
use cohere_technology_skillb.Console.Input.Lines.{readline-IsTerminated}

-- The number of terminators.
zeros : List ℕ → ℕ
zeros [] = 0
zeros (c ∷ s) = if c == 0 then suc (zeros s) else zeros s

zeros-append : (s t : List ℕ) → zeros s ≤ zeros (s ++ t)
unfolding zeros
zeros-append [] t = omega arith
zeros-append (c ∷ s) t = ground (arith, zeros-append s t)

-- A line without a NUL that ends in a newline gets a terminator for each of its words.
scan_words-zeros :
    (skipping : Bool) (s : List ℕ)
    → NoNul s
    → (scan_words skipping (s ++ (newline ∷ []))).1 + (if skipping then 0 else 1)
      ≤ zeros (scan_words skipping (s ++ (newline ∷ []))).0
unfolding scan_words zeros isspace
scan_words-zeros true [] z = omega arith
scan_words-zeros false [] z = omega arith
scan_words-zeros true (c ∷ s) z =
    let gap = scan_words-zeros true s z.1 in
    let word = scan_words-zeros false s z.1 in
    let nz = ==-ne c 0 z.0 in
    elim (Bool-cases (isspace c)) [
      | inl is ↦ rw (nz, is) gap
      | inr not ↦ rw (nz, not) (ground arith)
    ]
scan_words-zeros false (c ∷ s) z =
    let gap = scan_words-zeros true s z.1 in
    let word = scan_words-zeros false s z.1 in
    let nz = ==-ne c 0 z.0 in
    elim (Bool-cases (isspace c)) [
      | inl is ↦ rw (nz, is) (omega arith)
      | inr not ↦ rw (nz, not) (ground arith)
    ]

next_string-total :
    (buf : List ℕ) (n : ℕ)
    → suc n ≤ zeros buf
    → (word : List ℕ) × ((rest : List ℕ) × ((next_string buf ≡ some (word, rest))
          × (n ≤ zeros rest)))
unfolding next_string zeros
next_string-total [] n le = absurd (omega arith)
next_string-total (c ∷ s) n le = elim (Bool-cases (c == 0)) [
  | inl end ↦ ([], (s, (rw end, ground arith)))
  | inr more ↦
      let (word, (rest, (e, le'))) = next_string-total s n (ground arith) in
      (c ∷ word, (rest, (rw (more, e), le')))
]

save_strings-total :
    (argc : ℕ) (buf : List ℕ)
    → argc ≤ zeros buf
    → (argv : List (List ℕ)) × (save_strings argc buf ≡ some argv)
unfolding save_strings
save_strings-total zero buf le = ([], refl)
save_strings-total (suc argc) buf le =
    let (word, (rest, (e, le'))) = next_string-total buf argc le in
    let (argv, e') = save_strings-total argc rest le' in (word ∷ argv, rw (e, save_strings) (rw e'))

-- A line without a NUL that ends in a newline is split.
pub parse_args-total :
    (s unset : List ℕ)
    → NoNul s
    → (argv : List (List ℕ)) × (parse_args (s ++ (newline ∷ [])) unset ≡ some argv)
unfolding parse_args
parse_args-total s unset z =
    let (buf, argc) = scan_words true (s ++ (newline ∷ [])) in
    let enough = scan_words-zeros true s z in
    let more = zeros-append buf unset in save_strings-total argc (buf ++ unset) (omega arith)

NoNul-front : (s t : List ℕ) → NoNul (s ++ t) → NoNul s
NoNul-front [] t z = tt
NoNul-front (c ∷ s) t z = (z.0, NoNul-front s t z.1)

-- Every line without a NUL that readline returns is split without a read past what parse_args has written,
-- whatever malloc left in the rest of its buffer.
pub parse_args-readline :
    (st st' : List Rio) (line unset : List ℕ)
    → readline st ≡ (some line, st')
    → NoNul line
    → (argv : List (List ℕ)) × (parse_args line unset ≡ some argv)
parse_args-readline st st' line unset e z =
    let (s, same) = (readline-IsTerminated st st' line e).1 in
    subst (λ l. (argv : List (List ℕ)) × (parse_args l unset ≡ some argv)) (sym same)
      (parse_args-total s unset (NoNul-front s (newline ∷ []) (subst NoNul same z)))
