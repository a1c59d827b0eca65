-- ===== src/Getfile/Text.antt =====
-- The functions of the C library that the protocol is read and written with.
use cohere_technology_skillb.Prelude.{
  ℕ, zero, suc, ◌+◌, ◌-◌, ◌*◌, ◌/◌, ◌%◌, ◌^◌, ◌<◌, ◌≤◌, ◌≡◌, ◌≢◌, refl, sym, ap, ◌∙◌, Bool, true,
  false, ◌&&◌, ◌||◌, Option, none, some, List, [], ◌∷◌, ◌++◌, ◌==◌, ltb, leb, arith, if◌then◌else◌,
  length, Bool-cases, inl, inr,
}
use mathlib.Core.Option
use native.Mathlib.Nat.{pow-suc}

unfoldable pub starts_with : List ℕ → List ℕ → Bool
starts_with [] s = true
starts_with (n ∷ needle) [] = false
starts_with (n ∷ needle) (c ∷ s) = n == c && starts_with needle s

-- strstr: what stands before the first occurrence, and what begins with it.
unfoldable pub strstr : List ℕ → List ℕ → Option (List ℕ × List ℕ)
unfolding starts_with
strstr needle [] = if starts_with needle [] then some ([], []) else none
strstr needle (c ∷ s) =
    if starts_with needle (c ∷ s)
    then some ([], c ∷ s)
    else Option.map (λ (before, found). (c ∷ before, found)) (strstr needle s)

unfoldable pub has : List ℕ → List ℕ → Bool
unfolding strstr
has needle s = elim (strstr needle s) [ none ↦ false | some p ↦ true ]

-- %zu
unfoldable pub print_loop : ℕ → ℕ → List ℕ → List ℕ
print_loop zero n out = out
print_loop (suc fuel) n out =
    let more = print_loop fuel (n / 10) ((b'0' + n % 10) ∷ out) in
    if ltb n 10 then (b'0' + n) ∷ out else more

unfoldable pub decimal : ℕ → List ℕ
unfolding print_loop
decimal n = print_loop (suc n) n []

abbrev is_digit : ℕ → Bool
is_digit c = leb b'0' c && leb c b'9'

unfoldable pub scan : ℕ → List ℕ → ℕ
scan acc [] = acc
scan acc (c ∷ s) = let more = scan (acc * 10 + (c - b'0')) s in if is_digit c then more else acc

abbrev is_space : ℕ → Bool
is_space c = c == 32 || (leb 9 c && leb c 13)

-- atoi, as a size_t; a value that does not fit an int is undefined in C, and is not wrapped here.
unfoldable pub atoi : List ℕ → ℕ
unfolding scan
atoi [] = 0
atoi (c ∷ s) =
    let skipped = atoi s in
    if is_space c
    then skipped
    else if c == b'-'
    then (2 ^ 64 - scan 0 s) % 2 ^ 64
    else if c == b'+'
    then scan 0 s
    else scan 0 (c ∷ s)

scan-digit : (acc d : ℕ) (s : List ℕ) → d < 10 → scan acc ((b'0' + d) ∷ s) ≡ scan (acc * 10 + d) s
unfolding scan
scan-digit acc d s lt =
    let test : is_digit (b'0' + d) ≡ true = ground arith in
    rw test (ap (λ n. scan n s) (omega arith))

-- What has been printed is read back, whatever follows.
scan-print_loop :
    (fuel n : ℕ) (out : List ℕ) → n < fuel → scan 0 (print_loop fuel n out) ≡ scan n out
unfolding print_loop
scan-print_loop zero n out lt = elim lt [ ]
scan-print_loop (suc fuel) n out lt = elim (Bool-cases (ltb n 10)) [
  | inl small ↦ rw small (scan-digit 0 n out (ground arith) ∙ ap (λ k. scan k out) (omega arith))
  | inr large ↦ rw large (
      scan-print_loop fuel (n / 10) _ (ground arith)
      ∙ scan-digit (n / 10) (n % 10) out (omega arith)
      ∙ ap (λ k. scan k out) (omega arith))
]

print_loop-append :
    (fuel n : ℕ) (out more : List ℕ)
    → print_loop fuel n (out ++ more) ≡ print_loop fuel n out ++ more
unfolding print_loop
print_loop-append zero n out more = refl
print_loop-append (suc fuel) n out more =
    ground (arith, print_loop-append fuel (n / 10) ((b'0' + n % 10) ∷ out) more)

-- No byte of the text is `c`.
abbrev pub Avoids : ℕ → List ℕ → Type 0
Avoids c [] = Unit
Avoids c (d ∷ s) = (d ≢ c) × Avoids c s

pub Avoids-append : (c : ℕ) (s t : List ℕ) → Avoids c s → Avoids c t → Avoids c (s ++ t)
Avoids-append c [] t a b = b
Avoids-append c (d ∷ s) t a b = (a.0, Avoids-append c s t a.1 b)

print_loop-Avoids :
    (c fuel n : ℕ) (out : List ℕ)
    → (leb b'0' c && leb c b'9') ≡ false
    → Avoids c out
    → Avoids c (print_loop fuel n out)
unfolding print_loop
print_loop-Avoids c zero n out far a = a
print_loop-Avoids c (suc fuel) n out far a = elim (Bool-cases (ltb n 10)) [
  | inl small ↦ rw small (ground arith, a)
  | inr large ↦ rw large (print_loop-Avoids c fuel (n / 10) _ far (ground arith, a))
]

pub decimal-Avoids : (c n : ℕ) → (leb b'0' c && leb c b'9') ≡ false → Avoids c (decimal n)
unfolding decimal
decimal-Avoids c n far = print_loop-Avoids c (suc n) n [] far tt

length-print_loop :
    (k fuel n : ℕ) (out : List ℕ)
    → n < 10 ^ suc k
    → length (print_loop fuel n out) ≤ suc k + length out
unfolding print_loop
length-print_loop k zero n out lt = omega arith
length-print_loop zero (suc fuel) n out lt =
    let small : ltb n 10 ≡ true = ground (arith, pow-suc 10 0) in rw small (omega arith)
length-print_loop (suc k) (suc fuel) n out lt = elim (Bool-cases (ltb n 10)) [
  | inl small ↦ rw small (omega arith)
  | inr large ↦ rw large (
      omega (
        arith,
        length-print_loop k fuel (n / 10) ((b'0' + n % 10) ∷ out)
            (omega (arith, pow-suc 10 (suc k))),
      ))
]

pub length-decimal : (k n : ℕ) → n < 10 ^ suc k → length (decimal n) ≤ suc k
unfolding decimal
length-decimal k n lt = omega (arith, length-print_loop k (suc n) n [] lt)

abbrev HeadDigit : List ℕ → Type 0
HeadDigit [] = ⊥
HeadDigit (c ∷ s) = is_digit c ≡ true

print_loop-HeadDigit : (fuel n : ℕ) (out : List ℕ) → n < fuel → HeadDigit (print_loop fuel n out)
unfolding print_loop
print_loop-HeadDigit zero n out lt = elim lt [ ]
print_loop-HeadDigit (suc fuel) n out lt = elim (Bool-cases (ltb n 10)) [
  | inl small ↦ rw small (ground arith)
  | inr large ↦ rw large (print_loop-HeadDigit fuel (n / 10) _ (ground arith))
]

atoi-scan : (s t : List ℕ) → HeadDigit s → atoi (s ++ t) ≡ scan 0 (s ++ t)
unfolding atoi
atoi-scan [] t h = absurd h
atoi-scan (c ∷ s) t h =
    let space : is_space c ≡ false = ground arith in
    let minus : (c == b'-') ≡ false = ground arith in
    let plus : (c == b'+') ≡ false = ground arith in rw (space, minus, plus)

-- atoi reads a printed number that is followed by something else.
pub atoi-decimal : (n c : ℕ) (s : List ℕ) → is_digit c ≡ false → atoi (decimal n ++ (c ∷ s)) ≡ n
unfolding decimal
atoi-decimal n c s far =
    atoi-scan (print_loop (suc n) n []) (c ∷ s) (print_loop-HeadDigit (suc n) n [] (omega arith))
    ∙ ap (scan 0) (sym (print_loop-append (suc n) n [] (c ∷ s)))
    ∙ scan-print_loop (suc n) n (c ∷ s) (omega arith)
    ∙ stops
  where
    stops : scan n (c ∷ s) ≡ n
    stops = unfold scan in rw far

-- A text without the first byte of the needle does not hold the needle.
pub strstr-Avoids : (n : ℕ) (needle s : List ℕ) → Avoids n s → strstr (n ∷ needle) s ≡ none
unfolding strstr
strstr-Avoids n needle [] a = refl
strstr-Avoids n needle (c ∷ s) a = ground (arith, strstr-Avoids n needle s)
