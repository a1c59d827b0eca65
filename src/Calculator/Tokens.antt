-- ===== src/Calculator/Tokens.antt =====
-- What getop reads from the text of one token.
use cohere_technology_skillb.Prelude.{
  ℕ, suc, ◌<◌, ◌≡◌, refl, true, false, some, List, [], ◌∷◌, ◌++◌, arith, ◌==◌, ltb, length,
}
use cohere_technology_skillb.Calculator.{Source, ungetch, scan, scan_input, is_digit, getop, number}

abbrev pub at_start : List ℕ → Source
at_start s = record { buf = []; input = s }

-- The text `s` behind a blank that has been put back.
abbrev pub put_back : List ℕ → Source
put_back s = record { buf = b' ' ∷ []; input = s }

abbrev pub AllDigits : List ℕ → Type 0
AllDigits [] = Unit
AllDigits (c ∷ s) = (is_digit c ≡ true) × AllDigits s

-- A blank in front makes no difference.
pub getop-put_back : (s : List ℕ) → getop (put_back s) ≡ getop (at_start s)
unfolding getop scan
getop-put_back s = refl

pub getop-blank : (s : List ℕ) → getop (at_start (b' ' ∷ s)) ≡ getop (at_start s)
unfolding getop scan scan_input
getop-blank s = refl

scan-digits :
    (ds s : List ℕ)
    → AllDigits ds
    → scan is_digit [] (ds ++ (b' ' ∷ s)) ≡ (ds, (some b' ', at_start s))
unfolding scan scan_input
scan-digits [] s a = refl
scan-digits (d ∷ ds) s a = rw (a.0, scan-digits ds s a.1) refl

-- A number up to a blank.
pub getop-number :
    (d : ℕ) (ds s : List ℕ)
    → is_digit d ≡ true
    → AllDigits ds
    → length ds < 99
    → getop (at_start (d ∷ (ds ++ (b' ' ∷ s)))) ≡ some (number (d ∷ ds), put_back s)
unfolding getop scan scan_input ungetch
getop-number d ds s digit all short =
    let b : (d == b' ') ≡ false = ground (arith, digit) in
    let t : (d == b'\t') ≡ false = ground (arith, digit) in
    let m : (d == b'-') ≡ false = ground (arith, digit) in
    let fits : ltb (suc (length ds)) 100 ≡ true = ground (arith, short) in
    simp (getop, b, t, digit, m, scan-digits ds s all, fits)
