-- ===== src/Exercises/Backwards.antt =====
-- ex1_19.c prints each line backwards.
use cohere_technology_skillb.Prelude.{
  ℕ, zero, suc, ◌+◌, ◌-◌, ◌/◌, ◌<◌, ◌≡◌, ◌≢◌, refl, sym, ap, ◌∙◌, some, List, [], ◌∷◌, ◌++◌, arith,
  ==-ne, get_elem?, length, length-append, length-reverse_aux, reverse, reverse_aux, map,
}
use mathlib.Core.List.{append-nil}
use cohere_technology_skillb.Queue.Strings.{set_byte, c_string, NoNul}
use cohere_technology_skillb.Exercises.Lines.{max_len, swap, swap_loop, end_line, reverse_lines}

append_assoc : (xs ys zs : List ℕ) → (xs ++ ys) ++ zs ≡ xs ++ (ys ++ zs)
append_assoc [] ys zs = refl
append_assoc (x ∷ xs) ys zs = ap (λ r. x ∷ r) (append_assoc xs ys zs)

get-append :
    (xs : List ℕ) (n c : ℕ) (ys : List ℕ) → n ≡ length xs → get_elem? (xs ++ (c ∷ ys)) n ≡ some c
get-append [] zero c ys e = refl
get-append [] (suc n) c ys e = absurd (omega (arith, e))
get-append (x ∷ xs) zero c ys e = absurd (omega (arith, e))
get-append (x ∷ xs) (suc n) c ys e = get-append xs n c ys (omega (arith, e))

set-append :
    (xs : List ℕ) (n c d : ℕ) (ys : List ℕ)
    → n ≡ length xs
    → set_byte (xs ++ (c ∷ ys)) n d ≡ some (xs ++ (d ∷ ys))
unfolding set_byte
set-append [] zero c d ys e = refl
set-append [] (suc n) c d ys e = absurd (omega (arith, e))
set-append (x ∷ xs) zero c d ys e = absurd (omega (arith, e))
set-append (x ∷ xs) (suc n) c d ys e = rw (set-append xs n c d ys (omega (arith, e))) refl

-- A list that is not empty has a last element.
snoc_of : (x : ℕ) (xs : List ℕ) → (mid : List ℕ) × ((y : ℕ) × (x ∷ xs ≡ mid ++ (y ∷ [])))
snoc_of x [] = ([], (x, refl))
snoc_of x (x' ∷ xs) = let (mid, (y, e)) = snoc_of x' xs in (x ∷ mid, (y, ap (λ r. x ∷ r) e))

reverse_aux-snoc :
    (xs acc : List ℕ) (y : ℕ) → reverse_aux (xs ++ (y ∷ [])) acc ≡ y ∷ reverse_aux xs acc
reverse_aux-snoc [] acc y = refl
reverse_aux-snoc (x ∷ xs) acc y = reverse_aux-snoc xs (x ∷ acc) y

reverse_aux-append : (xs acc zs : List ℕ) → reverse_aux xs acc ++ zs ≡ reverse_aux xs (acc ++ zs)
reverse_aux-append [] acc zs = refl
reverse_aux-append (x ∷ xs) acc zs = reverse_aux-append xs (x ∷ acc) zs

-- One exchange.
swap-ends :
    (i j : ℕ) (pre : List ℕ) (x : ℕ) (mid : List ℕ) (y : ℕ) (post : List ℕ)
    → j ≡ length pre
    → i ≡ j + (j + (length mid + 2))
    → swap i j (pre ++ (x ∷ (mid ++ (y ∷ post)))) ≡ some (pre ++ (y ∷ (mid ++ (x ∷ post))))
unfolding swap
swap-ends i j pre x mid y post ej ei =
    let far : (c : ℕ) → i - 1 - j ≡ length (pre ++ (c ∷ mid)) =
      λ c. omega (arith, ej, ei, length-append pre (c ∷ mid)) in
    let shift : (c d : ℕ) → (pre ++ (c ∷ mid)) ++ (d ∷ post) ≡ pre ++ (c ∷ (mid ++ (d ∷ post))) =
      λ c d. append_assoc pre (c ∷ mid) (d ∷ post) in
    let one = get-append pre j x (mid ++ (y ∷ post)) ej in
    let two =
      ap (λ l. get_elem? l (i - 1 - j)) (sym (shift x y))
      ∙ get-append (pre ++ (x ∷ mid)) (i - 1 - j) y post (far x) in
    let three = set-append pre j x y (mid ++ (y ∷ post)) ej in
    let four =
      ap (λ l. set_byte l (i - 1 - j) x) (sym (shift y y))
      ∙ (set-append (pre ++ (y ∷ mid)) (i - 1 - j) y x post (far y) ∙ ap some (shift y x)) in
    rw (swap, one, two, three, four) refl

-- The loop reverses the part of the array that it has not reached yet.
swap_loop-reverse :
    (k i j : ℕ) (pre xs post : List ℕ)
    → j ≡ length pre
    → i ≡ j + (j + length xs)
    → k ≡ length xs / 2
    → swap_loop k i j (pre ++ (xs ++ post)) ≡ some (pre ++ reverse_aux xs post)
unfolding swap_loop
swap_loop-reverse zero i j pre [] post ej ei ek = refl
swap_loop-reverse zero i j pre (x ∷ []) post ej ei ek = refl
swap_loop-reverse zero i j pre (x ∷ x' ∷ xs) post ej ei ek = absurd (omega (arith, ek))
swap_loop-reverse (suc k) i j pre [] post ej ei ek = absurd (omega (arith, ek))
swap_loop-reverse (suc k) i j pre (x ∷ []) post ej ei ek = absurd (omega (arith, ek))
swap_loop-reverse (suc k) i j pre (x ∷ x' ∷ xs) post ej ei ek =
    let (mid, (y, e)) = snoc_of x' xs in
    let long : length xs + 1 ≡ length mid + 1 =
      omega (arith, ap length e, length-append mid (y ∷ [])) in
    let shape : pre ++ ((x ∷ x' ∷ xs) ++ post) ≡ pre ++ (x ∷ (mid ++ (y ∷ post))) =
      ap (λ l. pre ++ (x ∷ l)) (ap (λ l. l ++ post) e ∙ append_assoc mid (y ∷ []) post) in
    let one = ap (swap i j) shape ∙ swap-ends i j pre x mid y post ej (omega (arith, ei, long)) in
    let ih =
      swap_loop-reverse k i (j + 1) (pre ++ (y ∷ [])) mid (x ∷ post)
        (omega (arith, ej, length-append pre (y ∷ []))) (omega (arith, ei, long))
        (omega (arith, ek, long)) in
    let moved =
      ap (swap_loop k i (j + 1)) (sym (append_assoc pre (y ∷ []) (mid ++ (x ∷ post))))
      ∙ (ih ∙ ap some (append_assoc pre (y ∷ []) (reverse_aux mid (x ∷ post)))) in
    let turned : y ∷ reverse_aux mid (x ∷ post) ≡ reverse_aux (x' ∷ xs) (x ∷ post) =
      sym (reverse_aux-snoc mid (x ∷ post) y) ∙ ap (λ l. reverse_aux l (x ∷ post)) (sym e) in
    rw (swap_loop, one) (moved ∙ ap (λ l. some (pre ++ l)) turned)

NoNul-reverse_aux : (xs acc : List ℕ) → NoNul xs → NoNul acc → NoNul (reverse_aux xs acc)
NoNul-reverse_aux [] acc z z' = z'
NoNul-reverse_aux (x ∷ xs) acc z z' = NoNul-reverse_aux xs (x ∷ acc) z.1 (z.0, z')

c_string-terminated : (s rest : List ℕ) → NoNul s → c_string (s ++ (0 ∷ rest)) ≡ s
unfolding c_string
c_string-terminated [] rest z = refl
c_string-terminated (c ∷ s) rest z = simp (==-ne c 0 z.0, c_string-terminated s rest z.1)

-- The end of a line.
end_line-reverse :
    (i : ℕ) (xs : List ℕ) (d : ℕ) (rest : List ℕ)
    → i ≡ length xs
    → NoNul xs
    → end_line i (xs ++ (d ∷ rest)) ≡ some (reverse xs ++ (0 ∷ rest), reverse xs ++ (b'\n' ∷ []))
unfolding end_line
end_line-reverse i xs d rest e z =
    let back =
      swap_loop-reverse (i / 2) i 0 [] xs (d ∷ rest) refl (omega (arith, e)) (ap (λ n. n / 2) e) in
    let apart = sym (reverse_aux-append xs [] (d ∷ rest)) in
    let ended = set-append (reverse xs) i d 0 rest (omega (arith, e, length-reverse_aux xs [])) in
    rw
      (
        end_line,
        back,
        apart,
        ended,
        c_string-terminated (reverse xs) rest (NoNul-reverse_aux xs [] z tt),
      )
      refl

-- A line: no NUL and no newline in it.
abbrev pub Plain : List ℕ → Type 0
Plain [] = Unit
Plain (c ∷ s) = (c ≢ 0) × (c ≢ b'\n') × Plain s

NoNul-Plain : (s : List ℕ) → Plain s → NoNul s
NoNul-Plain [] p = tt
NoNul-Plain (c ∷ s) p = (p.0, NoNul-Plain s p.2)

-- The lines of a text, each of which fits into the array.
abbrev pub AllFit : List (List ℕ) → Type 0
AllFit [] = Unit
AllFit (l ∷ ls) = Plain l × (length l < max_len) × AllFit ls

abbrev pub text_of : List (List ℕ) → List ℕ
text_of [] = []
text_of (l ∷ ls) = l ++ (b'\n' ∷ text_of ls)

append_nil : (xs ys : List ℕ) → xs ++ ys ≡ (xs ++ []) ++ ys
append_nil [] ys = refl
append_nil (x ∷ xs) ys = ap (λ r. x ∷ r) (append_nil xs ys)

-- The bytes of a line go into the array behind those that are there.
read-Plain :
    (i : ℕ) (xs ys rest s : List ℕ)
    → i ≡ length xs
    → length ys < length rest
    → Plain ys
    → (d : ℕ) × ((rest' : List ℕ) × ((reverse_lines i (xs ++ rest) (ys ++ s)
            ≡ reverse_lines (i + length ys) ((xs ++ ys) ++ (d ∷ rest')) s)
          × (length rest ≡ length ys + (length rest' + 1))))
unfolding reverse_lines
read-Plain i xs ys [] s e room p = absurd (omega (arith, room))
read-Plain i xs [] (d ∷ rest) s e room p = (
  d,
  (
    rest,
    (
      let z : i + 0 ≡ i = omega arith in
          rw z (ap (λ l. reverse_lines i l s) (append_nil xs (d ∷ rest))),
      omega arith,
    ),
  ),
)
read-Plain i xs (y ∷ ys) (d ∷ rest) s e room p =
    let (d', (rest', (ih, size))) =
      read-Plain (i + 1) (xs ++ (y ∷ [])) ys rest s (omega (arith, e, length-append xs (y ∷ [])))
        (omega (arith, room)) p.2 in
    let stored = set-append xs i d y rest e in
    let same : i + 1 + length ys ≡ i + length (y ∷ ys) = omega arith in
    (
      d',
      (
        rest',
        (
          rw (reverse_lines, ==-ne y b'\n' p.1, stored)
              (ap (λ l. reverse_lines (i + 1) l (ys ++ s)) (sym (append_assoc xs (y ∷ []) rest))
                ∙ (ih
                    ∙ (ap (λ n. reverse_lines n (((xs ++ (y ∷ [])) ++ ys) ++ (d' ∷ rest')) s) same
                        ∙ ap (λ l. reverse_lines (i + length (y ∷ ys)) (l ++ (d' ∷ rest')) s)
                            (append_assoc xs (y ∷ []) ys)))),
          omega (arith, size),
        ),
      ),
    )

-- On a text whose lines have no NUL and are shorter than the array, the program stays within the
-- array and prints each line that a newline ends backwards; what stands behind the last newline it
-- does not print.
pub reverse_lines-reverse :
    (line : List ℕ) (ls : List (List ℕ)) (rest : List ℕ)
    → length line ≡ max_len
    → AllFit ls
    → Plain rest
    → length rest < max_len
    → reverse_lines 0 line (text_of ls ++ rest) ≡ some (text_of (map reverse ls))
unfolding reverse_lines
reverse_lines-reverse line [] rest size fit p short =
    let (d, (behind, (read, left))) =
      read-Plain 0 [] rest line [] refl (omega (arith, size, short)) p in
    ap (reverse_lines 0 line) (sym (append-nil rest)) ∙ read
reverse_lines-reverse line (l ∷ ls) rest size fit p short =
    let (d, (behind, (read, left))) =
      read-Plain 0 [] l line (b'\n' ∷ (text_of ls ++ rest)) refl (omega (arith, size, fit.1))
        fit.0 in
    let ended = end_line-reverse (0 + length l) l d behind (omega arith) (NoNul-Plain l fit.0) in
    let ih =
      reverse_lines-reverse (reverse l ++ (0 ∷ behind)) ls rest
        (omega (arith, size, left, length-append (reverse l) (0 ∷ behind), length-reverse_aux l []))
        fit.2 p short in
    ap (reverse_lines 0 line) (append_assoc l (b'\n' ∷ text_of ls) rest)
    ∙ (read
        ∙ rw (reverse_lines, ended, ih)
            (ap some (append_assoc (reverse l) (b'\n' ∷ []) (text_of (map reverse ls)))))
