-- ===== src/Getfile/Response.antt =====
-- The client's reading of the headers that the server writes.
use cohere_technology_skillb.Prelude.{
  ◌+◌, ◌-◌, ◌^◌, ◌<◌, ◌≤◌, ℕ, suc, ◌≡◌, refl, sym, ap, ◌∙◌, false, ◌&&◌, Option, some, none, List,
  [], ◌∷◌, ◌++◌, arith, drop, reverse, reverse_aux, length, leb, ◌==◌,
}
use mathlib.Core.List.{append_assoc, reverse-reverse}
use cohere_technology_skillb.Getfile.Text.{
  starts_with, strstr, has, decimal, Avoids, Avoids-append, decimal-Avoids, length-decimal,
  atoi-decimal, strstr-Avoids,
}
use cohere_technology_skillb.Getfile.{
  crlf2, getfile, ok_word, not_found_word, error_word, Status, gf_ok, gf_file_not_found, gf_error,
  gf_invalid, header, read_header, parse_response,
}

-- The client stops behind the first empty line.
read_header-line :
    (s : List ℕ) (room : ℕ) (got body : List ℕ)
    → Avoids 10 s
    → starts_with (10 ∷ 13 ∷ []) got ≡ false
    → read_header (room + (length s + 4)) got (s ++ (crlf2 ++ body))
      ≡ (10 ∷ 13 ∷ 10 ∷ 13 ∷ reverse_aux s got, body)
unfolding read_header starts_with
read_header-line [] room got body a f =
    let four : room + (0 + 4) ≡ suc (suc (suc (suc room))) = omega arith in rw four (rw f)
read_header-line (c ∷ s) room got body a f =
    let more : room + (suc (length s) + 4) ≡ suc (room + (length s + 4)) = omega arith in
    let c10 : (10 == c) ≡ false = ground (arith, a.0) in
    rw more (rw c10 (read_header-line s room (c ∷ got) body a.1 (rw c10)))

reverse_aux-append :
    (s t acc : List ℕ) → reverse_aux (s ++ t) acc ≡ reverse_aux t (reverse_aux s acc)
reverse_aux-append [] t acc = refl
reverse_aux-append (c ∷ s) t acc = reverse_aux-append s t (c ∷ acc)

-- What the client has read, in order, when the server has sent a line and an empty line.
read_header-reverse :
    (s body : List ℕ) (room : ℕ)
    → Avoids 10 s
    → length s + 4 ≤ room
    → (reverse (read_header room [] ((s ++ crlf2) ++ body)).0 ≡ s ++ crlf2)
      × ((read_header room [] ((s ++ crlf2) ++ body)).1 ≡ body)
unfolding starts_with
read_header-reverse s body room a fits =
    let e : room ≡ (room - (length s + 4)) + (length s + 4) = omega arith in
    let r =
      ap (λ k. read_header k [] ((s ++ crlf2) ++ body)) e
      ∙ ap (read_header _ []) (append_assoc s crlf2 body)
      ∙ read_header-line s (room - (length s + 4)) [] body a refl in
    let whole : reverse (s ++ crlf2) ≡ 10 ∷ 13 ∷ 10 ∷ 13 ∷ reverse_aux s [] =
      reverse_aux-append s crlf2 [] in
    (rw r (ap reverse (sym whole) ∙ reverse-reverse (s ++ crlf2)), rw r)

-- What the client is to make of a header with the status.
abbrev pub meaning : Status → ℕ → Status × Option ℕ
meaning gf_ok n = (gf_ok, some n)
meaning gf_file_not_found n = (gf_file_not_found, none)
meaning _ n = (gf_error, none)

line : Status → ℕ → List ℕ
line gf_ok n = getfile ++ (b' ' ∷ (ok_word ++ (b' ' ∷ decimal n)))
line gf_file_not_found n = getfile ++ (b' ' ∷ not_found_word)
line _ n = getfile ++ (b' ' ∷ error_word)

header-line : (st : Status) (n : ℕ) → header st n ≡ line st n ++ crlf2
unfolding header line
header-line gf_ok n = refl
header-line gf_file_not_found n = refl
header-line gf_error n = refl
header-line gf_invalid n = refl

line-Avoids : (st : Status) (n : ℕ) → Avoids 10 (line st n)
unfolding line
line-Avoids gf_ok n =
    Avoids-append 10 (getfile ++ (b' ' ∷ (ok_word ++ (b' ' ∷ [])))) (decimal n) (omega arith)
      (decimal-Avoids 10 n refl)
line-Avoids gf_file_not_found n = omega arith
line-Avoids gf_error n = omega arith
line-Avoids gf_invalid n = omega arith

length-line : (st : Status) (n : ℕ) → n < 10 ^ 30 → length (line st n) ≤ 41
unfolding line
length-line gf_ok n lt = omega (arith, length-decimal 29 n lt)
length-line gf_file_not_found n lt = omega arith
length-line gf_error n lt = omega arith
length-line gf_invalid n lt = omega arith

parse-line : (st : Status) (n : ℕ) → parse_response (line st n ++ crlf2) ≡ meaning st n
unfolding parse_response line has strstr starts_with
parse-line gf_ok n =
    let digits : List ℕ = decimal n ++ crlf2 in
    let avoid : (c : ℕ) → (leb b'0' c && leb c b'9') ≡ false → Avoids c crlf2 → Avoids c digits =
      λ c far a. Avoids-append c (decimal n) crlf2 (decimal-Avoids c n far) a in
    let no_e : strstr error_word digits ≡ none =
      strstr-Avoids b'E' (drop 1 error_word) digits (avoid b'E' refl (omega arith)) in
    let no_f : strstr not_found_word digits ≡ none =
      strstr-Avoids b'F' (drop 1 not_found_word) digits (avoid b'F' refl (omega arith)) in
    let h₁ : has error_word (line gf_ok n ++ crlf2) ≡ false = rw (no_e, has) in
    let h₂ : has not_found_word (line gf_ok n ++ crlf2) ≡ false = rw (no_f, has) in
    rw (h₁, h₂) (ap (λ k. (gf_ok, some k)) (atoi-decimal n 13 _ refl))
parse-line gf_file_not_found n = refl
parse-line gf_error n = refl
parse-line gf_invalid n = refl

-- A header that the server sends for a file length below 2 ^ 31, with whatever data follows, is read
-- by the client up to the data, and gives it the status and, for GF_OK, the file length that the
-- server was given; GF_INVALID is sent as an error.
pub received-meaning :
    (st : Status) (n : ℕ) (body : List ℕ)
    → n < 2 ^ 31
    → (parse_response (reverse (read_header 49 [] (header st n ++ body)).0) ≡ meaning st n)
      × ((read_header 49 [] (header st n ++ body)).1 ≡ body)
received-meaning st n body lt =
    let (read, rest) =
      read_header-reverse (line st n) body 49 (line-Avoids st n)
        (omega (arith, length-line st n (omega arith))) in
    rw (header-line st n) (rw read (parse-line st n), rest)
