-- ===== src/Getfile/Request.antt =====
-- The server's checkHeader on the requests that the client writes.
use cohere_technology_skillb.Prelude.{
  ℕ, ◌<◌, ◌≡◌, refl, sym, true, none, Bool-cases, inl, inr, ltb, length, some, List, [], ◌∷◌, ◌++◌,
  arith, drop,
}
use mathlib.Core.Path.{subst}
use cohere_technology_skillb.Getfile.Text.{starts_with, strstr, has, Avoids, Avoids-append}
use cohere_technology_skillb.Getfile.{
  crlf2, slash, get, getfile, check_header, buf_size, message, request,
}

strstr-crlf2 : (s : List ℕ) → Avoids 13 s → strstr crlf2 (s ++ crlf2) ≡ some (s, crlf2)
unfolding strstr
strstr-crlf2 [] a = refl
strstr-crlf2 (c ∷ s) a = ground (arith, strstr-crlf2 s a.1)

-- A request is the message, and with its terminator it fits the buffer.
pub request-some :
    (path m : List ℕ) → request path ≡ some m → (m ≡ message path) × (length m < buf_size)
unfolding request
request-some path m e = elim (Bool-cases (ltb (length (message path)) buf_size)) [
  | inl fits ↦
      let e' : some (message path) ≡ some m = rw fits at e in
      let same : message path ≡ m = cc in
      (sym same, subst (λ x. length x < buf_size) same (ground (arith, fits)))
  | inr long ↦ let e' : none ≡ some m = rw long at e in cc
]

-- Whatever path without a carriage return the client asks for, the server reads that path if it
-- begins with a slash.
pub check_header-message :
    (s : List ℕ) → Avoids 13 s → check_header (message (b'/' ∷ s)) ≡ some (b'/' ∷ s)
unfolding check_header has strstr starts_with
check_header-message s a =
    let line : List ℕ = getfile ++ (b' ' ∷ (get ++ (b' ' ∷ b'/' ∷ s))) in
    let whole : strstr crlf2 (message (b'/' ∷ s)) ≡ some (line, crlf2) =
      strstr-crlf2 line
        (Avoids-append 13 (getfile ++ (b' ' ∷ (get ++ (b' ' ∷ b'/' ∷ [])))) s (omega arith) a) in
    let h₁ : has getfile (message (b'/' ∷ s)) ≡ true = refl in
    let h₂ : has get (drop 7 (message (b'/' ∷ s))) ≡ true = refl in
    let h₃ : has crlf2 (message (b'/' ∷ s)) ≡ true = rw (whole, has) in
    let h₄ : has slash (drop 11 (message (b'/' ∷ s))) ≡ true = refl in
    rw (h₁, h₂, h₃, h₄) (rw whole)
