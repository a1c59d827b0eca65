-- ===== src/Getfile/Perform.antt =====
-- The client's reception of the data behind a header.
use cohere_technology_skillb.Prelude.{
  ℕ, zero, suc, ◌+◌, ◌^◌, ◌≤◌, ◌<◌, ◌≡◌, refl, sym, ap, ◌∙◌, true, false, Option, some, List, [],
  ◌∷◌, ◌++◌, arith, length, length-append, take, drop, ltb, leb, ◌==◌,
}
use mathlib.Core.List.{append_assoc, append-nil}
use cohere_technology_skillb.Getfile.{
  Status, gf_ok, gf_file_not_found, header, returned_0, receive, receive_loop, gfc_perform,
}
use cohere_technology_skillb.Getfile.Response.{received-meaning}

-- A read of a connection is documented to deliver at least one byte of those that are there.
abbrev pub Arrives : (List ℕ → Option ℕ) → Type 0
Arrives arrive = (c : ℕ) (s : List ℕ) → (n : ℕ) × ((arrive (c ∷ s) ≡ some (suc n)) × (n ≤ length s))

take-drop : (n : ℕ) (s : List ℕ) → take n s ++ drop n s ≡ s
take-drop zero s = refl
take-drop (suc n) [] = refl
take-drop (suc n) (c ∷ s) = ap (λ t. c ∷ t) (take-drop n s)

length-take : (n : ℕ) (s : List ℕ) → n ≤ length s → length (take n s) ≡ n
length-take zero s h = refl
length-take (suc n) [] h = absurd (omega arith)
length-take (suc n) (c ∷ s) h = omega (arith, length-take n s (omega arith))

module _ (arrive : List ℕ → Option ℕ) (arrives : Arrives arrive) where
  receive_loop-whole :
      (k : ℕ) (st : Status) (stream written : List ℕ)
      → length stream < k
      → receive_loop arrive k st (length written + length stream) stream written
        ≡ returned_0 st (written ++ stream)
  unfolding receive_loop
  receive_loop-whole zero st stream written fuel = absurd (omega arith)
  receive_loop-whole (suc k) st [] written fuel =
      let test : ltb (length written) (length written + 0) ≡ false = ground arith in
      rw test (rw append-nil)
  receive_loop-whole (suc k) st (c ∷ s) written fuel =
      let (n, (e, le)) = arrives c s in
      let len = length written + suc (length s) in
      let chunk : List ℕ = c ∷ take n s in
      let taken = length-take n s le in
      let split = take-drop n s in
      let test : ltb (length written) len ≡ true = ground arith in
      let some_bytes : (suc (length (take n s)) == 0) ≡ false = ground arith in
      let fits : leb (suc (length (take n s))) len ≡ true = ground (arith, taken) in
      let both = length-append written chunk in
      let total = length-append (take n s) (drop n s) in
      let same : len ≡ length (written ++ chunk) + length (drop n s) =
        omega (arith, both, total, ap length split) in
      let whole : (written ++ chunk) ++ drop n s ≡ written ++ (c ∷ s) =
        append_assoc written chunk (drop n s) ∙ ap (λ t. written ++ (c ∷ t)) split in
      rw (test, e)
        (rw (some_bytes, fits)
          (ap (λ m. receive_loop arrive k st m (drop n s) (written ++ chunk)) same
            ∙ receive_loop-whole k st (drop n s) (written ++ chunk)
                (omega (arith, total, ap length split))
            ∙ ap (returned_0 st) whole))

  -- Of a GF_OK header with the length of the data behind it, the client makes exactly that data.
  pub gfc_perform-ok :
      (body : List ℕ)
      → length body < 2 ^ 31
      → gfc_perform arrive (header gf_ok (length body) ++ body) ≡ returned_0 gf_ok body
  unfolding gfc_perform receive
  gfc_perform-ok body lt =
      let (parsed, rest) = received-meaning gf_ok (length body) body lt in
      let none_yet : length body ≡ 0 + length body = omega arith in
      rw (parsed, gfc_perform)
        (rw rest (
          ap (λ m. receive_loop arrive (suc (length body)) gf_ok m body []) none_yet
          ∙ receive_loop-whole (suc (length body)) gf_ok body [] (omega arith)))

  pub gfc_perform-missing :
      gfc_perform arrive (header gf_file_not_found 0) ≡ returned_0 gf_file_not_found []
  unfolding gfc_perform receive receive_loop
  gfc_perform-missing =
      let (parsed, _) = received-meaning gf_file_not_found 0 [] (omega arith) in
      ap (gfc_perform arrive) (sym (append-nil (header gf_file_not_found 0)))
      ∙ rw (parsed, gfc_perform)
