-- ===== src/Getfile/Tests.antt =====
-- A request for "/a b" and a GF_OK response of 1205 bytes.
use cohere_technology_skillb.Prelude.{ℕ, ◌≡◌, refl, some, none, List, [], ◌∷◌, ◌++◌, arith, reverse}
use cohere_technology_skillb.Getfile.{
  message, check_header, header, read_header, parse_response, gf_ok, gf_error, gf_invalid,
}
use cohere_technology_skillb.Getfile.Text.{has}
use cohere_technology_skillb.Getfile.Response.{received-meaning}

abbrev path : List ℕ
path = b'/' ∷ b'a' ∷ b' ' ∷ b'b' ∷ []

received-meaning_example :
    (parse_response (reverse (read_header 49 [] (header gf_ok 1205 ++ (1 ∷ 2 ∷ []))).0)
      ≡ (gf_ok, some 1205))
    × ((read_header 49 [] (header gf_ok 1205 ++ (1 ∷ 2 ∷ []))).1 ≡ 1 ∷ 2 ∷ [])
received-meaning_example = received-meaning gf_ok 1205 (1 ∷ 2 ∷ []) (omega arith)

-- A path without a slash is not found.
no_slash :
    check_header (message (b'a' ∷ b'b' ∷ []))
    ≡ some (b'f' ∷ b'i' ∷ b'l' ∷ b'e' ∷ b'n' ∷ b'o' ∷ b't' ∷ b'f' ∷ b'o' ∷ b'u' ∷ b'n' ∷ b'd' ∷ [])
unfolding check_header has
no_slash = refl

-- GF_INVALID reaches the client as GF_ERROR.
invalid : parse_response (header gf_invalid 0) ≡ (gf_error, none)
unfolding parse_response header has
invalid = refl
