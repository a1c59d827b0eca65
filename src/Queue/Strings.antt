-- ===== src/Queue/Strings.antt =====
-- The string functions of the C library that queue.c calls, over lists of bytes; `none` is an
-- access past the end of an array.
use cohere_technology_skillb.Prelude.{
  ℕ, zero, suc, ◌<◌, ◌≡◌, ◌≢◌, refl, Option, none, some, List, [], ◌∷◌, ◌++◌, arith, ◌==◌, ==-ne,
  if◌then◌else◌, length, take, drop,
}
use mathlib.Core.Option

-- strncpy: at most `n` bytes, zeros once the source has ended.
unfoldable pub strncpy : List ℕ → List ℕ → ℕ → Option (List ℕ)
strncpy dst src zero = some dst
strncpy [] src (suc n) = none
strncpy (d ∷ dst) [] (suc n) = none
strncpy (d ∷ dst) (c ∷ src) (suc n) =
    Option.map (λ r. c ∷ r) (strncpy dst (if c == 0 then 0 ∷ [] else src) n)

unfoldable pub set_byte : List ℕ → ℕ → ℕ → Option (List ℕ)
set_byte [] i c = none
set_byte (d ∷ dst) zero c = some (c ∷ dst)
set_byte (d ∷ dst) (suc i) c = Option.map (λ r. d ∷ r) (set_byte dst i c)

-- The string that starts an array: the bytes before the first zero.
unfoldable pub c_string : List ℕ → List ℕ
c_string [] = []
c_string (c ∷ t) = if c == 0 then [] else c ∷ c_string t

-- The bytes of a string are not zero.
abbrev pub NoNul : List ℕ → Type 0
NoNul [] = Unit
NoNul (c ∷ s) = (c ≢ 0) × NoNul s

-- What is copied into a large enough buffer: the first `n` bytes of the string, a terminator, and
-- nothing behind it.
pub record Copied (buf s out : List ℕ) (n : ℕ) : Type 0 where
  pub string : c_string out ≡ take n s
  pub behind : drop (suc n) out ≡ drop (suc n) buf
  pub size : length out ≡ length buf

-- strncpy and the terminator that follows it.
pub strncpy-Copied :
    (n : ℕ) (buf s : List ℕ)
    → NoNul s
    → n < length buf
    → (mid : List ℕ) × (out : List ℕ) × (strncpy buf (s ++ (0 ∷ [])) n ≡ some mid)
      × (set_byte mid n 0 ≡ some out)
      × Copied buf s out n
unfolding strncpy set_byte c_string
strncpy-Copied n [] s z lt = elim lt [ ]
strncpy-Copied zero (d ∷ buf) s z lt =
    (d ∷ buf, 0 ∷ buf, refl, refl, record { string = refl; behind = refl; size = refl })
strncpy-Copied (suc n) (d ∷ buf) [] z lt =
    let (mid, out, e, f, c) = strncpy-Copied n buf [] z (omega arith) in
    (
      0 ∷ mid,
      0 ∷ out,
      rw e,
      rw f,
      record { string = refl; behind = c.behind; size = omega (arith, c.size) },
    )
strncpy-Copied (suc n) (d ∷ buf) (b ∷ s) z lt =
    let (mid, out, e, f, c) = strncpy-Copied n buf s z.1 (omega arith) in
    let b0 = ==-ne b 0 z.0 in
    (
      b ∷ mid,
      b ∷ out,
      rw (b0, e),
      rw f,
      record { string = rw (b0, c.string); behind = c.behind; size = omega (arith, c.size) },
    )
