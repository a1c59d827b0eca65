-- ===== src/Console/Input/Lines.antt =====
-- readline gives back the lines of a file, however read cuts the file into chunks.
use cohere_technology_skillb.Prelude.{
  ℕ, zero, suc, ◌+◌, ◌≤◌, ◌<◌, Bool-cases, inl, inr, ==→eq, ◌≡◌, ◌≢◌, refl, sym, ap, ◌∙◌, false,
  Option, none, some, List, [], ◌∷◌, ◌++◌, arith, ◌==◌, length, length-append,
}
use mathlib.Core.Path.{subst}
use mathlib.Core.List.{append_assoc, append-nil}
use cohere_technology_skillb.Console.Input.{
  newline, line_room, Rio, rio, next_byte, Scan, complete, end_of_file, line_of, read_loop,
  readline,
}

-- Chunks as read delivers them before the end of the file.
abbrev pub AreChunks : List (List ℕ) → Type 0
AreChunks [] = Unit
AreChunks ([] ∷ chunks) = ⊥
AreChunks ((c ∷ s) ∷ chunks) = AreChunks chunks

abbrev pub concat : List (List ℕ) → List ℕ
concat [] = []
concat (s ∷ ss) = s ++ concat ss

-- What a file has still to give.
abbrev pub pending : Rio → List ℕ
pending r = r.buffer ++ concat r.chunks

-- A text with no newline in it.
abbrev pub IsLine : List ℕ → Type 0
IsLine [] = Unit
IsLine (c ∷ s) = (c ≢ newline) × IsLine s

-- The file at `r` has `s` still to give.
abbrev pub Gives : List ℕ → Rio → Type 0
Gives s r = AreChunks r.chunks × (pending r ≡ s)

next_byte-cons :
    (c : ℕ) (s : List ℕ) (r : Rio)
    → Gives (c ∷ s) r
    → (r' : Rio) × ((next_byte r ≡ some (c, r')) × ((r'.fd ≡ r.fd) × Gives s r'))
next_byte-cons c s r g = by r.buffer r.chunks refl refl g.0 g.1
  where
    by :
        (b : List ℕ) (cs : List (List ℕ))
        → r.buffer ≡ b
        → r.chunks ≡ cs
        → AreChunks cs
        → b ++ concat cs ≡ c ∷ s
        → (r' : Rio) × ((next_byte r ≡ some (c, r')) × ((r'.fd ≡ r.fd) × Gives s r'))
    by (d ∷ b) cs eb ecs are e =
        (rio r.fd b cs, (rw (eb, ecs) (ground arith), (refl, (are, ground arith))))
    by [] [] eb ecs are e = absurd (cc)
    by [] ([] ∷ cs) eb ecs are e = absurd are
    by [] ((d ∷ b) ∷ cs) eb ecs are e =
        (rio r.fd b cs, (rw (eb, ecs) (ground arith), (refl, (are, ground arith))))

next_byte-nil : (r : Rio) → Gives [] r → next_byte r ≡ none
next_byte-nil r g = by r.buffer r.chunks refl refl g.0 g.1
  where
    by :
        (b : List ℕ) (cs : List (List ℕ))
        → r.buffer ≡ b
        → r.chunks ≡ cs
        → AreChunks cs
        → b ++ concat cs ≡ []
        → next_byte r ≡ none
    by (d ∷ b) cs eb ecs are e = absurd (cc)
    by [] [] eb ecs are e = rw (eb, ecs)
    by [] ([] ∷ cs) eb ecs are e = absurd are
    by [] ((d ∷ b) ∷ cs) eb ecs are e = absurd (cc)

-- The loop took the bytes `s` and left the file with `t`.
abbrev Takes : List ℕ → List ℕ → Rio → Scan → Type 0
Takes text t r result = (r' : Rio) × ((result ≡ complete text r') × ((r'.fd ≡ r.fd) × Gives t r'))

read_loop-newline :
    (room : ℕ) (got s t : List ℕ) (r : Rio)
    → IsLine s
    → length s < room
    → Gives (s ++ (newline ∷ t)) r
    → Takes (got ++ (s ++ (newline ∷ []))) t r (read_loop room got r)
unfolding read_loop
read_loop-newline zero got s t r is lt g = absurd (omega arith)
read_loop-newline (suc room) got [] t r is lt g =
    let (r', (e, (same, g'))) = next_byte-cons newline t r g in
    (r', (rw (e, read_loop), (same, g')))
read_loop-newline (suc room) got (c ∷ s) t r is lt g =
    let (r₁, (e, (same, g₁))) = next_byte-cons c (s ++ (newline ∷ t)) r g in
    let (r', (e', (same', g'))) =
      read_loop-newline room (got ++ (c ∷ [])) s t r₁ is.1 (omega arith) g₁ in
    let other : (c == newline) ≡ false = ground (arith, is.0) in
    (
      r',
      (
        rw (e, read_loop)
            (rw other
              (e' ∙ ap (λ x. complete x r') (append_assoc got (c ∷ []) (s ++ (newline ∷ []))))),
        (same' ∙ same, g'),
      ),
    )

read_loop-end :
    (room : ℕ) (got s : List ℕ) (r : Rio)
    → IsLine s
    → length s < room
    → Gives s r
    → read_loop room got r ≡ end_of_file (got ++ s)
unfolding read_loop
read_loop-end zero got s r is lt g = absurd (omega arith)
read_loop-end (suc room) got [] r is lt g =
    rw (next_byte-nil r g, read_loop) (ap end_of_file (sym (append-nil got)))
read_loop-end (suc room) got (c ∷ s) r is lt g =
    let (r₁, (e, (same, g₁))) = next_byte-cons c s r g in
    let other : (c == newline) ≡ false = ground (arith, is.0) in
    rw (e, read_loop)
      (rw other (
        read_loop-end room (got ++ (c ∷ [])) s r₁ is.1 (omega arith) g₁
        ∙ ap end_of_file (append_assoc got (c ∷ []) s)))

-- A line that fits, with its newline behind it.
abbrev pub Fits : List ℕ → Type 0
Fits s = IsLine s × (length s < line_room)

abbrev pub AllFit : List (List ℕ) → Type 0
AllFit [] = Unit
AllFit (s ∷ ss) = Fits s × AllFit ss

abbrev pub terminated : List ℕ → List ℕ
terminated s = s ++ (newline ∷ [])

-- The text of a file with the lines `ss` and then `rest`, without a newline.
abbrev pub file_text : List (List ℕ) → List ℕ → List ℕ
file_text [] rest = rest
file_text (s ∷ ss) rest = s ++ (newline ∷ file_text ss rest)

-- What readline is to return for it, and NULL behind that.
abbrev pub file_lines : List (List ℕ) → List ℕ → List (List ℕ)
file_lines [] [] = []
file_lines [] (c ∷ s) = terminated (c ∷ s) ∷ []
file_lines (s ∷ ss) rest = terminated s ∷ file_lines ss rest

-- Calls of readline return the lines one by one, until the file at the top has been popped.
pub data Reads : List Rio → List (List ℕ) → List Rio → Type 0 where
  at_end : {st rest : List Rio} → readline st ≡ (none, rest) → Reads st [] rest
  last : {st rest : List Rio} {s : List ℕ} → readline st ≡ (some s, rest) → Reads st (s ∷ []) rest
  next :
      {st st' rest : List Rio} {s : List ℕ} {ss : List (List ℕ)}
      → readline st ≡ (some s, st')
      → Reads st' ss rest
      → Reads st (s ∷ ss) rest

-- Of a file whose lines have fewer than 8190 bytes, readline returns the lines in order, each with
-- its newline and the last with one where the file has none, and then pops the file; how read cuts
-- the file into chunks makes no difference.
pub readline-file_lines :
    (ss : List (List ℕ)) (rest : List ℕ) (r : Rio) (stack : List Rio)
    → AllFit ss
    → Fits rest
    → Gives (file_text ss rest) r
    → Reads (r ∷ stack) (file_lines ss rest) stack
unfolding readline
readline-file_lines [] [] r stack fits fit g =
    at_end (rw (read_loop-end line_room [] [] r fit.0 fit.1 g, readline))
readline-file_lines [] (c ∷ s) r stack fits fit g =
    last (rw (read_loop-end line_room [] (c ∷ s) r fit.0 fit.1 g, readline))
readline-file_lines (s ∷ ss) rest r stack fits fit g =
    let (r', (e, (same, g'))) =
      read_loop-newline line_room [] s (file_text ss rest) r fits.0.0 fits.0.1 g in
    next (rw (e, readline)) (readline-file_lines ss rest r' stack fits.1 fit g')

-- A text that ends in a newline and, with a terminator, fits the line buffer of 8192 bytes.
abbrev pub IsTerminated : List ℕ → Type 0
IsTerminated s = (length s + 1 ≤ 8192) × ((t : List ℕ) × (s ≡ t ++ (newline ∷ [])))

abbrev Bounded : ℕ → Scan → Type 0
Bounded n (complete s r) = (length s ≤ n) × ((t : List ℕ) × (s ≡ t ++ (newline ∷ [])))
Bounded n (end_of_file s) = length s < n

read_loop-Bounded :
    (room : ℕ) (got : List ℕ) (r : Rio) → Bounded (length got + room + 1) (read_loop room got r)
unfolding read_loop
read_loop-Bounded zero got r = (omega (arith, length-append got (newline ∷ [])), (got, refl))
read_loop-Bounded (suc room) got r =
    by (next_byte r) refl (λ c r'. read_loop-Bounded room (got ++ (c ∷ [])) r')
  where
    by :
        (b : Option (ℕ × Rio))
        → next_byte r ≡ b
        → ((c : ℕ) (r' : Rio)
            → Bounded (length (got ++ (c ∷ [])) + room + 1) (read_loop room (got ++ (c ∷ [])) r'))
        → Bounded (length got + suc room + 1) (read_loop (suc room) got r)
    by none e ih = rw (e, read_loop) (omega arith)
    by (some (c, r')) e ih =
        let len = length-append got (c ∷ []) in
        elim (Bool-cases (c == newline)) [
          | inl is ↦
              rw (e, read_loop)
                (rw is (omega (arith, len), (got, ap (λ x. got ++ (x ∷ [])) (==→eq c newline is))))
          | inr other ↦
              let same : length (got ++ (c ∷ [])) + room + 1 ≡ length got + suc room + 1 =
                omega (arith, len) in
              rw (e, read_loop)
                (rw other
                  (subst (λ n. Bounded n (read_loop room (got ++ (c ∷ [])) r')) same (ih c r')))
        ]

-- Whatever the file delivers, a text that readline returns ends in a newline and fits the line
-- buffer with its terminator.
pub readline-IsTerminated :
    (st st' : List Rio) (s : List ℕ) → readline st ≡ (some s, st') → IsTerminated s
unfolding readline
readline-IsTerminated [] st' s e = absurd (cc)
readline-IsTerminated (r ∷ stack) st' s e =
    by (read_loop line_room [] r) e (read_loop-Bounded line_room [] r)
  where
    by :
        (result : Scan)
        → line_of result stack ≡ (some s, st')
        → Bounded (0 + line_room + 1) result
        → IsTerminated s
    by (complete text r') e b =
        let same : text ≡ s = cc in subst IsTerminated same (omega (arith, b.0), b.1)
    by (end_of_file []) e b = absurd (cc)
    by (end_of_file (c ∷ t)) e b =
        let same : terminated (c ∷ t) ≡ s = cc in
        subst IsTerminated same
          (omega (arith, b, length-append (c ∷ t) (newline ∷ [])), (c ∷ t, refl))
