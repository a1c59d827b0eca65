-- ===== src/Console/Input.antt =====
-- The input of console.c: the stack of open files and readline, which collects a line from the
-- chunks that read delivers. The bytes that are still to come from a file stand in its RIO_ELE.
pub mod Lines
pub mod Ready
pub mod Clean
use cohere_technology_skillb.Prelude.{
  ℕ, zero, suc, ◌+◌, Bool, true, false, ◌||◌, Option, none, some, List, [], ◌∷◌, ◌++◌, ◌==◌,
  if◌then◌else◌,
}

abbrev pub newline : ℕ
newline = 10

-- RIO_BUFSIZE - 2, the most bytes that readline takes.
abbrev pub line_room : ℕ
line_room = 8190

-- RIO_ELE: `buffer` are the unread bytes of the internal buffer, from bufptr on, and `chunks` what
-- the calls of read will deliver. An empty chunk, a failing read and no chunk are the end of file.
pub record Rio : Type 0 where
  pub fd : ℕ
  pub buffer : List ℕ
  pub chunks : List (List ℕ)

abbrev pub rio : ℕ → List ℕ → List (List ℕ) → Rio
rio d b cs = record { fd = d; buffer = b; chunks = cs }

abbrev after_read : ℕ → List (List ℕ) → Option (ℕ × Rio)
after_read d [] = none
after_read d ([] ∷ chunks) = none
after_read d ((c ∷ s) ∷ chunks) = some (c, rio d s chunks)

abbrev next_from : ℕ → List ℕ → List (List ℕ) → Option (ℕ × Rio)
next_from d [] chunks = after_read d chunks
next_from d (c ∷ s) chunks = some (c, rio d s chunks)

-- The next byte of the file, read into the buffer if that is empty.
abbrev pub next_byte : Rio → Option (ℕ × Rio)
next_byte r = next_from r.fd r.buffer r.chunks

-- How the loop of readline ends: at a newline or with no room left, or at the end of the file.
pub data Scan : Type 0 where
  complete : (text : List ℕ) → Rio → Scan
  end_of_file : (text : List ℕ) → Scan

-- `got` are the bytes before; a line that fills the room is given a newline.
pub read_loop : ℕ → List ℕ → Rio → Scan
read_loop zero got r = complete (got ++ (newline ∷ [])) r
read_loop (suc room) got r = elim (next_byte r) [
  | none ↦ end_of_file got
  | some (c, r') ↦
      let rest = read_loop room (got ++ (c ∷ [])) r' in
      if c == newline then complete (got ++ (c ∷ [])) r' else rest
]

-- The stack after pop_file.
pub pop_file : List Rio → List Rio
pop_file [] = []
pop_file (r ∷ stack) = stack

abbrev line_of : Scan → List Rio → Option (List ℕ) × List Rio
line_of (complete text r) stack = (some text, r ∷ stack)
line_of (end_of_file []) stack = (none, stack)
line_of (end_of_file (c ∷ s)) stack = (some ((c ∷ s) ++ (newline ∷ [])), stack)

-- The line, `none` for NULL, and the stack; a file that has ended is popped.
unfoldable pub readline : List Rio → Option (List ℕ) × List Rio
unfolding read_loop
readline [] = (none, [])
readline (r ∷ stack) = line_of (read_loop line_room [] r) stack

has_newline : List ℕ → Bool
has_newline [] = false
has_newline (c ∷ s) = (c == newline) || has_newline s

-- Whether the buffer has a whole line.
unfoldable pub read_ready : List Rio → Bool
unfolding has_newline
read_ready [] = false
read_ready (r ∷ stack) = has_newline r.buffer

-- `open name` is the descriptor and what its file will deliver, `none` for a negative result.
module _ (open_file : List ℕ → Option (ℕ × List (List ℕ))) where
  unfoldable pub push_file : List ℕ → List Rio → Option (List Rio)
  push_file name stack = elim (open_file name) [
    | none ↦ none
    | some (d, chunks) ↦ some (rio d [] chunks ∷ stack)
  ]
