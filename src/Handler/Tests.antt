-- ===== src/Handler/Tests.antt =====
-- A table of two files, a pread that reads two bytes at a time, and reads of one byte.
use cohere_technology_skillb.Prelude.{
  ℕ, zero, suc, ◌^◌, ◌<◌, ◌≡◌, refl, true, Option, none, some, List, [], ◌∷◌, arith, length, take,
  drop,
}
use cohere_technology_skillb.Content.{Item, item, Offsets, content_get}
use cohere_technology_skillb.Content.Strcmp.{strcmp}
use cohere_technology_skillb.Content.Search.{IsSorted}
use cohere_technology_skillb.Queue.Strings.{c_string}
use cohere_technology_skillb.Getfile.Text.{has}
use cohere_technology_skillb.Getfile.{
  message, request, gfc_perform, check_header, header, gf_file_not_found,
}
use cohere_technology_skillb.Getfile.Perform.{Arrives}
use cohere_technology_skillb.Handler.{
  fault, returned, serve, handler_get, send_loop, gfs_sendheader, gfs_send,
}
use cohere_technology_skillb.Handler.Chunks.{Reads, Accepts}
use cohere_technology_skillb.Handler.Serve.{IsAnswer, serve-request}
use cohere_technology_skillb.Handler.Download.{Downloads, Sends, serve-gfc_perform}

-- "/a" and "/b".
abbrev items : List Item
items = item (b'/' ∷ b'a' ∷ []) 3 ∷ item (b'/' ∷ b'b' ∷ []) 4 ∷ []

abbrev contents : ℕ → List ℕ
contents fd = 1 ∷ 2 ∷ 3 ∷ []

abbrev pread : ℕ → ℕ → ℕ → Option (List ℕ)
pread fd n at = some (take 2 (drop at (contents fd)))

abbrev write : List ℕ → List ℕ → Option ℕ
write sent bytes = some (length bytes)

abbrev arrive : List ℕ → Option ℕ
arrive [] = some 0
arrive (c ∷ s) = some 1

start : Offsets
start fd = 7

items-IsSorted : IsSorted items
unfolding strcmp
items-IsSorted zero zero x y p e f = ground arith
items-IsSorted zero (suc zero) x y p e f = ground arith
items-IsSorted zero (suc (suc j)) x y p e f = cc
items-IsSorted (suc zero) zero x y p e f = absurd (omega arith)
items-IsSorted (suc zero) (suc zero) x y p e f = ground arith
items-IsSorted (suc zero) (suc (suc j)) x y p e f = cc
items-IsSorted (suc (suc i)) j x y p e f = cc

pread-Reads : (fd : ℕ) → Reads pread fd (contents fd)
pread-Reads fd zero h = (1, (2 ∷ [], (refl, record { follows = refl })))
pread-Reads fd (suc zero) h = (2, (3 ∷ [], (refl, record { follows = refl })))
pread-Reads fd (suc (suc zero)) h = (3, ([], (refl, record { follows = refl })))
pread-Reads fd (suc (suc (suc at))) h = absurd (omega arith)

write-Accepts : Accepts write
write-Accepts sent bytes = refl

arrive-Arrives : Arrives arrive
arrive-Arrives c s = (0, (refl, omega arith))

files : (fd : ℕ) → Reads pread fd (contents fd) × (length (contents fd) < 2 ^ 31)
files fd = (pread-Reads fd, omega arith)

asked : request (b'/' ∷ b'b' ∷ []) ≡ some (message (b'/' ∷ b'b' ∷ []))
unfolding request
asked = refl

serve-request_example :
    IsAnswer pread write contents items
      (b'/' ∷ b'b' ∷ [])
      start
      (serve pread write contents items (message (b'/' ∷ b'b' ∷ [])) (some 18) start)
serve-request_example =
    serve-request pread write contents items items-IsSorted write-Accepts pread-Reads (b'b' ∷ [])
      (message (b'/' ∷ b'b' ∷ [])) start (omega arith) (omega arith) asked

serve-gfc_perform_example :
    Sends
      (serve pread write contents items (message (b'/' ∷ b'b' ∷ [])) (some 18) start)
      (λ sent. Downloads contents items (b'/' ∷ b'b' ∷ []) (gfc_perform arrive sent))
serve-gfc_perform_example =
    serve-gfc_perform pread write arrive contents items (b'b' ∷ []) (message (b'/' ∷ b'b' ∷ []))
      start items-IsSorted write-Accepts arrive-Arrives files (omega arith) (omega arith) asked

-- No file can be read: the handler frees the context, and gfserver_serve frees it again.
unreadable :
    serve (λ fd n at. none) write contents items (message (b'/' ∷ b'b' ∷ [])) (some 18) start
    ≡ fault
unfolding serve handler_get send_loop gfs_send gfs_sendheader content_get strcmp check_header has
    c_string
unreadable = refl

-- A request that arrives in pieces is not found.
in_pieces :
    serve pread write contents items (message (b'/' ∷ b'b' ∷ [])) (some 10) start
    ≡ returned (some 26) (header gf_file_not_found 0) start true
unfolding serve handler_get send_loop gfs_send gfs_sendheader content_get strcmp check_header has
    c_string header
in_pieces = refl
